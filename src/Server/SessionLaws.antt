-- ===== src/Server/SessionLaws.antt =====
-- Server/Session: which requests of a session reach the dispatcher.
use pokrov_app.Events.Lines.{Call}
use pokrov_app.Server.Capabilities.{capability_refusal}
use pokrov_app.Base.{
  bytes_eq_sym, either_branch, ◌==◌, all_of-append, ap, Option-cases, length-append, bytes_eq_refl,
  none, ◌+◌, ◌↔◌, ◌≢◌, &&-left, &&-right, Bool-cases, all_of, arith, bytes_eq, bytes_eq→eq, is_some,
  length, map, not, refl, subst, ◌&&◌, ◌++◌, ◌||◌, ◌≡◌, ◌≤◌, ℕ, List, Bool, true, false, [], ◌∷◌,
  inl, inr,
}
use pokrov_app.Protocol.Types.{FrameKind, kind_code, Frame, Identifier}
use pokrov_app.Server.Session.{
  is_serving, Arrival, on_frame, record_event, respond, serve, session_loop, handle_request,
  run_request, Session, admission, maximum_deadline_lead_ms, refusal, is_used, Config,
}
use pokrov_app.Runtime.Types.{RuntimeResult}

pub is_used-append :
    (used : List Identifier) (last nonce : Identifier)
    → is_used (used ++ last ∷ []) nonce ≡ (is_used used nonce || bytes_eq last nonce)
unfolding is_used
is_used-append [] last nonce = ground arith
is_used-append (x ∷ xs) last nonce = ground (arith, is_used-append xs last nonce)

-- Pairwise different.
unfoldable pub distinct : List Identifier → Bool
distinct [] = true
distinct (x ∷ xs) = not (is_used xs x) && distinct xs

distinct-append :
    (used : List Identifier) (last : Identifier)
    → distinct used ≡ true
    → is_used used last ≡ false
    → distinct (used ++ last ∷ []) ≡ true
unfolding distinct is_used
distinct-append [] last d h = refl
distinct-append (x ∷ xs) last d h =
    ground (arith, distinct-append xs last, is_used-append xs last x, bytes_eq_sym x last)

unfoldable pub nonces : List Frame → List Identifier
nonces frames = map (λ f. f.operation_nonce) frames

nonces-append :
    (frames : List Frame) (f : Frame)
    → nonces (frames ++ f ∷ []) ≡ nonces frames ++ f.operation_nonce ∷ []
unfolding nonces
nonces-append [] f = refl
nonces-append (g ∷ frames) f = ap (◌∷◌ g.operation_nonce) (nonces-append frames f)

-- Of the session, and granted by the capabilities.
unfoldable pub is_granted : Config → Frame → Bool
is_granted config asked =
    bytes_eq asked.session_token config.session_token
    && not (is_some (capability_refusal config.negotiated asked.command))
    && config.has_dispatcher

-- The nonces consumed and the requests executed agree.
pub record IsFaithful (config : Config) (used : List Identifier) (executed : List Frame)
    : Type 0 where
  pub room : length used ≤ config.capacity
  pub once : distinct (nonces executed) ≡ true
  pub consumed : all_of (is_used used) (nonces executed) ≡ true
  pub granted : all_of (is_granted config) executed ≡ true

consumed-more :
    (used : List Identifier) (last : Identifier) (executed : List Identifier)
    → all_of (is_used used) executed ≡ true
    → all_of (is_used (used ++ last ∷ [])) executed ≡ true
consumed-more used last [] h = refl
consumed-more used last (x ∷ xs) h =
    ground (arith, consumed-more used last xs, is_used-append used last x)

consumed-lacks :
    (used : List Identifier) (nonce : Identifier) (executed : List Identifier)
    → all_of (is_used used) executed ≡ true
    → is_used used nonce ≡ false
    → is_used executed nonce ≡ false
unfolding is_used
consumed-lacks used nonce [] h miss = refl
consumed-lacks used nonce (x ∷ xs) h miss = elim (Bool-cases (bytes_eq x nonce)) [
  | inl hit ↦ cc (
    subst (λ y. is_used used y ≡ true) (bytes_eq→eq x nonce hit) (&&-left (is_used used x) _ h),
    miss,
  )
  | inr other ↦ rw other (consumed-lacks used nonce xs (&&-right (is_used used x) _ h) miss)
]

-- What `admission` lets through.
pub record IsAdmitted (config : Config) (used : List Identifier) (now : ℕ) (asked : Frame)
    : Type 0 where
  pub same_session : asked.session_token ≡ config.session_token
  pub in_time : now ≤ asked.deadline_unix_ms
  pub near : asked.deadline_unix_ms ≤ now + maximum_deadline_lead_ms
  pub unused : is_used used asked.operation_nonce ≡ false
  pub fits : length used ≢ config.capacity

admission-IsAdmitted :
    (config : Config) (used : List Identifier) (now : ℕ) (asked : Frame)
    → admission config used now asked ≡ none
    → IsAdmitted config used now asked
unfolding admission
admission-IsAdmitted config used now asked h =
    let token : bytes_eq asked.session_token config.session_token ≡ true = ground arith in
    record {
      same_session = bytes_eq→eq _ _ token;
      in_time = ground arith;
      near = ground arith;
      unused = ground arith;
      fits = ground arith;
    }

IsAdmitted-admission :
    (config : Config) (used : List Identifier) (now : ℕ) (asked : Frame)
    → IsAdmitted config used now asked
    → admission config used now asked ≡ none
unfolding admission
IsAdmitted-admission config used now asked a =
    let token : bytes_eq asked.session_token config.session_token ≡ true =
      rw (a.same_session) (bytes_eq_refl config.session_token) in
    ground (arith, a)

-- The checks ahead of the dispatcher let a request through exactly when it carries the session's
-- token, its deadline is neither past nor more than five minutes ahead, its nonce is unused and a
-- nonce still fits.
pub admission_iff :
    (config : Config) (used : List Identifier) (now : ℕ) (asked : Frame)
    → (admission config used now asked ≡ none) ↔ IsAdmitted config used now asked
admission_iff config used now asked =
    (admission-IsAdmitted config used now asked, IsAdmitted-admission config used now asked)

refusal-granted :
    (config : Config) (asked : Frame)
    → asked.session_token ≡ config.session_token
    → refusal config asked ≡ none
    → is_granted config asked ≡ true
unfolding refusal is_granted
refusal-granted config asked same h =
    let token : bytes_eq asked.session_token config.session_token ≡ true =
      rw same (bytes_eq_refl config.session_token) in
    let owned : config.has_dispatcher ≡ true = ground arith in
    elim (Option-cases (capability_refusal config.negotiated asked.command)) [
      | inl passes ↦ rw (token, owned, passes) refl
      | inr (because, refused) ↦ cc (rw (owned, refused) at h)
    ]

module _ {D : Type 0} (execute : Frame → ℕ → D → D × RuntimeResult) (config : Config) where
  abbrev IsSound : Session D → Type 0
  IsSound s = IsFaithful config s.used_nonces s.executed

  -- A nonce is consumed, whether or not the request goes on.
  IsFaithful-consume :
      {used : List Identifier} {executed : List Frame} (now : ℕ) (asked : Frame)
      → IsAdmitted config used now asked
      → IsFaithful config used executed
      → IsFaithful config (used ++ asked.operation_nonce ∷ []) executed
  IsFaithful-consume {used} {executed} now asked a f = record {
    room = omega (arith, a.fits, f.room, length-append used (asked.operation_nonce ∷ []));
    once = f.once;
    consumed = consumed-more used asked.operation_nonce (nonces executed) f.consumed;
    granted = f.granted;
  }

  IsFaithful-execute :
      {used : List Identifier} {executed : List Frame} (now : ℕ) (asked : Frame)
      → IsAdmitted config used now asked
      → refusal config asked ≡ none
      → IsFaithful config used executed
      → IsFaithful config (used ++ asked.operation_nonce ∷ []) (executed ++ asked ∷ [])
  IsFaithful-execute {used} {executed} now asked a r f =
      let c = IsFaithful-consume now asked a f in
      let nonce : Identifier = asked.operation_nonce in
      record {
        room = c.room;
        once = rw (nonces-append executed asked) (
            distinct-append (nonces executed) nonce f.once
              (consumed-lacks used nonce (nonces executed) f.consumed a.unused));
        consumed =
            rw
              (
                nonces-append executed asked,
                all_of-append (is_used (used ++ nonce ∷ [])) (nonces executed) (nonce ∷ []),
                c.consumed,
                is_used-append used nonce nonce,
                bytes_eq_refl nonce,
              )
              (ground arith);
        granted =
            rw
              (
                all_of-append (is_granted config) executed (asked ∷ []),
                f.granted,
                refusal-granted config asked a.same_session r,
              )
              refl;
      }

  handle_request-IsSound :
      (monotonic now : ℕ) (asked : Frame) (s : Session D)
      → IsSound s
      → IsSound (handle_request execute config monotonic now asked s).0
  unfolding handle_request run_request
  handle_request-IsSound monotonic now asked s f =
      elim (Option-cases (admission config s.used_nonces now asked)) [
        | inr (answer, refused) ↦ rw (handle_request, refused) f
        | inl admitted ↦
            let a = admission-IsAdmitted config s.used_nonces now asked admitted in
            elim (Option-cases (refusal config asked)) [
              | inr (answer, refused) ↦
                  rw (handle_request, admitted, run_request, refused)
                    (IsFaithful-consume now asked a f)
              | inl passes ↦
                  rw (handle_request, admitted, run_request, passes)
                    (IsFaithful-execute now asked a passes f)
            ]
      ]

  record_event-IsSound :
      (call : Call) (s : Session D) → IsSound s → IsSound (record_event config call s)
  unfolding record_event
  record_event-IsSound call s f = either_branch IsSound config.has_events f f

  respond-IsSound :
      (asked : Frame) (written : Bool) (s : Session D) (answer : RuntimeResult)
      → IsSound s
      → IsSound (respond execute config asked written (s, answer))
  unfolding respond
  respond-IsSound asked true s answer f = record_event-IsSound _ s f
  respond-IsSound asked false s answer f = record_event-IsSound _ s f

  on_frame-IsSound :
      (arrival : Arrival) (asked : Frame) (s : Session D)
      → IsSound s
      → IsSound (on_frame execute config arrival asked s)
  unfolding on_frame
  on_frame-IsSound arrival asked s f =
      elim (Bool-cases (not (kind_code asked.kind == kind_code FrameKind.request))) [
        | inl wrong ↦ rw (on_frame, wrong) (record_event-IsSound _ s f)
        | inr right ↦
            rw (on_frame, right)
              (respond-IsSound asked arrival.written _ _ (
                handle_request-IsSound arrival.monotonic_now arrival.now asked _
                  (record_event-IsSound _ s f)))
      ]

  serve-IsSound :
      (arrival : Arrival) (s : Session D) → IsSound s → IsSound (serve execute config arrival s)
  unfolding serve
  serve-IsSound arrival s f = elim (Bool-cases arrival.stop) [
    | inl stop ↦ rw (serve, stop) f
    | inr goes ↦ elim (Option-cases arrival.read) [
      | inl gone ↦ rw (serve, goes, gone) f
      | inr (asked, came) ↦ rw (serve, goes, came) (on_frame-IsSound arrival asked s f)
    ]
  ]

  -- However its frames arrive, a session consumes at most as many nonces as it reserved room for; the
  -- requests that it executes carry pairwise different nonces, all of them consumed, its own token,
  -- and commands that the negotiated capabilities grant.
  pub session_loop-IsSound :
      (arrivals : List Arrival) (s : Session D)
      → IsFaithful config s.used_nonces s.executed
      → IsFaithful config
          (session_loop execute config arrivals s).used_nonces
          (session_loop execute config arrivals s).executed
  unfolding session_loop
  session_loop-IsSound [] s f = f
  session_loop-IsSound (arrival ∷ arrivals) s f = elim (Bool-cases (is_serving s.ending)) [
    | inr ended ↦ rw (session_loop, ended) f
    | inl goes ↦
        rw (session_loop, goes)
          (session_loop-IsSound arrivals (serve execute config arrival s)
            (serve-IsSound arrival s f))
  ]
