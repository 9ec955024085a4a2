-- ===== src/Protocol/RequestLaws/Observation.antt =====
-- Protocol/Requests: the network observation.
use pokrov_app.Protocol.Chars.{is_digit, is_lower, is_upper}
use pokrov_app.Base.{
  >>=-eq-some, unless-eq-some, [], ap, bytes_eq_refl, cut, cut-append, le→ltb_false, refl, some,
  sym, ◌++◌, ◌+◌, ◌∙◌, ◌∷◌, &&-right, bytes_eq→eq, inl, inr, leb, leb→le, all_of-lacks, Bool-cases,
  &&-left, ◌≤◌, false, ◌||◌, ◌⊎◌, contains, bytes_eq, length, text, ℕ, ◌≡◌, true, List, arith,
}
use pokrov_app.Protocol.RequestLaws.Fields.{confirm-eq-some}
use pokrov_app.Protocol.Requests.{
  NetworkObservationRequest, is_network_observation, observation_body, encode_network_observation,
  decode_network_observation, safe, is_report_run_id,
}

record IsObservation (r : NetworkObservationRequest) : Type 0 where
  host : (r.host ≡ text "api.pokrov.space") ⊎ (r.host ≡ text "app.pokrov.space")
  token : safe r.session_token 8192 (text ".-_") ≡ true
  version : safe r.app_version 32 (text ".+-") ≡ true
  revision : safe r.profile_revision 128 (text " .()+'-_") ≡ true
  phase : safe r.runtime_phase 32 (text "-_") ≡ true
  run_id : length r.report_run_id ≡ 36

length-report_run_id : (s : List ℕ) → is_report_run_id s ≡ true → length s ≡ 36
unfolding is_report_run_id
length-report_run_id s h = ground arith

host-cases :
    (s : List ℕ)
    → (bytes_eq s (text "api.pokrov.space") || bytes_eq s (text "app.pokrov.space")) ≡ true
    → (s ≡ text "api.pokrov.space") ⊎ (s ≡ text "app.pokrov.space")
host-cases s h = elim (Bool-cases (bytes_eq s (text "api.pokrov.space"))) [
  | inl api ↦ inl (bytes_eq→eq s _ api)
  | inr other ↦ inr (bytes_eq→eq s _ (rw other at h))
]

is_network_observation-IsObservation :
    (r : NetworkObservationRequest) → is_network_observation r ≡ true → IsObservation r
unfolding is_network_observation
is_network_observation-IsObservation r h =
    ground (arith, host-cases r.host, length-report_run_id r.report_run_id)

safe-lacks :
    (s : List ℕ) (limit : ℕ) (extra : List ℕ)
    → safe s limit extra ≡ true
    → contains 10 extra ≡ false
    → contains 10 s ≡ false
unfolding safe
safe-lacks s limit extra h x =
    all_of-lacks (λ c. is_lower c || is_upper c || is_digit c || contains c extra) 10 s x
      (&&-right (leb (length s) limit) _ h)

length-safe-le :
    (s : List ℕ) (limit : ℕ) (extra : List ℕ) → safe s limit extra ≡ true → length s ≤ limit
unfolding safe
length-safe-le s limit extra h = leb→le (length s) limit (&&-left _ _ h)

length-join : (xs ys : List ℕ) → length (xs ++ 10 ∷ ys) ≡ length xs + 1 + length ys
length-join [] ys = omega arith
length-join (x ∷ xs) ys = omega (arith, length-join xs ys)

module _ (r : NetworkObservationRequest) (v : IsObservation r) where
  abbrev from_phase : List ℕ
  from_phase = r.runtime_phase ++ 10 ∷ r.report_run_id

  abbrev from_revision : List ℕ
  from_revision = r.profile_revision ++ 10 ∷ from_phase

  abbrev from_version : List ℕ
  from_version = r.app_version ++ 10 ∷ from_revision

  abbrev from_token : List ℕ
  from_token = r.session_token ++ 10 ∷ from_version

  length-host : length r.host ≡ 16
  length-host = elim v.host [ inl api ↦ ap length api | inr app ↦ ap length app ]

  host-lacks : contains 10 r.host ≡ false
  host-lacks = elim v.host [ inl api ↦ ap (contains 10) api | inr app ↦ ap (contains 10) app ]

  length-observation_body-le : length (observation_body r) ≤ 8704
  length-observation_body-le = omega (
    arith,
    v,
    length-host,
    length-join r.host from_token,
    length-join r.session_token from_version,
    length-join r.app_version from_revision,
    length-join r.profile_revision from_phase,
    length-join r.runtime_phase r.report_run_id,
    length-safe-le r.session_token 8192 (text ".-_") v.token,
    length-safe-le r.app_version 32 (text ".+-") v.version,
    length-safe-le r.profile_revision 128 (text " .()+'-_") v.revision,
    length-safe-le r.runtime_phase 32 (text "-_") v.phase,
  )

  decode-observation_body :
      is_network_observation r ≡ true → decode_network_observation (observation_body r) ≡ some r
  unfolding decode_network_observation encode_network_observation
  decode-observation_body h = rw (
    le→ltb_false (length (observation_body r)) 8704 length-observation_body-le,
    cut-append 10 r.host from_token host-lacks,
    cut-append 10 r.session_token from_version
        (safe-lacks r.session_token 8192 (text ".-_") v.token refl),
    cut-append 10 r.app_version from_revision
        (safe-lacks r.app_version 32 (text ".+-") v.version refl),
    cut-append 10 r.profile_revision from_phase
        (safe-lacks r.profile_revision 128 (text " .()+'-_") v.revision refl),
    cut-append 10 r.runtime_phase r.report_run_id
        (safe-lacks r.runtime_phase 32 (text "-_") v.phase refl),
    h,
    bytes_eq_refl (observation_body r),
  )

pub decode-encode_network_observation :
    (r : NetworkObservationRequest)
    → is_network_observation r ≡ true
    → decode_network_observation (encode_network_observation r) ≡ some r
unfolding encode_network_observation
decode-encode_network_observation r h =
    rw h (decode-observation_body r (is_network_observation-IsObservation r h) h)

encode-decode_network_observation :
    (body : List ℕ) (r : NetworkObservationRequest)
    → decode_network_observation body ≡ some r
    → encode_network_observation r ≡ body
unfolding decode_network_observation
encode-decode_network_observation body r h =
    let (f1, c1, h1) = >>=-eq-some (cut 10 body) _ (unless-eq-some _ _ h).1 in
    let (f2, c2, h2) = >>=-eq-some (cut 10 f1.1) _ h1 in
    let (f3, c3, h3) = >>=-eq-some (cut 10 f2.1) _ h2 in
    let (f4, c4, h4) = >>=-eq-some (cut 10 f3.1) _ h3 in
    let (f5, c5, h5) = >>=-eq-some (cut 10 f4.1) _ h4 in
    let (same, e) = confirm-eq-some encode_network_observation body _ r h5 in
    ap encode_network_observation (sym same) ∙ e

-- A valid observation request is decoded from its encoding, and every accepted body is the encoding
-- of the request that it gives.
pub network_observation_round_trip :
    (t : NetworkObservationRequest) (body : List ℕ) (u : NetworkObservationRequest)
    → is_network_observation t ≡ true
    → decode_network_observation body ≡ some u
    → (decode_network_observation (encode_network_observation t) ≡ some t)
      × (encode_network_observation u ≡ body)
network_observation_round_trip t body u valid read =
    (decode-encode_network_observation t valid, encode-decode_network_observation body u read)
