-- ===== src/Server/Session.antt =====
-- service_server.cpp: `ResponseFor` and `ProcessClient`. The bytes of a frame come and go as in
-- Server/Transfer; here a read is the frame it gave, and a write is whether it succeeded.
use pokrov_app.Server.Compatibility.{downgrade}
use pokrov_app.Base.{
  bytes_eq, if◌then◌else◌, length, ltb, not, replicate, text, ◌%◌, ◌*◌, ◌++◌, ◌+◌, ◌-◌, ◌==◌, ◌^◌,
  ◌||◌, ℕ, List, Option, Bool, true, false, some, none, [], ◌∷◌,
}
use pokrov_app.Protocol.Types.{is, kind_code, Command, FrameKind, Status, Frame, Identifier}
use pokrov_app.Events.Lines.{Call}
use pokrov_app.Events.Types.{ServiceEvent, ServiceEventOutcome}
use pokrov_app.Runtime.Types.{RuntimeResult, result}
use pokrov_app.Server.Capabilities.{service_capabilities, capability_refusal}

abbrev pub maximum_deadline_lead_ms : ℕ
maximum_deadline_lead_ms = 5 * 60 * 1000

unfoldable pub response_for : Frame → Status → Identifier → List ℕ → Frame
response_for asked status session_token body = record {
  kind = FrameKind.response;
  command = asked.command;
  status = status;
  correlation_id = asked.correlation_id;
  session_token = session_token;
  operation_nonce = replicate 16 0;
  deadline_unix_ms = 0;
  capabilities = if is asked.command Command.hello then service_capabilities else 0;
  body = body;
}

-- What stays fixed in a session: the token made, the capabilities of both sides, whether there is a
-- dispatcher and an event journal, and the capacity of the nonces after `reserve(256)`.
pub record Config : Type 0 where
  pub session_token : Identifier
  pub negotiated : ℕ
  pub has_dispatcher : Bool
  pub has_events : Bool
  pub capacity : ℕ

-- One round of the loop: whether the stop event is set, the frame read, the two clocks, and whether
-- the response went out.
pub record Arrival : Type 0 where
  pub stop : Bool
  pub read : Option Frame
  pub monotonic_now : ℕ
  pub now : ℕ
  pub written : Bool

-- How the loop ended: by the stop event, the end of the stream, a frame that is no request, or a
-- write that failed. A session may also fail ahead of the loop, for want of a token or of a
-- capability. `serving` is one that has not ended.
pub data Ending : Type 0 where
  serving stopped closed rejected unwritten unidentified incompatible : Ending

-- The value that `ProcessClient` returns.
unfoldable pub session_returns : Ending → Bool
session_returns serving = true
session_returns stopped = true
session_returns closed = true
session_returns rejected = false
session_returns unwritten = false
session_returns unidentified = false
session_returns incompatible = false

abbrev pub is_serving : Ending → Bool
is_serving serving = true
is_serving _ = false

-- `find(used_nonces.begin(), used_nonces.end(), nonce) != end`.
unfoldable pub is_used : List Identifier → Identifier → Bool
is_used [] nonce = false
is_used (used ∷ rest) nonce = bytes_eq used nonce || is_used rest nonce

-- The checks ahead of the dispatcher, in order, with what they answer.
unfoldable pub admission : Config → List Identifier → ℕ → Frame → Option RuntimeResult
admission config used now asked =
    if not (bytes_eq asked.session_token config.session_token)
    then some (result Status.unauthorized (text "session_mismatch"))
    else if ltb asked.deadline_unix_ms now
    then some (result Status.deadline_exceeded (text "deadline_exceeded"))
    else if ltb maximum_deadline_lead_ms (asked.deadline_unix_ms - now)
    then some (result Status.invalid (text "deadline_too_far"))
    else if is_used used asked.operation_nonce
    then some (result Status.replay (text "operation_replay"))
    else if length used == config.capacity
    then some (result Status.not_ready (text "session_nonce_capacity"))
    else none

-- The checks behind it, for a request whose nonce is consumed.
unfoldable pub refusal : Config → Frame → Option RuntimeResult
refusal config asked =
    if not config.has_dispatcher
    then some (result Status.not_ready (text "runtime_not_owned"))
    else elim (capability_refusal config.negotiated asked.command) [
      | none ↦ none
      | some because ↦ some (result Status.unsupported because)
    ]

-- The request's deadline on the monotonic clock.
unfoldable pub monotonic_deadline : ℕ → ℕ → Frame → ℕ
monotonic_deadline monotonic_now now asked =
    (monotonic_now + asked.deadline_unix_ms + 2 ^ 64 - now) % 2 ^ 64

-- `D` is the dispatcher. `executed` are the requests given to it and `responses` the frames written,
-- in order.
pub record Session (D : Type 0) : Type 0 where
  pub used_nonces : List Identifier
  pub dispatcher : D
  pub recorded : List Call
  pub executed : List Frame
  pub responses : List Frame
  pub ending : Ending

unfoldable pub record_event : {D : Type 0} → Config → Call → Session D → Session D
record_event config call s =
    if config.has_events then record s { recorded = s.recorded ++ call ∷ [] } else s

-- `execute` is the dispatcher's `Execute`.
module _ {D : Type 0} (execute : Frame → ℕ → D → D × RuntimeResult) where
  unfoldable pub run_request : Config → ℕ → ℕ → Frame → Session D → Session D × RuntimeResult
  run_request config monotonic_now now asked s = elim (refusal config asked) [
    | some refused ↦ (s, refused)
    | none ↦
        let (d, answer) = execute asked (monotonic_deadline monotonic_now now asked) s.dispatcher in
        (record s { dispatcher = d; executed = s.executed ++ asked ∷ [] }, answer)
  ]

  unfoldable pub handle_request : Config → ℕ → ℕ → Frame → Session D → Session D × RuntimeResult
  handle_request config monotonic_now now asked s =
      elim (admission config s.used_nonces now asked) [
        | some refused ↦ (s, refused)
        | none ↦
            run_request config monotonic_now now asked
              (record s { used_nonces = s.used_nonces ++ asked.operation_nonce ∷ [] })
      ]

  -- The response, with the body that this peer can read, is recorded and written.
  unfoldable pub respond : Config → Frame → Bool → Session D × RuntimeResult → Session D
  respond config asked written (s, answer) =
      let response =
        response_for asked answer.status config.session_token
          (downgrade config.negotiated answer.body) in
      let s1 =
        record_event config
          (Call.records_ipc_response asked.command answer.status asked.correlation_id) s in
      if written
      then record s1 { responses = s1.responses ++ response ∷ [] }
      else record s1 { ending = unwritten }

  unfoldable pub on_frame : Config → Arrival → Frame → Session D → Session D
  on_frame config arrival asked s =
      if not (kind_code asked.kind == kind_code FrameKind.request)
      then record (record_event config
          (Call.records ServiceEvent.ipc_session_rejected ServiceEventOutcome.rejected) s) {
            ending = rejected;
          }
      else let s1 =
          record_event config (Call.records_ipc_request asked.command asked.correlation_id) s in
        respond config asked arrival.written
          (handle_request config arrival.monotonic_now arrival.now asked s1)

  -- A round of the loop, in a session that has not ended.
  unfoldable pub serve : Config → Arrival → Session D → Session D
  serve config arrival s =
      if arrival.stop then record s { ending = stopped } else elim (arrival.read) [
        | none ↦ record s { ending = closed }
        | some asked ↦ on_frame config arrival asked s
      ]

  unfoldable pub session_loop : Config → List Arrival → Session D → Session D
  session_loop config [] s = s
  session_loop config (arrival ∷ arrivals) s =
      let rest = session_loop config arrivals (serve config arrival s) in
      if is_serving s.ending then rest else s
