-- ===== src/Server/Greeting.antt =====
-- service_server.cpp, the part of `ProcessClient` ahead of its loop: the caller, the hello, the
-- session's token and the capabilities of both sides.
use pokrov_app.Server.Capabilities.{bit_and, is_compatible, service_capabilities}
use pokrov_app.Base.{
  if◌then◌else◌, not, text, ◌++◌, ◌==◌, ◌||◌, ℕ, List, Option, Bool, some, none, [], ◌∷◌,
}
use pokrov_app.Protocol.Types.{is, kind_code, Command, FrameKind, Status, Frame, Identifier}
use pokrov_app.Events.Lines.{Call}
use pokrov_app.Events.Types.{ServiceEvent, ServiceEventOutcome}
use pokrov_app.Runtime.Types.{RuntimeResult}
use pokrov_app.Server.Session.{
  Arrival, Config, Session, record_event, response_for, session_loop, serving, unwritten, rejected,
  incompatible, unidentified,
}

-- The first frame read, whether the caller is the owner, the token
-- that `GenerateIdentifier` made, and whether the response to the hello went out.
pub record Greeting : Type 0 where
  pub hello : Option Frame
  pub authorized : Bool
  pub session_token : Option Identifier
  pub written : Bool

unfoldable pub config_for : Bool → Bool → ℕ → Identifier → Frame → Config
config_for has_dispatcher has_events capacity session_token hello = record {
  session_token = session_token;
  negotiated = bit_and hello.capabilities service_capabilities;
  has_dispatcher = has_dispatcher;
  has_events = has_events;
  capacity = capacity;
}

unfoldable pub hello_response : Frame → Identifier → Frame
hello_response hello session_token =
    if is_compatible hello.capabilities
    then response_for hello Status.ok session_token (text "service_protocol_v1")
    else response_for hello Status.unsupported session_token (text "unsupported_capabilities")

unfoldable pub accept : {D : Type 0} → Config → Frame → Session D → Session D
accept config hello s =
    record_event config (Call.records_ipc_request hello.command hello.correlation_id) (
      record_event config
        (Call.records ServiceEvent.ipc_session_accepted ServiceEventOutcome.accepted) s)

unfoldable pub fresh_session : {D : Type 0} → D → Session D
fresh_session d = record {
  used_nonces = [];
  dispatcher = d;
  recorded = [];
  executed = [];
  responses = [];
  ending = serving;
}

unfoldable pub reject : {D : Type 0} → Bool → D → Session D
reject has_events d = record (fresh_session d) {
  recorded =
      if has_events
      then Call.records ServiceEvent.ipc_session_rejected ServiceEventOutcome.rejected ∷ []
      else [];
  ending = rejected;
}

-- `execute` is the dispatcher's `Execute`.
module _ {D : Type 0} (execute : Frame → ℕ → D → D × RuntimeResult) where
  -- An accepted hello: it is answered, and the loop runs if the peer is compatible.
  unfoldable pub welcome : Config → Frame → Bool → List Arrival → Session D → Session D
  welcome config hello written arrivals s =
      let response = hello_response hello config.session_token in
      let s1 =
        record_event config
          (Call.records_ipc_response hello.command response.status hello.correlation_id) s in
      if not written
      then record s1 { ending = unwritten }
      else let s2 = record s1 { responses = s1.responses ++ response ∷ [] } in
        if not (is_compatible hello.capabilities)
        then record s2 { ending = incompatible }
        else session_loop execute config arrivals s2

  unfoldable pub process_client : Bool → Bool → ℕ → Greeting → List Arrival → D → Session D
  process_client has_dispatcher has_events capacity greeting arrivals d =
      if not greeting.authorized then reject has_events d else elim (greeting.hello) [
        | none ↦ reject has_events d
        | some hello ↦
            if not (kind_code hello.kind == kind_code FrameKind.hello_request)
              || not (is hello.command Command.hello)
            then reject has_events d
            else elim (greeting.session_token) [
              | none ↦
                  record (accept (config_for has_dispatcher has_events capacity [] hello) hello
                    (fresh_session d)) { ending = unidentified }
              | some session_token ↦
                  let config = config_for has_dispatcher has_events capacity session_token hello in
                  welcome config hello greeting.written arrivals
                    (accept config hello (fresh_session d))
            ]
      ]
