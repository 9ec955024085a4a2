-- ===== src/Protocol/Valid.antt =====
-- service_protocol.cpp, `IsValidFrame`: which frames may be sent and received.
use pokrov_app.Base.{
  ℕ, Bool, true, false, List, ◌&&◌, ◌||◌, not, length, leb, ◌==◌, if◌then◌else◌, is_empty, is_some,
  starts_with, text,
}
use pokrov_app.Protocol.Types.{
  Command, Status, FrameKind, Frame, hello_request, request, response, hello, none_yet,
  observe_network_context, probe_candidate, cancel_candidate_probe, promote_transport_lease,
  revoke_transport_lease, connect_with_identity, stage_profile, stage_bound_profile,
  replace_managed_profile, connect, revoke_routing_catalog, acknowledge_smart_access_restrictions,
  read_smart_access_leases, read_smart_access_restrictions, cancel, cancel_connect_and_confirm,
  revoke_smart_access_lease, revoke_smart_access_policy, revoke_routing_catalog_service,
  renew_smart_access_lease, configure_smart_access_runtime_control, configure_smart_access_renewal,
  configure_bound_smart_access_runtime_control, is_zero_identifier, is_known_command,
  is_known_status, max_body_size, max_control_body_size, max_candidate_probe_result_body_size,
  max_runtime_snapshot_body_size, max_restriction_snapshot_body_size,
  max_smart_access_leases_body_size,
}
use pokrov_app.Protocol.Chars.{is_profile_digest, is_bounded_ascii_control, is_bounded_profile}
use pokrov_app.Protocol.Targets.{
  decode_cancellation_target, decode_smart_access_revocation, is_smart_access_policy_revocation,
  is_routing_catalog_service_revocation, is_smart_access_runtime_control,
  is_bound_smart_access_runtime_control,
}
use pokrov_app.Protocol.Leases.{
  decode_transport_lease_promotion, decode_transport_lease_revocation, decode_smart_access_renewal,
}
use pokrov_app.Protocol.Requests.{
  decode_network_observation, decode_candidate_probe, decode_bound_connect,
}

abbrev pub is_hello : Command → Bool
is_hello hello = true
is_hello _ = false

abbrev pub is_none_yet : Status → Bool
is_none_yet none_yet = true
is_none_yet _ = false

-- The chain of conditional expressions on a request's command.
unfoldable pub is_request_body : Command → List ℕ → Bool
is_request_body configure_bound_smart_access_runtime_control body =
    is_bound_smart_access_runtime_control body
is_request_body observe_network_context body = is_some (decode_network_observation body)
is_request_body probe_candidate body = is_some (decode_candidate_probe body)
is_request_body cancel_candidate_probe body = is_some (decode_cancellation_target body)
is_request_body promote_transport_lease body = is_some (decode_transport_lease_promotion body)
is_request_body revoke_transport_lease body = is_some (decode_transport_lease_revocation body)
is_request_body connect_with_identity body = is_some (decode_bound_connect body)
is_request_body stage_profile body = is_bounded_profile body
is_request_body stage_bound_profile body = is_bounded_profile body
is_request_body replace_managed_profile body = is_bounded_profile body
is_request_body connect body = is_profile_digest body
is_request_body revoke_routing_catalog body = is_profile_digest body
is_request_body acknowledge_smart_access_restrictions body = is_profile_digest body
is_request_body read_smart_access_leases body = is_profile_digest body
is_request_body cancel body = is_some (decode_cancellation_target body)
is_request_body cancel_connect_and_confirm body = is_some (decode_cancellation_target body)
is_request_body revoke_smart_access_lease body = is_some (decode_smart_access_revocation body)
is_request_body revoke_smart_access_policy body = is_smart_access_policy_revocation body
is_request_body revoke_routing_catalog_service body = is_routing_catalog_service_revocation body
is_request_body renew_smart_access_lease body = is_some (decode_smart_access_renewal body)
is_request_body configure_smart_access_runtime_control body = is_smart_access_runtime_control body
is_request_body configure_smart_access_renewal body = is_smart_access_runtime_control body
is_request_body _ body = is_empty body

-- The size limit of a response's body.
unfoldable pub response_limit : Command → List ℕ → ℕ
response_limit probe_candidate body = max_candidate_probe_result_body_size
response_limit read_smart_access_leases body = max_smart_access_leases_body_size
response_limit read_smart_access_restrictions body = max_restriction_snapshot_body_size
response_limit _ body =
    if starts_with (text "phase=") body
    then max_runtime_snapshot_body_size
    else max_control_body_size

unfoldable pub is_valid_kind : FrameKind → Frame → Bool
is_valid_kind hello_request frame =
    is_hello frame.command
    && is_none_yet frame.status
    && is_zero_identifier frame.session_token
    && is_zero_identifier frame.operation_nonce
    && (frame.deadline_unix_ms == 0)
    && is_empty frame.body
is_valid_kind request frame =
    not (is_hello frame.command)
    && is_none_yet frame.status
    && not (is_zero_identifier frame.session_token)
    && not (is_zero_identifier frame.operation_nonce)
    && not (frame.deadline_unix_ms == 0)
    && (frame.capabilities == 0)
    && is_request_body frame.command frame.body
is_valid_kind response frame =
    if is_none_yet frame.status
      || is_zero_identifier frame.session_token
      || not (is_zero_identifier frame.operation_nonce)
      || not (frame.deadline_unix_ms == 0)
    then false
    else (is_hello frame.command || (frame.capabilities == 0))
      && is_bounded_ascii_control frame.body (response_limit frame.command frame.body)

unfoldable pub is_valid_frame : Frame → Bool
is_valid_frame frame =
    if not (is_known_command frame.command)
      || not (is_known_status frame.status)
      || is_zero_identifier frame.correlation_id
      || not (leb (length frame.body) max_body_size)
    then false
    else is_valid_kind frame.kind frame
