-- ===== src/Events/Names.antt =====
-- service_events.cpp and service_protocol.cpp: the words that the journal uses for each enumerator.
use pokrov_app.Guard.Types.{GuardOperation, GuardStage}
use pokrov_app.Events.Types.{
  EgressErrorDomain, EgressProbeOutcome, EgressProbeStage, EgressProbeTarget, FirstOwnedDnsState,
  LocalDpiStage, ServiceEvent, ServiceEventOutcome,
}
use pokrov_app.Protocol.Types.{Command, Status}
use pokrov_app.Base.{[], bytes_eq, if◌then◌else◌, is_empty, ◌∷◌, List, ℕ, text}
use pokrov_app.Guard.Types.{start_operation, finish_operation}

unfoldable pub event_name : ServiceEvent → List ℕ
event_name ServiceEvent.service_start_pending = text "service_start_pending"
event_name ServiceEvent.service_boot_observed = text "service_boot_observed"
event_name ServiceEvent.service_running = text "service_running"
event_name ServiceEvent.service_stop_requested = text "service_stop_requested"
event_name ServiceEvent.service_shutdown_requested = text "service_shutdown_requested"
event_name ServiceEvent.service_preshutdown_requested = text "service_preshutdown_requested"
event_name ServiceEvent.service_power_suspend = text "service_power_suspend"
event_name ServiceEvent.service_power_resume = text "service_power_resume"
event_name ServiceEvent.service_stopped = text "service_stopped"
event_name ServiceEvent.ipc_session_accepted = text "ipc_session_accepted"
event_name ServiceEvent.ipc_session_rejected = text "ipc_session_rejected"
event_name ServiceEvent.ipc_session_closed = text "ipc_session_closed"
event_name ServiceEvent.runtime_initialize = text "runtime_initialize"
event_name ServiceEvent.runtime_profile_stage = text "runtime_profile_stage"
event_name ServiceEvent.runtime_network_snapshot = text "runtime_network_snapshot"
event_name ServiceEvent.runtime_core_start = text "runtime_core_start"
event_name ServiceEvent.runtime_wintun_start = text "runtime_wintun_start"
event_name ServiceEvent.runtime_adapter_apply = text "runtime_adapter_apply"
event_name ServiceEvent.runtime_route_apply = text "runtime_route_apply"
event_name ServiceEvent.runtime_dns_apply = text "runtime_dns_apply"
event_name ServiceEvent.runtime_egress_verify = text "runtime_egress_verify"
event_name ServiceEvent.runtime_candidate_probe = text "runtime_candidate_probe"
event_name ServiceEvent.runtime_commit = text "runtime_commit"
event_name ServiceEvent.runtime_rollback_begin = text "runtime_rollback_begin"
event_name ServiceEvent.runtime_core_stop = text "runtime_core_stop"
event_name ServiceEvent.runtime_network_restore = text "runtime_network_restore"
event_name ServiceEvent.runtime_rollback_complete = text "runtime_rollback_complete"
event_name ServiceEvent.runtime_recovery_required = text "runtime_recovery_required"

unfoldable pub outcome_name : ServiceEventOutcome → List ℕ
outcome_name ServiceEventOutcome.attempted = text "attempted"
outcome_name ServiceEventOutcome.succeeded = text "succeeded"
outcome_name ServiceEventOutcome.failed = text "failed"
outcome_name ServiceEventOutcome.accepted = text "accepted"
outcome_name ServiceEventOutcome.rejected = text "rejected"

unfoldable pub local_dpi_stage_name : LocalDpiStage → List ℕ
local_dpi_stage_name LocalDpiStage.start = text "start"
local_dpi_stage_name LocalDpiStage.proof = text "proof"
local_dpi_stage_name LocalDpiStage.admit = text "admit"
local_dpi_stage_name LocalDpiStage.runtime = text "runtime"

unfoldable pub guard_stage_name : GuardStage → List ℕ
guard_stage_name GuardStage.engine_open = text "engine_open"
guard_stage_name GuardStage.identity = text "identity"
guard_stage_name GuardStage.read_begin = text "read_begin"
guard_stage_name GuardStage.read_query = text "read_query"
guard_stage_name GuardStage.read_verify = text "read_verify"
guard_stage_name GuardStage.install_begin = text "install_begin"
guard_stage_name GuardStage.install_apply = text "install_apply"
guard_stage_name GuardStage.install_commit = text "install_commit"
guard_stage_name GuardStage.remove_begin = text "remove_begin"
guard_stage_name GuardStage.remove_apply = text "remove_apply"
guard_stage_name GuardStage.remove_commit = text "remove_commit"
guard_stage_name GuardStage.remove_verify = text "remove_verify"

unfoldable pub command_name : Command → List ℕ
command_name Command.hello = text "hello"
command_name Command.status = text "status"
command_name Command.read_transport_network_context = text "status"
command_name Command.read_candidate_network = text "status"
command_name Command.observe_network_context = text "status"
command_name Command.probe_candidate = text "candidate_probe"
command_name Command.cancel_candidate_probe = text "cancel_candidate_probe"
command_name Command.connect = text "connect"
command_name Command.replace_managed_profile = text "connect"
command_name Command.disconnect = text "disconnect"
command_name Command.cancel = text "cancel"
command_name Command.cancel_connect_and_confirm = text "cancel_connect_and_confirm"
command_name Command.recover = text "recover"
command_name Command.diagnostic_state = text "diagnostic_state"
command_name Command.initialize = text "initialize"
command_name Command.stage_profile = text "stage_profile"
command_name Command.stage_bound_profile = text "stage_profile"
command_name Command.invalidate_profile = text "invalidate_profile"
command_name Command.revoke_smart_access_lease = text "revoke_smart_access_lease"
command_name Command.revoke_routing_catalog = text "revoke_routing_catalog"
command_name Command.revoke_routing_catalog_service = text "revoke_routing_catalog_service"
command_name Command.revoke_smart_access_policy = text "revoke_smart_access_policy"
command_name Command.renew_smart_access_lease = text "renew_smart_access_lease"
command_name Command.configure_smart_access_runtime_control =
    text "configure_smart_access_runtime_control"
command_name Command.configure_bound_smart_access_runtime_control =
    text "configure_smart_access_runtime_control"
command_name Command.configure_smart_access_renewal = text "configure_smart_access_renewal"
command_name Command.read_smart_access_restrictions = text "read_smart_access_restrictions"
command_name Command.read_smart_access_leases = text "read_smart_access_leases"
command_name Command.acknowledge_smart_access_restrictions =
    text "acknowledge_smart_access_restrictions"
command_name _ = text "invalid"

unfoldable pub status_name : Status → List ℕ
status_name Status.none_yet = text "none"
status_name Status.ok = text "ok"
status_name Status.invalid = text "invalid"
status_name Status.unauthorized = text "unauthorized"
status_name Status.unsupported = text "unsupported"
status_name Status.not_ready = text "not_ready"
status_name Status.replay = text "replay"
status_name Status.deadline_exceeded = text "deadline_exceeded"
status_name (Status.unnamed n) = text "invalid"

unfoldable pub egress_probe_stage_name : EgressProbeStage → List ℕ
egress_probe_stage_name EgressProbeStage.tun_dns = text "tun_dns"
egress_probe_stage_name EgressProbeStage.dns_setup = text "dns_setup"
egress_probe_stage_name EgressProbeStage.dns_send = text "dns_send"
egress_probe_stage_name EgressProbeStage.dns_wait = text "dns_wait"
egress_probe_stage_name EgressProbeStage.dns_reply = text "dns_reply"
egress_probe_stage_name EgressProbeStage.http_setup = text "http_setup"
egress_probe_stage_name EgressProbeStage.connect = text "connect"
egress_probe_stage_name EgressProbeStage.tls = text "tls"
egress_probe_stage_name EgressProbeStage.sending = text "sending"
egress_probe_stage_name EgressProbeStage.response = text "response"
egress_probe_stage_name EgressProbeStage.proof = text "proof"
egress_probe_stage_name EgressProbeStage.retry_wait = text "retry_wait"

unfoldable pub egress_probe_outcome_name : EgressProbeOutcome → List ℕ
egress_probe_outcome_name EgressProbeOutcome.succeeded = text "succeeded"
egress_probe_outcome_name EgressProbeOutcome.failed = text "failed"
egress_probe_outcome_name EgressProbeOutcome.cancelled = text "cancelled"
egress_probe_outcome_name EgressProbeOutcome.deadline = text "deadline"
egress_probe_outcome_name EgressProbeOutcome.timeout = text "timeout"

unfoldable pub egress_probe_error_domain_name : EgressErrorDomain → List ℕ
egress_probe_error_domain_name EgressErrorDomain.none = text "none"
egress_probe_error_domain_name EgressErrorDomain.win32 = text "win32"
egress_probe_error_domain_name EgressErrorDomain.winsock = text "winsock"
egress_probe_error_domain_name EgressErrorDomain.winhttp = text "winhttp"
egress_probe_error_domain_name EgressErrorDomain.dns = text "dns"
egress_probe_error_domain_name EgressErrorDomain.nt_status = text "ntstatus"
egress_probe_error_domain_name EgressErrorDomain.http_status = text "http_status"

unfoldable pub first_owned_dns_state_name : FirstOwnedDnsState → List ℕ
first_owned_dns_state_name FirstOwnedDnsState.unknown = text "unknown"
first_owned_dns_state_name FirstOwnedDnsState.received = text "received"
first_owned_dns_state_name FirstOwnedDnsState.exchange_failed = text "exchange_failed"
first_owned_dns_state_name FirstOwnedDnsState.reply_failed = text "reply_failed"
first_owned_dns_state_name FirstOwnedDnsState.reply_written = text "reply_written"

unfoldable pub egress_probe_target_name : EgressProbeTarget → List ℕ
egress_probe_target_name EgressProbeTarget.owned_api = text "owned_api"
egress_probe_target_name EgressProbeTarget.owned_reserve = text "owned_reserve"

unfoldable pub guard_operation_name : GuardOperation → List ℕ
guard_operation_name start_operation = text "start"
guard_operation_name finish_operation = text "finish"

-- The codes that the journal passes on.
unfoldable pub local_dpi_failures : List (List ℕ)
local_dpi_failures =
    text "local_dpi_executor_running"
    ∷ text "local_dpi_executor_unavailable"
    ∷ text "local_dpi_scope_invalid"
    ∷ text "local_dpi_interface_unavailable"
    ∷ text "local_dpi_assets_unavailable"
    ∷ text "local_dpi_holder_unavailable"
    ∷ text "local_dpi_child_failed"
    ∷ text "local_dpi_filter_unavailable"
    ∷ text "local_dpi_retry_unavailable"
    ∷ text "local_dpi_control_invalid"
    ∷ text "local_dpi_physical_unavailable"
    ∷ text "local_dpi_control_dns_failed"
    ∷ text "local_dpi_control_connect_failed"
    ∷ text "local_dpi_control_permit_failed"
    ∷ text "local_dpi_physical_changed"
    ∷ text "local_dpi_control_tls_failed"
    ∷ text "local_dpi_control_http_failed"
    ∷ text "local_dpi_owner_changed"
    ∷ text "local_dpi_admission_failed"
    ∷ text "connect_timeout_ipv4"
    ∷ text "connect_timeout_ipv6"
    ∷ text "connect_error_ipv4"
    ∷ text "connect_error_ipv6"
    ∷ text "early_read"
    ∷ text "early_write"
    ∷ []

abbrev pub find_code : List ℕ → List (List ℕ) → List ℕ
find_code failure [] = text "local_dpi_unavailable"
find_code failure (code ∷ codes) = if bytes_eq failure code then code else find_code failure codes

unfoldable pub local_dpi_failure_name : List ℕ → List ℕ
unfolding local_dpi_failures
local_dpi_failure_name failure =
    if is_empty failure then text "none" else find_code failure local_dpi_failures
