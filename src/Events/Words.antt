-- ===== src/Events/Words.antt =====
-- Events/Names: every word is short and holds no separator.
use pokrov_app.Guard.Types.{GuardOperation, GuardStage}
use pokrov_app.Events.Names.{
  command_name, egress_probe_error_domain_name, egress_probe_outcome_name, egress_probe_stage_name,
  egress_probe_target_name, event_name, find_code, first_owned_dns_state_name, guard_operation_name,
  guard_stage_name, local_dpi_failure_name, local_dpi_failures, local_dpi_stage_name, outcome_name,
  status_name,
}
use pokrov_app.Events.Types.{
  EgressErrorDomain, EgressProbeOutcome, EgressProbeStage, EgressProbeTarget, FirstOwnedDnsState,
  LocalDpiStage, ServiceEvent, ServiceEventOutcome,
}
use pokrov_app.Protocol.Types.{Command, Status}
use pokrov_app.Base.{
  length, not, Bool, Bool-cases, List, [], all_of, arith, inl, inr, is_empty, leb, refl, true, ◌&&◌,
  ◌==◌, ◌∷◌, ◌≡◌, ℕ,
}
use pokrov_app.Guard.Types.{start_operation, finish_operation}

-- Neither `|`, `;` nor the end of a line, which separate the fields and the lines.
abbrev pub is_plain_char : ℕ → Bool
is_plain_char c = not (c == b'|') && not (c == b';') && not (c == 10)

-- A text without separators, short enough for a field of the journal.
abbrev pub IsWord : List ℕ → Type 0
IsWord s = (all_of is_plain_char s && leb (length s) 41) ≡ true

pub event_name-IsWord : (x : ServiceEvent) → IsWord (event_name x)
unfolding event_name
event_name-IsWord ServiceEvent.service_start_pending = refl
event_name-IsWord ServiceEvent.service_boot_observed = refl
event_name-IsWord ServiceEvent.service_running = refl
event_name-IsWord ServiceEvent.service_stop_requested = refl
event_name-IsWord ServiceEvent.service_shutdown_requested = refl
event_name-IsWord ServiceEvent.service_preshutdown_requested = refl
event_name-IsWord ServiceEvent.service_power_suspend = refl
event_name-IsWord ServiceEvent.service_power_resume = refl
event_name-IsWord ServiceEvent.service_stopped = refl
event_name-IsWord ServiceEvent.ipc_session_accepted = refl
event_name-IsWord ServiceEvent.ipc_session_rejected = refl
event_name-IsWord ServiceEvent.ipc_session_closed = refl
event_name-IsWord ServiceEvent.runtime_initialize = refl
event_name-IsWord ServiceEvent.runtime_profile_stage = refl
event_name-IsWord ServiceEvent.runtime_network_snapshot = refl
event_name-IsWord ServiceEvent.runtime_core_start = refl
event_name-IsWord ServiceEvent.runtime_wintun_start = refl
event_name-IsWord ServiceEvent.runtime_adapter_apply = refl
event_name-IsWord ServiceEvent.runtime_route_apply = refl
event_name-IsWord ServiceEvent.runtime_dns_apply = refl
event_name-IsWord ServiceEvent.runtime_egress_verify = refl
event_name-IsWord ServiceEvent.runtime_candidate_probe = refl
event_name-IsWord ServiceEvent.runtime_commit = refl
event_name-IsWord ServiceEvent.runtime_rollback_begin = refl
event_name-IsWord ServiceEvent.runtime_core_stop = refl
event_name-IsWord ServiceEvent.runtime_network_restore = refl
event_name-IsWord ServiceEvent.runtime_rollback_complete = refl
event_name-IsWord ServiceEvent.runtime_recovery_required = refl

pub outcome_name-IsWord : (x : ServiceEventOutcome) → IsWord (outcome_name x)
unfolding outcome_name
outcome_name-IsWord ServiceEventOutcome.attempted = refl
outcome_name-IsWord ServiceEventOutcome.succeeded = refl
outcome_name-IsWord ServiceEventOutcome.failed = refl
outcome_name-IsWord ServiceEventOutcome.accepted = refl
outcome_name-IsWord ServiceEventOutcome.rejected = refl

pub local_dpi_stage_name-IsWord : (x : LocalDpiStage) → IsWord (local_dpi_stage_name x)
unfolding local_dpi_stage_name
local_dpi_stage_name-IsWord LocalDpiStage.start = refl
local_dpi_stage_name-IsWord LocalDpiStage.proof = refl
local_dpi_stage_name-IsWord LocalDpiStage.admit = refl
local_dpi_stage_name-IsWord LocalDpiStage.runtime = refl

pub guard_stage_name-IsWord : (x : GuardStage) → IsWord (guard_stage_name x)
unfolding guard_stage_name
guard_stage_name-IsWord GuardStage.engine_open = refl
guard_stage_name-IsWord GuardStage.identity = refl
guard_stage_name-IsWord GuardStage.read_begin = refl
guard_stage_name-IsWord GuardStage.read_query = refl
guard_stage_name-IsWord GuardStage.read_verify = refl
guard_stage_name-IsWord GuardStage.install_begin = refl
guard_stage_name-IsWord GuardStage.install_apply = refl
guard_stage_name-IsWord GuardStage.install_commit = refl
guard_stage_name-IsWord GuardStage.remove_begin = refl
guard_stage_name-IsWord GuardStage.remove_apply = refl
guard_stage_name-IsWord GuardStage.remove_commit = refl
guard_stage_name-IsWord GuardStage.remove_verify = refl

pub command_name-IsWord : (x : Command) → IsWord (command_name x)
unfolding command_name
command_name-IsWord Command.hello = refl
command_name-IsWord Command.status = refl
command_name-IsWord Command.read_transport_network_context = refl
command_name-IsWord Command.read_candidate_network = refl
command_name-IsWord Command.observe_network_context = refl
command_name-IsWord Command.probe_candidate = refl
command_name-IsWord Command.cancel_candidate_probe = refl
command_name-IsWord Command.connect = refl
command_name-IsWord Command.replace_managed_profile = refl
command_name-IsWord Command.disconnect = refl
command_name-IsWord Command.cancel = refl
command_name-IsWord Command.cancel_connect_and_confirm = refl
command_name-IsWord Command.recover = refl
command_name-IsWord Command.diagnostic_state = refl
command_name-IsWord Command.initialize = refl
command_name-IsWord Command.stage_profile = refl
command_name-IsWord Command.stage_bound_profile = refl
command_name-IsWord Command.invalidate_profile = refl
command_name-IsWord Command.revoke_smart_access_lease = refl
command_name-IsWord Command.revoke_routing_catalog = refl
command_name-IsWord Command.revoke_routing_catalog_service = refl
command_name-IsWord Command.revoke_smart_access_policy = refl
command_name-IsWord Command.renew_smart_access_lease = refl
command_name-IsWord Command.configure_smart_access_runtime_control = refl
command_name-IsWord Command.configure_bound_smart_access_runtime_control = refl
command_name-IsWord Command.configure_smart_access_renewal = refl
command_name-IsWord Command.read_smart_access_restrictions = refl
command_name-IsWord Command.read_smart_access_leases = refl
command_name-IsWord Command.acknowledge_smart_access_restrictions = refl
command_name-IsWord Command.read_boot_clock = refl
command_name-IsWord Command.connect_with_identity = refl
command_name-IsWord Command.promote_transport_lease = refl
command_name-IsWord Command.revoke_transport_lease = refl
command_name-IsWord (Command.unnamed n) = refl

pub status_name-IsWord : (x : Status) → IsWord (status_name x)
unfolding status_name
status_name-IsWord Status.none_yet = refl
status_name-IsWord Status.ok = refl
status_name-IsWord Status.invalid = refl
status_name-IsWord Status.unauthorized = refl
status_name-IsWord Status.unsupported = refl
status_name-IsWord Status.not_ready = refl
status_name-IsWord Status.replay = refl
status_name-IsWord Status.deadline_exceeded = refl
status_name-IsWord (Status.unnamed n) = refl

pub egress_probe_stage_name-IsWord : (x : EgressProbeStage) → IsWord (egress_probe_stage_name x)
unfolding egress_probe_stage_name
egress_probe_stage_name-IsWord EgressProbeStage.tun_dns = refl
egress_probe_stage_name-IsWord EgressProbeStage.dns_setup = refl
egress_probe_stage_name-IsWord EgressProbeStage.dns_send = refl
egress_probe_stage_name-IsWord EgressProbeStage.dns_wait = refl
egress_probe_stage_name-IsWord EgressProbeStage.dns_reply = refl
egress_probe_stage_name-IsWord EgressProbeStage.http_setup = refl
egress_probe_stage_name-IsWord EgressProbeStage.connect = refl
egress_probe_stage_name-IsWord EgressProbeStage.tls = refl
egress_probe_stage_name-IsWord EgressProbeStage.sending = refl
egress_probe_stage_name-IsWord EgressProbeStage.response = refl
egress_probe_stage_name-IsWord EgressProbeStage.proof = refl
egress_probe_stage_name-IsWord EgressProbeStage.retry_wait = refl

pub egress_probe_outcome_name-IsWord :
    (x : EgressProbeOutcome) → IsWord (egress_probe_outcome_name x)
unfolding egress_probe_outcome_name
egress_probe_outcome_name-IsWord EgressProbeOutcome.succeeded = refl
egress_probe_outcome_name-IsWord EgressProbeOutcome.failed = refl
egress_probe_outcome_name-IsWord EgressProbeOutcome.cancelled = refl
egress_probe_outcome_name-IsWord EgressProbeOutcome.deadline = refl
egress_probe_outcome_name-IsWord EgressProbeOutcome.timeout = refl

pub egress_probe_error_domain_name-IsWord :
    (x : EgressErrorDomain) → IsWord (egress_probe_error_domain_name x)
unfolding egress_probe_error_domain_name
egress_probe_error_domain_name-IsWord EgressErrorDomain.none = refl
egress_probe_error_domain_name-IsWord EgressErrorDomain.win32 = refl
egress_probe_error_domain_name-IsWord EgressErrorDomain.winsock = refl
egress_probe_error_domain_name-IsWord EgressErrorDomain.winhttp = refl
egress_probe_error_domain_name-IsWord EgressErrorDomain.dns = refl
egress_probe_error_domain_name-IsWord EgressErrorDomain.nt_status = refl
egress_probe_error_domain_name-IsWord EgressErrorDomain.http_status = refl

pub first_owned_dns_state_name-IsWord :
    (x : FirstOwnedDnsState) → IsWord (first_owned_dns_state_name x)
unfolding first_owned_dns_state_name
first_owned_dns_state_name-IsWord FirstOwnedDnsState.unknown = refl
first_owned_dns_state_name-IsWord FirstOwnedDnsState.received = refl
first_owned_dns_state_name-IsWord FirstOwnedDnsState.exchange_failed = refl
first_owned_dns_state_name-IsWord FirstOwnedDnsState.reply_failed = refl
first_owned_dns_state_name-IsWord FirstOwnedDnsState.reply_written = refl

pub egress_probe_target_name-IsWord : (x : EgressProbeTarget) → IsWord (egress_probe_target_name x)
unfolding egress_probe_target_name
egress_probe_target_name-IsWord EgressProbeTarget.owned_api = refl
egress_probe_target_name-IsWord EgressProbeTarget.owned_reserve = refl

pub guard_operation_name-IsWord : (x : GuardOperation) → IsWord (guard_operation_name x)
unfolding guard_operation_name
guard_operation_name-IsWord start_operation = refl
guard_operation_name-IsWord finish_operation = refl

pub find_code-IsWord :
    (failure : List ℕ) (codes : List (List ℕ))
    → all_of (λ code. all_of is_plain_char code && leb (length code) 41) codes ≡ true
    → IsWord (find_code failure codes)
find_code-IsWord failure [] h = refl
find_code-IsWord failure (code ∷ codes) h = ground (arith, find_code-IsWord failure codes)

pub local_dpi_failure_name-IsWord : (failure : List ℕ) → IsWord (local_dpi_failure_name failure)
unfolding local_dpi_failure_name local_dpi_failures
local_dpi_failure_name-IsWord failure = elim (Bool-cases (is_empty failure)) [
  | inl e ↦ rw e refl
  | inr n ↦ rw n (find_code-IsWord failure local_dpi_failures refl)
]
