-- ===== src/Events/Types.antt =====
-- service_events.h: the enumerations of the event journal and the records that callers hand over.
use pokrov_app.Base.{Bool, List, Option, ℕ}

pub data ServiceEvent : Type 0 where
  service_start_pending service_boot_observed service_running : ServiceEvent
  service_stop_requested service_shutdown_requested : ServiceEvent
  service_preshutdown_requested service_power_suspend : ServiceEvent
  service_power_resume service_stopped ipc_session_accepted : ServiceEvent
  ipc_session_rejected ipc_session_closed runtime_initialize : ServiceEvent
  runtime_profile_stage runtime_network_snapshot runtime_core_start : ServiceEvent
  runtime_wintun_start runtime_adapter_apply runtime_route_apply : ServiceEvent
  runtime_dns_apply runtime_egress_verify runtime_candidate_probe : ServiceEvent
  runtime_commit runtime_rollback_begin runtime_core_stop : ServiceEvent
  runtime_network_restore runtime_rollback_complete : ServiceEvent
  runtime_recovery_required : ServiceEvent

pub data ServiceEventOutcome : Type 0 where
  attempted succeeded failed accepted rejected : ServiceEventOutcome

pub data EgressProbeStage : Type 0 where
  tun_dns dns_setup dns_send dns_wait dns_reply http_setup connect tls : EgressProbeStage
  sending response proof retry_wait : EgressProbeStage

pub data EgressProbeOutcome : Type 0 where
  succeeded failed cancelled deadline timeout : EgressProbeOutcome

pub data EgressErrorDomain : Type 0 where
  none win32 winsock winhttp dns nt_status http_status : EgressErrorDomain

pub data FirstOwnedDnsState : Type 0 where
  unknown received exchange_failed reply_failed reply_written : FirstOwnedDnsState

pub data EgressProbeTarget : Type 0 where
  owned_api owned_reserve : EgressProbeTarget

pub data LocalDpiStage : Type 0 where
  start proof admit runtime : LocalDpiStage

pub record EgressProbeObservation : Type 0 where
  pub stage : EgressProbeStage
  pub outcome : EgressProbeOutcome
  pub error_domain : EgressErrorDomain
  pub error_code : ℕ
  pub elapsed_ms : ℕ
  pub first_owned_dns_state : FirstOwnedDnsState
  pub target : Option EgressProbeTarget
  pub owner_remaining_ms_at_entry : Option ℕ
  pub dns_a_accepted : Option Bool
  pub http_local_is_tun : Option Bool

-- The numbers are not negative where the core writes them.
pub record CoreOperationalEventRecord : Type 0 where
  pub schema_version : ℕ
  pub event_abi : ℕ
  pub occurred_at_utc : List ℕ
  pub run_id : List ℕ
  pub attempt_id : List ℕ
  pub generation : ℕ
  pub sequence : ℕ
  pub name : List ℕ
  pub subsystem : List ℕ
  pub stage : List ℕ
  pub severity : List ℕ
  pub outcome : List ℕ
  pub error_code : List ℕ
  pub phase : List ℕ
