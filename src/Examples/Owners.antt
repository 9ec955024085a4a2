-- ===== src/Examples/Owners.antt =====
-- The operations of service_dispatcher.cpp.
use pokrov_app.Protocol.Targets.{decode_cancellation_target}
use pokrov_app.Protocol.Chars.{is_profile_digest}
use pokrov_app.Dispatcher.SettleLaws.{cancel-finish_connect}
use pokrov_app.Dispatcher.OwnerLaws.{reports, interrupt_all, interrupt_all-first}
use pokrov_app.Events.Lines.{is_ok}
use pokrov_app.Dispatcher.ProbeLaws.{IsRegistry, probe_run-IsRegistry, separate}
use pokrov_app.Base.{
  pair_bytes, replicate, suc, text, ◌≡◌, ℕ, List, true, false, some, none, [], ◌∷◌, refl, arith,
}
use pokrov_app.Protocol.Types.{is_zero_identifier, Status, CancellationTarget}
use pokrov_app.Protocol.Requests.{BoundConnectTarget}
use pokrov_app.Runtime.Types.{result}
use pokrov_app.Dispatcher.Types.{
  interrupt, must_stop, same_target, ActiveConnect, Dispatcher, Interruption,
}
use pokrov_app.Dispatcher.Observing.{Facts}
use pokrov_app.Dispatcher.Settling.{
  cancel, cancel_operation, cancel_target, finish_connect, is_active_target, on_active, Host,
}
use pokrov_app.Dispatcher.Probes.{probe_run, ActiveProbe, ProbeAction}

abbrev owner : CancellationTarget
owner = record { session_token = replicate 16 1; operation_nonce = replicate 16 2 }

abbrev owner_text : List ℕ
owner_text = text "0101010101010101010101010101010102020202020202020202020202020202"

abbrev bound_target : BoundConnectTarget
bound_target = record {
  core_module_sha256 = [];
  profile_digest = [];
  boot_ref = [];
  started_elapsed_ms = 0;
  deadline_elapsed_ms = 1;
  network_context_ref = [];
}

abbrev operation : ActiveConnect
operation = record {
  number = 1;
  target = owner;
  interruption = Interruption.not_interrupted;
  cancelled = false;
  deadline_expired = false;
  bound = some bound_target;
  requires_transport_lease = false;
  ordinary_control_handoff = false;
  promoted_until_elapsed_ms = 0;
  transport_terminated = false;
  promoted_lease_ref = [];
  network_revision = some 7;
  stopping_snapshot = record { status = Status.ok; body = text "phase=busy;failure=none" };
  cleanup_attempted = false;
  protected_handoff = false;
  local_dpi_owner = false;
  local_dpi_cancelled = false;
  local_dpi_maintenance_active = false;
  telegram_ws_owner = false;
  telegram_ws_network_revision = none;
  telegram_ws_cancelled = false;
}

abbrev busy : Dispatcher
busy = record {
  snapshot = record { status = Status.ok; body = text "phase=connecting" };
  active_connect = some operation;
  stopped_connect = none;
}

abbrev well : Facts
well = record {
  client_runs = true;
  network_current = true;
  telegram_network_current = true;
  deadline_current = true;
  lease_current = true;
  stopping = false;
  still_active = true;
  request_expired = false;
}

-- A runtime that counts its disconnects.
abbrev counting_host : Host ℕ
counting_host = record {
  disconnect = λ n. (suc n, record { status = Status.ok; body = text "phase=config_staged" });
  cancel_protected_handoff =
      λ n. (suc n, record { status = Status.ok; body = text "phase=config_staged" });
  snapshot_of = λ n. record { status = Status.ok; body = text "phase=config_staged" };
  has_local_dpi = λ n. false;
  has_telegram = λ n. false;
}

interrupt_all-first_example :
    (must_stop (interrupt_all (Interruption.network_changed ∷ Interruption.deadline ∷ []) operation)
      ≡ true)
    × ((interrupt Interruption.network_changed operation).interruption
        ≡ Interruption.network_changed)
    × (reports (interrupt_all (Interruption.network_changed ∷ Interruption.deadline ∷ []) operation)
        ≡ reports (interrupt Interruption.network_changed operation))
interrupt_all-first_example =
    interrupt_all-first Interruption.network_changed (Interruption.deadline ∷ []) operation refl
      refl

abbrev cancelled_operation : ActiveConnect
cancelled_operation = record operation { interruption = Interruption.cancelled; cancelled = true }

cancel-accepts : is_ok (cancel owner_text busy).1.status ≡ true
unfolding cancel cancel_target is_active_target same_target result decode_cancellation_target
    is_profile_digest pair_bytes is_zero_identifier
cancel-accepts = refl

cancel-interrupts : (cancel owner_text busy).0.active_connect ≡ some cancelled_operation
unfolding cancel cancel_target is_active_target same_target on_active cancel_operation interrupt
    decode_cancellation_target is_profile_digest pair_bytes is_zero_identifier
cancel-interrupts = refl

cancel-finish_connect_example :
    is_ok
      (finish_connect counting_host well well cancelled_operation
        (record { status = Status.ok; body = text "phase=running" })
        0
        (cancel owner_text busy).0).2.status
    ≡ false
cancel-finish_connect_example =
    cancel-finish_connect counting_host well well owner_text cancelled_operation
      (record { status = Status.ok; body = text "phase=running" }) 0 busy cancel-accepts
      cancel-interrupts

abbrev first_probe : ActiveProbe
first_probe = record { number = 1; target = owner; id = text "a"; cancelled = false }

abbrev probe_actions : List ProbeAction
probe_actions =
    ProbeAction.enters first_probe
    ∷ ProbeAction.enters (record first_probe { number = 2 })
    ∷ ProbeAction.cancels owner_text
    ∷ ProbeAction.leaves 1
    ∷ []

no_probes-IsRegistry : IsRegistry []
unfolding separate
no_probes-IsRegistry = record { few = omega arith; apart = refl }

probe_run-IsRegistry_example : IsRegistry (probe_run probe_actions [])
probe_run-IsRegistry_example = probe_run-IsRegistry probe_actions [] no_probes-IsRegistry
