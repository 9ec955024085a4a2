-- ===== src/Dispatcher/Observing.antt =====
-- service_dispatcher.cpp: what the client's process, the network and the deadlines do to an
-- operation: `RefreshBoundNetwork`, the check handed to the runtime, and `ProjectBoundState`.
use pokrov_app.Dispatcher.Texts.{with_failure, with_transport_state}
use pokrov_app.Base.{
  false, if◌then◌else◌, is_some, not, starts_with, text, true, ◌&&◌, ◌==◌, ◌||◌, ℕ, List, Bool,
  none, some,
}
use pokrov_app.Runtime.Types.{RuntimeResult}
use pokrov_app.Dispatcher.Types.{
  failure_code, failure_status, interrupt, is_deadline, is_untouched, must_stop, ActiveConnect,
  Dispatcher, Interruption,
}

-- What the calls below ask of the system: whether the client still runs, whether the network that
-- the operation took, and that of its proxy, are still current, whether its deadline and its
-- promoted lease are, whether the service stops, whether the operation is still the active one, and
-- whether the request's deadline has passed.
pub record Facts : Type 0 where
  pub client_runs : Bool
  pub network_current : Bool
  pub telegram_network_current : Bool
  pub deadline_current : Bool
  pub lease_current : Bool
  pub stopping : Bool
  pub still_active : Bool
  pub request_expired : Bool

abbrev pub interrupt_if : Bool → Interruption → ActiveConnect → ActiveConnect
interrupt_if test cause op = if test then interrupt cause op else op

-- Whether the lease is not promoted, or is terminated.
unfoldable pub is_unproven : ActiveConnect → Bool
is_unproven op = (op.promoted_until_elapsed_ms == 0) || op.transport_terminated

abbrev pub loses_telegram : Facts → ActiveConnect → Bool
loses_telegram facts op =
    op.telegram_ws_owner
    && (not facts.client_runs
        || not (is_some op.telegram_ws_network_revision)
        || not facts.telegram_network_current)

unfoldable pub refresh_telegram : Facts → ActiveConnect → ActiveConnect
refresh_telegram facts op =
    if loses_telegram facts op then record op { telegram_ws_cancelled = true } else op

unfoldable pub refresh_owner : Facts → ActiveConnect → ActiveConnect
refresh_owner facts op =
    let o1 =
      if op.local_dpi_owner && not facts.client_runs
      then record op { local_dpi_cancelled = true }
      else op in
    if is_unproven o1 && not facts.client_runs
    then interrupt Interruption.owner_changed o1
    else interrupt_if (not (is_some o1.network_revision) || not facts.network_current)
        Interruption.network_changed o1

abbrev pub is_unwatched : ActiveConnect → Bool
is_unwatched op = (not (is_some op.bound) && not op.local_dpi_owner) || op.cancelled

unfoldable pub refresh_bound_network : Facts → ActiveConnect → ActiveConnect
refresh_bound_network facts op =
    let o1 = refresh_telegram facts op in if is_unwatched o1 then o1 else refresh_owner facts o1

-- `OperationInterruption` of service_runtime.h.
pub data OperationInterruption : Type 0 where
  uninterrupted cancelled deadline_exceeded : OperationInterruption

unfoldable pub interruption_of : ActiveConnect → OperationInterruption
interruption_of op =
    if is_deadline op.interruption
    then OperationInterruption.deadline_exceeded
    else OperationInterruption.cancelled

-- The function `interrupted` of `Execute`.
unfoldable pub check_interruption : Facts → ActiveConnect → ActiveConnect × OperationInterruption
check_interruption facts op =
    let o1 =
      interrupt_if (is_untouched op.interruption && facts.stopping) Interruption.cancelled op in
    let o2 =
      interrupt_if ((is_some o1.bound || o1.local_dpi_owner) && not facts.client_runs)
        Interruption.owner_changed o1 in
    let o3 =
      interrupt_if (is_some o2.network_revision && not facts.network_current)
        Interruption.network_changed o2 in
    let o4 =
      interrupt_if (o3.local_dpi_owner && not facts.still_active) Interruption.owner_changed o3 in
    if not (is_untouched o4.interruption)
    then (o4, interruption_of o4)
    else if is_some o4.bound && (o4.deadline_expired || not facts.deadline_current)
    then (interrupt Interruption.deadline o4, OperationInterruption.deadline_exceeded)
    else if facts.request_expired
    then (interrupt Interruption.deadline o4, OperationInterruption.deadline_exceeded)
    else (o4, OperationInterruption.uninterrupted)

-- The checks of `ProjectBoundState` on a bound operation.
unfoldable pub observe_bound : Facts → ActiveConnect → ActiveConnect
observe_bound facts op =
    let o1 = interrupt_if (is_unproven op && not facts.client_runs) Interruption.owner_changed op in
    let o2 =
      interrupt_if (not (is_some o1.network_revision) || not facts.network_current)
        Interruption.network_changed o1 in
    let lapsed =
      if o2.promoted_until_elapsed_ms == 0
      then not facts.deadline_current
      else not facts.lease_current in
    interrupt_if (not o2.ordinary_control_handoff && lapsed) Interruption.deadline o2

unfoldable pub is_snapshot : List ℕ → Bool
is_snapshot body = starts_with (text "phase=") body

unfoldable pub needs_recovery : List ℕ → Bool
needs_recovery body = starts_with (text "phase=recovery_required;") body

unfoldable pub project_operation : ActiveConnect → RuntimeResult → RuntimeResult
project_operation op answer =
    if must_stop op && is_snapshot answer.body && not (needs_recovery answer.body)
    then with_failure op.stopping_snapshot (failure_status op) (failure_code op)
    else answer

unfoldable pub project_transport : ActiveConnect → RuntimeResult → RuntimeResult
project_transport op answer =
    with_transport_state answer (op.requires_transport_lease && is_unproven op)
      (op.requires_transport_lease && not (is_unproven op))

unfoldable pub project_bound :
    Facts → Dispatcher → ActiveConnect → RuntimeResult → Dispatcher × RuntimeResult
project_bound facts d op answer =
    let o1 = observe_bound facts op in
    (record d { active_connect = some o1 }, project_transport o1 (project_operation o1 answer))

-- `ProjectBoundState`, with the dispatcher whose operation it may interrupt.
unfoldable pub project_bound_state : Facts → Dispatcher → RuntimeResult → Dispatcher × RuntimeResult
project_bound_state facts d answer = elim (d.active_connect) [
  | none ↦ (d, with_transport_state answer false false)
  | some op ↦
      if is_some op.bound
      then project_bound facts d op answer
      else (d, with_transport_state answer false false)
]
