-- ===== src/Dispatcher/Settling.antt =====
-- service_dispatcher.cpp: `Cancel`, `RetireConnect`, `CancelAndConfirm`, and the end of `Execute` for
-- a command that connects.
use pokrov_app.Events.Lines.{is_ok}
use pokrov_app.Server.Compatibility.{split_at}
use pokrov_app.Protocol.Targets.{decode_cancellation_target}
use pokrov_app.Dispatcher.Texts.{with_failure}
use pokrov_app.Base.{
  bytes_eq, false, if◌then◌else◌, inl, inr, is_some, not, text, true, ◌&&◌, ◌==◌, ◌||◌, ◌⊎◌, ℕ,
  List, Bool, none, some,
}
use pokrov_app.Protocol.Types.{Status, CancellationTarget}
use pokrov_app.Runtime.Types.{RuntimeResult, result}
use pokrov_app.Dispatcher.Types.{
  failure_code, failure_status, interrupt, must_stop, same_target, ActiveConnect, Dispatcher,
  Interruption,
}
use pokrov_app.Dispatcher.Observing.{
  interrupt_if, needs_recovery, project_bound_state, refresh_bound_network, Facts,
}

unfoldable pub is_active_target : CancellationTarget → Dispatcher → Bool
is_active_target target d = elim (d.active_connect) [
  | none ↦ false
  | some op ↦ same_target op.target target
]

-- On the operation that is active.
unfoldable pub on_active : (ActiveConnect → ActiveConnect) → Dispatcher → Dispatcher
on_active change d = elim (d.active_connect) [
  | none ↦ d
  | some op ↦ record d { active_connect = some (change op) }
]

unfoldable pub cancel_operation : ActiveConnect → ActiveConnect
cancel_operation op = record (interrupt Interruption.cancelled op) { cleanup_attempted = false }

unfoldable pub cancel_target : CancellationTarget → Dispatcher → Dispatcher × RuntimeResult
cancel_target target d =
    if not (is_active_target target d)
    then (d, result Status.not_ready (text "operation_not_active"))
    else (on_active cancel_operation d, result Status.ok (text "cancellation_requested"))

unfoldable pub cancel : List ℕ → Dispatcher → Dispatcher × RuntimeResult
cancel body d = elim (decode_cancellation_target body) [
  | none ↦ (d, result Status.invalid (text "invalid_cancellation_target"))
  | some target ↦ cancel_target target d
]

unfoldable pub retire_connect : Dispatcher → Dispatcher
retire_connect d = elim (d.active_connect) [
  | none ↦ d
  | some op ↦
      if is_some op.bound
      then record d { active_connect = none; stopped_connect = some op.target }
      else record d { active_connect = none }
]

unfoldable pub was_stopped : CancellationTarget → Dispatcher → Bool
was_stopped target d = elim (d.stopped_connect) [
  | none ↦ false
  | some stopped ↦ same_target stopped target
]

-- `CancelAndConfirm` up to the execution lock: an answer, or the operation to stop.
unfoldable pub signal_stop :
    CancellationTarget → Dispatcher → Dispatcher × (RuntimeResult ⊎ ActiveConnect)
signal_stop target d =
    if was_stopped target d
    then (d, inl (result Status.ok (text "settled=1")))
    else elim (d.active_connect) [
      | none ↦ (d, inl (result Status.ok (text "settled=0")))
      | some op ↦
          if not (is_some op.bound) || not (same_target op.target target)
          then (d, inl (result Status.ok (text "settled=0")))
          else (
            record d { active_connect = some (interrupt Interruption.cancelled op) },
            inr (interrupt Interruption.cancelled op),
          )
    ]

unfoldable pub is_operation : ActiveConnect → Dispatcher → Bool
is_operation op d = elim (d.active_connect) [
  | none ↦ false
  | some active ↦ active.number == op.number
]

-- The end of `Execute` for a command that connects. The failure is captured first.
unfoldable pub says_cancelled : List ℕ → Bool
says_cancelled body =
    bytes_eq body (text "operation_cancelled")
    || is_some (split_at (text ";failure=operation_cancelled") body)

unfoldable pub says_deadline : List ℕ → Bool
says_deadline body =
    bytes_eq body (text "connect_deadline")
    || bytes_eq body (text "deadline_exceeded")
    || is_some (split_at (text ";failure=connect_deadline") body)
    || is_some (split_at (text ";failure=deadline_exceeded") body)

unfoldable pub fail_as : ActiveConnect → RuntimeResult → ActiveConnect × RuntimeResult
fail_as op answer = (op, with_failure answer (failure_status op) (failure_code op))

unfoldable pub capture_failure : ActiveConnect → RuntimeResult → ActiveConnect × RuntimeResult
capture_failure op answer =
    if says_cancelled answer.body
    then fail_as (interrupt Interruption.cancelled op) answer
    else if says_deadline answer.body
    then fail_as (interrupt Interruption.deadline op) answer
    else (op, answer)

-- The network and the deadline are observed once more.
unfoldable pub observe_end : Facts → ActiveConnect → ActiveConnect
observe_end facts op =
    let o1 = refresh_bound_network facts op in
    let o2 =
      interrupt_if (is_some o1.network_revision && not facts.network_current)
        Interruption.network_changed o1 in
    interrupt_if (is_some o2.bound && not facts.deadline_current) Interruption.deadline o2

-- `H` is the runtime, and these are the operations of it that the dispatcher calls here.
pub record Host (H : Type 0) : Type 0 where
  pub disconnect : H → H × RuntimeResult
  pub cancel_protected_handoff : H → H × RuntimeResult
  pub snapshot_of : H → RuntimeResult
  pub has_local_dpi : H → Bool
  pub has_telegram : H → Bool

abbrev pub undo_answer : ActiveConnect → RuntimeResult → RuntimeResult
undo_answer op stopped =
    if is_ok stopped.status
    then with_failure stopped (failure_status op) (failure_code op)
    else stopped

module _ {H : Type 0} (host : Host H) where
  -- Behind the Disconnect.
  unfoldable pub confirm_with : Dispatcher → H × RuntimeResult → H × Dispatcher × RuntimeResult
  confirm_with d (h, stopped) =
      let d1 = record d { snapshot = host.snapshot_of h } in
      if not (is_ok stopped.status)
      then (h, d1, result Status.ok (text "settled=0"))
      else (h, retire_connect d1, result Status.ok (text "settled=1"))

  -- `CancelAndConfirm` with the execution lock.
  unfoldable pub confirm_stop :
      CancellationTarget → ActiveConnect → H → Dispatcher → H × Dispatcher × RuntimeResult
  confirm_stop target op h d =
      if was_stopped target d
      then (h, d, result Status.ok (text "settled=1"))
      else if not (is_operation op d)
      then (h, d, result Status.ok (text "settled=0"))
      else confirm_with (on_active (λ o. record o { cleanup_attempted = true }) d)
          (host.disconnect h)

  -- The two parts, when no other thread comes between.
  unfoldable pub cancel_and_confirm : List ℕ → H → Dispatcher → H × Dispatcher × RuntimeResult
  cancel_and_confirm body h d = elim (decode_cancellation_target body) [
    | none ↦ (h, d, result Status.invalid (text "invalid_cancellation_target"))
    | some target ↦
        let (d1, next) = signal_stop target d in
        elim next [ inl answer ↦ (h, d1, answer) | inr op ↦ confirm_stop target op h d1 ]
  ]

  -- Without an interruption that came too late, the operation is retired or kept.
  unfoldable pub keep_or_retire :
      ActiveConnect → RuntimeResult → H → Dispatcher → H × Dispatcher × RuntimeResult
  keep_or_retire op answer h d =
      let d1 = record d { snapshot = host.snapshot_of h; active_connect = some op } in
      let recovery = needs_recovery d1.snapshot.body in
      if (not (is_some op.bound) && not (host.has_local_dpi h) && not (host.has_telegram h))
        || (not (is_ok answer.status) && not recovery)
      then (h, retire_connect d1, answer)
      else if not (is_ok answer.status)
      then (h, on_active (λ o. record o { cleanup_attempted = true }) d1, answer)
      else (h, d1, answer)

  unfoldable pub undo_with :
      ActiveConnect → Dispatcher → H × RuntimeResult → H × Dispatcher × RuntimeResult
  undo_with op d (h, stopped) =
      let d1 = record d { snapshot = host.snapshot_of h; active_connect = some op } in
      let answer = undo_answer op stopped in
      if is_some op.bound && needs_recovery d1.snapshot.body
      then (h, on_active (λ o. record o { cleanup_attempted = true }) d1, answer)
      else (h, retire_connect d1, answer)

  unfoldable pub settle_observed :
      ActiveConnect → RuntimeResult → H → Dispatcher → H × Dispatcher × RuntimeResult
  settle_observed op answer h d =
      let stop =
        if op.protected_handoff then host.cancel_protected_handoff h else host.disconnect h in
      if must_stop op && is_ok answer.status
      then undo_with op d stop
      else keep_or_retire op answer h d

  -- `answer` is what the runtime's Connect gave, and `facts` what is observed behind it.
  unfoldable pub settle :
      Facts → ActiveConnect → RuntimeResult → H → Dispatcher → H × Dispatcher × RuntimeResult
  settle facts op answer h d =
      let (o1, a1) = capture_failure op answer in settle_observed (observe_end facts o1) a1 h d

  -- The answer that leaves `Execute`.
  unfoldable pub finish_connect :
      Facts
      → Facts
      → ActiveConnect
      → RuntimeResult
      → H
      → Dispatcher
      → H × Dispatcher × RuntimeResult
  finish_connect facts last op answer h d =
      let (h1, d1, a1) = settle facts op answer h d in
      let (d2, a2) = project_bound_state last d1 a1 in (h1, d2, a2)
