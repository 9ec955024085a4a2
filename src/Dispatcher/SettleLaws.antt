-- ===== src/Dispatcher/SettleLaws.antt =====
-- Dispatcher/Settling: the answer of an operation that has to stop.
use pokrov_app.Events.Lines.{is_ok}
use pokrov_app.Protocol.Targets.{decode_cancellation_target}
use pokrov_app.Dispatcher.OwnerLaws.{must_stop-interrupt}
use pokrov_app.Dispatcher.Texts.{with_transport_state, with_failure}
use pokrov_app.Base.{
  List, some, subst, ℕ, Option-cases, ap, starts_with, text, ◌∙◌, Bool-cases, either_branch,
  if◌then◌else◌, is_some, not, refl, ◌&&◌, ◌||◌, ◌≡◌, Bool, true, false, inl, inr,
}
use pokrov_app.Protocol.Types.{CancellationTarget, Status}
use pokrov_app.Runtime.Types.{result, RuntimeResult}
use pokrov_app.Dispatcher.Types.{
  failure_status, is_deadline, must_stop, ActiveConnect, Interruption, Dispatcher,
}
use pokrov_app.Dispatcher.Observing.{
  is_snapshot, observe_bound, project_bound, project_bound_state, project_operation,
  project_transport, is_unwatched, loses_telegram, needs_recovery, interrupt_if, is_unproven,
  refresh_bound_network, refresh_owner, refresh_telegram, Facts,
}
use pokrov_app.Dispatcher.Settling.{
  cancel, cancel_target, is_active_target, on_active, cancel_operation, finish_connect, undo_answer,
  capture_failure, fail_as, keep_or_retire, observe_end, says_cancelled, says_deadline, settle,
  settle_observed, undo_with, Host,
}

failure_status-IsError : (op : ActiveConnect) → is_ok (failure_status op) ≡ false
unfolding failure_status
failure_status-IsError op =
    either_branch (λ (s : Status). is_ok s ≡ false) (is_deadline op.interruption) refl refl

interrupt_if-must_stop :
    (test : Bool) (cause : Interruption) (op : ActiveConnect)
    → must_stop op ≡ true
    → must_stop (interrupt_if test cause op) ≡ true
interrupt_if-must_stop test cause op m =
    either_branch (λ (o : ActiveConnect). must_stop o ≡ true) test (must_stop-interrupt cause op) m

refresh_telegram-must_stop :
    (facts : Facts) (op : ActiveConnect)
    → must_stop op ≡ true
    → must_stop (refresh_telegram facts op) ≡ true
unfolding refresh_telegram must_stop
refresh_telegram-must_stop facts op m =
    either_branch (λ (o : ActiveConnect). (o.cancelled || o.deadline_expired) ≡ true)
      (loses_telegram facts op) m m

mark-must_stop :
    (test : Bool) (op : ActiveConnect)
    → must_stop op ≡ true
    → must_stop (if test then record op { local_dpi_cancelled = true } else op) ≡ true
unfolding must_stop
mark-must_stop test op m =
    either_branch (λ (o : ActiveConnect). (o.cancelled || o.deadline_expired) ≡ true) test m m

refresh_owner-must_stop :
    (facts : Facts) (op : ActiveConnect)
    → must_stop op ≡ true
    → must_stop (refresh_owner facts op) ≡ true
unfolding refresh_owner
refresh_owner-must_stop facts op m =
    let o1 : ActiveConnect =
      if op.local_dpi_owner && not facts.client_runs
      then record op { local_dpi_cancelled = true }
      else op in
    let m1 : must_stop o1 ≡ true =
      mark-must_stop (op.local_dpi_owner && not facts.client_runs) op m in
    either_branch (λ (o : ActiveConnect). must_stop o ≡ true)
      (is_unproven o1 && not facts.client_runs) (must_stop-interrupt Interruption.owner_changed o1)
      (interrupt_if-must_stop (not (is_some o1.network_revision) || not facts.network_current)
        Interruption.network_changed o1 m1)

refresh-must_stop :
    (facts : Facts) (op : ActiveConnect)
    → must_stop op ≡ true
    → must_stop (refresh_bound_network facts op) ≡ true
unfolding refresh_bound_network
refresh-must_stop facts op m =
    let m1 = refresh_telegram-must_stop facts op m in
    either_branch (λ (o : ActiveConnect). must_stop o ≡ true)
      (is_unwatched (refresh_telegram facts op)) m1
      (refresh_owner-must_stop facts (refresh_telegram facts op) m1)

observe_end-must_stop :
    (facts : Facts) (op : ActiveConnect)
    → must_stop op ≡ true
    → must_stop (observe_end facts op) ≡ true
unfolding observe_end
observe_end-must_stop facts op m =
    let o1 : ActiveConnect = refresh_bound_network facts op in
    let o2 : ActiveConnect =
      interrupt_if (is_some o1.network_revision && not facts.network_current)
        Interruption.network_changed o1 in
    interrupt_if-must_stop (is_some o2.bound && not facts.deadline_current) Interruption.deadline o2
      (interrupt_if-must_stop (is_some o1.network_revision && not facts.network_current)
        Interruption.network_changed o1 (refresh-must_stop facts op m))

capture_failure-must_stop :
    (op : ActiveConnect) (answer : RuntimeResult)
    → must_stop op ≡ true
    → must_stop (capture_failure op answer).0 ≡ true
unfolding capture_failure fail_as
capture_failure-must_stop op answer m =
    either_branch (λ (p : ActiveConnect × RuntimeResult). must_stop p.0 ≡ true)
      (says_cancelled answer.body) (must_stop-interrupt Interruption.cancelled op)
      (either_branch (λ (p : ActiveConnect × RuntimeResult). must_stop p.0 ≡ true)
        (says_deadline answer.body) (must_stop-interrupt Interruption.deadline op) m)

undo_answer-IsError :
    (op : ActiveConnect) (stopped : RuntimeResult) → is_ok (undo_answer op stopped).status ≡ false
unfolding with_failure
undo_answer-IsError op stopped = elim (Bool-cases (is_ok stopped.status)) [
  | inl fine ↦ rw fine (failure_status-IsError op)
  | inr wrong ↦ rw wrong wrong
]

module _ {H : Type 0} (host : Host H) where
  abbrev Fails : H × Dispatcher × RuntimeResult → Type 0
  Fails t = is_ok t.2.status ≡ false

  undo_with-Fails :
      (op : ActiveConnect) (d : Dispatcher) (stop : H × RuntimeResult)
      → Fails (undo_with host op d stop)
  unfolding undo_with
  undo_with-Fails op d (h, stopped) =
      either_branch Fails (is_some op.bound && needs_recovery (host.snapshot_of h).body)
        (undo_answer-IsError op stopped) (undo_answer-IsError op stopped)

  keep_or_retire-Fails :
      (op : ActiveConnect) (answer : RuntimeResult) (h : H) (d : Dispatcher)
      → is_ok answer.status ≡ false
      → Fails (keep_or_retire host op answer h d)
  unfolding keep_or_retire
  keep_or_retire-Fails op answer h d fails =
      either_branch Fails
        ((not (is_some op.bound) && not (host.has_local_dpi h) && not (host.has_telegram h))
          || (not (is_ok answer.status) && not (needs_recovery (host.snapshot_of h).body)))
        fails (either_branch Fails (not (is_ok answer.status)) fails fails)

  settle_observed-Fails :
      (op : ActiveConnect) (answer : RuntimeResult) (h : H) (d : Dispatcher)
      → must_stop op ≡ true
      → Fails (settle_observed host op answer h d)
  unfolding settle_observed
  settle_observed-Fails op answer h d m = elim (Bool-cases (is_ok answer.status)) [
    | inl fine ↦ rw (settle_observed, m, fine) (undo_with-Fails op d _)
    | inr wrong ↦ rw (settle_observed, m, wrong) (keep_or_retire-Fails op answer h d wrong)
  ]

  settle-Fails :
      (facts : Facts) (op : ActiveConnect) (answer : RuntimeResult) (h : H) (d : Dispatcher)
      → must_stop op ≡ true
      → Fails (settle host facts op answer h d)
  unfolding settle
  settle-Fails facts op answer h d m =
      settle_observed-Fails (observe_end facts (capture_failure op answer).0)
        (capture_failure op answer).1 h d
        (observe_end-must_stop facts (capture_failure op answer).0
          (capture_failure-must_stop op answer m))

with_transport_state-status :
    (answer : RuntimeResult) (pending active : Bool)
    → (with_transport_state answer pending active).status ≡ answer.status
unfolding with_transport_state
with_transport_state-status answer pending active =
    either_branch (λ (r : RuntimeResult). r.status ≡ answer.status)
      (starts_with (text "phase=") answer.body) refl refl

project_operation-IsError :
    (op : ActiveConnect) (answer : RuntimeResult)
    → is_ok answer.status ≡ false
    → is_ok (project_operation op answer).status ≡ false
unfolding project_operation with_failure
project_operation-IsError op answer fails =
    either_branch (λ (r : RuntimeResult). is_ok r.status ≡ false)
      (must_stop op && is_snapshot answer.body && not (needs_recovery answer.body))
      (failure_status-IsError op) fails

project_bound_state-IsError :
    (facts : Facts) (d : Dispatcher) (answer : RuntimeResult)
    → is_ok answer.status ≡ false
    → is_ok (project_bound_state facts d answer).1.status ≡ false
unfolding project_bound_state project_bound project_transport
project_bound_state-IsError facts d answer fails =
    let idle : is_ok (with_transport_state answer false false).status ≡ false =
      ap is_ok (with_transport_state-status answer false false) ∙ fails in
    elim (Option-cases d.active_connect) [
      | inl gone ↦ rw (project_bound_state, gone) idle
      | inr (op, active) ↦
          let o1 : ActiveConnect = observe_bound facts op in
          rw (project_bound_state, active)
            (either_branch (λ (p : Dispatcher × RuntimeResult). is_ok p.1.status ≡ false)
              (is_some op.bound)
              (ap is_ok (
                  with_transport_state-status (project_operation o1 answer)
                    (o1.requires_transport_lease && is_unproven o1)
                    (o1.requires_transport_lease && not (is_unproven o1)))
                ∙ project_operation-IsError o1 answer fails)
              idle)
    ]

finish_connect-IsError :
    {H : Type 0} (host : Host H) (facts last : Facts) (op : ActiveConnect) (answer : RuntimeResult)
    (h : H) (d : Dispatcher)
    → must_stop op ≡ true
    → is_ok (finish_connect host facts last op answer h d).2.status ≡ false
unfolding finish_connect
finish_connect-IsError host facts last op answer h d m =
    let (h1, d1, a1) = settle host facts op answer h d in
    project_bound_state-IsError last (settle host facts op answer h d).1
      (settle host facts op answer h d).2 (settle-Fails host facts op answer h d m)

cancel_operation-must_stop : (op : ActiveConnect) → must_stop (cancel_operation op) ≡ true
unfolding cancel_operation must_stop
cancel_operation-must_stop op = must_stop-interrupt Interruption.cancelled op

on_active-must_stop :
    (d : Dispatcher) (op : ActiveConnect)
    → (on_active cancel_operation d).active_connect ≡ some op
    → must_stop op ≡ true
unfolding on_active
on_active-must_stop d op e = elim (Option-cases d.active_connect) [
  | inl gone ↦ cc (rw (on_active, gone) at e)
  | inr (active, here) ↦
      let same : some (cancel_operation active) ≡ some op = rw (on_active, here) at e in
      subst (λ o. must_stop o ≡ true) (cc same) (cancel_operation-must_stop active)
]

cancel_target-must_stop :
    (target : CancellationTarget) (d : Dispatcher) (op : ActiveConnect)
    → is_ok (cancel_target target d).1.status ≡ true
    → (cancel_target target d).0.active_connect ≡ some op
    → must_stop op ≡ true
unfolding cancel_target result
cancel_target-must_stop target d op fine e = elim (Bool-cases (is_active_target target d)) [
  | inr other ↦ cc (rw (cancel_target, other) at fine)
  | inl here ↦ on_active-must_stop d op (rw (cancel_target, here) at e)
]

-- A cancellation that is accepted while the operation's Connect runs: whatever the runtime answers
-- and whatever is observed behind it, the operation's answer is not a success.
pub cancel-finish_connect :
    {H : Type 0} (host : Host H) (facts last : Facts) (body : List ℕ) (op : ActiveConnect)
    (answer : RuntimeResult) (h : H) (d : Dispatcher)
    → is_ok (cancel body d).1.status ≡ true
    → (cancel body d).0.active_connect ≡ some op
    → is_ok (finish_connect host facts last op answer h (cancel body d).0).2.status ≡ false
unfolding cancel result
cancel-finish_connect host facts last body op answer h d fine e =
    finish_connect-IsError host facts last op answer h (cancel body d).0
      (elim (Option-cases (decode_cancellation_target body)) [
        | inl bad ↦ cc (rw (cancel, bad) at fine)
        | inr (target, good) ↦
            cancel_target-must_stop target d op (rw (cancel, good) at fine) (rw (cancel, good) at e)
      ])
