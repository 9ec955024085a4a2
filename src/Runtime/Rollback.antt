-- ===== src/Runtime/Rollback.antt =====
-- service_runtime.cpp: `RollbackRuntime` and `RecoverPendingRuntime`.
use pokrov_app.Base.{true, if◌then◌else◌, is_empty, not, text, ℕ, List, Bool, none, some, [], false}
use pokrov_app.Events.Types.{ServiceEvent, attempted, succeeded, failed}
use pokrov_app.Recovery.Machine.{
  begin_rollback, complete_rollback, requires_recovery, restore_network_state, Recovery,
}
use pokrov_app.Runtime.Host.{note, World, RuntimeHost}

module _ {W : Type 0} (world : World W) where
  unfoldable pub stop_core : RuntimeHost W → RuntimeHost W × List ℕ
  stop_core h =
      let (w, error) = world.core_stop h.world in
      (
        record h { world = w; core_started = if is_empty error then false else h.core_started },
        error,
      )

  unfoldable pub withdraw : RuntimeHost W → RuntimeHost W
  withdraw h = record h { world = world.withdraw_extensions h.world }

  -- `ClearWindowsLocalDpiAfterCoreStopped`, behind a Stop that succeeded. The staged configuration is
  -- written once more; a profile that cannot be is no longer staged.
  unfoldable pub clear_extensions : List ℕ → RuntimeHost W → RuntimeHost W × Bool
  clear_extensions stop_error h =
      let (w, cleared) = world.clear_local_dpi h.world in
      let (w1, error) = world.write_staged_profile w in
      if not (is_empty stop_error)
      then (h, false)
      else if not cleared
      then (record h { world = w }, false)
      else if h.profile_staged
      then (record h { world = w1; profile_staged = is_empty error }, true)
      else (record h { world = w }, true)

  -- The last two steps: the network is restored, and the transaction is closed.
  unfoldable pub complete : Recovery → RuntimeHost W → RuntimeHost W × List ℕ
  complete r h =
      let (w1, first) = world.write_outcome h.world in
      let (w2, second) = world.write_outcome w1 in
      let (r1, error) = complete_rollback first second r in
      let h1 = note world ServiceEvent.runtime_rollback_complete attempted h in
      (
        note world ServiceEvent.runtime_rollback_complete
            (if is_empty error then succeeded else failed)
            (record h1 { world = w2; recovery = some r1 }),
        error,
      )

  unfoldable pub restore_and_complete : Recovery → RuntimeHost W → RuntimeHost W × List ℕ
  restore_and_complete r h =
      let h1 = note world ServiceEvent.runtime_network_restore attempted h in
      let error = restore_network_state (world.restore_network h1.world) r in
      if not (is_empty error)
      then (note world ServiceEvent.runtime_network_restore failed h1, error)
      else complete r (note world ServiceEvent.runtime_network_restore succeeded h1)

  -- The errors, in the order in which they are looked at.
  unfoldable pub judge_stop :
      List ℕ → Recovery → List ℕ → List ℕ → Bool → RuntimeHost W → RuntimeHost W × List ℕ
  judge_stop stop_text r begin_error stop_error cleared h =
      if not (is_empty begin_error)
      then (note world ServiceEvent.runtime_rollback_begin failed h, begin_error)
      else let h1 = note world ServiceEvent.runtime_rollback_begin succeeded h in
        if not (is_empty stop_error)
        then (note world ServiceEvent.runtime_core_stop failed h1, stop_text)
        else let h2 = note world ServiceEvent.runtime_core_stop succeeded h1 in
          if not cleared then (h2, text "local_dpi_withdraw_failed") else restore_and_complete r h2

  -- The Core is stopped even when the journal cannot be written.
  unfoldable pub unwind : List ℕ → Recovery → RuntimeHost W → RuntimeHost W × List ℕ
  unwind stop_text r h =
      let (w1, outcome) = world.write_outcome h.world in
      let (r1, begin_error) = begin_rollback outcome r in
      let h1 =
        note world ServiceEvent.runtime_core_stop attempted
          (record (note world ServiceEvent.runtime_rollback_begin attempted h) {
            world = w1;
            recovery = some r1;
          }) in
      let (h2, stop_error) = stop_core h1 in
      let (h3, cleared) = clear_extensions stop_error h2 in
      judge_stop stop_text r1 begin_error stop_error cleared h3

  -- Without a journal the Core is stopped all the same.
  unfoldable pub stop_without_journal : RuntimeHost W → RuntimeHost W × List ℕ
  stop_without_journal h =
      let (h1, stop_error) = stop_core (note world ServiceEvent.runtime_core_stop attempted h) in
      let (h2, cleared) = clear_extensions stop_error h1 in
      (note world ServiceEvent.runtime_core_stop failed h2, text "recovery_unavailable")

  unfoldable pub rollback_runtime : RuntimeHost W → RuntimeHost W × List ℕ
  rollback_runtime h = elim (h.recovery) [
    | none ↦ stop_without_journal (withdraw h)
    | some r ↦ unwind (text "core_stop_failed") r (withdraw h)
  ]

  unfoldable pub recover_pending_runtime : RuntimeHost W → RuntimeHost W × List ℕ
  recover_pending_runtime h = elim (h.recovery) [
    | none ↦ (withdraw h, text "recovery_unavailable")
    | some r ↦
        if not (requires_recovery r)
        then (withdraw h, [])
        else unwind (text "recovery_core_stop_failed") r (withdraw h)
  ]
