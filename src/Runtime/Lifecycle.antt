-- ===== src/Runtime/Lifecycle.antt =====
-- service_runtime.cpp: `Initialize`, `RecoverOnStartup`, `InvalidateProfile`, `Disconnect`,
-- `CancelProtectedHandoff` and `Shutdown`.
use pokrov_app.Recovery.Machine.{requires_recovery}
use pokrov_app.Runtime.Rollback.{recover_pending_runtime, rollback_runtime, withdraw}
use pokrov_app.Base.{
  if◌then◌else◌, is_empty, not, text, ◌&&◌, ◌||◌, ℕ, List, Bool, none, some, [], true, false,
}
use pokrov_app.Protocol.Types.{Status}
use pokrov_app.Events.Types.{ServiceEvent, attempted, succeeded, failed}
use pokrov_app.Runtime.Types.{RuntimeResult}
use pokrov_app.Runtime.Host.{
  snapshot, fail, is_recovery_required, is_running, note, World, RuntimeHost, Phase,
}

module _ {W : Type 0} (world : World W) where
  -- Behind `RecoverPendingRuntime`.
  unfoldable pub finish_initialize : RuntimeHost W × List ℕ → RuntimeHost W × RuntimeResult
  finish_initialize (h, error) =
      if not (is_empty error)
      then fail world Status.not_ready error (
          note world ServiceEvent.runtime_initialize failed (
            note world ServiceEvent.runtime_recovery_required failed
              (record h { phase = Phase.recovery_required })))
      else let h1 =
          note world ServiceEvent.runtime_initialize succeeded (record h { failure = [] }) in
        (h1, snapshot world h1)

  unfoldable pub initialize_core : RuntimeHost W → RuntimeHost W × RuntimeResult
  initialize_core h =
      let (w, error) = world.core_initialize h.world in
      let h1 = record h { world = w } in
      if not (is_empty error)
      then fail world Status.not_ready error (note world ServiceEvent.runtime_initialize failed h1)
      else finish_initialize (
          recover_pending_runtime world
            (record h1 { is_initialized = true; phase = Phase.initialized }))

  unfoldable pub initialize_directories : RuntimeHost W → RuntimeHost W × RuntimeResult
  initialize_directories h =
      let (w, prepared) = world.prepare_directories h.world in
      let h1 = record h { world = w } in
      if not prepared
      then fail world Status.not_ready (text "runtime_directory_failed")
          (note world ServiceEvent.runtime_initialize failed h1)
      else initialize_core h1

  unfoldable pub initialize_host : RuntimeHost W → RuntimeHost W × RuntimeResult
  initialize_host h =
      if h.is_initialized
      then (h, snapshot world h)
      else if not h.has_core || not h.has_root
      then fail world Status.not_ready (text "core_missing")
          (note world ServiceEvent.runtime_initialize failed h)
      else initialize_directories (note world ServiceEvent.runtime_initialize attempted h)

  unfoldable pub recover_on_startup : RuntimeHost W → RuntimeHost W × RuntimeResult
  recover_on_startup h = elim (h.recovery) [
    | none ↦ (h, snapshot world h)
    | some r ↦ if not (requires_recovery r) then (h, snapshot world h) else initialize_host h
  ]

  unfoldable pub invalidate_profile : RuntimeHost W → RuntimeHost W × RuntimeResult
  invalidate_profile h =
      if is_running h.phase
      then fail world Status.not_ready (text "runtime_running") h
      else if is_recovery_required h.phase
      then fail world Status.not_ready (text "recovery_required") h
      else let (w, stopped) = world.stop_local_dpi h.world in
        let h1 = record h {
          world = w;
          profile_staged = false;
          requires_bound_connect = false;
          staged_profile_digest = [];
          effective_profile_digest = [];
          phase = if h.is_initialized then Phase.initialized else Phase.artifact_ready;
          failure = [];
        } in
        if not stopped
        then fail world Status.not_ready (text "local_dpi_withdraw_failed") (record h { world = w })
        else (h1, snapshot world h1)

  -- The phase behind a rollback of a runtime that may have been running.
  unfoldable pub settle_phase : RuntimeHost W × List ℕ → RuntimeHost W
  settle_phase (h, error) = record h {
    effective_profile_digest = [];
    core_egress_validated = false;
    phase =
        if is_empty error
        then if h.profile_staged then Phase.config_staged else Phase.initialized
        else Phase.recovery_required;
  }

  -- The guard is taken down after an explicit disconnect only.
  unfoldable pub take_guard_down : Bool → RuntimeHost W → RuntimeHost W × RuntimeResult
  take_guard_down explicit h =
      let (w, error) = world.guard_off h.world in
      let h1 = record h { world = w } in
      if explicit && h.has_guard
      then if not (is_empty error)
        then fail world Status.not_ready (text "transition_guard_failed") h1
        else (h1, snapshot world h1)
      else (h, snapshot world h)

  unfoldable pub finish_disconnect : Bool → RuntimeHost W × List ℕ → RuntimeHost W × RuntimeResult
  finish_disconnect explicit (h, error) =
      let h1 = settle_phase (h, error) in
      if not (is_empty error)
      then fail world Status.not_ready error
          (note world ServiceEvent.runtime_recovery_required failed h1)
      else take_guard_down explicit (record h1 { failure = [] })

  unfoldable pub is_live : RuntimeHost W → Bool
  is_live h = h.is_initialized && (is_running h.phase || is_recovery_required h.phase)

  unfoldable pub disconnect_host : Bool → RuntimeHost W → RuntimeHost W × RuntimeResult
  disconnect_host explicit h =
      if not (is_live h)
      then take_guard_down explicit h
      else finish_disconnect explicit (rollback_runtime world h)

  unfoldable pub cancel_protected_handoff : RuntimeHost W → RuntimeHost W × RuntimeResult
  cancel_protected_handoff h =
      let (w, error) = world.guard_start h.world in
      let h1 = record h { world = w } in
      if not h.has_guard
      then fail world Status.not_ready (text "transition_guard_failed") h
      else if not (is_empty error)
      then fail world Status.not_ready (text "transition_guard_failed") h1
      else disconnect_host false h1

  unfoldable pub shutdown : RuntimeHost W → RuntimeHost W
  shutdown h =
      let h1 = withdraw world h in
      if h1.has_core && is_live h1 then settle_phase (rollback_runtime world h1) else h1
