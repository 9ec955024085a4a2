-- ===== src/Runtime/HostSound.antt =====
-- Runtime/Lifecycle: what each phase of the runtime promises.
use pokrov_app.Events.Types.{attempted, ServiceEvent}
use pokrov_app.Runtime.Rollback.{recover_pending_runtime, rollback_runtime, withdraw}
use pokrov_app.Runtime.RollbackLaws.{
  recover_pending_runtime-IsUndone, false-not, IsUndone, is_quiet, not-true,
  rollback_runtime-IsUndone,
}
use pokrov_app.Runtime.Lifecycle.{
  cancel_protected_handoff, invalidate_profile, initialize_core, initialize_directories,
  initialize_host, finish_initialize, disconnect_host, finish_disconnect, is_live, settle_phase,
  shutdown, take_guard_down,
}
use pokrov_app.Base.{
  arith, if◌then◌else◌, &&-right, &&-left, Bool-cases, branch_by, either_branch, is_empty, not,
  refl, subst, ◌&&◌, ◌||◌, ◌≡◌, ℕ, List, Option, Bool, none, some, [], true, false, inl, inr,
}
use pokrov_app.Recovery.Machine.{Recovery}
use pokrov_app.Recovery.Stage.{RecoveryStage}
use pokrov_app.Runtime.Types.{RuntimeResult}
use pokrov_app.Runtime.Host.{
  fail, is_recovery_required, is_running, note, World, RuntimeHost, Phase,
}

abbrev pub is_committed_stage : RecoveryStage → Bool
is_committed_stage RecoveryStage.committed = true
is_committed_stage _ = false

-- A journal whose transaction is committed.
abbrev pub is_committed : Option Recovery → Bool
is_committed none = false
is_committed (some r) = is_committed_stage r.stage

-- By the phase, from whether the runtime is initialized, whether the Core was started, and the
-- journal.
abbrev pub keeps_promise : Phase → Bool → Bool → Option Recovery → Bool
keeps_promise Phase.artifact_missing ready started journal = not ready && not started
keeps_promise Phase.artifact_ready ready started journal = not ready && not started
keeps_promise Phase.initialized ready started journal = ready && (not started && is_quiet journal)
keeps_promise Phase.config_staged ready started journal = ready && (not started && is_quiet journal)
keeps_promise Phase.running ready started journal = ready && (started && is_committed journal)
keeps_promise Phase.recovery_required ready started journal = ready

abbrev pub is_sound : {W : Type 0} → RuntimeHost W → Bool
is_sound h = keeps_promise h.phase h.is_initialized h.core_started h.recovery

module _ {W : Type 0} (world : World W) where
  abbrev IsSound : RuntimeHost W → Type 0
  IsSound h = is_sound h ≡ true

  take_guard_down-IsSound :
      (explicit : Bool) (h : RuntimeHost W)
      → IsSound h
      → IsSound (take_guard_down world explicit h).0
  unfolding take_guard_down fail
  take_guard_down-IsSound explicit h s =
      either_branch (λ (p : RuntimeHost W × RuntimeResult). IsSound p.0) (explicit && h.has_guard)
        (either_branch (λ (p : RuntimeHost W × RuntimeResult). IsSound p.0)
          (not (is_empty (world.guard_off h.world).1)) s s)
        s

  -- A rollback of an initialized runtime, with the phase that follows.
  settle_phase-IsSound :
      {phase : Phase} (p : RuntimeHost W × List ℕ)
      → IsUndone true phase p
      → IsSound (settle_phase world p)
  unfolding settle_phase
  settle_phase-IsSound (h, error) (ready, _, done) = elim (Bool-cases (is_empty error)) [
    | inr wrong ↦ rw (wrong, ready) refl
    | inl fine ↦
        let clean : (not h.core_started && is_quiet h.recovery) ≡ true = rw fine at done in
        elim (Bool-cases h.profile_staged) [
          | inl staged ↦ rw (fine, staged, ready, clean) refl
          | inr empty ↦ rw (fine, empty, ready, clean) refl
        ]
  ]

  finish_disconnect-IsSound :
      {phase : Phase} (explicit : Bool) (p : RuntimeHost W × List ℕ)
      → IsUndone true phase p
      → IsSound (finish_disconnect world explicit p).0
  unfolding finish_disconnect fail note
  finish_disconnect-IsSound explicit (h, error) undone =
      let s = settle_phase-IsSound (h, error) undone in
      either_branch (λ (p : RuntimeHost W × RuntimeResult). IsSound p.0) (not (is_empty error)) s
        (take_guard_down-IsSound explicit (record (settle_phase world (h, error)) { failure = [] })
          s)

  pub disconnect_host-IsSound :
      (explicit : Bool) (h : RuntimeHost W)
      → IsSound h
      → IsSound (disconnect_host world explicit h).0
  unfolding disconnect_host is_live
  disconnect_host-IsSound explicit h s =
      branch_by (λ (p : RuntimeHost W × RuntimeResult). IsSound p.0) (not (is_live world h))
        (λ _. take_guard_down-IsSound explicit h s)
        (λ live.
          let ready : h.is_initialized ≡ true =
            &&-left h.is_initialized (is_running h.phase || is_recovery_required h.phase)
              (not-true (is_live world h) live) in
          finish_disconnect-IsSound explicit (rollback_runtime world h) (
            subst (λ b. IsUndone b h.phase (rollback_runtime world h)) ready
              (rollback_runtime-IsUndone world h)))

  pub shutdown-IsSound : (h : RuntimeHost W) → IsSound h → IsSound (shutdown world h)
  unfolding shutdown is_live withdraw
  shutdown-IsSound h s =
      branch_by IsSound (h.has_core && is_live world (withdraw world h))
        (λ live.
          let ready : h.is_initialized ≡ true =
            &&-left h.is_initialized (is_running h.phase || is_recovery_required h.phase) (
              &&-right h.has_core
                (h.is_initialized && (is_running h.phase || is_recovery_required h.phase)) live) in
          settle_phase-IsSound (rollback_runtime world (withdraw world h)) (
            subst (λ b. IsUndone b h.phase (rollback_runtime world (withdraw world h))) ready
              (rollback_runtime-IsUndone world (withdraw world h))))
        (λ _. s)

  finish_initialize-IsSound :
      (p : RuntimeHost W × List ℕ)
      → IsUndone true Phase.initialized p
      → IsSound (finish_initialize world p).0
  unfolding finish_initialize fail note
  finish_initialize-IsSound (h, error) (ready, phase, done) =
      branch_by (λ (q : RuntimeHost W × RuntimeResult). IsSound q.0) (not (is_empty error))
        (λ _. ready)
        (λ fine.
          let clean : (not h.core_started && is_quiet h.recovery) ≡ true =
            rw (not-true (is_empty error) fine) at done in
          rw (phase, ready, clean) refl)

  -- An uninitialized runtime that keeps its promise has not started the Core.
  pub unstarted :
      (phase : Phase) (started : Bool) (journal : Option Recovery)
      → keeps_promise phase false started journal ≡ true
      → started ≡ false
  unstarted Phase.artifact_missing started journal s = false-not started s
  unstarted Phase.artifact_ready started journal s = false-not started s
  unstarted _ started journal s = cc

  abbrev IsSoundAnswer : RuntimeHost W × RuntimeResult → Type 0
  IsSoundAnswer q = IsSound q.0

  initialize_core-IsSound :
      (h : RuntimeHost W)
      → IsSound h
      → h.core_started ≡ false
      → IsSoundAnswer (initialize_core world h)
  unfolding initialize_core fail note
  initialize_core-IsSound h s stopped =
      let called : RuntimeHost W = record h { world = (world.core_initialize h.world).0 } in
      let ready : RuntimeHost W = record called {
        is_initialized = true;
        phase = Phase.initialized;
      } in
      either_branch IsSoundAnswer (not (is_empty (world.core_initialize h.world).1)) s (
        finish_initialize-IsSound (recover_pending_runtime world ready)
          (recover_pending_runtime-IsUndone world ready stopped))

  initialize_directories-IsSound :
      (h : RuntimeHost W)
      → IsSound h
      → h.core_started ≡ false
      → IsSoundAnswer (initialize_directories world h)
  unfolding initialize_directories fail note
  initialize_directories-IsSound h s stopped =
      either_branch IsSoundAnswer (not (world.prepare_directories h.world).1) s (
        initialize_core-IsSound (record h { world = (world.prepare_directories h.world).0 }) s
          stopped)

  pub initialize_host-IsSound :
      (h : RuntimeHost W) → IsSound h → IsSoundAnswer (initialize_host world h)
  unfolding initialize_host fail note
  initialize_host-IsSound h s =
      branch_by IsSoundAnswer h.is_initialized (λ _. s)
        (λ fresh. either_branch IsSoundAnswer (not h.has_core || not h.has_root) s (
          initialize_directories-IsSound (note world ServiceEvent.runtime_initialize attempted h) s
            (unstarted h.phase h.core_started h.recovery (rw fresh at s))))

  invalidated :
      (phase : Phase) (ready started : Bool) (journal : Option Recovery)
      → keeps_promise phase ready started journal ≡ true
      → is_running phase ≡ false
      → is_recovery_required phase ≡ false
      → keeps_promise
          (if ready then Phase.initialized else Phase.artifact_ready)
          ready
          started
          journal
        ≡ true
  invalidated Phase.artifact_missing ready started journal s r q = ground arith
  invalidated Phase.artifact_ready ready started journal s r q = ground arith
  invalidated Phase.initialized ready started journal s r q = ground arith
  invalidated Phase.config_staged ready started journal s r q = ground arith
  invalidated _ ready started journal s r q = cc

  pub invalidate_profile-IsSound :
      (h : RuntimeHost W) → IsSound h → IsSoundAnswer (invalidate_profile world h)
  unfolding invalidate_profile fail
  invalidate_profile-IsSound h s =
      branch_by IsSoundAnswer (is_running h.phase) (λ _. s)
        (λ still.
          branch_by IsSoundAnswer (is_recovery_required h.phase) (λ _. s)
            (λ settled.
              either_branch IsSoundAnswer (not (world.stop_local_dpi h.world).1) s
                (invalidated h.phase h.is_initialized h.core_started h.recovery s still settled)))

  pub cancel_protected_handoff-IsSound :
      (h : RuntimeHost W) → IsSound h → IsSoundAnswer (cancel_protected_handoff world h)
  unfolding cancel_protected_handoff fail
  cancel_protected_handoff-IsSound h s = either_branch IsSoundAnswer (not h.has_guard) s (
      either_branch IsSoundAnswer (not (is_empty (world.guard_start h.world).1)) s
        (disconnect_host-IsSound false (record h { world = (world.guard_start h.world).0 }) s))
