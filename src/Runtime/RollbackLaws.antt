-- ===== src/Runtime/RollbackLaws.antt =====
-- Runtime/Rollback: what a rollback leaves of the Core and the journal.
use pokrov_app.Events.Types.{succeeded, attempted, failed, ServiceEvent}
use pokrov_app.Runtime.Rollback.{
  stop_without_journal, clear_extensions, recover_pending_runtime, rollback_runtime, stop_core,
  unwind, withdraw, judge_stop, complete, restore_and_complete,
}
use pokrov_app.Recovery.Durable.{record_stage-cases, finish_recovery-cases}
use pokrov_app.Base.{
  Option-cases, either_branch, &&-intro, text, List, branch_by, ℕ, ◌&&◌, Bool-cases, if◌then◌else◌,
  refl, subst, sym, ◌∙◌, is_empty, not, ◌≡◌, Option, Bool, none, some, true, false, inl, inr,
}
use pokrov_app.Recovery.Machine.{
  begin_rollback, restore_network_state, record_stage, complete_rollback, finish_recovery,
  requires_recovery, Recovery, WriteOutcome,
}
use pokrov_app.Recovery.Stage.{RecoveryStage}
use pokrov_app.Runtime.Host.{Phase, RuntimeHost, World, note}

-- A journal that asks for no recovery.
abbrev pub is_quiet : Option Recovery → Bool
is_quiet none = false
is_quiet (some r) = not (requires_recovery r)

finish_recovery-quiet :
    (outcome : WriteOutcome) (r : Recovery)
    → r.invalid ≡ false
    → is_empty (finish_recovery outcome r).1 ≡ true
    → requires_recovery (finish_recovery outcome r).0 ≡ false
unfolding requires_recovery
finish_recovery-quiet outcome r valid done = elim (finish_recovery-cases outcome r) [
  | inl (same, fails) ↦ cc (done, fails)
  | inr (stored, g) ↦ subst (λ q. requires_recovery q.0 ≡ false) (sym stored) (rw valid refl)
]

record_stage-invalid :
    (outcome : WriteOutcome) (r : Recovery) (next : RecoveryStage)
    → (record_stage outcome r next).0.invalid ≡ r.invalid
record_stage-invalid outcome r next = elim (record_stage-cases outcome r next) [
  | inl (same, _) ↦ rw same refl
  | inr (stored, _, _) ↦ rw stored refl
]

-- Closing the transaction, where the journal rolls back.
close-quiet :
    (first second : WriteOutcome) (r : Recovery)
    → r.invalid ≡ false
    → (let (written, error) = record_stage first r RecoveryStage.recovered in
        is_empty (if is_empty error then finish_recovery second written else (written, error)).1)
      ≡ true
    → (let (written, error) = record_stage first r RecoveryStage.recovered in
        requires_recovery
          (if is_empty error then finish_recovery second written else (written, error)).0)
      ≡ false
close-quiet first second r valid done =
    elim (Bool-cases (is_empty (record_stage first r RecoveryStage.recovered).1)) [
      | inr fails ↦ cc
      | inl fine ↦ rw fine (
          finish_recovery-quiet second (record_stage first r RecoveryStage.recovered).0
            (record_stage-invalid first r RecoveryStage.recovered ∙ valid) (rw fine at done))
    ]

complete_rollback-staged :
    (first second : WriteOutcome) (r : Recovery) (s : RecoveryStage)
    → r.invalid ≡ false
    → r.stage ≡ s
    → is_empty (complete_rollback first second r).1 ≡ true
    → requires_recovery (complete_rollback first second r).0 ≡ false
unfolding complete_rollback requires_recovery
complete_rollback-staged first second r RecoveryStage.clean valid e done =
    rw (complete_rollback, valid, e) (rw (valid, e) refl)
complete_rollback-staged first second r RecoveryStage.rolling_back valid e done =
    rw (complete_rollback, valid, e)
      (close-quiet first second r valid (rw (complete_rollback, valid, e) at done))
complete_rollback-staged first second r _ valid e done =
    cc (rw (complete_rollback, valid, e) at done)

pub complete_rollback-quiet :
    (first second : WriteOutcome) (r : Recovery)
    → is_empty (complete_rollback first second r).1 ≡ true
    → requires_recovery (complete_rollback first second r).0 ≡ false
unfolding complete_rollback
complete_rollback-quiet first second r done = elim (Bool-cases r.invalid) [
  | inl bad ↦ cc (rw (complete_rollback, bad) at done)
  | inr valid ↦ complete_rollback-staged first second r r.stage valid refl done
]

-- A claim that is made only when a test holds.
guarded_claim :
    (test claim : Bool) → (test ≡ true → claim ≡ true) → (if test then claim else true) ≡ true
guarded_claim true claim f = f refl
guarded_claim false claim f = refl

pub not-false : (b : Bool) → b ≡ false → not b ≡ true
not-false b h = rw h refl

pub false-not : (b : Bool) → not b ≡ true → b ≡ false
false-not true h = cc
false-not false h = refl

pub not-true : (b : Bool) → not b ≡ false → b ≡ true
not-true true h = refl
not-true false h = cc

-- Behind a rollback that gave no error the Core is stopped and the journal is clean.
abbrev pub is_undone : {W : Type 0} → RuntimeHost W × List ℕ → Bool
is_undone (h, error) = if is_empty error then not h.core_started && is_quiet h.recovery else true

abbrev pub IsUndone : {W : Type 0} → Bool → Phase → RuntimeHost W × List ℕ → Type 0
IsUndone ready phase p = (p.0.is_initialized ≡ ready) × (p.0.phase ≡ phase) × (is_undone p ≡ true)

module _ {W : Type 0} (world : World W) where
  failed-IsUndone :
      (h : RuntimeHost W) (error : List ℕ)
      → is_empty error ≡ false
      → IsUndone h.is_initialized h.phase (h, error)
  failed-IsUndone h error wrong = (refl, refl, rw wrong refl)

  complete-IsUndone :
      (r : Recovery) (h : RuntimeHost W)
      → h.core_started ≡ false
      → IsUndone h.is_initialized h.phase (complete world r h)
  unfolding complete note
  complete-IsUndone r h stopped =
      let first : WriteOutcome = (world.write_outcome h.world).1 in
      let second : WriteOutcome = (world.write_outcome (world.write_outcome h.world).0).1 in
      (
        refl,
        refl,
        guarded_claim (is_empty (complete_rollback first second r).1)
            (not h.core_started && not (requires_recovery (complete_rollback first second r).0))
            (λ done. &&-intro (not-false h.core_started stopped) (
              not-false (requires_recovery (complete_rollback first second r).0)
                (complete_rollback-quiet first second r done))),
      )

  restore-IsUndone :
      (r : Recovery) (h : RuntimeHost W)
      → h.core_started ≡ false
      → IsUndone h.is_initialized h.phase (restore_and_complete world r h)
  unfolding restore_and_complete note
  restore-IsUndone r h stopped =
      let h1 : RuntimeHost W = note world ServiceEvent.runtime_network_restore attempted h in
      branch_by (IsUndone h.is_initialized h.phase)
        (not (is_empty (restore_network_state (world.restore_network h.world) r)))
        (λ wrong.
          failed-IsUndone (note world ServiceEvent.runtime_network_restore failed h1)
            (restore_network_state (world.restore_network h.world) r)
            (false-not (is_empty (restore_network_state (world.restore_network h.world) r)) wrong))
        (λ fine.
          complete-IsUndone r (note world ServiceEvent.runtime_network_restore succeeded h1)
            stopped)

  judge_stop-IsUndone :
      (stop_text : List ℕ) (r : Recovery) (begin_error stop_error : List ℕ) (cleared : Bool)
      (h : RuntimeHost W)
      → is_empty stop_text ≡ false
      → (is_empty stop_error ≡ true → h.core_started ≡ false)
      → IsUndone h.is_initialized h.phase
          (judge_stop world stop_text r begin_error stop_error cleared h)
  unfolding judge_stop note
  judge_stop-IsUndone stop_text r begin_error stop_error cleared h named stopped =
      let h1 : RuntimeHost W = note world ServiceEvent.runtime_rollback_begin succeeded h in
      let h2 : RuntimeHost W = note world ServiceEvent.runtime_core_stop succeeded h1 in
      branch_by (IsUndone h.is_initialized h.phase) (not (is_empty begin_error))
        (λ wrong.
          failed-IsUndone (note world ServiceEvent.runtime_rollback_begin failed h) begin_error
            (false-not (is_empty begin_error) wrong))
        (λ _.
          branch_by (IsUndone h.is_initialized h.phase) (not (is_empty stop_error))
            (λ _.
              failed-IsUndone (note world ServiceEvent.runtime_core_stop failed h1) stop_text named)
            (λ fine.
              branch_by (IsUndone h.is_initialized h.phase) (not cleared)
                (λ _. failed-IsUndone h2 (text "local_dpi_withdraw_failed") refl)
                (λ _. restore-IsUndone r h2 (stopped (not-true (is_empty stop_error) fine)))))

  -- Behind the Stop, whose success clears the flag.
  stopped_core :
      (h : RuntimeHost W)
      → is_empty (stop_core world h).1 ≡ true
      → (stop_core world h).0.core_started ≡ false
  unfolding stop_core
  stopped_core h fine = rw (stop_core, fine) refl

  -- A field that only the profile's flag may differ in.
  clear_extensions-keeps :
      {A : Type 0} (field : RuntimeHost W → A) (error : List ℕ) (h : RuntimeHost W)
      → ((w : W) (staged : Bool)
          → field (record h { world = w; profile_staged = staged }) ≡ field h)
      → field (clear_extensions world error h).0 ≡ field h
  unfolding clear_extensions
  clear_extensions-keeps field error h same =
      let (w, cleared) = world.clear_local_dpi h.world in
      let (w1, failure) = world.write_staged_profile w in
      let P : RuntimeHost W × Bool → Type 0 = λ p. field p.0 ≡ field h in
      either_branch P (not (is_empty error)) refl (
        either_branch P (not cleared) (same w h.profile_staged)
          (either_branch P h.profile_staged (same w1 (is_empty failure)) (same w h.profile_staged)))

  clear_extensions-core_started :
      (error : List ℕ) (h : RuntimeHost W)
      → (clear_extensions world error h).0.core_started ≡ h.core_started
  clear_extensions-core_started error h =
      clear_extensions-keeps (λ g. g.core_started) error h (λ w staged. refl)

  clear_extensions-is_initialized :
      (error : List ℕ) (h : RuntimeHost W)
      → (clear_extensions world error h).0.is_initialized ≡ h.is_initialized
  clear_extensions-is_initialized error h =
      clear_extensions-keeps (λ g. g.is_initialized) error h (λ w staged. refl)

  clear_extensions-phase :
      (error : List ℕ) (h : RuntimeHost W) → (clear_extensions world error h).0.phase ≡ h.phase
  clear_extensions-phase error h = clear_extensions-keeps (λ g. g.phase) error h (λ w staged. refl)

  -- The Core is stopped, whatever became of the journal.
  unwind-IsUndone :
      (stop_text : List ℕ) (r : Recovery) (h : RuntimeHost W)
      → is_empty stop_text ≡ false
      → IsUndone h.is_initialized h.phase (unwind world stop_text r h)
  unfolding unwind stop_core note
  unwind-IsUndone stop_text r h named =
      let outcome : WriteOutcome = (world.write_outcome h.world).1 in
      let r1 : Recovery = (begin_rollback outcome r).0 in
      let h1 : RuntimeHost W =
        note world ServiceEvent.runtime_core_stop attempted
          (record (note world ServiceEvent.runtime_rollback_begin attempted h) {
            world = (world.write_outcome h.world).0;
            recovery = some r1;
          }) in
      let h2 : RuntimeHost W = (stop_core world h1).0 in
      let error : List ℕ = (stop_core world h1).1 in
      let h3 : RuntimeHost W = (clear_extensions world error h2).0 in
      let (kept, same, done) =
        judge_stop-IsUndone stop_text r1 (begin_rollback outcome r).1 error
          (clear_extensions world error h2).1 h3 named
          (λ fine. clear_extensions-core_started error h2 ∙ stopped_core h1 fine) in
      (
        kept ∙ clear_extensions-is_initialized error h2,
        same ∙ clear_extensions-phase error h2,
        done,
      )

  stop_without_journal-IsUndone :
      (h : RuntimeHost W) → IsUndone h.is_initialized h.phase (stop_without_journal world h)
  unfolding stop_without_journal stop_core note
  stop_without_journal-IsUndone h =
      let h1 : RuntimeHost W = note world ServiceEvent.runtime_core_stop attempted h in
      (
        clear_extensions-is_initialized (stop_core world h1).1 (stop_core world h1).0,
        clear_extensions-phase (stop_core world h1).1 (stop_core world h1).0,
        refl,
      )

  -- A rollback that gives no error leaves the Core stopped and a journal that asks for no recovery.
  pub rollback_runtime-IsUndone :
      (h : RuntimeHost W) → IsUndone h.is_initialized h.phase (rollback_runtime world h)
  unfolding rollback_runtime withdraw
  rollback_runtime-IsUndone h = elim (Option-cases h.recovery) [
    | inl lacks ↦ rw (rollback_runtime, lacks) (stop_without_journal-IsUndone (withdraw world h))
    | inr (r, has) ↦
        rw (rollback_runtime, has)
          (unwind-IsUndone (text "core_stop_failed") r (withdraw world h) refl)
  ]

  pub recover_pending_runtime-IsUndone :
      (h : RuntimeHost W)
      → h.core_started ≡ false
      → IsUndone h.is_initialized h.phase (recover_pending_runtime world h)
  unfolding recover_pending_runtime withdraw
  recover_pending_runtime-IsUndone h stopped = elim (Option-cases h.recovery) [
    | inl lacks ↦ rw (recover_pending_runtime, lacks) (refl, refl, refl)
    | inr (r, has) ↦ elim (Bool-cases (requires_recovery r)) [
      | inl pending ↦
          rw (recover_pending_runtime, has, pending)
            (unwind-IsUndone (text "recovery_core_stop_failed") r (withdraw world h) refl)
      | inr idle ↦
          rw (recover_pending_runtime, has, idle) (refl, refl, rw (stopped, has, idle) refl)
    ]
  ]
