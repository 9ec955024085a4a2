-- ===== src/Runtime/ConnectSteps.antt =====
-- Runtime/Connect: the steps of a connection, one by one.
use pokrov_app.Recovery.Durable.{record_stage-cases}
use pokrov_app.Dispatcher.Observing.{OperationInterruption}
use pokrov_app.Runtime.HostSound.{is_committed, is_sound}
use pokrov_app.Runtime.Rollback.{rollback_runtime}
use pokrov_app.Runtime.Connect.{
  record_journal, record_step, interruption_cause, interruption_status, is_mismatch, is_none,
  safe_egress_failure, interruption, Step, answer_rollback, give_up, give_up_proven,
  give_up_silently, rolled_back, then_step,
}
use pokrov_app.Runtime.ConnectRun.{
  verify_egress, judge_egress, note_start, prove_extensions, start_core,
}
use pokrov_app.Runtime.RollbackLaws.{not-true, IsUndone, is_quiet, rollback_runtime-IsUndone}
use pokrov_app.Base.{
  Option-cases, ap, branch_by, ◌∙◌, text, Bool-cases, either_branch, is_empty, not, refl, subst,
  ◌&&◌, ◌||◌, ◌≡◌, ℕ, List, Bool, none, some, [], true, false, inl, inr,
}
use pokrov_app.Protocol.Types.{Status}
use pokrov_app.Recovery.Stage.{RecoveryStage}
use pokrov_app.Events.Types.{ServiceEvent, attempted, failed}
use pokrov_app.Runtime.Host.{fail, note, World, RuntimeHost, Phase}

module _ {W : Type 0} where
  -- An answer comes with a sound runtime, and otherwise `P` holds.
  abbrev pub Settles : (RuntimeHost W → Type 0) → Step W → Type 0
  Settles P (h, none) = P h
  Settles P (h, some answer) = is_sound h ≡ true

  pub then_step-Settles :
      (P Q : RuntimeHost W → Type 0) (x : Step W) (next : RuntimeHost W → Step W)
      → Settles P x
      → ((h : RuntimeHost W) → P h → Settles Q (next h))
      → Settles Q (then_step x next)
  then_step-Settles P Q (h, none) next p f = f h p
  then_step-Settles P Q (h, some answer) next p f = p

  -- A connection under way: the runtime is initialized, and where they are asked for the Core is
  -- started and the journal committed.
  abbrev pub Flight : Bool → Bool → RuntimeHost W → Type 0
  Flight started done h =
      (h.is_initialized ≡ true)
      × ((not started || h.core_started) ≡ true)
      × ((not done || is_committed h.recovery) ≡ true)

module _ {W : Type 0} (world : World W) where
  rolled_back-IsSound :
      {phase : Phase} (p : RuntimeHost W × List ℕ)
      → IsUndone true phase p
      → is_sound (rolled_back world p) ≡ true
  unfolding rolled_back
  rolled_back-IsSound (h, error) (ready, _, done) = elim (Bool-cases (is_empty error)) [
    | inr wrong ↦ rw (wrong, ready) refl
    | inl fine ↦
        let clean : (not h.core_started && is_quiet h.recovery) ≡ true = rw fine at done in
        rw (fine, ready, clean) refl
  ]

  answer_rollback-Settles :
      (P : RuntimeHost W → Type 0) {phase : Phase} (status : Status) (cause : List ℕ)
      (p : RuntimeHost W × List ℕ)
      → IsUndone true phase p
      → Settles P (answer_rollback world status cause p)
  unfolding answer_rollback fail note
  answer_rollback-Settles P status cause (h, error) undone =
      let s = rolled_back-IsSound (h, error) undone in
      either_branch (Settles P) (not (is_empty error)) s s

  IsUndone-from :
      (h : RuntimeHost W)
      → h.is_initialized ≡ true
      → IsUndone true h.phase (rollback_runtime world h)
  IsUndone-from h ready =
      subst (λ b. IsUndone b h.phase (rollback_runtime world h)) ready
        (rollback_runtime-IsUndone world h)

  pub give_up-Settles :
      (P : RuntimeHost W → Type 0) (status : Status) (cause : List ℕ) (h : RuntimeHost W)
      → h.is_initialized ≡ true
      → Settles P (give_up world status cause h)
  unfolding give_up
  give_up-Settles P status cause h ready =
      answer_rollback-Settles P status cause (rollback_runtime world h) (IsUndone-from h ready)

  pub give_up_silently-Settles :
      (P : RuntimeHost W → Type 0) (cause : List ℕ) (h : RuntimeHost W)
      → h.is_initialized ≡ true
      → Settles P (give_up_silently world cause h)
  unfolding give_up_silently fail rolled_back
  give_up_silently-Settles P cause h ready =
      rolled_back-IsSound (rollback_runtime world h) (IsUndone-from h ready)

  pub give_up_proven-Settles :
      (P : RuntimeHost W → Type 0) (status : Status) (cause : List ℕ) (h : RuntimeHost W)
      → h.is_initialized ≡ true
      → Settles P (give_up_proven world status cause h)
  unfolding give_up_proven
  give_up_proven-Settles P status cause h ready =
      let (h1, error) = rollback_runtime world h in
      answer_rollback-Settles P status cause
        (
          record (rollback_runtime world h).0 {
            effective_profile_digest = [];
            core_egress_validated = false;
          },
          (rollback_runtime world h).1,
        )
        (IsUndone-from h ready)

  module _ (expected_core : List ℕ) where
    abbrev interruption_reason : RuntimeHost W → OperationInterruption
    interruption_reason h = (world.interrupted h.world).1

    abbrev interruption_host : RuntimeHost W → RuntimeHost W
    interruption_host h = record h { world = (world.interrupted h.world).0 }

    pub interruption-Settles :
        (started done : Bool) (h : RuntimeHost W)
        → Flight started done h
        → Settles (Flight started done) (interruption world expected_core true h)
    unfolding interruption
    interruption-Settles started done h flight =
        let h1 : RuntimeHost W = interruption_host h in
        let mismatch : Bool = is_mismatch world expected_core h1 in
        either_branch (Settles (Flight started done))
          (is_none world (interruption_reason h) && not mismatch) flight
          (give_up_proven-Settles (Flight started done)
            (interruption_status world expected_core mismatch (interruption_reason h))
            (interruption_cause world expected_core mismatch (interruption_reason h)) h1 flight.0)

    pub start_core-Settles :
        (h : RuntimeHost W)
        → Flight false false h
        → Settles (Flight true false) (start_core world expected_core h)
    unfolding start_core note_start note
    start_core-Settles h flight =
        let called = world.core_start (not (is_empty expected_core)) h.world in
        let h1 : RuntimeHost W = record h { world = called.0; core_started = true } in
        either_branch (Settles (Flight true false)) (not (is_empty called.1))
          (then_step-Settles (Flight true false) (Flight true false)
            (interruption world expected_core true h1) _
            (interruption-Settles true false h1 (flight.0, refl, refl))
            (λ h2 f.
              give_up-Settles (Flight true false) Status.not_ready (text "core_start_failed")
                (note_start world expected_core failed failed h2) f.0))
          (flight.0, refl, refl)

    judge_egress-Settles :
        (error : List ℕ) (h : RuntimeHost W)
        → Flight true false h
        → Settles (Flight true false) (judge_egress world expected_core error h)
    unfolding judge_egress note
    judge_egress-Settles error h flight =
        either_branch (Settles (Flight true false)) (not (is_empty error))
          (give_up_proven-Settles (Flight true false) Status.not_ready (safe_egress_failure error)
            (note world ServiceEvent.runtime_egress_verify failed h) flight.0)
          flight

    pub verify_egress-Settles :
        (h : RuntimeHost W)
        → Flight true false h
        → Settles (Flight true false) (verify_egress world expected_core h)
    unfolding verify_egress note
    verify_egress-Settles h flight =
        let h1 : RuntimeHost W = note world ServiceEvent.runtime_egress_verify attempted h in
        let called = world.verify_egress false h1.world in
        let h2 : RuntimeHost W = record h1 { world = called.0 } in
        either_branch (Settles (Flight true false)) h.requires_bound_connect flight (
          then_step-Settles (Flight true false) (Flight true false)
            (interruption world expected_core true h2) (judge_egress world expected_core called.1)
            (interruption-Settles true false h2 flight)
            (λ h3 f. judge_egress-Settles called.1 h3 f))

    pub prove_extensions-Settles :
        (h : RuntimeHost W)
        → Flight true false h
        → Settles (Flight true false) (prove_extensions world expected_core h)
    unfolding prove_extensions
    prove_extensions-Settles h flight =
        let called = world.prove_local_dpi h.world in
        let h1 : RuntimeHost W = record h { world = called.0 } in
        either_branch (Settles (Flight true false)) (not (is_empty called.1))
          (give_up_silently-Settles (Flight true false) called.1 h1 flight.0) flight

    -- A stage recorded in the journal, with what it leaves.
    record_journal-kept :
        (next : RecoveryStage) (h : RuntimeHost W)
        → ((record_journal world expected_core next h).0.is_initialized ≡ h.is_initialized)
          × ((record_journal world expected_core next h).0.core_started ≡ h.core_started)
    unfolding record_journal
    record_journal-kept next h = elim (Option-cases h.recovery) [
      | inl lacks ↦ rw (record_journal, lacks) (refl, refl)
      | inr (r, has) ↦ rw (record_journal, has) (refl, refl)
    ]

    pub record_step-Settles :
        (started : Bool) (next : RecoveryStage) (noted : RuntimeHost W → RuntimeHost W)
        (abandon : List ℕ → RuntimeHost W → Step W) (h : RuntimeHost W)
        → ((error : List ℕ) (k : RuntimeHost W)
            → k.is_initialized ≡ true
            → Settles (Flight started false) (abandon error k))
        → ((k : RuntimeHost W) → (noted k).is_initialized ≡ k.is_initialized)
        → Flight started false h
        → Settles (Flight started false) (record_step world expected_core next noted abandon h)
    unfolding record_step
    record_step-Settles started next noted abandon h settles keeps (ready, going, _) =
        let (h1, error) = record_journal world expected_core next h in
        let (same, kept) = record_journal-kept next h in
        either_branch (Settles (Flight started false))
          (not (is_empty (record_journal world expected_core next h).1))
          (settles (record_journal world expected_core next h).1
            (noted (record_journal world expected_core next h).0)
            (keeps (record_journal world expected_core next h).0 ∙ (same ∙ ready)))
          (same ∙ ready, ap (λ b. not started || b) kept ∙ going, refl)

    -- The record of `committed` leaves a committed journal.
    record_journal-committed :
        (h : RuntimeHost W)
        → is_empty (record_journal world expected_core RecoveryStage.committed h).1 ≡ true
        → is_committed (record_journal world expected_core RecoveryStage.committed h).0.recovery
          ≡ true
    unfolding record_journal
    record_journal-committed h done = elim (Option-cases h.recovery) [
      | inl lacks ↦ cc (rw (record_journal, lacks) at done)
      | inr (r, has) ↦
          elim (record_stage-cases (world.write_outcome h.world).1 r RecoveryStage.committed) [
            | inl (same, wrong) ↦ cc (rw (record_journal, has) at done, wrong)
            | inr (stored, _, _) ↦ rw (record_journal, has, stored) refl
          ]
    ]

    pub record_committed-Settles :
        (noted : RuntimeHost W → RuntimeHost W) (abandon : List ℕ → RuntimeHost W → Step W)
        (h : RuntimeHost W)
        → ((error : List ℕ) (k : RuntimeHost W)
            → k.is_initialized ≡ true
            → Settles (Flight true true) (abandon error k))
        → ((k : RuntimeHost W) → (noted k).is_initialized ≡ k.is_initialized)
        → Flight true false h
        → Settles
            (Flight true true)
            (record_step world expected_core RecoveryStage.committed noted abandon h)
    unfolding record_step
    record_committed-Settles noted abandon h settles keeps (ready, going, _) =
        let (same, kept) = record_journal-kept RecoveryStage.committed h in
        branch_by (Settles (Flight true true))
          (not (is_empty (record_journal world expected_core RecoveryStage.committed h).1))
          (λ _.
            settles (record_journal world expected_core RecoveryStage.committed h).1
              (noted (record_journal world expected_core RecoveryStage.committed h).0)
              (keeps (record_journal world expected_core RecoveryStage.committed h).0
                ∙ (same ∙ ready)))
          (λ fine. (
            same ∙ ready,
            kept ∙ going,
            record_journal-committed h (
                not-true (is_empty (record_journal world expected_core RecoveryStage.committed h).1)
                  fine),
          ))
