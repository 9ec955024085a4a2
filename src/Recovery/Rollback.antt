-- ===== src/Recovery/Rollback.antt =====
-- Recovery/Machine: the snapshot that is restored, the refusal of an invalid journal, and the end of
-- a rollback.
use pokrov_app.Recovery.Durable.{
  begin_rollback-cases, complete_rollback-cases, stored_at, Synced, begin-cases, cleaned,
  finish_recovery-cases, record_stage-cases,
}
use pokrov_app.Base.{
  Bool, none, ◌∷◌, arith, false, refl, List, [], ap, inl, inr, text, true, ◌∙◌, ◌≡◌, ◌≢◌, ℕ,
}
use pokrov_app.Recovery.Stage.{RecoveryStage, clean, rolling_back, recovered, is_forward_transition}
use pokrov_app.Recovery.Journal.{JournalFile, load, is_hex_generation}
use pokrov_app.Recovery.Machine.{
  open_recovery, write, write_atomic_file, Recovery, WriteOutcome, replaced, requires_recovery,
  record_stage, begin, finish_recovery, begin_rollback, restore_network_state, complete_rollback,
}
use pokrov_app.Recovery.History.{
  run, open_recovery-loaded, Call, begins, records, begins_rollback, completes_rollback, restarts,
  step,
}

record_stage-snapshot :
    (outcome : WriteOutcome) (r : Recovery) (next : RecoveryStage)
    → (record_stage outcome r next).0.network_snapshot ≡ r.network_snapshot
record_stage-snapshot outcome r next = elim (record_stage-cases outcome r next) [
  | inl (same, _) ↦ ap (λ q. q.network_snapshot) same
  | inr (done, _, _) ↦ ap (λ q. q.0.network_snapshot) done
]

finish_recovery-snapshot :
    (outcome : WriteOutcome) (r : Recovery)
    → (finish_recovery outcome r).0.stage ≢ clean
    → (finish_recovery outcome r).0.network_snapshot ≡ r.network_snapshot
finish_recovery-snapshot outcome r n = elim (finish_recovery-cases outcome r) [
  | inl (same, _) ↦ ap (λ q. q.network_snapshot) same
  | inr (done, _) ↦ absurd (n (ap (λ q. q.0.stage) done))
]

-- While a transaction stays open no call and no restart changes the snapshot: what a rollback
-- restores is what `Begin` captured.
pub step-keeps_snapshot :
    (r : Recovery) (c : Call)
    → Synced r
    → r.stage ≢ clean
    → (step r c).stage ≢ clean
    → (step r c).network_snapshot ≡ r.network_snapshot
unfolding step
step-keeps_snapshot r (begins random _ capture _ outcome) v a b =
    elim (begin-cases random capture outcome r) [
      | inl same ↦ ap (λ q. q.network_snapshot) same
      | inr (_, at, _, _, _) ↦ absurd (a at)
    ]
step-keeps_snapshot r (records {s} p outcome) v a b = record_stage-snapshot outcome r s
step-keeps_snapshot r (begins_rollback outcome) v a b = elim (begin_rollback-cases outcome r) [
  | inl same ↦ ap (λ q. q.network_snapshot) same
  | inr (inl f) ↦
      ap (λ q. q.network_snapshot) f
      ∙ finish_recovery-snapshot outcome r (λ e. b (ap (λ q. q.stage) f ∙ e))
  | inr (inr w) ↦ ap (λ q. q.network_snapshot) w ∙ record_stage-snapshot outcome r rolling_back
]
step-keeps_snapshot r (completes_rollback first second) v a b =
    elim (complete_rollback-cases first second r) [
      | inl same ↦ ap (λ q. q.network_snapshot) same
      | inr (inl half) ↦ ap (λ q. q.network_snapshot) half ∙ record_stage-snapshot first r recovered
      | inr (inr whole) ↦
          ap (λ q. q.network_snapshot) whole
          ∙ finish_recovery-snapshot second _ (λ e. b (ap (λ q. q.stage) whole ∙ e))
          ∙ record_stage-snapshot first r recovered
    ]
step-keeps_snapshot r restarts v a b =
    ap (λ q. q.network_snapshot)
      (open_recovery-loaded r.has_paths r.has_network r.disk v.stored v.loads)
    ∙ ap (λ e. e.network_snapshot) (v.same_entry a)

-- A journal that cannot be loaded gives this state at every start.
open_recovery-unloaded :
    (paths network : Bool) (disk : JournalFile)
    → load disk ≡ none
    → ((open_recovery paths network disk).invalid ≡ true)
      × ((open_recovery paths network disk).has_paths ≡ paths)
      × ((open_recovery paths network disk).has_network ≡ network)
      × ((open_recovery paths network disk).disk ≡ disk)
unfolding open_recovery
open_recovery-unloaded paths network disk h = rw h (refl, refl, refl, refl)

step-invalid :
    (r : Recovery) (c : Call)
    → r.invalid ≡ true
    → open_recovery r.has_paths r.has_network r.disk ≡ r
    → step r c ≡ r
unfolding step begin record_stage begin_rollback complete_rollback
step-invalid r (begins random _ capture _ outcome) i same = rw i refl
step-invalid r (records p outcome) i same = rw i refl
step-invalid r (begins_rollback outcome) i same = rw i refl
step-invalid r (completes_rollback first second) i same = rw i refl
step-invalid r restarts i same = same

run-invalid :
    (r : Recovery) (cs : List Call)
    → r.invalid ≡ true
    → open_recovery r.has_paths r.has_network r.disk ≡ r
    → run r cs ≡ r
unfolding run
run-invalid r [] i same = refl
run-invalid r (c ∷ cs) i same =
    ap (λ q. run q cs) (step-invalid r c i same) ∙ run-invalid r cs i same

-- A service that starts on a journal that it cannot load: whatever is called then, and however often
-- the service is restarted, its state stays that of the start, the file is never written over, the
-- runtime keeps the need of recovery, and no network state is restored.
pub run-open_recovery :
    (paths network : Bool) (disk : JournalFile) (cs : List Call) (restore : List ℕ → List ℕ)
    → load disk ≡ none
    → let r = run (open_recovery paths network disk) cs in
      (r ≡ open_recovery paths network disk)
      × (r.disk ≡ disk)
      × (requires_recovery r ≡ true)
      × (restore_network_state restore r ≡ text "recovery_journal_invalid")
unfolding requires_recovery restore_network_state
run-open_recovery paths network disk cs restore h =
    let (bad, p, n, d) = open_recovery-unloaded paths network disk h in
    let r : Recovery = open_recovery paths network disk in
    let same = run-invalid r cs bad (simp (p, n, d) refl) in
    (
      same,
      ap (λ q. q.disk) same ∙ d,
      ap requires_recovery same ∙ rw bad refl,
      ap (restore_network_state restore) same ∙ rw bad refl,
    )

record_stage-replaced :
    (r : Recovery) (next : RecoveryStage)
    → r.invalid ≡ false
    → r.has_paths ≡ true
    → is_hex_generation r.generation ≡ true
    → is_forward_transition r.stage next ≡ true
    → record_stage replaced r next ≡ (stored_at r next, [])
unfolding record_stage write write_atomic_file
record_stage-replaced r next i p g f = ground arith

finish_recovery-replaced :
    (r : Recovery)
    → r.invalid ≡ false
    → r.has_paths ≡ true
    → is_hex_generation r.generation ≡ true
    → r.stage ≡ recovered
    → finish_recovery replaced r ≡ (cleaned r, [])
unfolding finish_recovery is_forward_transition
finish_recovery-replaced r i p g at =
    ground (arith, record_stage-replaced (record r { network_snapshot = [] }) clean)

first_half :
    (r : Recovery) (second : WriteOutcome)
    → Synced r
    → r.has_paths ≡ true
    → r.stage ≡ rolling_back
    → complete_rollback replaced second r ≡ finish_recovery second (stored_at r recovered)
unfolding complete_rollback is_forward_transition
first_half r second v p at =
    let g = (v.is_entry (λ e. cc)).generation in
    ground (arith, v.valid, record_stage-replaced r recovered)

-- A rollback whose two writes succeed ends clean on disk and in memory, with an empty snapshot.
pub complete_rollback_ends :
    (r : Recovery)
    → Synced r
    → r.has_paths ≡ true
    → r.stage ≡ rolling_back
    → complete_rollback replaced replaced r ≡ (cleaned r, [])
complete_rollback_ends r v p at =
    let g = (v.is_entry (λ e. cc)).generation in
    first_half r replaced v p at ∙ finish_recovery-replaced (stored_at r recovered) v.valid p g refl

record_stage-fails :
    (outcome : WriteOutcome) (r : Recovery) (next : RecoveryStage)
    → outcome ≢ replaced
    → r.invalid ≡ false
    → is_forward_transition r.stage next ≡ true
    → record_stage outcome r next ≡ (r, text "recovery_write_failed")
unfolding record_stage write write_atomic_file
record_stage-fails replaced r next n i f = absurd (n refl)
record_stage-fails outcome r next n i f = ground arith

finish_recovery-fails :
    (outcome : WriteOutcome) (r : Recovery)
    → outcome ≢ replaced
    → r.invalid ≡ false
    → r.stage ≡ recovered
    → finish_recovery outcome r ≡ (r, text "recovery_write_failed")
unfolding finish_recovery is_forward_transition
finish_recovery-fails outcome r n i at =
    ground (arith, record_stage-fails outcome (record r { network_snapshot = [] }) clean n)

-- A rollback in which a write fails. If it is the first, nothing is changed, in memory or on disk; if
-- it is the second, memory and disk hold the stage `recovered` with the generation and the snapshot
-- kept. Either way the call reports the failed write, and recovery is still required.
pub complete_rollback_half :
    (r : Recovery) (outcome later : WriteOutcome)
    → Synced r
    → r.has_paths ≡ true
    → r.stage ≡ rolling_back
    → outcome ≢ replaced
    → (complete_rollback outcome later r ≡ (r, text "recovery_write_failed"))
      × (complete_rollback replaced outcome r
          ≡ (stored_at r recovered, text "recovery_write_failed"))
      × (requires_recovery (complete_rollback outcome later r).0 ≡ true)
      × (requires_recovery (complete_rollback replaced outcome r).0 ≡ true)
unfolding complete_rollback requires_recovery is_forward_transition
complete_rollback_half r outcome later v p at n =
    let refuses = record_stage-fails outcome r recovered n v.valid in
    let first : complete_rollback outcome later r ≡ (r, text "recovery_write_failed") =
      ground (arith, v.valid, refuses) in
    let second =
      first_half r outcome v p at
      ∙ finish_recovery-fails outcome (stored_at r recovered) n v.valid refl in
    (
      first,
      second,
      ap (λ q. requires_recovery q.0) first ∙ ground arith,
      ap (λ q. requires_recovery q.0) second ∙ ground arith,
    )
