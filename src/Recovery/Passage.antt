-- ===== src/Recovery/Passage.antt =====
-- Recovery/History: the order in which the stages of a transaction come.
use pokrov_app.Base.{
  arith, ap, subst, sym, ◌∙◌, ◌≡◌, ◌≢◌, ◌⊎◌, ◌≤◌, inl, inr, refl, true, List, [], ◌∷◌, ◌++◌, ℕ,
}
use pokrov_app.Recovery.Stage.{
  RecoveryStage-discrete, RecoveryStage, clean, snapshotted, core_started, network_applied,
  verified, committed, rolling_back, recovered, is_forward_transition,
}
use pokrov_app.Recovery.Machine.{Recovery, WriteOutcome, record_stage, finish_recovery}
use pokrov_app.Recovery.Durable.{
  Synced, record_stage-cases, begin-cases, begin_rollback-cases, complete_rollback-cases,
}
use pokrov_app.Recovery.History.{
  step-Synced, Call, begins, records, begins_rollback, completes_rollback, restarts, step, run,
  open_recovery-loaded,
}
use pokrov_app.Recovery.Rollback.{step-keeps_snapshot}

-- How one call may move the stage: not at all, forward, or in both steps of a rollback's end.
abbrev pub Moves : RecoveryStage → RecoveryStage → Type 0
Moves a b = (b ≡ a) ⊎ ((is_forward_transition a b ≡ true) ⊎ ((a ≡ rolling_back) × (b ≡ clean)))

record_stage-Moves :
    (outcome : WriteOutcome) (r : Recovery) (next : RecoveryStage)
    → ((record_stage outcome r next).0.stage ≡ r.stage)
      ⊎ (((record_stage outcome r next).0.stage ≡ next)
          × (is_forward_transition r.stage next ≡ true))
record_stage-Moves outcome r next = elim (record_stage-cases outcome r next) [
  | inl (same, _) ↦ inl (ap (λ q. q.stage) same)
  | inr (done, _, forward) ↦ inr (ap (λ q. q.0.stage) done, forward)
]

finish_recovery-Moves :
    (outcome : WriteOutcome) (r : Recovery)
    → ((finish_recovery outcome r).0.stage ≡ r.stage)
      ⊎ (((finish_recovery outcome r).0.stage ≡ clean)
          × (is_forward_transition r.stage clean ≡ true))
unfolding finish_recovery
finish_recovery-Moves outcome r =
    ground (arith, record_stage-Moves outcome (record r { network_snapshot = [] }) clean)

into_recovered : (b : RecoveryStage) → is_forward_transition b recovered ≡ true → b ≡ rolling_back
unfolding is_forward_transition
into_recovered b f = ground arith

-- A stage that a move reaches from `a`, by what it is.
abbrev moved :
    {a b : RecoveryStage} (next : RecoveryStage)
    → (b ≡ a) ⊎ ((b ≡ next) × (is_forward_transition a next ≡ true))
    → Moves a b
moved next (inl same) = inl same
moved {a} next (inr (e, f)) = inr (inl (subst (λ t. is_forward_transition a t ≡ true) (sym e) f))

-- The end of a rollback: behind `written`, which records `recovered` or fails.
finish-Moves :
    {a : RecoveryStage} (outcome : WriteOutcome) (written : Recovery)
    → (written.stage ≡ a)
      ⊎ ((written.stage ≡ recovered) × (is_forward_transition a recovered ≡ true))
    → Moves a (finish_recovery outcome written).0.stage
finish-Moves {a} outcome written w = elim (finish_recovery-Moves outcome written) [
  | inl same ↦ subst (λ t. Moves a t) (sym same) (moved recovered w)
  | inr (done, forward) ↦ elim w [
    | inl kept ↦ inr (
        inl (
          subst (λ t. is_forward_transition a t ≡ true) (sym done)
            (subst (λ t. is_forward_transition t clean ≡ true) kept forward)))
    | inr (at, f) ↦ inr (inr (into_recovered a f, done))
  ]
]

step-Moves : (r : Recovery) (c : Call) → Synced r → Moves r.stage (step r c).stage
unfolding step
step-Moves r (begins random _ capture _ outcome) v = elim (begin-cases random capture outcome r) [
  | inl same ↦ inl (ap (λ q. q.stage) same)
  | inr (recording, _, _, _, _) ↦
      subst (λ q. Moves r.stage q.0.stage) (sym recording)
        (moved snapshotted (record_stage-Moves outcome _ snapshotted))
]
step-Moves r (records {s} p outcome) v = moved s (record_stage-Moves outcome r s)
step-Moves r (begins_rollback outcome) v = elim (begin_rollback-cases outcome r) [
  | inl same ↦ inl (ap (λ q. q.stage) same)
  | inr (inl f) ↦
      subst (λ q. Moves r.stage q.stage) (sym f) (moved clean (finish_recovery-Moves outcome r))
  | inr (inr w) ↦
      subst (λ q. Moves r.stage q.stage) (sym w)
        (moved rolling_back (record_stage-Moves outcome r rolling_back))
]
step-Moves r (completes_rollback first second) v = elim (complete_rollback-cases first second r) [
  | inl same ↦ inl (ap (λ q. q.stage) same)
  | inr (inl half) ↦
      subst (λ q. Moves r.stage q.stage) (sym half)
        (moved recovered (record_stage-Moves first r recovered))
  | inr (inr whole) ↦
      subst (λ q. Moves r.stage q.stage) (sym whole)
        (finish-Moves second _ (record_stage-Moves first r recovered))
]
step-Moves r restarts v =
    let e = open_recovery-loaded r.has_paths r.has_network r.disk v.stored v.loads in
    inl (ap (λ q. q.stage) e ∙ v.same_stage)

-- The stages of one transaction in their order, from the snapshot to its end.
unfoldable pub rank : RecoveryStage → ℕ
rank clean = 0
rank snapshotted = 1
rank core_started = 2
rank network_applied = 3
rank verified = 4
rank committed = 5
rank rolling_back = 6
rank recovered = 7

forward-rank :
    (a b : RecoveryStage) → is_forward_transition a b ≡ true → b ≢ clean → rank a ≤ rank b
unfolding is_forward_transition rank
forward-rank a b f n = ground arith

Moves-rank : {a b : RecoveryStage} → Moves a b → b ≢ clean → rank a ≤ rank b
Moves-rank {a} {b} (inl same) n = rw same (omega arith)
Moves-rank {a} {b} (inr (inl f)) n = forward-rank a b f n
Moves-rank (inr (inr (at, ends))) n = absurd (n ends)

-- No call of the history leaves the journal clean.
abbrev pub StaysOpen : Recovery → List Call → Type 0
StaysOpen r [] = Unit
StaysOpen r (c ∷ cs) = ((step r c).stage ≢ clean) × StaysOpen (step r c) cs

-- The history passes a state that satisfies `P`.
abbrev pub Passes : (Recovery → Type 0) → Recovery → List Call → Type 0
Passes P r cs =
    (before : List Call) × (after : List Call) × (cs ≡ before ++ after) × P (run r before)

Passes-now : (P : Recovery → Type 0) (r : Recovery) (cs : List Call) → P r → Passes P r cs
unfolding run
Passes-now P r cs p = ([], cs, refl, p)

Passes-later :
    (P : Recovery → Type 0) (r : Recovery) (c : Call) (cs : List Call)
    → Passes P (step r c) cs
    → Passes P r (c ∷ cs)
unfolding run
Passes-later P r c cs (before, after, e, p) = (c ∷ before, after, ap (λ l. c ∷ l) e, p)

into_committed : (b : RecoveryStage) → is_forward_transition b committed ≡ true → b ≡ verified
unfolding is_forward_transition
into_committed b f = ground arith

into_clean : (b : RecoveryStage) → is_forward_transition b clean ≡ true → b ≡ recovered
unfolding is_forward_transition
into_clean b f = ground arith

Moves-committed : {a b : RecoveryStage} → Moves a b → b ≡ committed → a ≢ committed → a ≡ verified
Moves-committed (inl same) e n = absurd (n (sym same ∙ e))
Moves-committed {a} (inr (inl f)) e n =
    into_committed a (subst (λ t. is_forward_transition a t ≡ true) e f)
Moves-committed (inr (inr (at, ends))) e n = cc

Moves-clean :
    {a b : RecoveryStage} → Moves a b → b ≡ clean → a ≢ clean → a ≢ recovered → a ≡ rolling_back
Moves-clean (inl same) e n m = absurd (n (sym same ∙ e))
Moves-clean {a} (inr (inl f)) e n m =
    absurd (m (into_clean a (subst (λ t. is_forward_transition a t ≡ true) e f)))
Moves-clean (inr (inr (at, ends))) e n m = at

Moves-recovered :
    {a b : RecoveryStage} → Moves a b → b ≡ recovered → a ≢ recovered → a ≡ rolling_back
Moves-recovered (inl same) e n = absurd (n (sym same ∙ e))
Moves-recovered {a} (inr (inl f)) e n =
    into_recovered a (subst (λ t. is_forward_transition a t ≡ true) e f)
Moves-recovered (inr (inr (at, ends))) e n = at

rank-run-le :
    (r : Recovery) (cs : List Call)
    → Synced r
    → StaysOpen r cs
    → rank r.stage ≤ rank (run r cs).stage
unfolding run
rank-run-le r [] v unclosed = omega arith
rank-run-le r (c ∷ cs) v (unclosed, stays) =
    let first = Moves-rank (step-Moves r c v) unclosed in
    let others = rank-run-le (step r c) cs (step-Synced r c v) stays in omega (arith, first, others)

-- A history that ends committed began so, or has passed `verified`.
run-committed :
    (r : Recovery) (cs : List Call)
    → Synced r
    → (run r cs).stage ≡ committed
    → (r.stage ≡ committed) ⊎ Passes (λ q. q.stage ≡ verified) r cs
unfolding run
run-committed r [] v e = inl e
run-committed r (c ∷ cs) v e = elim (run-committed (step r c) cs (step-Synced r c v) e) [
  | inr later ↦ inr (Passes-later (λ q. q.stage ≡ verified) r c cs later)
  | inl now ↦ elim (RecoveryStage-discrete r.stage committed) [
    | yes was ↦ inl was
    | no other ↦ inr (
        Passes-now (λ q. q.stage ≡ verified) r (c ∷ cs)
          (Moves-committed (step-Moves r c v) now other))
  ]
]

-- Over any history that leaves the transaction open, restarts included, the stage never moves back
-- in the order of a transaction; and a history that ends committed began so, or has passed `verified`.
pub run-keeps_order :
    (r : Recovery) (cs : List Call)
    → Synced r
    → StaysOpen r cs
    → (rank r.stage ≤ rank (run r cs).stage)
      × (((run r cs).stage ≢ committed)
          ⊎ ((r.stage ≡ committed) ⊎ Passes (λ q. q.stage ≡ verified) r cs))
run-keeps_order r cs v unclosed = (
  rank-run-le r cs v unclosed,
  elim (RecoveryStage-discrete (run r cs).stage committed) [
    | no other ↦ inl other
    | yes e ↦ inr (run-committed r cs v e)
  ],
)

-- In a state that is rolling back, with this snapshot.
abbrev pub RollsBack : List ℕ → Recovery → Type 0
RollsBack snapshot q = (q.stage ≡ rolling_back) × (q.network_snapshot ≡ snapshot)

-- A history that begins in an open transaction, not yet recovered, and ends clean has passed a state
-- that was rolling back and still held the snapshot of that transaction: no call and no restart
-- closes a transaction in another way.
pub run-clean :
    (r : Recovery) (cs : List Call)
    → Synced r
    → r.stage ≢ clean
    → r.stage ≢ recovered
    → (run r cs).stage ≡ clean
    → Passes (RollsBack r.network_snapshot) r cs
unfolding run
run-clean r [] v n m e = absurd (n e)
run-clean r (c ∷ cs) v n m e = elim (RecoveryStage-discrete r.stage rolling_back) [
  | yes at ↦ Passes-now (RollsBack r.network_snapshot) r (c ∷ cs) (at, refl)
  | no other ↦
      let move = step-Moves r c v in
      let unclosed : (step r c).stage ≢ clean = λ ends. other (Moves-clean move ends n m) in
      let unfinished : (step r c).stage ≢ recovered = λ ends. other (Moves-recovered move ends m) in
      let kept = step-keeps_snapshot r c v n unclosed in
      Passes-later (RollsBack r.network_snapshot) r c cs (
        subst (λ t. Passes (RollsBack t) (step r c) cs) kept
          (run-clean (step r c) cs (step-Synced r c v) unclosed unfinished e))
]
