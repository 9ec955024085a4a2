-- ===== src/Recovery/Durable.antt =====
-- Recovery/Machine: after every call the journal on disk holds the stage in memory, so a service
-- that dies at any point finds the transaction where it stood.
use pokrov_app.Recovery.JournalLaws.{load-journal_text, IsEntry}
use pokrov_app.Recovery.Journal.{
  max_network_snapshot_size, zero_generation, check_entry, holds, Entry, is_hex_generation,
  journal_text, load,
}
use pokrov_app.Base.{
  hex_pairs-is_hex, length-hex_pairs, ◌≤◌, List, Option, all_of, bytes_eq, hex_pairs, is_byte,
  length, none, ℕ, inl, inr, refl, subst, sym, [], arith, is_empty, false, some, true, ◌≡◌, ◌≢◌,
  ◌⊎◌,
}
use pokrov_app.Recovery.Stage.{
  rolling_back, recovered, snapshotted, RecoveryStage, clean, is_forward_transition,
}
use pokrov_app.Recovery.Machine.{
  new_generation, Capture, begin, begin_rollback, complete_rollback, finish_recovery, Recovery,
  entry_of, WriteOutcome, replaced, write_atomic_file, write, record_stage,
}

-- The journal agrees with the state: in its stage, and outside `clean` in the whole entry.
pub record Synced (r : Recovery) : Type 0 where
  pub valid : r.invalid ≡ false
  pub stored : Entry
  pub loads : load r.disk ≡ some stored
  pub same_stage : stored.stage ≡ r.stage
  pub same_entry : r.stage ≢ clean → stored ≡ entry_of r
  pub is_entry : r.stage ≢ clean → IsEntry (entry_of r)

-- The two ways in which a write ends.
write-cases :
    (outcome : WriteOutcome) (r : Recovery)
    → (write outcome r ≡ (r, false))
      ⊎ ((write outcome r ≡ (record r { disk = holds (journal_text (entry_of r)) }, true))
          × (is_hex_generation r.generation ≡ true))
unfolding write write_atomic_file
write-cases replaced r = grind arith
write-cases _ r = grind arith

abbrev pub stored_at : Recovery → RecoveryStage → Recovery
stored_at r next = record r {
  stage = next;
  disk = holds (
      journal_text (record {
        stage = next;
        generation = r.generation;
        network_snapshot = r.network_snapshot;
      }));
}

-- A stage is recorded in memory and on disk together, or not at all.
pub record_stage-cases :
    (outcome : WriteOutcome) (r : Recovery) (next : RecoveryStage)
    → (((record_stage outcome r next).0 ≡ r) × (is_empty (record_stage outcome r next).1 ≡ false))
      ⊎ ((record_stage outcome r next ≡ (stored_at r next, []))
          × (is_hex_generation r.generation ≡ true)
          × (is_forward_transition r.stage next ≡ true))
unfolding record_stage
record_stage-cases outcome r next = ground (arith, write-cases outcome (record r { stage = next }))

stored_at-Synced :
    (r : Recovery) (next : RecoveryStage)
    → r.invalid ≡ false
    → IsEntry
        (record { stage = next; generation = r.generation; network_snapshot = r.network_snapshot })
    → Synced (stored_at r next)
stored_at-Synced r next i v = record {
  valid = i;
  stored = record {
    stage = next;
    generation = r.generation;
    network_snapshot = r.network_snapshot;
  };
  loads = load-journal_text _ v;
  same_stage = refl;
  same_entry = λ _. refl;
  is_entry = λ _. v;
}

check_entry-restage :
    (e : Entry) (s : RecoveryStage)
    → e.stage ≢ clean
    → s ≢ clean
    → check_entry e ≡ some e
    → check_entry (record e { stage = s }) ≡ some (record e { stage = s })
check_entry-restage e s a b h = ground arith

IsEntry-restage :
    (e : Entry) (s : RecoveryStage)
    → e.stage ≢ clean
    → s ≢ clean
    → IsEntry e
    → IsEntry (record e { stage = s })
IsEntry-restage e s a b v = record {
  generation = v.generation;
  bytes = v.bytes;
  size = v.size;
  checked = check_entry-restage e s a b v.checked;
}

forward-ne_clean :
    (a b : RecoveryStage) → is_forward_transition a b ≡ true → b ≢ snapshotted → a ≢ clean
unfolding is_forward_transition
forward-ne_clean a b h n e = ground arith

-- Recording a stage past the snapshot and short of `clean` keeps the agreement.
pub record_stage-Synced :
    (outcome : WriteOutcome) (r : Recovery) (next : RecoveryStage)
    → next ≢ clean
    → next ≢ snapshotted
    → Synced r
    → Synced (record_stage outcome r next).0
record_stage-Synced outcome r next c s v = elim (record_stage-cases outcome r next) [
  | inl (same, _) ↦ subst Synced (sym same) v
  | inr (done, _, forward) ↦
      let was = forward-ne_clean r.stage next forward s in
      subst (λ q. Synced q.0) (sym done)
        (stored_at-Synced r next v.valid (IsEntry-restage (entry_of r) next was c (v.is_entry was)))
]

abbrev pub cleaned : Recovery → Recovery
cleaned r = stored_at (record r { network_snapshot = [] }) clean

-- The snapshot is cleared with the record of `clean`, and is back if that record fails.
pub finish_recovery-cases :
    (outcome : WriteOutcome) (r : Recovery)
    → (((finish_recovery outcome r).0 ≡ r) × (is_empty (finish_recovery outcome r).1 ≡ false))
      ⊎ ((finish_recovery outcome r ≡ (cleaned r, [])) × (is_hex_generation r.generation ≡ true))
unfolding finish_recovery
finish_recovery-cases outcome r =
    ground (arith, record_stage-cases outcome (record r { network_snapshot = [] }) clean)

cleaned-Synced :
    (r : Recovery) → r.invalid ≡ false → is_hex_generation r.generation ≡ true → Synced (cleaned r)
cleaned-Synced r v g =
    stored_at-Synced (record r { network_snapshot = [] }) clean v
      (record { generation = g; bytes = refl; size = omega arith; checked = refl })

pub finish_recovery-Synced :
    (outcome : WriteOutcome) (r : Recovery) → Synced r → Synced (finish_recovery outcome r).0
finish_recovery-Synced outcome r v = elim (finish_recovery-cases outcome r) [
  | inl (same, _) ↦ subst Synced (sym same) v
  | inr (done, g) ↦ subst (λ q. Synced q.0) (sym done) (cleaned-Synced r v.valid g)
]

pub begin_rollback-cases :
    (outcome : WriteOutcome) (r : Recovery)
    → ((begin_rollback outcome r).0 ≡ r)
      ⊎ (((begin_rollback outcome r).0 ≡ (finish_recovery outcome r).0)
          ⊎ ((begin_rollback outcome r).0 ≡ (record_stage outcome r rolling_back).0))
unfolding begin_rollback
begin_rollback-cases outcome r = grind arith

pub complete_rollback-cases :
    (first second : WriteOutcome) (r : Recovery)
    → let written = (record_stage first r recovered).0 in
      ((complete_rollback first second r).0 ≡ r)
      ⊎ (((complete_rollback first second r).0 ≡ written)
          ⊎ ((complete_rollback first second r).0 ≡ (finish_recovery second written).0))
unfolding complete_rollback
complete_rollback-cases first second r = grind arith

pub begin_rollback-Synced :
    (outcome : WriteOutcome) (r : Recovery) → Synced r → Synced (begin_rollback outcome r).0
begin_rollback-Synced outcome r v = elim (begin_rollback-cases outcome r) [
  | inl same ↦ subst Synced (sym same) v
  | inr (inl finishing) ↦ subst Synced (sym finishing) (finish_recovery-Synced outcome r v)
  | inr (inr recording) ↦
      subst Synced (sym recording)
        (record_stage-Synced outcome r rolling_back (λ e. cc) (λ e. cc) v)
]

pub complete_rollback-Synced :
    (first second : WriteOutcome) (r : Recovery)
    → Synced r
    → Synced (complete_rollback first second r).0
complete_rollback-Synced first second r v =
    let w = record_stage-Synced first r recovered (λ e. cc) (λ e. cc) v in
    elim (complete_rollback-cases first second r) [
      | inl same ↦ subst Synced (sym same) v
      | inr (inl half) ↦ subst Synced (sym half) w
      | inr (inr whole) ↦ subst Synced (sym whole) (finish_recovery-Synced second _ w)
    ]

-- What the generator and the backend may hand to `Begin`.
abbrev pub IsRandom : Option (List ℕ) → Type 0
IsRandom none = Unit {0}
IsRandom (some bytes) =
    (length bytes ≡ 16)
    × (all_of is_byte bytes ≡ true)
    × (bytes_eq (hex_pairs bytes) zero_generation ≡ false)

abbrev pub begun : Recovery → Option (List ℕ) → Capture → Recovery
begun r random capture = record r {
  generation = new_generation random;
  network_snapshot = capture.snapshot;
}

pub begin-cases :
    (random : Option (List ℕ)) (capture : Capture) (outcome : WriteOutcome) (r : Recovery)
    → ((begin random capture outcome r).0 ≡ r)
      ⊎ ((begin random capture outcome r
            ≡ record_stage outcome (begun r random capture) snapshotted)
          × (r.stage ≡ clean)
          × (is_empty (new_generation random) ≡ false)
          × (is_empty capture.snapshot ≡ false)
          × (length capture.snapshot ≤ max_network_snapshot_size))
unfolding begin
begin-cases random capture outcome r = ground arith

begun-IsEntry :
    (random : Option (List ℕ)) (snapshot : List ℕ)
    → IsRandom random
    → all_of is_byte snapshot ≡ true
    → is_empty (new_generation random) ≡ false
    → is_empty snapshot ≡ false
    → length snapshot ≤ max_network_snapshot_size
    → IsEntry (record {
      stage = snapshotted;
      generation = new_generation random;
      network_snapshot = snapshot;
    })
unfolding new_generation is_hex_generation
begun-IsEntry none snapshot a b e n s = ground arith
begun-IsEntry (some bytes) snapshot (count, valid, fresh) b e n s = record {
  generation = ground (arith, length-hex_pairs bytes, hex_pairs-is_hex bytes valid);
  bytes = b;
  size = s;
  checked = rw (fresh, n);
}

begun-Synced :
    (r : Recovery) (random : Option (List ℕ)) (capture : Capture)
    → r.stage ≡ clean
    → Synced r
    → Synced (begun r random capture)
begun-Synced r random capture at v = record {
  valid = v.valid;
  stored = v.stored;
  loads = v.loads;
  same_stage = v.same_stage;
  same_entry = λ n. absurd (n at);
  is_entry = λ n. absurd (n at);
}

pub begin-Synced :
    (random : Option (List ℕ)) (capture : Capture) (outcome : WriteOutcome) (r : Recovery)
    → IsRandom random
    → all_of is_byte capture.snapshot ≡ true
    → Synced r
    → Synced (begin random capture outcome r).0
begin-Synced random capture outcome r a b v = elim (begin-cases random capture outcome r) [
  | inl same ↦ subst Synced (sym same) v
  | inr (recording, at, e, n, size) ↦
      subst (λ q. Synced q.0) (sym recording)
        (elim (record_stage-cases outcome (begun r random capture) snapshotted) [
          | inl (failed, _) ↦ subst Synced (sym failed) (begun-Synced r random capture at v)
          | inr (done, _, _) ↦
              subst (λ q. Synced q.0) (sym done)
                (stored_at-Synced (begun r random capture) snapshotted v.valid
                  (begun-IsEntry random capture.snapshot a b e n size))
        ])
]
