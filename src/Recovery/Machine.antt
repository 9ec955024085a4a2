-- ===== src/Recovery/Machine.antt =====
-- service_recovery.cpp, `DurableRuntimeRecovery`. The journal's file is part of the state. What the
-- system does in a call (random bytes, the captured snapshot, how far a write gets) is an argument.
use pokrov_app.Recovery.Journal.{
  holds, Entry, JournalFile, is_hex_generation, journal_text, load, max_network_snapshot_size,
  zero_generation,
}
use pokrov_app.Base.{
  Bool, List, Option, [], false, hex_pairs, if◌then◌else◌, is_empty, length, ltb, none, not, some,
  text, true, ◌||◌, ℕ,
}
use pokrov_app.Recovery.Stage.{
  RecoveryStage, clean, snapshotted, rolling_back, recovered, is_forward_transition,
}

pub record Recovery : Type 0 where
  pub has_paths : Bool
  pub has_network : Bool
  pub stage : RecoveryStage
  pub generation : List ℕ
  pub network_snapshot : List ℕ
  pub invalid : Bool
  pub disk : JournalFile

abbrev pub entry_of : Recovery → Entry
entry_of r = record {
  stage = r.stage;
  generation = r.generation;
  network_snapshot = r.network_snapshot;
}

-- How far `WriteAtomicFile` gets: the journal is replaced by one move at the end, or not at all.
pub data WriteOutcome : Type 0 where
  create_failed write_failed move_failed replaced : WriteOutcome

unfoldable pub write_atomic_file : WriteOutcome → JournalFile → List ℕ → JournalFile × Bool
write_atomic_file replaced target content = (holds content, true)
write_atomic_file _ target content = (target, false)

unfoldable pub write : WriteOutcome → Recovery → Recovery × Bool
unfolding write_atomic_file
write outcome r =
    if not r.has_paths || not (is_hex_generation r.generation)
    then (r, false)
    else let (disk, done) = write_atomic_file outcome r.disk (journal_text (entry_of r)) in
      (record r { disk = disk }, done)

-- A loaded entry, or `invalid_` with the initial members.
abbrev opened : Bool → Bool → JournalFile → Option Entry → Recovery
opened paths network disk none = record {
  has_paths = paths;
  has_network = network;
  stage = clean;
  generation = zero_generation;
  network_snapshot = [];
  invalid = true;
  disk = disk;
}
opened paths network disk (some e) = record {
  has_paths = paths;
  has_network = network;
  stage = e.stage;
  generation = e.generation;
  network_snapshot = e.network_snapshot;
  invalid = false;
  disk = disk;
}

-- The constructor, with its call of `Load`.
unfoldable pub open_recovery : Bool → Bool → JournalFile → Recovery
open_recovery paths network disk = opened paths network disk (load disk)

abbrev is_clean : RecoveryStage → Bool
is_clean clean = true
is_clean _ = false

unfoldable pub requires_recovery : Recovery → Bool
requires_recovery r = r.invalid || not (is_clean r.stage)

-- Each operation gives the new state and the error text, which is empty for success.
unfoldable pub record_stage : WriteOutcome → Recovery → RecoveryStage → Recovery × List ℕ
record_stage outcome r next =
    if r.invalid
    then (r, text "recovery_journal_invalid")
    else if not (is_forward_transition r.stage next)
    then (r, text "recovery_stage_invalid")
    else let (written, done) = write outcome (record r { stage = next }) in
      if done
      then (written, [])
      else (record written { stage = r.stage }, text "recovery_write_failed")

-- `NewGeneration`: sixteen random bytes in hexadecimal, or nothing if the generator failed.
unfoldable pub new_generation : Option (List ℕ) → List ℕ
new_generation none = []
new_generation (some bytes) = hex_pairs bytes

pub record Capture : Type 0 where
  pub error : List ℕ
  pub snapshot : List ℕ

unfoldable pub begin : Option (List ℕ) → Capture → WriteOutcome → Recovery → Recovery × List ℕ
begin random capture outcome r =
    if r.invalid
    then (r, text "recovery_journal_invalid")
    else if not (is_clean r.stage)
    then (r, text "recovery_required")
    else if is_empty (new_generation random)
    then (r, text "recovery_generation_failed")
    else if not r.has_network
    then (r, text "recovery_network_unavailable")
    else if not (is_empty capture.error)
    then (r, capture.error)
    else if is_empty capture.snapshot || ltb max_network_snapshot_size (length capture.snapshot)
    then (r, text "recovery_network_snapshot_invalid")
    else record_stage outcome
        (record r { generation = new_generation random; network_snapshot = capture.snapshot })
        snapshotted

unfoldable pub finish_recovery : WriteOutcome → Recovery → Recovery × List ℕ
finish_recovery outcome r =
    let (finished, error) = record_stage outcome (record r { network_snapshot = [] }) clean in
    if is_empty error
    then (finished, error)
    else (record finished { network_snapshot = r.network_snapshot }, error)

unfoldable pub begin_rollback : WriteOutcome → Recovery → Recovery × List ℕ
begin_rollback outcome r =
    if r.invalid then (r, text "recovery_journal_invalid") else elim r.stage [
      | clean ↦ (r, [])
      | rolling_back ↦ (r, [])
      | recovered ↦ finish_recovery outcome r
      | _ ↦ record_stage outcome r rolling_back
    ]

-- The backend's `Restore` is the argument `restore`; it gives an error text.
unfoldable pub restore_network_state : (List ℕ → List ℕ) → Recovery → List ℕ
restore_network_state restore r =
    if r.invalid then text "recovery_journal_invalid" else elim r.stage [
      | clean ↦ []
      | rolling_back ↦
          if not r.has_network
          then text "recovery_network_unavailable"
          else if is_empty r.network_snapshot
              || ltb max_network_snapshot_size (length r.network_snapshot)
          then text "recovery_network_snapshot_invalid"
          else restore r.network_snapshot
      | _ ↦ text "recovery_stage_invalid"
    ]

unfoldable pub complete_rollback : WriteOutcome → WriteOutcome → Recovery → Recovery × List ℕ
complete_rollback first second r =
    if r.invalid then (r, text "recovery_journal_invalid") else elim r.stage [
      | clean ↦ (r, [])
      | rolling_back ↦
          let (written, error) = record_stage first r recovered in
          if is_empty error then finish_recovery second written else (written, error)
      | _ ↦ (r, text "recovery_stage_invalid")
    ]
