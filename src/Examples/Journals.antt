-- ===== src/Examples/Journals.antt =====
-- Transactions of service_recovery.cpp.
use pokrov_app.Recovery.Rollback.{
  run-open_recovery, complete_rollback_half, step-keeps_snapshot, complete_rollback_ends,
}
use pokrov_app.Recovery.Durable.{record_stage-cases, stored_at, cleaned, IsRandom, Synced}
use pokrov_app.Recovery.JournalLaws.{IsEntry, load-journal_text, parse-journal_text}
use pokrov_app.Recovery.JournalSound.{parse_journal_sound}
use pokrov_app.Base.{
  none, text, ◌≤◌, subst, is_empty, ◌⊎◌, List, Option, [], arith, false, hex_pairs, refl, replicate,
  some, true, ◌∷◌, ◌≡◌, ℕ,
}
use pokrov_app.Recovery.Stage.{committed, is_forward_transition, clean, recovered, rolling_back}
use pokrov_app.Recovery.Journal.{
  unreadable, holds, Entry, initial_entry, is_hex_generation, journal_text, load, zero_generation,
  absent,
}
use pokrov_app.Recovery.Machine.{
  restore_network_state, write_atomic_file, begin_rollback, finish_recovery, requires_recovery,
  write, entry_of, record_stage, complete_rollback, Capture, Recovery, open_recovery, replaced,
  move_failed,
}
use pokrov_app.Recovery.Passage.{run-clean, run-keeps_order, rank, StaysOpen, Passes, RollsBack}
use pokrov_app.Recovery.History.{
  step, run, open_recovery-loaded, restart-entry, open_recovery-Synced, run-Synced, Call, begins,
  records, begins_rollback, completes_rollback, restarts, core_start,
}

abbrev first : Recovery
first = record {
  has_paths = true;
  has_network = true;
  stage = clean;
  generation = zero_generation;
  network_snapshot = [];
  invalid = false;
  disk = absent;
}

first-Synced : Synced first
unfolding open_recovery load
first-Synced = open_recovery-Synced true true absent initial_entry refl

abbrev random : Option (List ℕ)
random = some (replicate 16 7)

abbrev capture : Capture
capture = record { error = []; snapshot = 1 ∷ 2 ∷ 3 ∷ [] }

random-IsRandom : IsRandom random
unfolding hex_pairs
random-IsRandom = (refl, refl, refl)

-- A transaction that is rolled back behind a failed write and a restart.
abbrev calls : List Call
calls =
    begins random random-IsRandom capture refl replaced
    ∷ records core_start move_failed
    ∷ restarts
    ∷ begins_rollback replaced
    ∷ []

run-Synced_example : Synced (run first calls)
run-Synced_example = run-Synced first calls first-Synced

abbrev open_entry : Entry
open_entry = record {
  stage = rolling_back;
  generation = hex_pairs (replicate 16 7);
  network_snapshot = 1 ∷ 2 ∷ 3 ∷ [];
}

open_entry-IsEntry : IsEntry open_entry
unfolding hex_pairs is_hex_generation
open_entry-IsEntry = record { generation = refl; bytes = refl; size = omega arith; checked = refl }

load-journal_text_example : load (holds (journal_text open_entry)) ≡ some open_entry
load-journal_text_example = load-journal_text open_entry open_entry-IsEntry

parse_journal_sound_example :
    (journal_text open_entry ≡ journal_text open_entry) × IsEntry open_entry
parse_journal_sound_example =
    parse_journal_sound (journal_text open_entry) (parse-journal_text open_entry open_entry-IsEntry)

-- The state of an open rollback.
abbrev rolling : Recovery
rolling = record {
  has_paths = true;
  has_network = true;
  stage = rolling_back;
  generation = open_entry.generation;
  network_snapshot = open_entry.network_snapshot;
  invalid = false;
  disk = holds (journal_text open_entry);
}

rolling-Synced : Synced rolling
rolling-Synced =
    let loaded = load-journal_text open_entry open_entry-IsEntry in
    subst Synced
      (open_recovery-loaded true true (holds (journal_text open_entry)) open_entry loaded)
      (open_recovery-Synced true true (holds (journal_text open_entry)) open_entry loaded)

complete_rollback_ends_example : complete_rollback replaced replaced rolling ≡ (cleaned rolling, [])
complete_rollback_ends_example = complete_rollback_ends rolling rolling-Synced refl refl

complete_rollback_half_example :
    complete_rollback replaced move_failed rolling
    ≡ (stored_at rolling recovered, text "recovery_write_failed")
complete_rollback_half_example =
    (complete_rollback_half rolling move_failed replaced rolling-Synced refl refl (λ e. cc)).1

restart-entry_example : entry_of (step (run rolling []) restarts) ≡ entry_of (run rolling [])
unfolding run
restart-entry_example = (restart-entry rolling [] rolling-Synced (λ e. cc)).0

step-keeps_snapshot_example :
    (step rolling (begins_rollback replaced)).network_snapshot ≡ rolling.network_snapshot
unfolding step begin_rollback
step-keeps_snapshot_example =
    step-keeps_snapshot rolling (begins_rollback replaced) rolling-Synced (λ e. cc) (λ e. cc)

abbrev live_entry : Entry
live_entry = record open_entry { stage = committed }

live_entry-IsEntry : IsEntry live_entry
unfolding hex_pairs
live_entry-IsEntry = record {
  generation = open_entry-IsEntry.generation;
  bytes = refl;
  size = omega arith;
  checked = refl;
}

-- A connection that is committed, taken down in two calls of which the second fails at first.
abbrev live : Recovery
live = record rolling { stage = committed; disk = holds (journal_text live_entry) }

live-Synced : Synced live
live-Synced =
    let loaded = load-journal_text live_entry live_entry-IsEntry in
    subst Synced
      (open_recovery-loaded true true (holds (journal_text live_entry)) live_entry loaded)
      (open_recovery-Synced true true (holds (journal_text live_entry)) live_entry loaded)

abbrev take_down : List Call
take_down =
    begins_rollback replaced
    ∷ completes_rollback move_failed replaced
    ∷ completes_rollback replaced move_failed
    ∷ []

take_down-StaysOpen : StaysOpen live take_down
unfolding step begin_rollback complete_rollback record_stage finish_recovery write write_atomic_file
    is_forward_transition is_hex_generation hex_pairs
take_down-StaysOpen = (λ e. cc, (λ e. cc, (λ e. cc, tt)))

run-keeps_order_example : rank live.stage ≤ rank (run live take_down).stage
run-keeps_order_example = (run-keeps_order live take_down live-Synced take_down-StaysOpen).0

abbrev closing : List Call
closing = begins_rollback replaced ∷ completes_rollback replaced replaced ∷ []

closing-ends : (run live closing).stage ≡ clean
unfolding run step begin_rollback complete_rollback record_stage finish_recovery write
    write_atomic_file is_forward_transition is_hex_generation hex_pairs
closing-ends = refl

run-clean_example : Passes (RollsBack live.network_snapshot) live closing
run-clean_example = run-clean live closing live-Synced (λ e. cc) (λ e. cc) closing-ends

record_stage-cases_example :
    (((record_stage move_failed rolling recovered).0 ≡ rolling)
      × (is_empty (record_stage move_failed rolling recovered).1 ≡ false))
    ⊎ ((record_stage move_failed rolling recovered ≡ (stored_at rolling recovered, []))
        × (is_hex_generation rolling.generation ≡ true)
        × (is_forward_transition rolling.stage recovered ≡ true))
record_stage-cases_example = record_stage-cases move_failed rolling recovered

unreadable-unloaded : load unreadable ≡ none
unfolding load
unreadable-unloaded = refl

run-open_recovery_example :
    let r = run (open_recovery true true unreadable) calls in
    (r ≡ open_recovery true true unreadable)
    × (r.disk ≡ unreadable)
    × (requires_recovery r ≡ true)
    × (restore_network_state (λ s. []) r ≡ text "recovery_journal_invalid")
run-open_recovery_example =
    run-open_recovery true true unreadable calls (λ s. []) unreadable-unloaded
