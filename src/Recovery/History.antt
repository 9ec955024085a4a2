-- ===== src/Recovery/History.antt =====
-- Recovery/Machine: what holds over any sequence of calls and restarts.
use pokrov_app.Recovery.JournalSound.{parse_journal_sound}
use pokrov_app.Recovery.JournalLaws.{IsEntry}
use pokrov_app.Recovery.Journal.{holds, Entry, JournalFile, load, parse_journal}
use pokrov_app.Recovery.Durable.{
  IsRandom, Synced, begin-Synced, begin_rollback-Synced, complete_rollback-Synced,
  record_stage-Synced,
}
use pokrov_app.Base.{
  ap, ◌∙◌, Bool, List, Option, [], all_of, arith, false, is_byte, refl, some, subst, sym, true,
  when-eq-some, ◌∷◌, ◌≡◌, ◌≢◌, ℕ,
}
use pokrov_app.Recovery.Stage.{
  RecoveryStage, clean, snapshotted, core_started, network_applied, verified, committed,
}
use pokrov_app.Recovery.Journal.{absent, inaccessible, unreadable, holds}
use pokrov_app.Recovery.Machine.{
  Recovery, entry_of, WriteOutcome, open_recovery, record_stage, Capture, begin, begin_rollback,
  complete_rollback,
}

-- The calls that change the state. The runtime records these four stages itself.
pub data Progress : RecoveryStage → Type 0 where
  core_start : Progress core_started
  network_apply : Progress network_applied
  verify : Progress verified
  commit : Progress committed

pub data Call : Type 0 where
  begins :
      (random : Option (List ℕ))
      → IsRandom random
      → (capture : Capture) → all_of is_byte capture.snapshot ≡ true
      → WriteOutcome
      → Call
  records : {s : RecoveryStage} → Progress s → WriteOutcome → Call
  begins_rollback : WriteOutcome → Call
  completes_rollback : WriteOutcome → WriteOutcome → Call
  -- The service ends at any time and is started again: the constructor loads the journal.
  restarts : Call

unfoldable pub step : Recovery → Call → Recovery
step r (begins random _ capture _ outcome) = (begin random capture outcome r).0
step r (records {s} p outcome) = (record_stage outcome r s).0
step r (begins_rollback outcome) = (begin_rollback outcome r).0
step r (completes_rollback first second) = (complete_rollback first second r).0
step r restarts = open_recovery r.has_paths r.has_network r.disk

unfoldable pub run : Recovery → List Call → Recovery
run r [] = r
run r (c ∷ cs) = run (step r c) cs

pub open_recovery-loaded :
    (paths network : Bool) (disk : JournalFile) (e : Entry)
    → load disk ≡ some e
    → open_recovery paths network disk ≡ record {
      has_paths = paths;
      has_network = network;
      stage = e.stage;
      generation = e.generation;
      network_snapshot = e.network_snapshot;
      invalid = false;
      disk = disk;
    }
unfolding open_recovery
open_recovery-loaded paths network disk e h = rw h

load-IsEntry : (disk : JournalFile) (e : Entry) → load disk ≡ some e → e.stage ≢ clean → IsEntry e
unfolding load
load-IsEntry absent e h n = ground arith
load-IsEntry inaccessible e h n = cc
load-IsEntry unreadable e h n = cc
load-IsEntry (holds content) e h n =
    (parse_journal_sound content (when-eq-some _ (parse_journal content) h).1).1

-- A journal that loads gives a state that agrees with it.
pub open_recovery-Synced :
    (paths network : Bool) (disk : JournalFile) (e : Entry)
    → load disk ≡ some e
    → Synced (open_recovery paths network disk)
open_recovery-Synced paths network disk e h =
    subst Synced (sym (open_recovery-loaded paths network disk e h)) (record {
      valid = refl;
      stored = e;
      loads = h;
      same_stage = refl;
      same_entry = λ _. refl;
      is_entry = λ n. load-IsEntry disk e h n;
    })

Progress-ne_clean : {s : RecoveryStage} → Progress s → (s ≢ clean) × (s ≢ snapshotted)
Progress-ne_clean core_start = (λ e. cc, λ e. cc)
Progress-ne_clean network_apply = (λ e. cc, λ e. cc)
Progress-ne_clean verify = (λ e. cc, λ e. cc)
Progress-ne_clean commit = (λ e. cc, λ e. cc)

pub step-Synced : (r : Recovery) (c : Call) → Synced r → Synced (step r c)
unfolding step
step-Synced r (begins random a capture b outcome) v = begin-Synced random capture outcome r a b v
step-Synced r (records {s} p outcome) v =
    record_stage-Synced outcome r s (Progress-ne_clean p).0 (Progress-ne_clean p).1 v
step-Synced r (begins_rollback outcome) v = begin_rollback-Synced outcome r v
step-Synced r (completes_rollback first second) v = complete_rollback-Synced first second r v
step-Synced r restarts v = open_recovery-Synced r.has_paths r.has_network r.disk v.stored v.loads

-- Whatever is called, whatever each write comes to and wherever the service ends, the journal on
-- disk loads, holds the stage in memory and, while a transaction is open, its generation and
-- snapshot.
pub run-Synced : (r : Recovery) (cs : List Call) → Synced r → Synced (run r cs)
unfolding run
run-Synced r [] v = v
run-Synced r (c ∷ cs) v = run-Synced (step r c) cs (step-Synced r c v)

-- A restart after a history that leaves a transaction open finds the stage, the generation and the
-- network snapshot that were in memory, and a journal that is valid.
pub restart-entry :
    (r : Recovery) (cs : List Call)
    → Synced r
    → (run r cs).stage ≢ clean
    → (entry_of (step (run r cs) restarts) ≡ entry_of (run r cs))
      × ((step (run r cs) restarts).invalid ≡ false)
unfolding step
restart-entry r cs v n =
    let s = run r cs in
    let w = run-Synced r cs v in
    let e = open_recovery-loaded s.has_paths s.has_network s.disk w.stored w.loads in
    (ap entry_of e ∙ w.same_entry n, ap (λ q. q.invalid) e)
