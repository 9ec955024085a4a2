-- ===== src/Events/Writer.antt =====
-- service_events.cpp, the journal's thread: `WritePending`, `WriteLine`, `RotateIfNeeded` and the
-- destructor, beside the threads that append. What Windows answers to a call is an argument.
use pokrov_app.Events.Types.{CoreOperationalEventRecord}
use pokrov_app.Events.Lines.{
  Call, Queue, append, core_event_line, fields_of, journal_line, record_core_event,
}
use pokrov_app.Base.{
  Bool, List, Option, [], false, if◌then◌else◌, leb, length, none, not, some, true, ◌%◌, ◌&&◌, ◌*◌,
  ◌++◌, ◌+◌, ◌==◌, ◌^◌, ◌||◌, ◌∷◌, ℕ,
}

abbrev pub max_journal_size : ℕ
max_journal_size = 256 * 1024

-- The sizes of the two files; `none` is a file that does not exist.
pub record Files : Type 0 where
  pub current : Option ℕ
  pub previous : Option ℕ

-- What the calls for one line come to. `asked` is false if the attributes cannot be read for another
-- reason than that the file is not there; `moved`, `opened` and `flushed` are the calls' results; at
-- most the line's length of bytes is `written`.
pub record Outcome : Type 0 where
  pub asked : Bool
  pub moved : Bool
  pub opened : Bool
  pub written : ℕ
  pub flushed : Bool

unfoldable pub rotate_if_needed : Outcome → ℕ → Files → Files × Bool
rotate_if_needed o incoming_size files =
    if not o.asked then (files, false) else elim files.current [
      | none ↦ (files, true)
      | some size ↦
          if leb (size + incoming_size) max_journal_size
          then (files, true)
          else if o.moved
          then (record files { current = none; previous = some size }, true)
          else (files, false)
    ]

abbrev pub size_of : Option ℕ → ℕ
size_of none = 0
size_of (some size) = size

abbrev at_most : ℕ → ℕ → ℕ
at_most n limit = if leb n limit then n else limit

unfoldable pub write_line : Outcome → List ℕ → Files → Files × Bool
write_line o line files =
    let (rotated, ready) = rotate_if_needed o (length line) files in
    if not ready || not o.opened
    then (rotated, false)
    else let count = at_most o.written (length line) in
      (
        record rotated { current = some (size_of rotated.current + count) },
        (count == length line) && o.flushed,
      )

-- The threads: the queue, the line that the writer has taken, and the files. `accepted` are the
-- lines that the queue took in and `attempted` those handed to `WriteLine`, in order.
pub record Journal : Type 0 where
  pub queue : Queue
  pub in_hand : Option (List ℕ)
  pub finished : Bool
  pub files : Files
  pub accepted : List (List ℕ)
  pub attempted : List (List ℕ)

pub data Action : Type 0 where
  appends : ℕ → Call → Action
  appends_core_event : CoreOperationalEventRecord → Action
  -- The destructor raises `stopping_`.
  stops : Action
  -- The writer wakes up: it takes a line, returns, or waits again.
  wakes : Action
  writes : Outcome → Action

abbrev pub enqueued : Queue × Bool → List ℕ → Journal → Journal
enqueued (q, ok) line j = record j {
  queue = q;
  accepted = if ok then j.accepted ++ line ∷ [] else j.accepted;
}

-- The part of the loop under the lock, by the line in hand and the queue.
abbrev pub wake_with : Option (List ℕ) → List (List ℕ) → Journal → Journal
wake_with (some line) pending j = j
wake_with none [] j = record j { finished = j.queue.stopping || j.finished }
wake_with none (line ∷ rest) j =
    if j.finished
    then j
    else record j { queue = record j.queue { pending = rest }; in_hand = some line }

unfoldable pub wake : Journal → Journal
wake j = wake_with j.in_hand j.queue.pending j

-- `WriteLine` on the line in hand, outside the lock.
abbrev pub write_with : Option (List ℕ) → Outcome → Journal → Journal
write_with none o j = j
write_with (some line) o j = record j {
  in_hand = none;
  files = (write_line o line j.files).0;
  attempted = j.attempted ++ line ∷ [];
}

unfoldable pub write_pending : Outcome → Journal → Journal
write_pending o j = write_with j.in_hand o j

unfoldable pub step : Journal → Action → Journal
step j (appends ticks call) =
    enqueued (append ticks call j.queue)
      (journal_line ticks ((j.queue.sequence + 1) % 2 ^ 64) (fields_of call)) j
step j (appends_core_event e) = enqueued (record_core_event e j.queue) (core_event_line e) j
step j stops = record j { queue = record j.queue { stopping = true } }
step j wakes = wake j
step j (writes o) = write_pending o j

unfoldable pub run : Journal → List Action → Journal
unfolding step
run j [] = j
run j (a ∷ as') = run (step j a) as'
