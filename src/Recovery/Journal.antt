-- ===== src/Recovery/Journal.antt =====
-- service_recovery.cpp: the text of the journal, and what `Load` makes of a file.
use pokrov_app.Base.{
  ◌>>=◌, Bool, List, Option, [], all_of, bytes_eq, drop, false, hex_pairs, if◌then◌else◌, is_empty,
  is_hex, leb, length, ltb, none, not, pair_bytes, replicate, some, starts_with, text, true, ◌%◌,
  ◌&&◌, ◌*◌, ◌++◌, ◌+◌, ◌==◌, ◌||◌, ◌∷◌, ℕ,
}
use pokrov_app.Recovery.Stage.{RecoveryStage, clean, stage_name, parse_stage}

abbrev pub max_network_snapshot_size : ℕ
max_network_snapshot_size = 64 * 1024

abbrev pub max_journal_size : ℕ
max_journal_size = max_network_snapshot_size * 2 + 256

abbrev pub zero_generation : List ℕ
zero_generation = replicate 32 b'0'

-- `std::isxdigit` without `std::isupper`.
unfoldable pub is_hex_generation : List ℕ → Bool
is_hex_generation value = (length value == 32) && all_of is_hex value

unfoldable pub hex_encode : List ℕ → List ℕ
hex_encode value = hex_pairs value

unfoldable pub hex_decode : List ℕ → Option (List ℕ)
hex_decode value =
    if not (length value % 2 == 0) || ltb (max_network_snapshot_size * 2) (length value)
    then none
    else if all_of is_hex value
    then some (pair_bytes value)
    else none

-- What the journal holds of a transaction.
pub record Entry : Type 0 where
  pub stage : RecoveryStage
  pub generation : List ℕ
  pub network_snapshot : List ℕ

unfoldable pub journal_text : Entry → List ℕ
journal_text e =
    text "POKROV_RECOVERY_V1"
    ++ 10
      ∷ ((text "stage=" ++ stage_name e.stage)
          ++ 10
            ∷ ((text "generation=" ++ e.generation)
                ++ 10 ∷ ((text "network_state=" ++ hex_encode e.network_snapshot) ++ 10 ∷ [])))

abbrev pub add_line : List ℕ → Option (List (List ℕ)) → Option (List (List ℕ))
add_line line none = none
add_line line (some rest) = some (line ∷ rest)

-- The loop that collects the lines; `line` is what has been read of the current one.
unfoldable pub split_lines : List ℕ → List ℕ → Option (List (List ℕ))
split_lines line [] = if is_empty line then some [] else none
split_lines line (c ∷ cs) = elim (c == 10) [
  | true ↦ add_line line (split_lines [] cs)
  | false ↦ split_lines (line ++ c ∷ []) cs
]

-- The checks behind `ParseStage`, `IsHexGeneration` and `HexDecode`.
abbrev pub check_entry : Entry → Option Entry
check_entry e = elim e.stage [
  | clean ↦ if is_empty e.network_snapshot then some e else none
  | _ ↦
      if bytes_eq e.generation zero_generation || is_empty e.network_snapshot then none else some e
]

unfoldable pub parse_fields : List ℕ → List ℕ → List ℕ → Option Entry
parse_fields stage generation network = do
  parsed ← parse_stage stage
  snapshot ← if not (is_hex_generation generation) then none else hex_decode network
  check_entry (record { stage = parsed; generation = generation; network_snapshot = snapshot })

unfoldable pub parse_lines : List (List ℕ) → Option Entry
parse_lines (magic ∷ stage ∷ generation ∷ network ∷ []) =
    if not (bytes_eq magic (text "POKROV_RECOVERY_V1"))
      || not (starts_with (text "stage=") stage)
      || not (starts_with (text "generation=") generation)
      || not (starts_with (text "network_state=") network)
    then none
    else parse_fields (drop 6 stage) (drop 11 generation) (drop 14 network)
parse_lines _ = none

-- `none` stands for `invalid_ = true`. The text ends in a line feed, so `split_lines` finds no rest.
unfoldable pub parse_journal : List ℕ → Option Entry
parse_journal content = split_lines [] content >>= parse_lines

-- The journal's file as the system shows it to `Load`.
pub data JournalFile : Type 0 where
  absent : JournalFile
  inaccessible : JournalFile
  unreadable : JournalFile
  holds : List ℕ → JournalFile

abbrev pub initial_entry : Entry
initial_entry = record { stage = clean; generation = zero_generation; network_snapshot = [] }

unfoldable pub load : JournalFile → Option Entry
load absent = some initial_entry
load inaccessible = none
load unreadable = none
load (holds content) =
    if leb 1 (length content) && leb (length content) max_journal_size
    then parse_journal content
    else none
