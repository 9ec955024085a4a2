-- ===== src/Recovery/JournalLaws.antt =====
-- Recovery/Journal: the journal that is written is the one that is read, and no other text is taken.
use pokrov_app.Recovery.Journal.{
  holds, load, Entry, add_line, check_entry, hex_decode, hex_encode, is_hex_generation,
  journal_text, max_journal_size, max_network_snapshot_size, parse_fields, parse_journal,
  parse_lines, split_lines,
}
use pokrov_app.Base.{
  length-append, le→leb, ◌*◌, ◌+◌, Bool-cases, List, [], all_of, all_of-lacks, ap, append-nil,
  append_assoc, arith, contains, false, hex_pairs, hex_pairs-is_hex, inl, inr, is_byte, is_hex,
  length, length-hex_pairs, pair_bytes-hex_pairs, refl, some, text, true, ◌++◌, ◌==◌, ◌∙◌, ◌∷◌, ◌≡◌,
  ◌≤◌, ℕ,
}
use pokrov_app.Recovery.Stage.{length-stage_name-le, parse-stage_name, stage_name-lacks, stage_name}

-- What `Write` may be given: a generation in hexadecimal, a snapshot of bytes within the limit, and
-- what `Load` demands of the stage.
pub record IsEntry (e : Entry) : Type 0 where
  pub generation : is_hex_generation e.generation ≡ true
  pub bytes : all_of is_byte e.network_snapshot ≡ true
  pub size : length e.network_snapshot ≤ max_network_snapshot_size
  pub checked : check_entry e ≡ some e

split_lines-append :
    (line xs ys : List ℕ)
    → contains 10 xs ≡ false
    → split_lines line (xs ++ 10 ∷ ys) ≡ add_line (line ++ xs) (split_lines [] ys)
unfolding split_lines
split_lines-append line [] ys h = rw append-nil
split_lines-append line (x ∷ xs) ys h = elim (Bool-cases (x == 10)) [
  | inl hit ↦ ground arith
  | inr miss ↦
      rw (miss, split_lines)
        (split_lines-append (line ++ x ∷ []) xs ys (rw miss at h)
          ∙ ap (λ l. add_line l (split_lines [] ys)) (append_assoc line (x ∷ []) xs))
]

hex_generation-lacks : (g : List ℕ) → is_hex_generation g ≡ true → contains 10 g ≡ false
unfolding is_hex_generation
hex_generation-lacks g h = all_of-lacks is_hex 10 g refl (ground arith)

hex_encode-lacks : (s : List ℕ) → all_of is_byte s ≡ true → contains 10 (hex_encode s) ≡ false
unfolding hex_encode
hex_encode-lacks s h = all_of-lacks is_hex 10 (hex_pairs s) refl (hex_pairs-is_hex s h)

-- A field's line is its key and its value.
key-lacks :
    (key value : List ℕ)
    → contains 10 key ≡ false
    → contains 10 value ≡ false
    → contains 10 (key ++ value) ≡ false
key-lacks [] value k v = v
key-lacks (c ∷ key) value k v = ground (arith, key-lacks key value)

hex_decode-encode :
    (s : List ℕ)
    → all_of is_byte s ≡ true
    → length s ≤ max_network_snapshot_size
    → hex_decode (hex_encode s) ≡ some s
unfolding hex_decode hex_encode
hex_decode-encode s h n =
    rw (hex_pairs-is_hex s h, pair_bytes-hex_pairs s h) (ground (arith, length-hex_pairs s))

split-journal_text :
    (e : Entry)
    → IsEntry e
    → split_lines [] (journal_text e)
      ≡ some (
          text "POKROV_RECOVERY_V1"
          ∷ (text "stage=" ++ stage_name e.stage)
          ∷ (text "generation=" ++ e.generation)
          ∷ (text "network_state=" ++ hex_encode e.network_snapshot)
          ∷ [])
unfolding journal_text
split-journal_text e v =
    rw
      (
        split_lines-append [] (text "POKROV_RECOVERY_V1") _ refl,
        split_lines-append [] (text "stage=" ++ stage_name e.stage) _
            (key-lacks (text "stage=") (stage_name e.stage) refl (stage_name-lacks e.stage)),
        split_lines-append [] (text "generation=" ++ e.generation) _ (
            key-lacks (text "generation=") e.generation refl
              (hex_generation-lacks e.generation v.generation)),
        split_lines-append [] (text "network_state=" ++ hex_encode e.network_snapshot) [] (
            key-lacks (text "network_state=") (hex_encode e.network_snapshot) refl
              (hex_encode-lacks e.network_snapshot v.bytes)),
      )
      (unfold split_lines in refl)

parse_fields-entry :
    (e : Entry)
    → IsEntry e
    → parse_fields (stage_name e.stage) e.generation (hex_encode e.network_snapshot) ≡ some e
unfolding parse_fields
parse_fields-entry e v =
    rw (parse-stage_name e.stage, v.generation, hex_decode-encode e.network_snapshot v.bytes v.size)
      v.checked

pub parse-journal_text : (e : Entry) → IsEntry e → parse_journal (journal_text e) ≡ some e
unfolding parse_journal parse_lines
parse-journal_text e v = rw (split-journal_text e v) (parse_fields-entry e v)

length-hex_generation : (g : List ℕ) → is_hex_generation g ≡ true → length g ≡ 32
unfolding is_hex_generation
length-hex_generation g h = ground arith

length-hex_encode : (s : List ℕ) → length (hex_encode s) ≡ 2 * length s
unfolding hex_encode
length-hex_encode s = length-hex_pairs s

pub length-journal_text-le :
    (e : Entry)
    → IsEntry e
    → (1 ≤ length (journal_text e)) × (length (journal_text e) ≤ max_journal_size)
unfolding journal_text
length-journal_text-le e v =
    let g : length e.generation ≡ 32 = length-hex_generation e.generation v.generation in
    let joined : length (journal_text e)
        ≡ 53 + length (stage_name e.stage) + length e.generation + 2 * length e.network_snapshot =
      omega (
        arith,
        length-hex_encode e.network_snapshot,
        length-append (stage_name e.stage) (
            10
            ∷ ((text "generation=" ++ e.generation)
                ++ 10 ∷ ((text "network_state=" ++ hex_encode e.network_snapshot) ++ 10 ∷ []))),
        length-append e.generation
            (10 ∷ ((text "network_state=" ++ hex_encode e.network_snapshot) ++ 10 ∷ [])),
        length-append (hex_encode e.network_snapshot) (10 ∷ []),
      ) in
    omega (arith, length-stage_name-le e.stage, v)

-- What `Write` stored is what `Load` reads.
pub load-journal_text : (e : Entry) → IsEntry e → load (holds (journal_text e)) ≡ some e
unfolding load
load-journal_text e v =
    let (low, high) = length-journal_text-le e v in
    rw
      (
        le→leb 1 (length (journal_text e)) low,
        le→leb (length (journal_text e)) max_journal_size high,
      )
      (parse-journal_text e v)
