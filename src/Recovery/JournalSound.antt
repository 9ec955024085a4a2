-- ===== src/Recovery/JournalSound.antt =====
-- Recovery/Journal: a text that is taken is the journal of the entry that it gives.
use pokrov_app.Recovery.JournalLaws.{IsEntry}
use pokrov_app.Recovery.Journal.{
  journal_text, parse_journal, parse_lines, is_hex_generation, Entry, add_line, check_entry,
  hex_decode, hex_encode, max_network_snapshot_size, parse_fields, split_lines,
}
use pokrov_app.Base.{
  Bool, bytes_eq→eq, false, ◌||◌, subst, text, >>=-eq-some, if◌then◌else◌, not, unless-eq-some,
  ==→eq, Bool-cases, List, Option, [], all_of, ap, append_assoc, arith, drop, hex_pairs-pair_bytes,
  inl, inr, is_byte, length, length-pair_bytes, none, pair_bytes-is_byte, refl, some, starts_with,
  sym, true, ◌++◌, ◌/◌, ◌==◌, ◌∙◌, ◌∷◌, ◌≡◌, ◌≤◌, ℕ,
}
use pokrov_app.Recovery.Stage.{parse_stage_sound, stage_name, parse_stage}

abbrev unlines : List (List ℕ) → List ℕ
unlines [] = []
unlines (l ∷ ls) = l ++ 10 ∷ unlines ls

add_line-eq-some :
    (line : List ℕ) (o : Option (List (List ℕ))) {ls : List (List ℕ)}
    → add_line line o ≡ some ls
    → (rest : List (List ℕ)) × (o ≡ some rest) × (ls ≡ line ∷ rest)
add_line-eq-some line none h = cc
add_line-eq-some line (some rest) h = (rest, refl, cc)

split_lines_sound :
    (line cs : List ℕ) {ls : List (List ℕ)}
    → split_lines line cs ≡ some ls
    → line ++ cs ≡ unlines ls
unfolding split_lines
split_lines_sound [] [] h = ground arith
split_lines_sound (x ∷ line) [] h = ground arith
split_lines_sound line (c ∷ cs) {ls} h = elim (Bool-cases (c == 10)) [
  | inl hit ↦
      let (rest, e, q) = add_line-eq-some line (split_lines [] cs) (rw (hit, split_lines) at h) in
      rw (q, ==→eq c 10 hit) (ap (λ t. line ++ 10 ∷ t) (split_lines_sound [] cs e))
  | inr miss ↦
      sym (append_assoc line (c ∷ []) cs)
      ∙ split_lines_sound (line ++ c ∷ []) cs (rw (miss, split_lines) at h)
]

starts_with-split : (p s : List ℕ) → starts_with p s ≡ true → s ≡ p ++ drop (length p) s
starts_with-split [] s h = refl
starts_with-split (c ∷ p) [] h = ground arith
starts_with-split (c ∷ p) (d ∷ s) h = ground (arith, starts_with-split p s)

hex_decode_sound :
    (value : List ℕ) {s : List ℕ}
    → hex_decode value ≡ some s
    → (hex_encode s ≡ value) × (all_of is_byte s ≡ true) × (length s ≤ max_network_snapshot_size)
unfolding hex_decode hex_encode
hex_decode_sound value {s} h = ground (
  arith,
  hex_pairs-pair_bytes (length value / 2) value,
  pair_bytes-is_byte value,
  length-pair_bytes (length value / 2) value,
)

check_entry_sound : (e : Entry) {r : Entry} → check_entry e ≡ some r → e ≡ r
check_entry_sound e h = ground arith

abbrev Fields : List ℕ → List ℕ → List ℕ → Entry → Type 0
Fields stage generation network e =
    (stage ≡ stage_name e.stage)
    × (generation ≡ e.generation)
    × (network ≡ hex_encode e.network_snapshot)
    × IsEntry e

Fields-entry :
    (stage network : List ℕ) (made e : Entry)
    → parse_stage stage ≡ some made.stage
    → is_hex_generation made.generation ≡ true
    → hex_decode network ≡ some made.network_snapshot
    → check_entry made ≡ some e
    → Fields stage made.generation network e
Fields-entry stage network made e ps gen dec h =
    let (enc, bytes, size) = hex_decode_sound network dec in
    let same = check_entry_sound made h in
    subst (λ r. Fields stage made.generation network r) same
      (
        parse_stage_sound stage ps,
        refl,
        sym enc,
        record { generation = gen; bytes = bytes; size = size; checked = h ∙ ap some (sym same) },
      )

parse_fields_sound :
    (stage generation network : List ℕ) {e : Entry}
    → parse_fields stage generation network ≡ some e
    → Fields stage generation network e
unfolding parse_fields
parse_fields_sound stage generation network {e} h =
    let (parsed, ps, h1) = >>=-eq-some (parse_stage stage) _ h in
    let (snapshot, sn, h2) =
      >>=-eq-some (if not (is_hex_generation generation) then none else hex_decode network) _ h1 in
    let (gen, dec) = unless-eq-some (not (is_hex_generation generation)) (hex_decode network) sn in
    Fields-entry stage network
      (record { stage = parsed; generation = generation; network_snapshot = snapshot }) e ps
      (ground arith) dec h2

lines-text :
    (magic stage generation network : List ℕ) (e : Entry)
    → magic ≡ text "POKROV_RECOVERY_V1"
    → starts_with (text "stage=") stage ≡ true
    → starts_with (text "generation=") generation ≡ true
    → starts_with (text "network_state=") network ≡ true
    → Fields (drop 6 stage) (drop 11 generation) (drop 14 network) e
    → unlines (magic ∷ stage ∷ generation ∷ network ∷ []) ≡ journal_text e
unfolding journal_text
lines-text magic stage generation network e m s g n (fs, fg, fn, v) = rw (
  m,
  starts_with-split (text "stage=") stage s ∙ ap (λ t. text "stage=" ++ t) fs,
  starts_with-split (text "generation=") generation g ∙ ap (λ t. text "generation=" ++ t) fg,
  starts_with-split (text "network_state=") network n ∙ ap (λ t. text "network_state=" ++ t) fn,
)

all_pass :
    (a b c d : Bool)
    → (not a || not b || not c || not d) ≡ false
    → (a ≡ true) × (b ≡ true) × (c ≡ true) × (d ≡ true)
all_pass a b c d h = ground arith

parse_lines_sound :
    (lines : List (List ℕ)) {e : Entry}
    → parse_lines lines ≡ some e
    → (unlines lines ≡ journal_text e) × IsEntry e
unfolding parse_lines
parse_lines_sound (magic ∷ stage ∷ generation ∷ network ∷ []) {e} h =
    let (tests, f) =
      unless-eq-some _ (parse_fields (drop 6 stage) (drop 11 generation) (drop 14 network)) h in
    let (m, s, g, n) = all_pass _ _ _ _ tests in
    let fields = parse_fields_sound (drop 6 stage) (drop 11 generation) (drop 14 network) f in
    (lines-text magic stage generation network e (bytes_eq→eq magic _ m) s g n fields, fields.3)
parse_lines_sound [] h = cc
parse_lines_sound _ h = cc

-- The journal is the only text that gives the entry: nothing else is taken for a recovery state.
pub parse_journal_sound :
    (content : List ℕ) {e : Entry}
    → parse_journal content ≡ some e
    → (content ≡ journal_text e) × IsEntry e
unfolding parse_journal
parse_journal_sound content h =
    let (lines, sl, h1) = >>=-eq-some (split_lines [] content) parse_lines h in
    let (t, v) = parse_lines_sound lines h1 in (split_lines_sound [] content sl ∙ t, v)
