-- ===== src/Events/LineLaws.antt =====
-- Events/Lines: a line of the journal can be taken apart again, and is never too long.
use pokrov_app.Events.Types.{service_boot_observed}
use pokrov_app.Protocol.Chars.{is_digit}
use pokrov_app.Events.Lines.{
  is_ok, known_strategy, Fields, fields_of, journal_line, Call, boot_epoch_id, correlation_hex,
  hex_fixed,
}
use pokrov_app.Protocol.Decimal.{
  to_string-lacks, length-to_string-le, to_string, to_string-is_digit,
}
use pokrov_app.Events.Words.{
  command_name-IsWord, egress_probe_error_domain_name-IsWord, egress_probe_outcome_name-IsWord,
  egress_probe_stage_name-IsWord, event_name-IsWord, guard_operation_name-IsWord,
  guard_stage_name-IsWord, local_dpi_failure_name-IsWord, local_dpi_stage_name-IsWord,
  outcome_name-IsWord, status_name-IsWord, IsWord, is_plain_char,
}
use pokrov_app.Base.{
  Bool, all_of-append, is_empty, not, text, ◌∙◌, &&-intro, hex_digit, hex_pairs, hex_pairs-is_hex,
  is_byte, is_hex, length-append, length-hex_pairs, le→leb, suc, true, zero, ◌%◌, ◌/◌, &&-left,
  List, [], all_of, all_of-lacks, arith, contains, false, if◌then◌else◌, length, refl, ◌++◌, ◌==◌,
  ◌∷◌, ◌≡◌, ◌≤◌, ℕ,
}

prepend : ℕ → List (List ℕ) → List (List ℕ)
prepend c [] = (c ∷ []) ∷ []
prepend c (x ∷ xs) = (c ∷ x) ∷ xs

-- The fields of a text between the separators.
unfoldable pub split : ℕ → List ℕ → List (List ℕ)
unfolding prepend
split sep [] = [] ∷ []
split sep (c ∷ cs) = if c == sep then [] ∷ split sep cs else prepend c (split sep cs)

pub split-append :
    (sep : ℕ) (xs ys : List ℕ)
    → contains sep xs ≡ false
    → split sep (xs ++ sep ∷ ys) ≡ xs ∷ split sep ys
unfolding split prepend
split-append sep [] ys h = ground arith
split-append sep (x ∷ xs) ys h = ground (arith, split-append sep xs ys)

pub split-lacks : (sep : ℕ) (xs : List ℕ) → contains sep xs ≡ false → split sep xs ≡ xs ∷ []
unfolding split prepend
split-lacks sep [] h = refl
split-lacks sep (x ∷ xs) h = ground (arith, split-lacks sep xs)

IsWord-lacks : (s : List ℕ) → IsWord s → contains b'|' s ≡ false
IsWord-lacks s h = all_of-lacks is_plain_char b'|' s refl (&&-left (all_of is_plain_char s) _ h)

-- An identifier is an array of sixteen bytes.
abbrev pub IsIdentifier : List ℕ → Type 0
IsIdentifier id = (length id ≡ 16) × (all_of is_byte id ≡ true)

abbrev pub IsCall : Call → Type 0
IsCall (Call.records_ipc_request command id) = IsIdentifier id
IsCall (Call.records_ipc_response command status id) = IsIdentifier id
IsCall _ = Unit

plain_digits : (s : List ℕ) → all_of is_digit s ≡ true → all_of is_plain_char s ≡ true
plain_digits [] h = refl
plain_digits (c ∷ cs) h = ground (arith, plain_digits cs)

plain_hex : (s : List ℕ) → all_of is_hex s ≡ true → all_of is_plain_char s ≡ true
plain_hex [] h = refl
plain_hex (c ∷ cs) h = ground (arith, plain_hex cs)

IsWord-intro : (s : List ℕ) → all_of is_plain_char s ≡ true → length s ≤ 41 → IsWord s
IsWord-intro s h l = &&-intro h (le→leb (length s) 41 l)

to_string-IsWord : (n : ℕ) → IsWord (to_string n)
to_string-IsWord n =
    IsWord-intro (to_string n) (plain_digits (to_string n) (to_string-is_digit n))
      (omega (arith, length-to_string-le n))

correlation_hex-IsWord : (id : List ℕ) → IsIdentifier id → IsWord (correlation_hex id)
unfolding correlation_hex
correlation_hex-IsWord id (l, b) =
    IsWord-intro (hex_pairs id) (plain_hex (hex_pairs id) (hex_pairs-is_hex id b))
      (omega (arith, length-hex_pairs id))

-- Two texts of at most twenty characters with a comma between them.
pair-IsWord :
    (s t : List ℕ)
    → all_of is_plain_char s ≡ true
    → length s ≤ 20
    → all_of is_plain_char t ≡ true
    → length t ≤ 20
    → IsWord (s ++ b',' ∷ t)
pair-IsWord s t p l q m =
    IsWord-intro (s ++ b',' ∷ t) (all_of-append is_plain_char s (b',' ∷ t) ∙ &&-intro p q)
      (omega (arith, length-append s (b',' ∷ t)))

hex_fixed-plain : (digits n : ℕ) → all_of is_plain_char (hex_fixed digits n) ≡ true
unfolding hex_fixed
hex_fixed-plain zero n = refl
hex_fixed-plain (suc digits) n =
    let last : all_of is_plain_char (hex_digit (n % 16) ∷ []) ≡ true = ground arith in
    all_of-append is_plain_char (hex_fixed digits (n / 16)) (hex_digit (n % 16) ∷ [])
    ∙ &&-intro (hex_fixed-plain digits (n / 16)) last

length-hex_fixed : (digits n : ℕ) → length (hex_fixed digits n) ≡ digits
unfolding hex_fixed
length-hex_fixed zero n = refl
length-hex_fixed (suc digits) n = omega (
  arith,
  length-append (hex_fixed digits (n / 16)) (hex_digit (n % 16) ∷ []),
  length-hex_fixed digits (n / 16),
)

boot_epoch_id-IsWord : (n : ℕ) → IsWord (boot_epoch_id n)
unfolding boot_epoch_id
boot_epoch_id-IsWord n =
    IsWord-intro (boot_epoch_id n) (hex_fixed-plain 16 n) (omega (arith, length-hex_fixed 16 n))

no_bar : (s : List ℕ) → all_of is_plain_char s ≡ true → all_of (λ c. not (c == b'|')) s ≡ true
no_bar [] h = refl
no_bar (c ∷ cs) h = ground (arith, no_bar cs)

last_lacks : (s : List ℕ) → IsWord s → contains b'|' (s ++ 10 ∷ []) ≡ false
last_lacks s h =
    all_of-lacks (λ c. not (c == b'|')) b'|' (s ++ 10 ∷ []) refl
      (all_of-append (λ c. not (c == b'|')) s (10 ∷ [])
        ∙ &&-intro (no_bar s (&&-left (all_of is_plain_char s) _ h)) refl)

either-IsWord : (b : Bool) (s t : List ℕ) → IsWord s → IsWord t → IsWord (if b then s else t)
either-IsWord true s t p q = p
either-IsWord false s t p q = q

-- Each of the five fields.
abbrev pub AreWords : Fields → Type 0
AreWords f =
    IsWord f.event × IsWord f.outcome × IsWord f.command × IsWord f.status × IsWord f.correlation

line-split :
    (ticks sequence : ℕ) (f : Fields)
    → AreWords f
    → split b'|' (journal_line ticks sequence f)
      ≡ text "POKROV_SERVICE_EVENT_V1"
        ∷ to_string ticks
        ∷ to_string sequence
        ∷ f.event
        ∷ f.outcome
        ∷ f.command
        ∷ f.status
        ∷ (f.correlation ++ 10 ∷ [])
        ∷ []
unfolding journal_line
line-split ticks sequence f (e, o, c, s, r) =
    rw
      (
        split-append b'|' (text "POKROV_SERVICE_EVENT_V1") _ refl,
        split-append b'|' (to_string ticks) _ (to_string-lacks b'|' ticks refl),
        split-append b'|' (to_string sequence) _ (to_string-lacks b'|' sequence refl),
        split-append b'|' f.event _ (IsWord-lacks f.event e),
        split-append b'|' f.outcome _ (IsWord-lacks f.outcome o),
        split-append b'|' f.command _ (IsWord-lacks f.command c),
        split-append b'|' f.status _ (IsWord-lacks f.status s),
        split-lacks b'|' (f.correlation ++ 10 ∷ []) (last_lacks f.correlation r),
      )
      refl

fields_of-AreWords : (c : Call) → IsCall c → AreWords (fields_of c)
unfolding fields_of
fields_of-AreWords (Call.records event outcome) u =
    (event_name-IsWord event, outcome_name-IsWord outcome, refl, refl, refl)
fields_of-AreWords (Call.records_system_boot ticks) u =
    (event_name-IsWord service_boot_observed, refl, refl, refl, boot_epoch_id-IsWord ticks)
fields_of-AreWords (Call.records_ipc_request command id) u =
    (refl, refl, command_name-IsWord command, refl, correlation_hex-IsWord id u)
fields_of-AreWords (Call.records_ipc_response command status id) u = (
  refl,
  either-IsWord (is_ok status) (text "succeeded") (text "failed") refl refl,
  command_name-IsWord command,
  status_name-IsWord status,
  correlation_hex-IsWord id u,
)
fields_of-AreWords (Call.records_transition_guard_failure operation stage wfp_error) u = (
  refl,
  refl,
  guard_operation_name-IsWord operation,
  guard_stage_name-IsWord stage,
  to_string-IsWord wfp_error,
)
fields_of-AreWords (Call.records_egress_probe_observation stage outcome domain error elapsed) u = (
  refl,
  egress_probe_outcome_name-IsWord outcome,
  egress_probe_stage_name-IsWord stage,
  egress_probe_error_domain_name-IsWord domain,
  pair-IsWord (to_string error) (to_string elapsed)
      (plain_digits (to_string error) (to_string-is_digit error)) (length-to_string-le error)
      (plain_digits (to_string elapsed) (to_string-is_digit elapsed)) (length-to_string-le elapsed),
)
fields_of-AreWords (Call.records_local_dpi_observation stage strategy failure alive) u =
    let s = to_string (known_strategy strategy) in
    let flag = if alive then text "1" else text "0" in
    (
      refl,
      either-IsWord (is_empty failure) (text "succeeded") (text "failed") refl refl,
      local_dpi_stage_name-IsWord stage,
      local_dpi_failure_name-IsWord failure,
      pair-IsWord s flag (plain_digits s (to_string-is_digit (known_strategy strategy)))
          (length-to_string-le (known_strategy strategy)) (ground arith) (ground arith),
    )

-- The line of a call falls apart at the separators into its eight fields.
pub journal_line-fields :
    (ticks sequence : ℕ) (c : Call)
    → IsCall c
    → split b'|' (journal_line ticks sequence (fields_of c))
      ≡ text "POKROV_SERVICE_EVENT_V1"
        ∷ to_string ticks
        ∷ to_string sequence
        ∷ (fields_of c).event
        ∷ (fields_of c).outcome
        ∷ (fields_of c).command
        ∷ (fields_of c).status
        ∷ ((fields_of c).correlation ++ 10 ∷ [])
        ∷ []
journal_line-fields ticks sequence c h =
    line-split ticks sequence (fields_of c) (fields_of-AreWords c h)
