-- ===== src/Base/Hex.antt =====
-- Lower-case hexadecimal, which the service writes and reads in several places.
use Prim.Native.Nat.{ℕ, zero, suc, ◌+◌, ◌-◌, ◌*◌, ◌/◌, ◌%◌, ◌<◌}
use mathlib.Core.Path.{◌≡◌, refl, ap, ap₂, ◌∙◌}
use mathlib.Core.Bool.{Bool, true, ◌&&◌, ◌||◌}
use mathlib.Core.List.{List, [], ◌∷◌, ◌++◌}
use native.Mathlib.Omega.{arith}
use pokrov_app.Base.Tests.{
  ltb, leb, if◌then◌else◌, all_of, &&-intro, &&-left, &&-right, ltb→lt, lt→ltb,
}
use pokrov_app.Base.Lists.{length}

-- A digit of lower-case hexadecimal.
abbrev pub is_hex : ℕ → Bool
is_hex c = (leb b'0' c && leb c b'9') || (leb b'a' c && leb c b'f')

-- `"0123456789abcdef"[n]`.
abbrev pub hex_digit : ℕ → ℕ
hex_digit n = if ltb n 10 then n + b'0' else n + 87

-- `value <= '9' ? value - '0' : value - 'a' + 10`, used on digits that `is_hex` admits.
abbrev pub digit_value : ℕ → ℕ
digit_value c = if leb c b'9' then c - b'0' else c - b'a' + 10

-- The loop that writes `hex[byte >> 4]` and `hex[byte & 15]` for each byte.
unfoldable pub hex_pairs : List ℕ → List ℕ
hex_pairs [] = []
hex_pairs (b ∷ bs) = hex_digit (b / 16) ∷ hex_digit (b % 16) ∷ hex_pairs bs

-- The loop that reads a byte from each pair of digits.
unfoldable pub pair_bytes : List ℕ → List ℕ
pair_bytes [] = []
pair_bytes (h ∷ []) = []
pair_bytes (h ∷ l ∷ cs) = (digit_value h * 16 + digit_value l) ∷ pair_bytes cs

abbrev pub is_byte : ℕ → Bool
is_byte b = ltb b 256

digit-is_hex : (n : ℕ) → n < 16 → is_hex (hex_digit n) ≡ true
digit-is_hex n h = ground arith

digit-round : (n : ℕ) → n < 16 → digit_value (hex_digit n) ≡ n
digit-round n h = ground arith

hex-round : (c : ℕ) → is_hex c ≡ true → (hex_digit (digit_value c) ≡ c) × (digit_value c < 16)
hex-round c h = (ground arith, ground arith)

hex_first :
    (c : ℕ) (cs : List ℕ)
    → all_of is_hex (c ∷ cs) ≡ true
    → (is_hex c ≡ true) × (all_of is_hex cs ≡ true)
hex_first c cs h =
    (&&-left (is_hex c) (all_of is_hex cs) h, &&-right (is_hex c) (all_of is_hex cs) h)

pub length-hex_pairs : (bs : List ℕ) → length (hex_pairs bs) ≡ 2 * length bs
unfolding hex_pairs
length-hex_pairs [] = refl
length-hex_pairs (b ∷ bs) = omega (arith, length-hex_pairs bs)

pub hex_pairs-is_hex :
    (bs : List ℕ) → all_of is_byte bs ≡ true → all_of is_hex (hex_pairs bs) ≡ true
unfolding hex_pairs
hex_pairs-is_hex [] h = refl
hex_pairs-is_hex (b ∷ bs) h =
    let p : b < 256 = ltb→lt b 256 (&&-left (is_byte b) (all_of is_byte bs) h) in
    &&-intro (digit-is_hex (b / 16) (omega arith)) (
      &&-intro (digit-is_hex (b % 16) (omega arith))
        (hex_pairs-is_hex bs (&&-right (is_byte b) (all_of is_byte bs) h)))

pub pair_bytes-hex_pairs : (bs : List ℕ) → all_of is_byte bs ≡ true → pair_bytes (hex_pairs bs) ≡ bs
unfolding hex_pairs pair_bytes
pair_bytes-hex_pairs [] h = refl
pair_bytes-hex_pairs (b ∷ bs) h =
    let p : b < 256 = ltb→lt b 256 (&&-left (is_byte b) (all_of is_byte bs) h) in
    ap₂ ◌∷◌ (omega (arith, digit-round (b / 16) (omega arith), digit-round (b % 16) (omega arith)))
      (pair_bytes-hex_pairs bs (&&-right (is_byte b) (all_of is_byte bs) h))

pub hex_pairs-append : (xs ys : List ℕ) → hex_pairs (xs ++ ys) ≡ hex_pairs xs ++ hex_pairs ys
unfolding hex_pairs
hex_pairs-append [] ys = refl
hex_pairs-append (x ∷ xs) ys =
    ap (λ t. hex_digit (x / 16) ∷ hex_digit (x % 16) ∷ t) (hex_pairs-append xs ys)

-- Reading the pairs and writing them again gives the text back.
pub hex_pairs-pair_bytes :
    (n : ℕ) (cs : List ℕ)
    → length cs ≡ n + n
    → all_of is_hex cs ≡ true
    → hex_pairs (pair_bytes cs) ≡ cs
unfolding hex_pairs pair_bytes
hex_pairs-pair_bytes zero [] e h = refl
hex_pairs-pair_bytes zero (c ∷ cs) e h = absurd (omega arith)
hex_pairs-pair_bytes (suc n) [] e h = refl
hex_pairs-pair_bytes (suc n) (c ∷ []) e h = absurd (omega arith)
hex_pairs-pair_bytes (suc n) (c ∷ d ∷ cs) e h =
    let (hc, tail) = hex_first c (d ∷ cs) h in
    let (hd, rest) = hex_first d cs tail in
    let (ec, bc) = hex-round c hc in
    let (ed, bd) = hex-round d hd in
    let qc : (digit_value c * 16 + digit_value d) / 16 ≡ digit_value c = omega arith in
    let qd : (digit_value c * 16 + digit_value d) % 16 ≡ digit_value d = omega arith in
    ap₂ ◌∷◌ (ap hex_digit qc ∙ ec)
      (ap₂ ◌∷◌ (ap hex_digit qd ∙ ed) (hex_pairs-pair_bytes n cs (omega arith) rest))

pub pair_bytes-is_byte :
    (cs : List ℕ) → all_of is_hex cs ≡ true → all_of is_byte (pair_bytes cs) ≡ true
unfolding pair_bytes
pair_bytes-is_byte [] h = refl
pair_bytes-is_byte (c ∷ []) h = refl
pair_bytes-is_byte (c ∷ d ∷ cs) h =
    let (hc, tail) = hex_first c (d ∷ cs) h in
    let (hd, rest) = hex_first d cs tail in
    let bc : digit_value c < 16 = (hex-round c hc).1 in
    let bd : digit_value d < 16 = (hex-round d hd).1 in
    &&-intro (lt→ltb (digit_value c * 16 + digit_value d) 256 (omega arith))
      (pair_bytes-is_byte cs rest)

pub length-pair_bytes : (n : ℕ) (cs : List ℕ) → length cs ≡ n + n → length (pair_bytes cs) ≡ n
unfolding pair_bytes
length-pair_bytes zero [] e = refl
length-pair_bytes zero (c ∷ cs) e = absurd (omega arith)
length-pair_bytes (suc n) [] e = absurd (omega arith)
length-pair_bytes (suc n) (c ∷ []) e = absurd (omega arith)
length-pair_bytes (suc n) (c ∷ d ∷ cs) e = ap suc (length-pair_bytes n cs (omega arith))
