-- ===== src/Protocol/Decimal.antt =====
-- std::to_string and std::from_chars on unsigned numbers, as service_protocol.cpp uses them.
use native.Mathlib.Nat.{pow-suc}
use pokrov_app.Base.{
  ◌≤◌, length, all_of, ℕ, zero, suc, ◌+◌, ◌-◌, ◌*◌, ◌/◌, ◌%◌, ◌^◌, ◌<◌, ◌≡◌, refl, ap, ◌∙◌, true,
  false, List, [], ◌∷◌, Option, none, some, ltb, ◌==◌, if◌then◌else◌, arith, Bool-cases, inl, inr,
  contains, lt→ltb, is_empty,
}
use pokrov_app.Protocol.Chars.{is_digit}

-- The digits of `n` in front of `tail`, with a bound on their number.
dec_loop : ℕ → ℕ → List ℕ → List ℕ
dec_loop zero n tail = tail
dec_loop (suc rounds) n tail =
    let more = dec_loop rounds (n / 10) ((b'0' + n % 10) ∷ tail) in
    if n / 10 == 0 then (b'0' + n % 10) ∷ tail else more

-- A uint64_t has at most twenty digits.
unfoldable pub to_string : ℕ → List ℕ
unfolding dec_loop
to_string n = dec_loop 20 n []

parse_loop : ℕ → List ℕ → Option ℕ
parse_loop acc [] = some acc
parse_loop acc (c ∷ cs) = if is_digit c then parse_loop (acc * 10 + (c - b'0')) cs else none

-- `from_chars` over the whole text: at least one digit, nothing else, and a value below the limit.
unfoldable pub from_chars : ℕ → List ℕ → Option ℕ
unfolding parse_loop
from_chars limit s = if is_empty s then none else elim (parse_loop 0 s) [
  | none ↦ none
  | some value ↦ if ltb value limit then some value else none
]

parse-dec_loop :
    (rounds n : ℕ) (tail : List ℕ)
    → n < 10 ^ rounds
    → parse_loop 0 (dec_loop rounds n tail) ≡ parse_loop n tail
unfolding dec_loop parse_loop
parse-dec_loop zero n tail h = ap (λ m. parse_loop m tail) (omega arith)
parse-dec_loop (suc rounds) n tail h =
    let e : n / 10 < 10 ^ rounds = omega (arith, pow-suc 10 rounds) in
    let d : is_digit (b'0' + n % 10) ≡ true = ground arith in
    elim (Bool-cases (n / 10 == 0)) [
      | inl small ↦ rw (small, d) (ap (λ m. parse_loop m tail) (ground arith))
      | inr large ↦ rw large (
          parse-dec_loop rounds (n / 10) ((b'0' + n % 10) ∷ tail) e
          ∙ rw d (ap (λ m. parse_loop m tail) (omega arith)))
    ]

dec_loop-ne_empty : (rounds n : ℕ) (tail : List ℕ) → is_empty (dec_loop (suc rounds) n tail) ≡ false
unfolding dec_loop
dec_loop-ne_empty zero n tail = ground arith
dec_loop-ne_empty (suc rounds) n tail =
    ground (arith, dec_loop-ne_empty rounds (n / 10) ((b'0' + n % 10) ∷ tail))

length-dec_loop-le :
    (rounds n : ℕ) (tail : List ℕ) → length (dec_loop rounds n tail) ≤ rounds + length tail
unfolding dec_loop
length-dec_loop-le zero n tail = omega arith
length-dec_loop-le (suc rounds) n tail =
    ground (arith, length-dec_loop-le rounds (n / 10) ((b'0' + n % 10) ∷ tail))

dec_loop-lacks :
    (c rounds n : ℕ) (tail : List ℕ)
    → is_digit c ≡ false
    → contains c tail ≡ false
    → contains c (dec_loop rounds n tail) ≡ false
unfolding dec_loop
dec_loop-lacks c zero n tail h t = t
dec_loop-lacks c (suc rounds) n tail h t =
    let first : contains c ((b'0' + n % 10) ∷ tail) ≡ false = ground arith in
    ground (arith, dec_loop-lacks c rounds (n / 10) ((b'0' + n % 10) ∷ tail) h first)

-- No separator occurs among the digits.
pub to_string-lacks : (c n : ℕ) → is_digit c ≡ false → contains c (to_string n) ≡ false
unfolding to_string
to_string-lacks c n h = dec_loop-lacks c 20 n [] h refl

-- Every uint64_t is read back from its digits.
pub from_chars-to_string :
    (limit n : ℕ) → n < limit → n < 2 ^ 64 → from_chars limit (to_string n) ≡ some n
unfolding from_chars to_string
from_chars-to_string limit n below h =
    rw (dec_loop-ne_empty 19 n [], parse-dec_loop 20 n [] (omega arith))
      (unfold parse_loop in rw (lt→ltb n limit below))

pub length-to_string-le : (n : ℕ) → length (to_string n) ≤ 20
unfolding to_string
length-to_string-le n = length-dec_loop-le 20 n []

dec_loop-is_digit :
    (rounds n : ℕ) (tail : List ℕ)
    → all_of is_digit tail ≡ true
    → all_of is_digit (dec_loop rounds n tail) ≡ true
unfolding dec_loop
dec_loop-is_digit zero n tail t = t
dec_loop-is_digit (suc rounds) n tail t =
    let first : all_of is_digit ((b'0' + n % 10) ∷ tail) ≡ true = ground arith in
    ground (arith, dec_loop-is_digit rounds (n / 10) ((b'0' + n % 10) ∷ tail) first)

pub to_string-is_digit : (n : ℕ) → all_of is_digit (to_string n) ≡ true
unfolding to_string
to_string-is_digit n = dec_loop-is_digit 20 n [] refl
