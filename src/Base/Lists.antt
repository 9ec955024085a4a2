-- ===== src/Base/Lists.antt =====
-- Sequences measured and indexed by native numbers, under the library's names.
use Prim.Native.Nat.{ℕ, zero, suc, ◌+◌, ◌-◌, ◌≤◌}
use Prim.Native.Char.{code}
use Prim.Native.String.{String}
use mathlib.Core.Path.{◌≡◌, refl, sym, ap}
use mathlib.Core.Bool.{Bool, true, false, ◌&&◌}
use mathlib.Core.Option.{Option, none, some}
use mathlib.Core.List.{List, [], ◌∷◌, ◌++◌}
use native.Mathlib.Omega.{arith}
use mathlib.Core.Logic.{inl, inr}
use pokrov_app.Base.Tests.{Bool-cases, ==→eq, &&-left, &&-right, all_of, ◌==◌, if◌then◌else◌}

-- The bytes of an ASCII literal.
abbrev pub text : String → List ℕ
text String.[] = []
text (String.◌∷◌ c s) = code c ∷ text s

module _ {ℓ} {A : Type ℓ} where
  abbrev pub length : List A → ℕ
  length [] = 0
  length (x ∷ xs) = suc (length xs)

  abbrev pub get_or : List A → ℕ → A → A
  get_or [] i d = d
  get_or (x ∷ xs) zero d = x
  get_or (x ∷ xs) (suc i) d = get_or xs i d

  abbrev pub take : ℕ → List A → List A
  take zero xs = []
  take (suc n) [] = []
  take (suc n) (x ∷ xs) = x ∷ take n xs

  abbrev pub drop : ℕ → List A → List A
  drop zero xs = xs
  drop (suc n) [] = []
  drop (suc n) (x ∷ xs) = drop n xs

  abbrev pub replicate : ℕ → A → List A
  replicate zero a = []
  replicate (suc n) a = a ∷ replicate n a

-- std::string::substr at a position inside the string.
abbrev pub substr : List ℕ → ℕ → ℕ → List ℕ
substr s pos count = take count (drop pos s)

abbrev pub is_empty {ℓ} : {A : Type ℓ} → List A → Bool
is_empty [] = true
is_empty (x ∷ xs) = false

-- `value.rfind(prefix, 0) == 0`.
abbrev pub starts_with : List ℕ → List ℕ → Bool
starts_with [] s = true
starts_with (p ∷ ps) [] = false
starts_with (p ∷ ps) (c ∷ s) = (p == c) && starts_with ps s

-- `value.find(c) != npos`.
abbrev pub contains : ℕ → List ℕ → Bool
contains c [] = false
contains c (x ∷ xs) = if x == c then true else contains c xs

-- The text before the first `c` and the text behind it: a `find` with the two `substr` around it.
unfoldable pub cut : ℕ → List ℕ → Option (List ℕ × List ℕ)
cut c [] = none
cut c (x ∷ xs) =
    if x == c
    then some ([], xs)
    else elim (cut c xs) [ none ↦ none | some (before, behind) ↦ some (x ∷ before, behind) ]

module _ {ℓ} {A : Type ℓ} where
  pub length-append : (xs ys : List A) → length (xs ++ ys) ≡ length xs + length ys
  length-append [] ys = omega arith
  length-append (x ∷ xs) ys = omega (arith, length-append xs ys)

  pub length-take : (n : ℕ) (xs : List A) → n ≤ length xs → length (take n xs) ≡ n
  length-take zero xs h = refl
  length-take (suc n) [] h = omega arith
  length-take (suc n) (x ∷ xs) h = ap suc (length-take n xs (omega arith))

  pub length-drop : (n : ℕ) (xs : List A) → length (drop n xs) ≡ length xs - n
  length-drop zero xs = omega arith
  length-drop (suc n) [] = omega arith
  length-drop (suc n) (x ∷ xs) = omega (arith, length-drop n xs)

  -- A prefix of known length is taken and dropped whole.
  pub take-append_len : (n : ℕ) (xs ys : List A) → length xs ≡ n → take n (xs ++ ys) ≡ xs
  take-append_len zero [] ys h = refl
  take-append_len zero (x ∷ xs) ys h = absurd (omega arith)
  take-append_len (suc n) [] ys h = absurd (omega arith)
  take-append_len (suc n) (x ∷ xs) ys h = ap (◌∷◌ x) (take-append_len n xs ys (omega arith))

  pub drop-append_len :
      (n k : ℕ) (xs ys : List A) → length xs ≡ n → drop (n + k) (xs ++ ys) ≡ drop k ys
  drop-append_len zero k [] ys h = ap (λ m. drop m ys) (omega arith)
  drop-append_len zero k (x ∷ xs) ys h = absurd (omega arith)
  drop-append_len (suc n) k [] ys h = absurd (omega arith)
  drop-append_len (suc n) k (x ∷ xs) ys h =
      let e : suc n + k ≡ suc (n + k) = omega arith in
      rw e (drop-append_len n k xs ys (omega arith))

  pub take-append-drop : (n : ℕ) (xs : List A) → take n xs ++ drop n xs ≡ xs
  take-append-drop zero xs = refl
  take-append-drop (suc n) [] = refl
  take-append-drop (suc n) (x ∷ xs) = ap (◌∷◌ x) (take-append-drop n xs)

  pub take_all : (n : ℕ) (xs : List A) → length xs ≡ n → take n xs ≡ xs
  take_all zero [] h = refl
  take_all zero (x ∷ xs) h = absurd (omega arith)
  take_all (suc n) [] h = refl
  take_all (suc n) (x ∷ xs) h = ap (◌∷◌ x) (take_all n xs (omega arith))

pub all_of-append {ℓ} :
    {A : Type ℓ} (p : A → Bool) (xs ys : List A)
    → all_of p (xs ++ ys) ≡ (all_of p xs && all_of p ys)
all_of-append p [] ys = refl
all_of-append p (x ∷ xs) ys = ground (arith, all_of-append p xs ys)

-- A field without the separator is cut off whole.
pub cut-append :
    (c : ℕ) (xs ys : List ℕ) → contains c xs ≡ false → cut c (xs ++ c ∷ ys) ≡ some (xs, ys)
unfolding cut
cut-append c [] ys h = ground arith
cut-append c (x ∷ xs) ys h = ground (arith, cut-append c xs ys)

-- A text of one class of characters lacks a character outside it.
pub all_of-lacks :
    (p : ℕ → Bool) (c : ℕ) (s : List ℕ) → p c ≡ false → all_of p s ≡ true → contains c s ≡ false
all_of-lacks p c [] h a = refl
all_of-lacks p c (x ∷ xs) h a = elim (Bool-cases (x == c)) [
  | inl hit ↦ cc (sym (&&-left (p x) (all_of p xs) a), ap p (==→eq x c hit), h)
  | inr miss ↦ rw miss (all_of-lacks p c xs h (&&-right (p x) (all_of p xs) a))
]

pub starts_with-lacks :
    (c : ℕ) (p s : List ℕ)
    → starts_with p s ≡ true
    → contains c p ≡ false
    → contains c (drop (length p) s) ≡ false
    → contains c s ≡ false
starts_with-lacks c [] s h l r = r
starts_with-lacks c (x ∷ p) [] h l r = ground arith
starts_with-lacks c (x ∷ p) (y ∷ s) h l r = ground (arith, starts_with-lacks c p s)
