-- ===== src/Base/Options.antt =====
-- Chains of fallible steps, and how to take apart one that gave a result.
use mathlib.Core.Path.{◌≡◌, refl}
use mathlib.Core.Bool.{Bool, true, false}
use mathlib.Core.Logic.{◌⊎◌, inl, inr}
use mathlib.Core.Option.{Option, none, some}
use pokrov_app.Base.Tests.{if◌then◌else◌}

infixl 5 ◌>>=◌
abbrev pub ◌>>=◌ {ℓ κ} : {A : Type ℓ} {B : Type κ} → Option A → (A → Option B) → Option B
none >>= f = none
some a >>= f = f a

pub >>=-eq-some {ℓ κ} :
    {A : Type ℓ} {B : Type κ} (m : Option A) (f : A → Option B) {b : B}
    → (m >>= f) ≡ some b
    → (a : A) × (m ≡ some a) × (f a ≡ some b)
>>=-eq-some none f h = cc
>>=-eq-some (some a) f h = (a, refl, h)

pub unless-eq-some {ℓ} :
    {A : Type ℓ} (test : Bool) (m : Option A) {a : A}
    → (if test then none else m) ≡ some a
    → (test ≡ false) × (m ≡ some a)
unless-eq-some true m h = cc
unless-eq-some false m h = (refl, h)

pub when-eq-some {ℓ} :
    {A : Type ℓ} (test : Bool) (m : Option A) {a : A}
    → (if test then m else none) ≡ some a
    → (test ≡ true) × (m ≡ some a)
when-eq-some true m h = (refl, h)
when-eq-some false m h = cc

pub Option-cases {ℓ} : {A : Type ℓ} (o : Option A) → (o ≡ none) ⊎ ((a : A) × (o ≡ some a))
Option-cases none = inl refl
Option-cases (some a) = inr (a, refl)
