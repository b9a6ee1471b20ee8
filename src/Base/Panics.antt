-- ===== src/Base/Panics.antt =====
-- The outcome of code that gives a value, gives none, or panics.
use mathlib.Core.Bool.{Bool, true, false}
use mathlib.Core.Option.{Option, none, some}
use mathlib.Core.Path.{◌≡◌, refl}
use argus_ips.Base.Tests.{if◌then◌else◌}

pub data Outcome {ℓ} (A : Type ℓ) : Type ℓ where
  panics misses : Outcome A
  gives : A → Outcome A

infixl 5 ◌>>!◌
abbrev pub ◌>>!◌ {ℓ κ} : {A : Type ℓ} {B : Type κ} → Outcome A → (A → Outcome B) → Outcome B
panics >>! f = panics
misses >>! f = misses
gives a >>! f = f a

abbrev pub of_option {ℓ} : {A : Type ℓ} → Option A → Outcome A
of_option none = misses
of_option (some a) = gives a

pub >>!-eq_gives {ℓ κ} :
    {A : Type ℓ} {B : Type κ} (m : Outcome A) (f : A → Outcome B) {b : B}
    → (m >>! f) ≡ gives b
    → (a : A) × (m ≡ gives a) × (f a ≡ gives b)
>>!-eq_gives panics f h = cc
>>!-eq_gives misses f h = cc
>>!-eq_gives (gives a) f h = (a, refl, h)

pub gives_inj {ℓ} : {A : Type ℓ} {a b : A} → gives a ≡ gives b → a ≡ b
gives_inj h = cc

pub of_option-eq_gives {ℓ} :
    {A : Type ℓ} (o : Option A) {a : A} → of_option o ≡ gives a → o ≡ some a
of_option-eq_gives none h = cc
of_option-eq_gives (some b) h = cc

-- A predicate on the value, if one is given.
abbrev pub Given {ℓ} : {A : Type ℓ} → (A → Type 0) → Outcome A → Type 0
Given P panics = Unit
Given P misses = Unit
Given P (gives a) = P a

module _ {ℓ} {A : Type ℓ} (P : A → Type 0) where
  pub Given-bind {κ} :
      {B : Type κ} (m : Outcome B) (f : B → Outcome A)
      → ((b : B) → m ≡ gives b → Given P (f b))
      → Given P (m >>! f)
  Given-bind panics f h = _
  Given-bind misses f h = _
  Given-bind (gives b) f h = h b refl

  pub Given-if : (b : Bool) (x : A) → (b ≡ true → P x) → Given P (if b then gives x else misses)
  Given-if true x h = h refl
  Given-if false x h = _
