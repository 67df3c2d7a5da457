-- ===== src/Prelude/Results.antt =====
-- A function that may raise returns a `Result`: its value, or the exception.
use mathlib.Core.Path.{◌≡◌, refl}
use mathlib.Core.Logic.{◌⊎◌, inl, inr}
use mathlib.Core.Bool.{Bool, true, false}

-- The exceptions of one component are the constructors of the type `E`.
pub data Result {ℓ} (E A : Type ℓ) : Type ℓ where
  err : (raised : E) → Result E A
  ok : (value : A) → Result E A

-- `if bad: raise e`
abbrev pub reject_if : {E : Type 0} → Bool → E → Result E (Unit {0})
reject_if false e = ok tt
reject_if true e = err e

module _ {ℓ} {E A B : Type ℓ} where
  infixl 5 ◌>>=◌ ◌>>◌
  -- An exception skips the rest of the block.
  abbrev pub ◌>>=◌ : Result E A → (A → Result E B) → Result E B
  err raised >>= rest = err raised
  ok value >>= rest = rest value

  abbrev pub ◌>>◌ : Result E A → Result E B → Result E B
  first >> second = first >>= λ ignored. second

pub ok-injective {ℓ} : {E A : Type ℓ} {a b : A} → ◌≡◌ {A = Result E A} (ok a) (ok b) → a ≡ b
ok-injective h = cc

-- What a call that may raise has done.
pub Result-cases {ℓ} :
    {E A : Type ℓ} (outcome : Result E A)
    → ((e : E) × (outcome ≡ err e)) ⊎ ((a : A) × (outcome ≡ ok a))
Result-cases (err e) = inl (e, refl)
Result-cases (ok a) = inr (a, refl)
