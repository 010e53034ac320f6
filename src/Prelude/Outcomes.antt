-- ===== src/Prelude/Outcomes.antt =====
-- The outcome of a call into a C library: a value, or the raw status that it failed with.
use Prim.Native.Nat.{ℕ}
use mathlib.Core.Path.{◌≡◌, refl}
use mathlib.Core.Logic.{◌⊎◌, inl, inr}

pub data Outcome {ℓ} (A : Type ℓ) : Type ℓ where
  done : A → Outcome A
  failed : ℕ → Outcome A

pub Outcome-cases {ℓ} :
    {A : Type ℓ} (o : Outcome A) → ((a : A) × (o ≡ done a)) ⊎ ((status : ℕ) × (o ≡ failed status))
Outcome-cases (done a) = inl (a, refl)
Outcome-cases (failed status) = inr (status, refl)
