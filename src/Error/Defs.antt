-- ===== src/Error/Defs.antt =====
-- `Error`, `Result` and methods that change an object and may fail.
use openshmem_rs.Prelude.{ℕ, String, Option, none, some, ◌≡◌, refl, ◌⊎◌, inl, inr}

-- `Error`. `Ucc` is there only with the feature `collectives`.
pub data Error : Type 0 where
  pmix : ℕ → Error
  ucx : ℕ → Error
  ucc : ℕ → Error
  usage : String → Error
  not_initialized : Error
  already_initialized : Error
  internal : String → Error

-- `Result<T>`, and the panic that ends a call without a value.
pub data Result {ℓ} (A : Type ℓ) : Type ℓ where
  ok : A → Result A
  err : Error → Result A
  panic : Result A

pub Result-cases {ℓ} :
    {A : Type ℓ} (r : Result A)
    → ((a : A) × (r ≡ ok a)) ⊎ (((e : Error) × (r ≡ err e)) ⊎ (r ≡ panic))
Result-cases (ok a) = inl (a, refl)
Result-cases (err e) = inr (inl (e, refl))
Result-cases panic = inr (inr refl)

-- A method on `&mut self`: what was written before an error stays written.
abbrev pub Exec {ℓ κ} : Type ℓ → Type κ → Type (ℓ ⊔ κ)
Exec S A = S → Result A × S

abbrev pub ok_or {ℓ} : {A : Type ℓ} → Option A → Error → Result A
ok_or none e = err e
ok_or (some a) e = ok a

module _ {ℓ κ} {A : Type ℓ} {B : Type κ} where
  infixl 5 ◌>>=◌ ◌>>◌
  abbrev pub ◌>>=◌ : Result A → (A → Result B) → Result B
  ok a >>= f = f a
  err e >>= f = err e
  panic >>= f = panic

  abbrev pub ◌>>◌ : Result A → Result B → Result B
  m >> k = m >>= λ _. k
