-- ===== src/World/Post.antt =====
-- What holds of a run that returns a value; a run that fails owes nothing.
use mathlib.Core.Path.{subst}
use openshmem_rs.Prelude.{ℕ, ◌≡◌, refl, Outcome, done, arith}
use openshmem_rs.Error.{Error, Result, ok, err, panic}
use openshmem_rs.Error.Convert.{map_err}
use openshmem_rs.World.Calls.{History, Io, and_then}

pub data Post {A : Type 0} (P : A → History → Type 0) : Result A × History → Type 0 where
  returned : {a : A} {h : History} → P a h → Post P (ok a, h)
  failed : {e : Error} {h : History} → Post P (err e, h)
  panicked : {h : History} → Post P (panic, h)

module _ {A : Type 0} {P : A → History → Type 0} where
  pub bind :
      {B : Type 0} {Q : B → History → Type 0} {r : Result A × History} {k : A → Io B}
      → Post P r
      → ((a : A) (h : History) → P a h → Post Q (k a h))
      → Post Q (and_then r k)
  unfolding and_then
  bind (returned p) next = next _ _ p
  bind failed next = failed
  bind panicked next = panicked

  pub mono :
      {Q : A → History → Type 0} {r : Result A × History}
      → Post P r
      → ((a : A) (h : History) → P a h → Q a h)
      → Post Q r
  mono (returned p) weaken = returned (weaken _ _ p)
  mono failed weaken = failed
  mono panicked weaken = panicked

  pub both :
      {Q : A → History → Type 0} {r : Result A × History}
      → Post P r
      → Post Q r
      → Post (λ a h. P a h × Q a h) r
  both (returned p) (returned q) = returned (p, q)
  both failed failed = failed
  both panicked panicked = panicked

  returned-inv : {a : A} {h : History} → Post P (ok a, h) → P a h
  returned-inv (returned p) = p

  pub Post-ok : {a : A} {h : History} {r : Result A × History} → Post P r → r ≡ (ok a, h) → P a h
  Post-ok p e = returned-inv (subst (Post P) e p)

-- The result of a call or of a pure step, with what it is known to be.
pub step :
    {A B : Type 0} {Q : B → History → Type 0} {r : Result A} {h : History} (k : A → Io B)
    → ((a : A) → r ≡ ok a → Post Q (k a h))
    → Post Q (and_then (r, h) k)
unfolding and_then
step {r = ok a} k next = next a refl
step {r = err e} k next = failed
step {r = panic} k next = panicked

-- The result of the last call.
pub last :
    {A : Type 0} {P : A → History → Type 0} {r : Result A} {h : History}
    → ((a : A) → r ≡ ok a → P a h)
    → Post P (r, h)
last {r = ok a} holds = returned (holds a refl)
last {r = err e} holds = failed
last {r = panic} holds = panicked

-- A call whose result is a value has had that answer.
pub map_err-done :
    {A : Type 0} (convert : ℕ → Error) (o : Outcome A) {a : A}
    → map_err convert o ≡ ok a
    → o ≡ done a
map_err-done convert (done x) e = ground arith
map_err-done convert (Outcome.failed status) e = absurd (ground arith)

-- A run of which nothing needs to be known.
pub anything : {A : Type 0} (r : Result A × History) → Post (λ _ _. Unit {0}) r
anything (ok a, h) = returned tt
anything (err e, h) = failed
anything (panic, h) = panicked
