-- ===== src/World/Loop.antt =====
-- Code that makes calls and has a loop which waits for one of them.
use mathlib.Core.Path.{subst}
use openshmem_rs.Prelude.{Option, none, some, ◌≡◌, refl, arith}
use openshmem_rs.Error.{Error, Result, ok, err, panic}
use openshmem_rs.World.Calls.{History}

-- Code with a loop that waits. `none`: the loop is still waiting when its rounds have run out.
abbrev pub Loop : Type 0 → Type 0
Loop A = History → Option (Result A × History)

module _ {A B : Type 0} where
  -- Steps that end, and then code with a loop.
  unfoldable pub then_loop : Result A × History → (A → Loop B) → Option (Result B × History)
  then_loop (ok a, h) next = next a h
  then_loop (err e, h) next = some (err e, h)
  then_loop (panic, h) next = some (panic, h)

  -- Code with a loop, and then the rest.
  unfoldable pub and_loop : Option (Result A × History) → (A → Loop B) → Option (Result B × History)
  unfolding then_loop
  and_loop none next = none
  and_loop (some out) next = then_loop out next

  -- Inversion of code that returns.
  pub and_loop-inv :
      (m : Option (Result A × History)) (k : A → Loop B) (g : History) {b : B}
      → and_loop m k ≡ some (ok b, g)
      → (a : A) × (f : History) × (m ≡ some (ok a, f)) × (k a f ≡ some (ok b, g))
  unfolding and_loop then_loop
  and_loop-inv none k g e = absurd (ground arith)
  and_loop-inv (some (ok a, f)) k g e = (a, f, refl, e)
  and_loop-inv (some (err x, f)) k g e = absurd (ground arith)
  and_loop-inv (some (panic, f)) k g e = absurd (ground arith)

  pub then_loop-inv :
      (m : Result A × History) (k : A → Loop B) (g : History) {b : B}
      → then_loop m k ≡ some (ok b, g)
      → (a : A) × (f : History) × (m ≡ (ok a, f)) × (k a f ≡ some (ok b, g))
  unfolding then_loop
  then_loop-inv (ok a, f) k g e = (a, f, refl, e)
  then_loop-inv (err x, f) k g e = absurd (ground arith)
  then_loop-inv (panic, f) k g e = absurd (ground arith)

-- What holds of a run that returns a value; a run that fails or still waits owes nothing.
pub data Ends {A : Type 0} (P : A → History → Type 0) : Option (Result A × History) → Type 0 where
  returned : {a : A} {h : History} → P a h → Ends P (some (ok a, h))
  failed : {e : Error} {h : History} → Ends P (some (err e, h))
  panicked : {h : History} → Ends P (some (panic, h))
  waiting : Ends P none

module _ {A B : Type 0} {Q : B → History → Type 0} where
  -- Rules for the two binds: the first part has returned `a`, and the rest is to be shown.
  pub then_step :
      (r : Result A × History) (k : A → Loop B)
      → ((a : A) (h : History) → r ≡ (ok a, h) → Ends Q (k a h))
      → Ends Q (then_loop r k)
  unfolding then_loop
  then_step (ok a, h) k next = next a h refl
  then_step (err e, h) k next = failed
  then_step (panic, h) k next = panicked

  pub and_step :
      (m : Option (Result A × History)) (k : A → Loop B)
      → ((a : A) (h : History) → m ≡ some (ok a, h) → Ends Q (k a h))
      → Ends Q (and_loop m k)
  unfolding and_loop then_loop
  and_step none k next = waiting
  and_step (some (ok a, h)) k next = next a h refl
  and_step (some (err e, h)) k next = failed
  and_step (some (panic, h)) k next = panicked

module _ {A : Type 0} {P : A → History → Type 0} where
  -- The last part of the code.
  pub last_step :
      (r : Option (Result A × History))
      → ((a : A) (h : History) → r ≡ some (ok a, h) → P a h)
      → Ends P r
  last_step none holds = waiting
  last_step (some (ok a, h)) holds = returned (holds a h refl)
  last_step (some (err e, h)) holds = failed
  last_step (some (panic, h)) holds = panicked

  pub Ends-mono :
      {Q : A → History → Type 0} {r : Option (Result A × History)}
      → Ends P r
      → ((a : A) (h : History) → P a h → Q a h)
      → Ends Q r
  Ends-mono (returned p) weaken = returned (weaken _ _ p)
  Ends-mono failed weaken = failed
  Ends-mono panicked weaken = panicked
  Ends-mono waiting weaken = waiting

  returned-inv : {a : A} {h : History} → Ends P (some (ok a, h)) → P a h
  returned-inv (returned p) = p

  pub Ends-ok :
      {a : A} {h : History} {r : Option (Result A × History)}
      → Ends P r
      → r ≡ some (ok a, h)
      → P a h
  Ends-ok p e = returned-inv (subst (Ends P) e p)

-- The value that code with a loop returns, converted.
abbrev pub map_run : {S A B : Type 0} → (A → B) → Option (Result A × S) → Option (Result B × S)
map_run f none = none
map_run f (some (ok a, h)) = some (ok (f a), h)
map_run f (some (err e, h)) = some (err e, h)
map_run f (some (panic, h)) = some (panic, h)

pub map_run-inv :
    {S A B : Type 0} (f : A → B) (r : Option (Result A × S)) {b : B} {g : S}
    → map_run f r ≡ some (ok b, g)
    → (a : A) × (r ≡ some (ok a, g)) × (b ≡ f a)
map_run-inv f none e = absurd (ground arith)
map_run-inv f (some (ok a, h)) e = (a, ground arith, ground arith)
map_run-inv f (some (err x, h)) e = absurd (ground arith)
map_run-inv f (some (panic, h)) e = absurd (ground arith)

module _ {A B C : Type 0} (f : B → C) where
  pub then_loop-map_run :
      (r : Result A × History) (k : A → Loop B) (l : A → Loop C)
      → ((a : A) (h : History) → l a h ≡ map_run f (k a h))
      → then_loop r l ≡ map_run f (then_loop r k)
  unfolding then_loop
  then_loop-map_run (ok a, h) k l same = same a h
  then_loop-map_run (err e, h) k l same = refl
  then_loop-map_run (panic, h) k l same = refl

  pub and_loop-map_run :
      (m : Option (Result A × History)) (k : A → Loop B) (l : A → Loop C)
      → ((a : A) (h : History) → l a h ≡ map_run f (k a h))
      → and_loop m l ≡ map_run f (and_loop m k)
  unfolding and_loop
  and_loop-map_run none k l same = refl
  and_loop-map_run (some r) k l same = then_loop-map_run r k l same
