-- ===== src/Prelude/Lists.antt =====
-- Lists measured and indexed by native numbers.
use Prim.Native.Nat.{ℕ, zero, suc, ◌+◌}
use mathlib.Core.Path.{◌≡◌, refl, ap, subst}
use mathlib.Core.Logic.{inl, inr}
use mathlib.Core.Bool.{Bool, true, false}
use mathlib.Core.List.{List, [], ◌∷◌, ◌++◌}
use mathlib.Core.Option.{Option, none, some}
use mathlib.Core.Option
use native.Mathlib.Omega.{arith}
use openshmem_rs.Prelude.Tests.{if◌then◌else◌, Bool-cases}

module _ {ℓ} {A : Type ℓ} where
  abbrev pub length : List A → ℕ
  length [] = 0
  length (x ∷ xs) = suc (length xs)

  abbrev pub get_elem? : List A → ℕ → Option A
  get_elem? [] i = none
  get_elem? (x ∷ xs) zero = some x
  get_elem? (x ∷ xs) (suc i) = get_elem? xs i

  -- A write out of range changes nothing.
  abbrev pub set : List A → ℕ → A → List A
  set [] i v = []
  set (x ∷ xs) zero v = v ∷ xs
  set (x ∷ xs) (suc i) v = x ∷ set xs i v

  -- `Vec::remove`; out of range, where it would panic, nothing changes.
  abbrev pub erase_idx : List A → ℕ → List A
  erase_idx [] i = []
  erase_idx (x ∷ xs) zero = xs
  erase_idx (x ∷ xs) (suc i) = x ∷ erase_idx xs i

  abbrev pub replicate : ℕ → A → List A
  replicate zero a = []
  replicate (suc n) a = a ∷ replicate n a

  -- What is left of a buffer when a C library has stored `src` in it: its length stays.
  abbrev pub overwrite : List A → List A → List A
  overwrite [] src = []
  overwrite (d ∷ ds) [] = d ∷ ds
  overwrite (d ∷ ds) (x ∷ src) = x ∷ overwrite ds src

  -- `Iterator::position`
  unfoldable pub position : (A → Bool) → List A → Option ℕ
  position p [] = none
  position p (x ∷ xs) = let rest = Option.map suc (position p xs) in if p x then some 0 else rest

  abbrev pub All {κ} : (A → Type κ) → List A → Type κ
  All P [] = Unit
  All P (x ∷ xs) = P x × All P xs

  pub length-append : (xs ys : List A) → length (xs ++ ys) ≡ length xs + length ys
  length-append [] ys = omega arith
  length-append (x ∷ xs) ys = omega (arith, length-append xs ys)

  pub length-replicate : (n : ℕ) (a : A) → length (replicate n a) ≡ n
  length-replicate zero a = refl
  length-replicate (suc n) a = ap suc (length-replicate n a)

  pub length-overwrite : (dst src : List A) → length (overwrite dst src) ≡ length dst
  length-overwrite [] src = refl
  length-overwrite (d ∷ ds) [] = refl
  length-overwrite (d ∷ ds) (x ∷ src) = ap suc (length-overwrite ds src)

  pub overwrite-whole : (dst src : List A) → length dst ≡ length src → overwrite dst src ≡ src
  overwrite-whole [] [] e = refl
  overwrite-whole [] (x ∷ src) e = absurd (omega arith)
  overwrite-whole (d ∷ ds) [] e = absurd (omega arith)
  overwrite-whole (d ∷ ds) (x ∷ src) e = ap (λ l. x ∷ l) (overwrite-whole ds src (omega arith))

module _ {ℓ} {A : Type ℓ} where
  pub get_elem?-middle :
      (pre : List A) (x : A) (post : List A) → get_elem? (pre ++ x ∷ post) (length pre) ≡ some x
  get_elem?-middle [] x post = refl
  get_elem?-middle (y ∷ pre) x post = get_elem?-middle pre x post

  pub set-middle :
      (pre : List A) (x v : A) (post : List A)
      → set (pre ++ x ∷ post) (length pre) v ≡ pre ++ v ∷ post
  set-middle [] x v post = refl
  set-middle (y ∷ pre) x v post = ap (λ l. y ∷ l) (set-middle pre x v post)

  pub erase_idx-middle :
      (pre : List A) (x : A) (post : List A)
      → erase_idx (pre ++ x ∷ post) (length pre) ≡ pre ++ post
  erase_idx-middle [] x post = refl
  erase_idx-middle (y ∷ pre) x post = ap (λ l. y ∷ l) (erase_idx-middle pre x post)

  pub All-imp {κ μ} :
      (P : A → Type κ) (Q : A → Type μ) (f : (x : A) → P x → Q x) (xs : List A)
      → All P xs
      → All Q xs
  All-imp P Q f [] a = tt
  All-imp P Q f (x ∷ xs) a = (f x a.0, All-imp P Q f xs a.1)

  -- The list around the first element that passes the test.
  pub record Found (p : A → Bool) (xs : List A) (i : ℕ) : Type ℓ where
    pub before : List A
    pub hit : A
    pub after : List A
    pub split : xs ≡ before ++ hit ∷ after
    pub at : length before ≡ i
    pub passes : p hit ≡ true
    pub earlier : All (λ y. p y ≡ false) before

  Found-cons :
      {p : A → Bool} {xs : List A} {i : ℕ} (x : A)
      → p x ≡ false
      → Found p xs i
      → Found p (x ∷ xs) (suc i)
  Found-cons x miss f = record {
    before = x ∷ f.before;
    hit = f.hit;
    after = f.after;
    split = ap (λ l. x ∷ l) f.split;
    at = ap suc f.at;
    passes = f.passes;
    earlier = (miss, f.earlier);
  }

  position-rest :
      (p : A → Bool) (x : A) (xs : List A) (r : Option ℕ) (i : ℕ)
      → p x ≡ false
      → ((j : ℕ) → r ≡ some j → Found p xs j)
      → Option.map suc r ≡ some i
      → Found p (x ∷ xs) i
  position-rest p x xs none i miss f e = cc
  position-rest p x xs (some j) i miss f e =
      subst (Found p (x ∷ xs)) (ground arith) (Found-cons x miss (f j refl))

  pub position-Found : (p : A → Bool) (xs : List A) (i : ℕ) → position p xs ≡ some i → Found p xs i
  unfolding position
  position-Found p [] i e = cc
  position-Found p (x ∷ xs) i e = elim (Bool-cases (p x)) [
    | inl hit ↦ subst (Found p (x ∷ xs)) (ground arith) (record {
      before = [];
      hit = x;
      after = xs;
      split = refl;
      at = refl;
      passes = hit;
      earlier = tt;
    })
    | inr miss ↦
        position-rest p x xs (position p xs) i miss (λ j. position-Found p xs j) (ground arith)
  ]

  pub position-none :
      (p : A → Bool) (xs : List A) → position p xs ≡ none → All (λ y. p y ≡ false) xs
  unfolding position
  position-none p [] e = tt
  position-none p (x ∷ xs) e = ground (arith, position-none p xs)
