-- ===== src/SymHeap/Carve.antt =====
-- The parts of `malloc`: the rounded size, the block found, and what is left of it.
use mathlib.Core.Path.{ap₂, subst}
use openshmem_rs.Prelude.{
  ℕ, ◌+◌, ◌-◌, ◌%◌, ◌≤◌, ◌<◌, ◌≡◌, sym, ap, ◌∙◌, List, [], ◌∷◌, ◌++◌, none, some, if◌then◌else◌,
  ◌==◌, Bool-cases, inl, inr, arith, All, Found, length, get_elem?, get_elem?-middle, set-middle,
  erase_idx-middle, usize_mod, add_usize,
}
use openshmem_rs.Prelude.Bits.{bit_and-not_seven}
use openshmem_rs.SymHeap.Blocks.{Block}
use openshmem_rs.SymHeap.Cover.{
  hits, cover, IsSpaced, IsSpaced-shrink, IsSpaced-remove, cover-append,
}
use openshmem_rs.SymHeap.Coalesce.{IsAligned}
use openshmem_rs.SymHeap.{round_up, carve, fits}

-- What a successful rounding returns.
pub record Rounded (size requested : ℕ) : Type 0 where
  pub enough : size ≤ requested
  pub tight : requested < size + 8
  pub multiple : requested % 8 ≡ 0
  pub in_range : requested < usize_mod

pub round_up-Rounded :
    (size requested : ℕ) → round_up size ≡ some requested → Rounded size requested
unfolding round_up
round_up-Rounded size requested e = ground (arith, bit_and-not_seven (size + 7))

pub round_up-none : (size : ℕ) → round_up size ≡ none → usize_mod ≤ size + 7
unfolding round_up
round_up-none size e = ground arith

pub round_up-some :
    (size : ℕ) → size + 7 < usize_mod → round_up size ≡ some (size + 7 - (size + 7) % 8)
unfolding round_up
round_up-some size h = ground (arith, bit_and-not_seven (size + 7))

-- What is left of the block that `malloc` found.
abbrev remainder : Block → ℕ → List Block → List Block
remainder b requested after =
    if b.len == requested
    then after
    else record { start = add_usize b.start requested; len = b.len - requested } ∷ after

carve_middle :
    (pre : List Block) (b : Block) (post : List Block) (requested : ℕ)
    → carve (pre ++ b ∷ post) (length pre) b requested ≡ pre ++ remainder b requested post
unfolding carve
carve_middle pre b post requested = elim (Bool-cases (b.len == requested)) [
  | inl whole ↦ rw whole (erase_idx-middle pre b post)
  | inr part ↦ rw part (set-middle pre b _ post)
]

cover-remainder :
    (b : Block) (requested : ℕ) (post : List Block) (x : ℕ)
    → requested ≤ b.len
    → b.start + b.len < usize_mod
    → hits b.start requested x + cover (remainder b requested post) x
      ≡ hits b.start b.len x + cover post x
cover-remainder b requested post x h l = ground arith

remainder-IsAligned :
    (b : Block) (requested : ℕ) (post : List Block)
    → requested % 8 ≡ 0
    → requested ≤ b.len
    → All IsAligned (b ∷ post)
    → All IsAligned (remainder b requested post)
remainder-IsAligned b requested post m h a = ground arith

remainder-IsSpaced :
    (lo : ℕ) (pre : List Block) (b : Block) (requested : ℕ) (post : List Block)
    → 0 < requested
    → requested ≤ b.len
    → b.start + b.len < usize_mod
    → IsSpaced lo (pre ++ b ∷ post)
    → IsSpaced lo (pre ++ remainder b requested post)
remainder-IsSpaced lo pre b requested post p h l s = elim (Bool-cases (b.len == requested)) [
  | inl whole ↦ rw whole (IsSpaced-remove lo pre b post s)
  | inr part ↦
      rw part (IsSpaced-shrink lo pre b _ post s (ground arith) (ground arith) (ground arith))
]

All-append {κ} : (P : Block → Type κ) (xs ys : List Block) → All P xs → All P ys → All P (xs ++ ys)
All-append P [] ys a b = b
All-append P (x ∷ xs) ys a b = (a.0, All-append P xs ys a.1 b)

All-append_left {κ} : (P : Block → Type κ) (xs ys : List Block) → All P (xs ++ ys) → All P xs
All-append_left P [] ys a = tt
All-append_left P (x ∷ xs) ys a = (a.0, All-append_left P xs ys a.1)

pub All-append_right {κ} : (P : Block → Type κ) (xs ys : List Block) → All P (xs ++ ys) → All P ys
All-append_right P [] ys a = a
All-append_right P (x ∷ xs) ys a = All-append_right P xs ys a.1

-- The search found a block, and the free list is spaced, aligned and within `limit`.
module _ (requested : ℕ) (blocks : List Block) (index : ℕ)
    (f : Found (fits requested) blocks index) where
  pub fits-hit : requested ≤ f.hit.len
  fits-hit = let passes = f.passes in ground arith

  pub found_elem : get_elem? blocks index ≡ some f.hit
  found_elem = ap₂ get_elem? f.split (sym f.at) ∙ get_elem?-middle f.before f.hit f.after

  pub found_all {κ} : (P : Block → Type κ) → All P blocks → P f.hit
  found_all P a = (All-append_right P f.before _ (subst (All P) f.split a)).0

  carve_lem : carve blocks index f.hit requested ≡ f.before ++ remainder f.hit requested f.after
  carve_lem =
      ap₂ (λ l i. carve l i f.hit requested) f.split (sym f.at)
      ∙ carve_middle f.before f.hit f.after requested

  -- The bytes of the allocation leave the free list, and no others.
  pub cover-carve :
      (x : ℕ)
      → f.hit.start + f.hit.len < usize_mod
      → hits f.hit.start requested x + cover (carve blocks index f.hit requested) x ≡ cover blocks x
  cover-carve x l = omega (
    arith,
    ap (λ t. cover t x) carve_lem,
    ap (λ t. cover t x) f.split,
    cover-append f.before (remainder f.hit requested f.after) x,
    cover-append f.before (f.hit ∷ f.after) x,
    cover-remainder f.hit requested f.after x fits-hit l,
  )

  pub carve-IsSpaced :
      0 < requested
      → f.hit.start + f.hit.len < usize_mod
      → IsSpaced 0 blocks
      → IsSpaced 0 (carve blocks index f.hit requested)
  carve-IsSpaced p l s = subst (IsSpaced 0) (sym carve_lem) (
      remainder-IsSpaced 0 f.before f.hit requested f.after p fits-hit l
        (subst (IsSpaced 0) f.split s))

  pub carve-IsAligned :
      requested % 8 ≡ 0 → All IsAligned blocks → All IsAligned (carve blocks index f.hit requested)
  carve-IsAligned m a =
      let a' = subst (All IsAligned) f.split a in
      subst (All IsAligned) (sym carve_lem) (
        All-append IsAligned f.before _ (All-append_left IsAligned f.before _ a') (
          remainder-IsAligned f.hit requested f.after m fits-hit
            (All-append_right IsAligned f.before _ a')))
