-- ===== src/SymHeap/Malloc.antt =====
-- `malloc`: what it returns on every branch, and that it keeps the invariant.
use openshmem_rs.Prelude.{
  ℕ, ◌+◌, ◌≤◌, ◌<◌, ◌≡◌, ◌⊎◌, refl, some, ◌==◌, false, Bool-cases, inl, inr, arith, All, All-imp,
  usize_mod, position, position-Found, position-none, Option-cases,
}
use openshmem_rs.Error.{Result, ok, err, usage, Error}
use openshmem_rs.SymHeap.Carve.{Rounded, round_up-Rounded, round_up-none}
use openshmem_rs.SymHeap.Invariant.{IsValid}
use openshmem_rs.SymHeap.Grant.{Granted, take_block-Granted}
use openshmem_rs.SymHeap.{SymPtr, SymHeap, round_up, fits, malloc}

-- Why `malloc` fails.
pub data Refused (h : SymHeap) (size : ℕ) (e : Error) : Type 0 where
  zero_size : size ≡ 0 → e ≡ usage "symmetric allocation size must be nonzero" → Refused h size e
  too_large :
      0 < size
      → usize_mod ≤ size + 7
      → e ≡ usage "symmetric allocation size overflow"
      → Refused h size e
  exhausted :
      (requested : ℕ)
      → 0 < size
      → Rounded size requested
      → All (λ b. b.len < requested) h.free_list
      → e ≡ usage "symmetric heap exhausted"
      → Refused h size e

-- The contract of `malloc`: it grants the request, or refuses it and changes nothing.
abbrev pub Allocates : SymHeap → ℕ → Result SymPtr × SymHeap → Type 0
Allocates h size r =
    ((p : SymPtr) × (h' : SymHeap) × (r ≡ (ok p, h')) × Granted h size p h' × IsValid h')
    ⊎ ((e : Error) × (r ≡ (err e, h)) × Refused h size e)

-- The cases of `malloc`, in the order of its tests.
malloc-search :
    (h : SymHeap) (v : IsValid h) (size requested : ℕ)
    → 0 < size
    → round_up size ≡ some requested
    → Allocates h size (malloc size h)
unfolding malloc
malloc-search h v size requested pos e =
    let rounded = round_up-Rounded size requested e in
    let nonzero : (size == 0) ≡ false = ground arith in
    elim (Option-cases (position (fits requested) h.free_list)) [
      | inl missing ↦
          rw (nonzero, e, malloc, missing)
            (inr (
              _,
              refl,
              exhausted requested pos rounded
                  (All-imp (λ b. fits requested b ≡ false) (λ b. b.len < requested)
                    (λ b miss. ground arith) h.free_list
                    (position-none (fits requested) h.free_list missing))
                  refl,
            ))
      | inr (index, hit) ↦
          rw (nonzero, e, malloc, hit)
            (inl (
              take_block-Granted h v size requested index pos rounded
                (position-Found (fits requested) h.free_list index hit)))
    ]

-- On a valid heap `malloc` either grants the request or refuses it for one of three reasons; a
-- refusal leaves the heap as it was, and `malloc` never panics.
pub malloc_lem : (h : SymHeap) (size : ℕ) → IsValid h → Allocates h size (malloc size h)
unfolding malloc
malloc_lem h size v = elim (Bool-cases (size == 0)) [
  | inl zero ↦ rw zero (inr (_, refl, zero_size (ground arith) refl))
  | inr pos ↦ elim (Option-cases (round_up size)) [
    | inl over ↦
        rw (pos, over, malloc)
          (inr (_, refl, too_large (ground arith) (round_up-none size over) refl))
    | inr (requested, e) ↦ malloc-search h v size requested (ground arith) e
  ]
]
