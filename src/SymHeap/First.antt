-- ===== src/SymHeap/First.antt =====
-- The first allocation of a heap.
use mathlib.Core.Path.{subst}
use openshmem_rs.Prelude.{
  ℕ, zero, suc, ◌≡◌, sym, ap, ◌∙◌, [], ◌∷◌, some, inl, inr, arith, Bool-cases, Option-cases, ◌==◌,
  get_elem?, position, position-Found, add_usize,
}
use openshmem_rs.Error.{ok, err}
use openshmem_rs.SymHeap.Invariant.{IsValid}
use openshmem_rs.SymHeap.Create.{IsFresh}
use openshmem_rs.SymHeap.Malloc.{malloc_lem}
use openshmem_rs.SymHeap.Carve.{found_elem}
use openshmem_rs.SymHeap.{SymPtr, SymHeap, Block, capacity, round_up, take_block, fits, malloc}

only_block : (b c : Block) (index : ℕ) → get_elem? (b ∷ []) index ≡ some c → c ≡ b
only_block b c zero e = ground arith
only_block b c (suc index) e = absurd (ground arith)

-- The first allocation of a fresh heap starts at its base.
pub malloc-IsFresh :
    (h h' : SymHeap) (capacity_asked size : ℕ) (p : SymPtr)
    → IsValid h
    → IsFresh capacity_asked h
    → malloc size h ≡ (ok p, h')
    → p.addr ≡ h.local_base
unfolding malloc take_block
malloc-IsFresh h h' n size p v fresh e = elim (Bool-cases (size == 0)) [
  | inl nothing ↦ absurd (ground arith)
  | inr pos ↦ elim (Option-cases (round_up size)) [
    | inl over ↦ absurd (ground arith)
    | inr (requested, rounded) ↦ elim (Option-cases (position (fits requested) h.free_list)) [
      | inl missing ↦ absurd (ground arith)
      | inr (index, hit) ↦
          let f = position-Found (fits requested) h.free_list index hit in
          let here : get_elem? h.free_list index ≡ some f.hit =
            found_elem requested h.free_list index f in
          let first : f.hit ≡ record { start = 0; len = capacity h } =
            only_block (record { start = 0; len = capacity h }) f.hit index
              (subst (λ l. get_elem? l index ≡ some f.hit) fresh.whole here) in
          let start : f.hit.start ≡ 0 = λ i. (first i).start in
          let near : add_usize h.local_base f.hit.start ≡ h.local_base =
            omega (arith, v.in_range) in
          ground arith
    ]
  ]
]

-- An allocation leaves the heap where it is.
pub malloc-base :
    (h h' : SymHeap) (size : ℕ) (p : SymPtr)
    → IsValid h
    → malloc size h ≡ (ok p, h')
    → h'.local_base ≡ h.local_base
malloc-base h h' size p v e = elim (malloc_lem h size v) [
  | inl (q, g, r, granted, valid) ↦
      let heap : g ≡ h' = ap (λ t. t.1) (sym r ∙ e) in
      ap (λ t. t.local_base) (sym heap) ∙ granted.same_base
  | inr (x, r, refused) ↦
      let clash : err x ≡ ok p = ap (λ t. t.0) (sym r ∙ e) in absurd (ground arith)
]
