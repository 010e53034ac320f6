-- ===== src/SymHeap/Roundtrip.antt =====
-- The free list has one shape for each set of free bytes, so the allocator does not fragment for
-- good: what is freed is merged back.
use mathlib.Core.Path.{subst₂}
use openshmem_rs.Prelude.{
  ℕ, ◌*◌, ◌<◌, ◌≡◌, sym, ap, ◌∙◌, [], ◌∷◌, some, if◌then◌else◌, ltb, inl, inr, arith, length,
}
use openshmem_rs.Error.{ok, err}
use openshmem_rs.Prelude.BTree
use openshmem_rs.Prelude.BTree.{get-insert, erase-insert}
use openshmem_rs.SymHeap.Canonical.{eq_of_cover}
use openshmem_rs.SymHeap.Invariant.{IsValid}
use openshmem_rs.SymHeap.Live.{live_cover}
use openshmem_rs.SymHeap.Grant.{Granted}
use openshmem_rs.SymHeap.Malloc.{malloc_lem}
use openshmem_rs.SymHeap.Release.{free_lem}
use openshmem_rs.SymHeap.{SymPtr, SymHeap, capacity, malloc, free}

-- Two valid heaps of one region with the same allocations have the same free list.
pub free_list_unique :
    (h g : SymHeap)
    → IsValid h
    → IsValid g
    → h.region ≡ g.region
    → h.local_base ≡ g.local_base
    → h.allocations ≡ g.allocations
    → h.free_list ≡ g.free_list
free_list_unique h g v w r b a = eq_of_cover 0 0 h.free_list g.free_list v.spaced w.spaced λ x.
    omega (
      arith,
      v.exact x,
      w.exact x,
      ap (λ m. live_cover h.local_base m x) a,
      ap (λ t. live_cover t g.allocations x) b,
      ap {B = ℕ} (λ l. if ltb x (length l * 8) then 1 else 0) r,
    )

-- In a valid heap that has words and no allocation, the free list is one block, the whole heap.
pub free_list_whole :
    (h : SymHeap)
    → IsValid h
    → 0 < capacity h
    → h.allocations ≡ []
    → h.free_list ≡ record { start = 0; len = capacity h } ∷ []
free_list_whole h v pos none_live =
    eq_of_cover 0 0 h.free_list (record { start = 0; len = capacity h } ∷ []) v.spaced
      (omega arith, pos, tt)
      λ x. ground (arith, v.exact x, ap (λ m. live_cover h.local_base m x) none_live)

SymHeap-eq :
    {h g : SymHeap}
    → h.memh ≡ g.memh
    → h.region ≡ g.region
    → h.free_list ≡ g.free_list
    → h.allocations ≡ g.allocations
    → h.packed_rkey ≡ g.packed_rkey
    → h.local_base ≡ g.local_base
    → h ≡ g
SymHeap-eq m r f a k b = λ i. record {
  memh = m i;
  region = r i;
  free_list = f i;
  allocations = a i;
  packed_rkey = k i;
  local_base = b i;
}

free-Granted :
    (h h' : SymHeap) (size : ℕ) (p : SymPtr)
    → IsValid h
    → IsValid h'
    → Granted h size p h'
    → free p h' ≡ (ok tt, h)
free-Granted h h' size p v v' g =
    let live : BTree.get p.addr h'.allocations ≡ some g.requested =
      rw (g.recorded, get-insert) (ground arith) in
    let (h2, run, back, v2) = free_lem h' v' p g.requested live in
    let allocations : h2.allocations ≡ h.allocations =
      back.forgotten
      ∙ ap (BTree.erase p.addr) g.recorded
      ∙ erase-insert 0 p.addr g.requested h.allocations v.ascending g.fresh in
    let region : h2.region ≡ h.region = back.same_region ∙ g.same_region in
    let base : h2.local_base ≡ h.local_base = back.same_base ∙ g.same_base in
    let same : h2 ≡ h =
      SymHeap-eq (back.same_memh ∙ g.same_memh) region
        (free_list_unique h2 h v2 v region base allocations) allocations
        (back.same_rkey ∙ g.same_rkey) base in
    run ∙ ap (λ t. (ok tt, t)) same

-- On a valid heap, freeing what `malloc` has just returned gives back the very same heap.
pub free-malloc :
    (h h' : SymHeap) (size : ℕ) (p : SymPtr)
    → IsValid h
    → malloc size h ≡ (ok p, h')
    → free p h' ≡ (ok tt, h)
free-malloc h h' size p v run = elim (malloc_lem h size v) [
  | inl (q, g, r, granted, valid) ↦
      let pointer : ok q ≡ ok p = ap (λ t. t.0) (sym r ∙ run) in
      let heap : g ≡ h' = ap (λ t. t.1) (sym r ∙ run) in
      let q_eq : q ≡ p = cc in
      subst₂ (λ a t. free a t ≡ (ok tt, h)) q_eq heap (free-Granted h g size q v valid granted)
  | inr (e, r, refused) ↦ let clash : err e ≡ ok p = ap (λ t. t.0) (sym r ∙ run) in cc
]
