-- ===== src/SymHeap/Runs.antt =====
-- What a client of the allocator sees over any history of calls.
use openshmem_rs.Prelude.{
  ℕ, All, ◌+◌, ◌-◌, ◌≤◌, ◌<◌, ◌≡◌, ◌≢◌, ◌⊎◌, sym, ◌∙◌, List, [], ◌∷◌, some, leb, inl, inr, arith,
  Bool-cases,
}
use openshmem_rs.Error.{ok, Error}
use openshmem_rs.Prelude.BTree
use openshmem_rs.Prelude.BTree.{get-erase_ne}
use openshmem_rs.SymHeap.Live.{live_cover-erase}
use openshmem_rs.SymHeap.Invariant.{IsValid, allocation-IsLive, allocation_owns}
use openshmem_rs.SymHeap.Malloc.{malloc_lem, Refused, zero_size, too_large, exhausted}
use openshmem_rs.SymHeap.Release.{free-Frees}
use openshmem_rs.SymHeap.Create.{IsVector, with_size-IsValid}
use openshmem_rs.Error.Convert.{Statuses}
use openshmem_rs.SymHeap.{SymPtr, SymHeap, Registration, with_size, capacity, malloc, free}
use Prim.Native.Nat.{max}
use mathlib.Core.Path.{subst}
use openshmem_rs.SymHeap.Roundtrip.{free_list_whole}
use openshmem_rs.Prelude.BTree.{IsAscending, erase-IsAscending}

pub data Call : Type 0 where
  mallocs : ℕ → Call
  frees : SymPtr → Call

unfoldable pub step : SymHeap → Call → SymHeap
step h (mallocs size) = (malloc size h).1
step h (frees p) = (free p h).1

unfoldable pub run : SymHeap → List Call → SymHeap
run h [] = h
run h (c ∷ cs) = run (step h c) cs

pub step-IsValid : (h : SymHeap) (c : Call) → IsValid h → IsValid (step h c)
unfolding step
step-IsValid h (mallocs size) v = elim (malloc_lem h size v) [
  | inl (p, g, r, granted, valid) ↦ subst (λ t. IsValid t.1) (sym r) valid
  | inr (e, r, refused) ↦ subst (λ t. IsValid t.1) (sym r) v
]
step-IsValid h (frees p) v = elim (free-Frees h p v) [
  | inl (len, g, e, r, returned, valid) ↦ subst (λ t. IsValid t.1) (sym r) valid
  | inr (e, r) ↦ subst (λ t. IsValid t.1) (sym r) v
]

-- From a valid heap, no history of `malloc` and `free`, failed calls and bad pointers included, breaks
-- the invariant.
pub run-IsValid : (h : SymHeap) (cs : List Call) → IsValid h → IsValid (run h cs)
unfolding run
run-IsValid h [] v = v
run-IsValid h (c ∷ cs) v = run-IsValid (step h c) cs (step-IsValid h c v)

-- No byte has two owners.
owned_once :
    (h : SymHeap) (a b l m x : ℕ)
    → IsValid h
    → BTree.get a h.allocations ≡ some l
    → BTree.get b h.allocations ≡ some m
    → a ≢ b
    → a ≤ h.local_base + x
    → h.local_base + x < a + l
    → b ≤ h.local_base + x
    → h.local_base + x < b + m
    → ⊥
owned_once h a b l m x v ea eb ne la ua lb ub =
    let rest = BTree.erase a h.allocations in
    let other : BTree.get b rest ≡ some m = get-erase_ne a b h.allocations ne ∙ eb in
    let none_left = (allocation_owns h v a l ea x la ua).2 in
    ground (
      arith,
      none_left,
      live_cover-erase h.local_base b m 0 rest x (erase-IsAscending 0 a h.allocations v.ascending)
          other,
    )

-- In a valid heap, two live allocations with different addresses do not overlap.
apart :
    (h : SymHeap) (a b l m : ℕ)
    → IsValid h
    → BTree.get a h.allocations ≡ some l
    → BTree.get b h.allocations ≡ some m
    → a ≢ b
    → (a + l ≤ b) ⊎ (b + m ≤ a)
apart h a b l m v ea eb ne = elim (Bool-cases (leb (a + l) b)) [
  | inl before ↦ inl (ground arith)
  | inr early ↦ elim (Bool-cases (leb (b + m) a)) [
    | inl after ↦ inr (ground arith)
    | inr late ↦
        let above_a = (allocation-IsLive h v a l ea).above in
        let above_b = (allocation-IsLive h v b m eb).above in
        let p : b < a + l = ground arith in
        let q : a < b + m = ground arith in
        let nonempty_a = (allocation-IsLive h v a l ea).nonempty in
        let nonempty_b = (allocation-IsLive h v b m eb).nonempty in
        absurd (
          owned_once h a b l m (max a b - h.local_base) v ea eb ne (omega arith) (omega arith)
            (omega arith) (omega arith))
  ]
]

-- With a global allocator whose vectors are aligned and end in the address space: after any history of
-- `malloc` and `free` on a heap that `with_size` has returned, failed calls and bad pointers included,
-- two live allocations with different addresses do not overlap.
pub live_disjoint :
    (s : Statuses) (r : Registration) (size : ℕ) (h : SymHeap) (cs : List Call)
    → IsVector r
    → with_size s r size ≡ ok h
    → (a b l m : ℕ) → BTree.get a (run h cs).allocations ≡ some l
    → BTree.get b (run h cs).allocations ≡ some m
    → a ≢ b
    → (a + l ≤ b) ⊎ (b + m ≤ a)
live_disjoint s r size h cs vec made a b l m =
    apart (run h cs) a b l m (run-IsValid h cs (with_size-IsValid s r size h vec made).0)

-- In a valid heap with no allocation, every request of at least one byte and of at most the heap's
-- capacity is granted, however the heap got there.
pub malloc_when_empty :
    (h : SymHeap) (size : ℕ)
    → IsValid h
    → h.allocations ≡ []
    → 0 < size
    → size ≤ capacity h
    → (p : SymPtr) × (h' : SymHeap) × (malloc size h ≡ (ok p, h'))
malloc_when_empty h size v empty pos fit = elim (malloc_lem h size v) [
  | inl (p, h', r, _, _) ↦ (p, h', r)
  | inr (e, _, refused) ↦ absurd (not_refused e refused)
]
  where
    whole : h.free_list ≡ record { start = 0; len = capacity h } ∷ []
    whole = free_list_whole h v (omega arith) empty

    not_refused : (e : Error) → Refused h size e → ⊥
    not_refused e (zero_size z _) = omega arith
    not_refused e (too_large _ big _) = omega (arith, v.in_range)
    not_refused e (exhausted requested _ rounded small _) =
        let short : capacity h < requested = (subst (All (λ b. b.len < requested)) whole small).0 in
        omega (arith, rounded.multiple, rounded.tight)
