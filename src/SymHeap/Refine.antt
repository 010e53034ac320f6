-- ===== src/SymHeap/Refine.antt =====
-- The heap with its free list implements the abstract allocator.
use mathlib.Core.Path.{subst}
use openshmem_rs.Prelude.{
  ℕ, suc, ◌+◌, ◌-◌, ◌≤◌, ◌<◌, ◌≡◌, ◌≢◌, ◌⊎◌, inl, inr, refl, sym, ap, ◌∙◌, List, [], ◌∷◌, none,
  some, if◌then◌else◌, ◌==◌, leb, arith, All, length, ◌*◌, Bool-cases,
}
use Prim.Native.Nat.{max}
use openshmem_rs.Prelude.BTree
use openshmem_rs.Prelude.BTree.{IsAscending, get-insert, get-erase_self, get-erase_ne, get-below}
use openshmem_rs.Error.{Error, Result, ok, err, panic}
use openshmem_rs.SymHeap.Blocks.{Block}
use openshmem_rs.SymHeap.Cover.{cover, IsSpaced, cover-below}
use openshmem_rs.SymHeap.Live.{live_cover}
use openshmem_rs.SymHeap.Invariant.{IsValid, allocation-IsLive, allocation_owns}
use openshmem_rs.SymHeap.Grant.{Granted}
use openshmem_rs.SymHeap.Malloc.{malloc_lem, Refused, zero_size, too_large, exhausted}
use openshmem_rs.SymHeap.Release.{free-Frees}
use openshmem_rs.SymHeap.Runs.{Call, mallocs, frees, step, run, step-IsValid}
use openshmem_rs.SymHeap.Spec.{
  View, Answer, granted, freed, refused, crashed, IsFree, Step, gives, bad_size, no_room, takes,
  rejects, Trace, stop, next,
}
use openshmem_rs.SymHeap.{SymPtr, SymHeap, capacity, word_size, malloc, free}

abbrev pub view : SymHeap → View
view h address = BTree.get address h.allocations

abbrev malloc_answer : Result SymPtr → Answer
malloc_answer (ok p) = granted p.addr
malloc_answer (err e) = refused
malloc_answer panic = crashed

abbrev free_answer : Result (Unit {0}) → Answer
free_answer (ok x) = freed
free_answer (err e) = refused
free_answer panic = crashed

abbrev pub answer : SymHeap → Call → Answer
answer h (mallocs size) = malloc_answer (malloc size h).0
answer h (frees p) = free_answer (free p h).0

abbrev pub answers : SymHeap → List Call → List Answer
answers h [] = []
answers h (c ∷ cs) = answer h c ∷ answers (step h c) cs

-- A run of covered bytes lies in one block.
one_block :
    (lo o n : ℕ) (bs : List Block)
    → IsSpaced lo bs
    → 0 < n
    → ((x : ℕ) → o ≤ x → x < o + n → cover bs x ≡ 1)
    → All (λ b. b.len < n) bs
    → ⊥
one_block lo o n [] s some_byte whole small = absurd (ground (arith, whole o))
one_block lo o n (b ∷ bs) s some_byte whole small = elim (Bool-cases (leb (b.start + b.len) o)) [
  | inl behind ↦
      one_block (suc (b.start + b.len)) o n bs s.2 some_byte
        (λ x lower upper. ground (arith, whole x lower upper)) small.1
  | inr within ↦ ground (
    arith,
    whole o (omega arith) (omega arith),
    cover-below (suc (b.start + b.len)) o bs s.2,
    whole (b.start + b.len),
    cover-below (suc (b.start + b.len)) (b.start + b.len) bs s.2,
    small.0,
  )
]

-- A byte of an allocation belongs to one that the map has.
live_owner :
    (base lo x : ℕ) (m : List (ℕ × ℕ))
    → IsAscending lo m
    → (live_cover base m x ≡ 0)
      ⊎ ((a : ℕ) × (l : ℕ) × (BTree.get a m ≡ some l) × (a ≤ base + x) × (base + x < a + l))
unfolding BTree.get
live_owner base lo x [] up = inl refl
live_owner base lo x ((k, w) ∷ m) up = elim (live_owner base (suc k) x m up.1) [
  | inr (a, l, found, lower, upper) ↦
      let apart : k ≢ a = λ same. ground (arith, get-below (suc k) a m up.1) in
      inr (a, l, ground arith, lower, upper)
  | inl others ↦ elim (Bool-cases (leb k (base + x))) [
    | inr early ↦ inl (ground arith)
    | inl reached ↦ elim (Bool-cases (leb (k + w) (base + x))) [
      | inl late ↦ inl (ground arith)
      | inr inside ↦ inr (k, w, ground arith, ground arith, ground arith)
    ]
  ]
]

module _ (h : SymHeap) (v : IsValid h) where
  Granted-IsFree :
      (size : ℕ) (p : SymPtr) (h' : SymHeap) (g : Granted h size p h')
      → 0 < g.requested
      → IsFree (view h) p.addr g.requested
  Granted-IsFree size p h' g some_byte a l live = elim (Bool-cases (leb (a + l) p.addr)) [
    | inl before ↦ inl (ground arith)
    | inr early ↦ elim (Bool-cases (leb (p.addr + g.requested) a)) [
      | inl behind ↦ inr (ground arith)
      | inr late ↦
          let at = g.address in
          let above = (allocation-IsLive h v a l live).above in
          let some_owned = (allocation-IsLive h v a l live).nonempty in
          let p1 : p.addr < a + l = ground arith in
          let p2 : a < p.addr + g.requested = ground arith in
          let x = max a p.addr - h.local_base in
          let owned = (allocation_owns h v a l live x (omega arith) (omega arith)).1 in
          let lower : g.offset ≤ x = omega arith in
          let upper : x < g.offset + g.requested = omega arith in absurd (ground (arith, g.taken x))
    ]
  ]

  no_gap :
      (requested address : ℕ)
      → 0 < requested
      → All (λ b. b.len < requested) h.free_list
      → h.local_base ≤ address
      → address + requested ≤ h.local_base + capacity h
      → IsFree (view h) address requested
      → ⊥
  no_gap requested address some_byte small lower upper is_free =
      one_block 0 (address - h.local_base) requested h.free_list v.spaced some_byte
        (λ x from below. unowned x from below) small
    where
      unowned :
          (x : ℕ)
          → address - h.local_base ≤ x
          → x < address - h.local_base + requested
          → cover h.free_list x ≡ 1
      unowned x from below = elim (live_owner h.local_base 0 x h.allocations v.ascending) [
        | inl nobody ↦ ground (arith, v.exact x)
        | inr (a, l, live, reached, inside) ↦ absurd (apart a l (is_free a l live) reached inside)
      ]
        where
          apart :
              (a l : ℕ)
              → (a + l ≤ address) ⊎ (address + requested ≤ a)
              → a ≤ h.local_base + x
              → h.local_base + x < a + l
              → ⊥
          apart a l (inl before) reached inside = omega arith
          apart a l (inr behind) reached inside = omega arith

  some_size : (size : ℕ) (p : SymPtr) (h' : SymHeap) → malloc size h ≡ (ok p, h') → 0 < size
  unfolding malloc
  some_size size p h' r = elim (Bool-cases (size == 0)) [
    | inl empty ↦ absurd (ground arith)
    | inr full ↦ ground arith
  ]

  erased :
      (p : SymPtr) (h' : SymHeap) (a : ℕ)
      → h'.allocations ≡ BTree.erase p.addr h.allocations
      → view h' a ≡ (if p.addr == a then none else view h a)
  erased p h' a e = elim (Bool-cases (p.addr == a)) [
    | inl same ↦
        let here : p.addr ≡ a = ground arith in
        rw (e, same)
          (subst (λ k. BTree.get k (BTree.erase p.addr h.allocations) ≡ none) here
            (get-erase_self p.addr h.allocations))
    | inr other ↦ rw (e, other) (get-erase_ne p.addr a h.allocations (λ here. ground arith))
  ]

  refused-Step :
      (size : ℕ) (e : Error)
      → Refused h size e
      → Step h.local_base (capacity h) (view h) (mallocs size) refused (view h)
  refused-Step size e (zero_size empty _) = bad_size (inl empty)
  refused-Step size e (too_large _ big _) = bad_size (inr big)
  refused-Step size e (exhausted requested some_byte rounded small _) =
      no_room rounded λ address lower upper is_free.
        no_gap requested address (omega (arith, rounded.enough)) small lower upper is_free

  -- Each call of a valid heap is a step of the abstract allocator.
  step-Step : (c : Call) → Step h.local_base (capacity h) (view h) c (answer h c) (view (step h c))
  unfolding step
  step-Step (mallocs size) = elim (malloc_lem h size v) [
    | inl (p, h', r, g, valid) ↦
        let some_byte = some_size size p h' r in
        let at = g.address in
        subst
          (λ t.
            Step h.local_base (capacity h) (view h) (mallocs size) (malloc_answer t.0) (view t.1))
          (sym r)
          (gives some_byte g.rounded (omega arith) (omega (arith, g.aligned))
            (omega (arith, g.inside)) (Granted-IsFree size p h' g (omega (arith, g.rounded.enough)))
            (λ a. ap (BTree.get a) g.recorded ∙ get-insert p.addr a g.requested h.allocations))
    | inr (e, r, why) ↦
        subst
          (λ t.
            Step h.local_base (capacity h) (view h) (mallocs size) (malloc_answer t.0) (view t.1))
          (sym r) (refused-Step size e why)
  ]
  step-Step (frees p) = elim (free-Frees h p v) [
    | inl (len, h', live, r, returned, valid) ↦
        subst (λ t. Step h.local_base (capacity h) (view h) (frees p) (free_answer t.0) (view t.1))
          (sym r) (takes live (λ a. erased p h' a returned.forgotten))
    | inr (gone, r) ↦
        subst (λ t. Step h.local_base (capacity h) (view h) (frees p) (free_answer t.0) (view t.1))
          (sym r) (rejects gone)
  ]

  -- A call moves neither the heap nor its end.
  step_place : (c : Call) → ((step h c).local_base ≡ h.local_base) × ((step h c).region ≡ h.region)
  unfolding step
  step_place (mallocs size) = elim (malloc_lem h size v) [
    | inl (p, h', r, g, valid) ↦ rw (step, r) (g.same_base, g.same_region)
    | inr (e, r, why) ↦ rw (step, r) (refl, refl)
  ]
  step_place (frees p) = elim (free-Frees h p v) [
    | inl (len, h', live, r, returned, valid) ↦
        rw (step, r) (returned.same_base, returned.same_region)
    | inr (gone, r) ↦ rw (step, r) (refl, refl)
  ]

-- Every history of calls on a valid heap is a history of the abstract allocator, with the same answers
-- and with what the map of allocations holds at the end. So no call panics; each `malloc` that succeeds
-- returns aligned bytes that no live allocation has; one that fails was asked for no bytes, or too many
-- for its rounding, or for more than any range of free bytes has; and `free` accepts live pointers only.
pub run-Trace :
    (h : SymHeap) (cs : List Call)
    → IsValid h
    → Trace h.local_base (capacity h) (view h) cs (answers h cs) (view (run h cs))
unfolding run
run-Trace h [] v = stop
run-Trace h (c ∷ cs) v =
    let (base, region) = step_place h v c in
    next (step-Step h v c) (
      subst
        (λ b.
          Trace b (capacity h) (view (step h c)) cs (answers (step h c) cs)
            (view (run (step h c) cs)))
        base
        (subst
          (λ r.
            Trace (step h c).local_base (length r * word_size) (view (step h c)) cs
              (answers (step h c) cs) (view (run (step h c) cs)))
          region (run-Trace (step h c) cs (step-IsValid h c v))))
