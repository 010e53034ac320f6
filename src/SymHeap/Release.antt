-- ===== src/SymHeap/Release.antt =====
-- `free`: a live pointer is always accepted, any other is refused, and the invariant is kept.
use mathlib.Core.Path.{subst}
use openshmem_rs.Prelude.{
  ℕ, ◌+◌, ◌-◌, ◌≤◌, ◌<◌, ◌≡◌, ◌⊎◌, refl, sym, ap, ◌∙◌, List, [], ◌∷◌, ◌++◌, none, some, false, inl,
  inr, arith, Option-cases, checked_sub,
}
use openshmem_rs.Error.{Result, ok, err}
use openshmem_rs.Prelude.BTree
use openshmem_rs.Prelude.BTree.{erase-IsAscending, AllEntries-erase, get-erase_self}
use openshmem_rs.SymHeap.Blocks.{Block, sort_by_start, merge}
use openshmem_rs.SymHeap.Cover.{hits, cover}
use openshmem_rs.SymHeap.Sorting.{cover-merge_sort, merge_sort-IsSpaced, merge_sort-IsAligned}
use openshmem_rs.SymHeap.Live.{live_cover, live_cover-erase, hits-shift}
use openshmem_rs.SymHeap.Invariant.{
  IsLive, IsValid, free_list-Below, allocation-IsLive, allocation_owns, allocation_bound,
}
use openshmem_rs.SymHeap.{SymPtr, SymHeap, capacity, out_of_heap, give_back, invalid_pointer, free}

-- The `len` bytes of an allocation at `p` are free again; nothing else moves.
pub record Returned (h : SymHeap) (p : SymPtr) (len : ℕ) (h' : SymHeap) : Type 0 where
  pub offset : ℕ
  pub address : p.addr ≡ h.local_base + offset
  pub inside : offset + len ≤ capacity h
  pub given : (x : ℕ) → cover h'.free_list x ≡ hits offset len x + cover h.free_list x
  pub forgotten : h'.allocations ≡ BTree.erase p.addr h.allocations
  pub same_region : h'.region ≡ h.region
  pub same_base : h'.local_base ≡ h.local_base
  pub same_memh : h'.memh ≡ h.memh
  pub same_rkey : h'.packed_rkey ≡ h.packed_rkey

module _ (h : SymHeap) (v : IsValid h) (p : SymPtr) (len : ℕ)
    (e : BTree.get p.addr h.allocations ≡ some len) where
  live : IsLive h.local_base p.addr len
  live = allocation-IsLive h v p.addr len e

  bound : p.addr + len ≤ h.local_base + capacity h
  bound = allocation_bound h v p.addr len e

  abbrev start : ℕ
  start = p.addr - h.local_base

  start_lem : p.addr ≡ h.local_base + start
  start_lem = omega (arith, live.above)

  abbrev block : Block
  block = record { start = start; len = len }

  abbrev freed : SymHeap
  freed = record h {
    free_list = merge (sort_by_start (h.free_list ++ block ∷ []));
    allocations = BTree.erase p.addr h.allocations;
  }

  end : start + len ≤ capacity h
  end = omega (arith, start_lem, bound)

  taken : (x : ℕ) → start ≤ x → x < start + len → cover h.free_list x ≡ 0
  taken x lower upper =
      (allocation_owns h v p.addr len e x (omega (arith, start_lem)) (omega (arith, start_lem))).1

  in_heap : (a : List (ℕ × ℕ)) → out_of_heap (record h { allocations = a }) start len ≡ false
  unfolding out_of_heap
  in_heap a = ground (arith, end, v.in_range, live.aligned)

  free-eq : free p h ≡ (ok tt, freed)
  unfolding free give_back
  free-eq =
      let sub : checked_sub p.addr h.local_base ≡ some start = ground (arith, live.above) in
      rw (e, free, sub, give_back, in_heap (BTree.erase p.addr h.allocations))

  given : (x : ℕ) → cover freed.free_list x ≡ hits start len x + cover h.free_list x
  given =
      cover-merge_sort block h.free_list (capacity h) (omega (arith, v.in_range)) live.nonempty end
        v.spaced (free_list-Below h v) taken

  same_owners :
      (x : ℕ)
      → cover freed.free_list x + live_cover h.local_base freed.allocations x
        ≡ cover h.free_list x + live_cover h.local_base h.allocations x
  same_owners x = omega (
    arith,
    given x,
    live_cover-erase h.local_base p.addr len 0 h.allocations x v.ascending e,
    hits-shift h.local_base start len x,
    ap (λ a. hits a len (h.local_base + x)) start_lem,
  )

  freed-IsValid : IsValid freed
  freed-IsValid = record {
    spaced =
        merge_sort-IsSpaced block h.free_list (capacity h) (omega (arith, v.in_range)) live.nonempty
          end v.spaced (free_list-Below h v) taken;
    aligned =
        merge_sort-IsAligned block h.free_list (capacity h) (omega (arith, v.in_range))
          live.nonempty end v.spaced (free_list-Below h v) taken (live.aligned, live.multiple)
          v.aligned;
    ascending = erase-IsAscending 0 p.addr h.allocations v.ascending;
    live = AllEntries-erase (IsLive h.local_base) p.addr h.allocations v.live;
    exact = λ x. same_owners x ∙ v.exact x;
    base_aligned = v.base_aligned;
    in_range = v.in_range;
  }

  -- On a valid heap, freeing a live pointer succeeds: the checks behind the removal never refuse it.
  -- Its bytes, and no others, become free, and the heap stays valid.
  pub free_lem : (h' : SymHeap) × (free p h ≡ (ok tt, h')) × Returned h p len h' × IsValid h'
  free_lem = (
    freed,
    free-eq,
    record {
      offset = start;
      address = start_lem;
      inside = end;
      given = given;
      forgotten = refl;
      same_region = refl;
      same_base = refl;
      same_memh = refl;
      same_rkey = refl;
    },
    freed-IsValid,
  )

-- A pointer that is not live, be it foreign or freed before, is refused, and nothing changes.
pub free-invalid :
    (h : SymHeap) (p : SymPtr)
    → BTree.get p.addr h.allocations ≡ none
    → free p h ≡ (err invalid_pointer, h)
unfolding free
free-invalid h p e = rw (e, free)

-- The contract of `free`, by whether the pointer is live.
abbrev pub Frees : SymHeap → SymPtr → Result (Unit {0}) × SymHeap → Type 0
Frees h p r =
    ((len : ℕ) × (h' : SymHeap) × (BTree.get p.addr h.allocations ≡ some len)
      × (r ≡ (ok tt, h'))
      × Returned h p len h'
      × IsValid h')
    ⊎ ((BTree.get p.addr h.allocations ≡ none) × (r ≡ (err invalid_pointer, h)))

-- On a valid heap `free` either gives back exactly the bytes of a live pointer, and the heap stays
-- valid, or the pointer is not live, and it is an error that changes nothing. It never panics.
pub free-Frees : (h : SymHeap) (p : SymPtr) → IsValid h → Frees h p (free p h)
free-Frees h p v = elim (Option-cases (BTree.get p.addr h.allocations)) [
  | inl e ↦ inr (e, free-invalid h p e)
  | inr (len, e) ↦
      let (h', run, returned, valid) = free_lem h v p len e in
      inl (len, h', e, run, returned, valid)
]

-- On a valid heap, after a `free` that succeeds, a second `free` of the same pointer is an error that
-- changes nothing.
pub free_twice :
    (h h' : SymHeap) (p : SymPtr)
    → IsValid h
    → free p h ≡ (ok tt, h')
    → free p h' ≡ (err invalid_pointer, h')
free_twice h h' p v run = elim (free-Frees h p v) [
  | inl (len, h1, e, r, returned, valid) ↦
      let same : h1 ≡ h' = ap (λ t. t.1) (sym r ∙ run) in
      let gone : BTree.get p.addr h1.allocations ≡ none =
        ap (BTree.get p.addr) returned.forgotten ∙ get-erase_self p.addr h.allocations in
      free-invalid h' p (subst (λ g. BTree.get p.addr g.allocations ≡ none) same gone)
  | inr (e, r) ↦
      let clash : ◌≡◌ {A = Result (Unit {0})} (err invalid_pointer) (ok tt) =
        ap (λ t. t.0) (sym r ∙ run) in
      cc
]
