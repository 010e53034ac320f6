-- ===== src/SymHeap/Grant.antt =====
-- `malloc` once it has found a block: what it grants, and that it keeps the invariant.
use openshmem_rs.Prelude.{
  ℕ, ◌+◌, ◌%◌, ◌≤◌, ◌<◌, ◌≡◌, refl, ◌∙◌, none, inl, inr, arith, Found, add_usize, Option-cases,
}
use openshmem_rs.Error.{ok}
use openshmem_rs.Prelude.BTree
use openshmem_rs.Prelude.BTree.{insert-IsAscending, AllEntries-insert}
use openshmem_rs.SymHeap.Cover.{hits, cover}
use openshmem_rs.SymHeap.Coalesce.{IsAligned}
use openshmem_rs.SymHeap.Carve.{
  Rounded, found_elem, found_all, fits-hit, cover-carve, carve-IsSpaced, carve-IsAligned,
}
use openshmem_rs.SymHeap.Live.{live_cover, live_cover-insert, hits-shift}
use openshmem_rs.SymHeap.Invariant.{
  IsLive, IsValid, free_list-Below, allocation-IsLive, allocation_owns,
}
use openshmem_rs.SymHeap.{SymPtr, SymHeap, capacity, carve, take_block, fits}

-- An allocation of `requested` bytes at `offset` that was free and is now live; nothing else moves.
pub record Granted (h : SymHeap) (size : ℕ) (p : SymPtr) (h' : SymHeap) : Type 0 where
  pub requested : ℕ
  pub offset : ℕ
  pub rounded : Rounded size requested
  pub address : p.addr ≡ h.local_base + offset
  pub aligned : offset % 8 ≡ 0
  pub inside : offset + requested ≤ capacity h
  -- The allocator lost exactly the bytes of the allocation, which were all free.
  pub taken : (x : ℕ) → hits offset requested x + cover h'.free_list x ≡ cover h.free_list x
  -- No allocation had this address.
  pub fresh : BTree.get p.addr h.allocations ≡ none
  pub recorded : h'.allocations ≡ BTree.insert p.addr requested h.allocations
  pub same_region : h'.region ≡ h.region
  pub same_base : h'.local_base ≡ h.local_base
  pub same_memh : h'.memh ≡ h.memh
  pub same_rkey : h'.packed_rkey ≡ h.packed_rkey

-- The search found a block.
module _ (h : SymHeap) (v : IsValid h) (size requested index : ℕ) (pos : 0 < size)
    (rounded : Rounded size requested) (f : Found (fits requested) h.free_list index) where
  abbrev offset : ℕ
  offset = f.hit.start

  abbrev address : ℕ
  address = h.local_base + offset

  abbrev taken_heap : SymHeap
  taken_heap = record h {
    free_list = carve h.free_list index f.hit requested;
    allocations = BTree.insert address requested h.allocations;
  }

  enough : requested ≤ f.hit.len
  enough = fits-hit requested h.free_list index f

  end : offset + f.hit.len ≤ capacity h
  end =
      found_all requested h.free_list index f (λ b. b.start + b.len ≤ capacity h)
        (free_list-Below h v)

  carved :
      (x : ℕ)
      → hits offset requested x + cover (carve h.free_list index f.hit requested) x
        ≡ cover h.free_list x
  carved x = cover-carve requested h.free_list index f x (omega (arith, end, v.in_range))

  address_fresh : BTree.get address h.allocations ≡ none
  address_fresh = elim (Option-cases (BTree.get address h.allocations)) [
    | inl e ↦ e
    | inr (len, e) ↦
        let live = allocation-IsLive h v address len e in
        let owns =
          allocation_owns h v address len e offset (omega arith) (omega (arith, live.nonempty)) in
        absurd (ground (arith, carved offset, owns.1))
  ]

  take_block_lem : take_block requested index h ≡ (ok (record { addr = address }), taken_heap)
  unfolding take_block
  take_block_lem =
      let wrap : add_usize h.local_base offset ≡ address =
        omega (arith, end, v.in_range, enough, rounded.enough) in
      rw (found_elem requested h.free_list index f, take_block, wrap)

  same_owners :
      (x : ℕ)
      → cover taken_heap.free_list x + live_cover h.local_base taken_heap.allocations x
        ≡ cover h.free_list x + live_cover h.local_base h.allocations x
  same_owners x = omega (
    arith,
    carved x,
    live_cover-insert h.local_base address requested h.allocations x address_fresh,
    hits-shift h.local_base offset requested x,
  )

  taken_heap-IsValid : IsValid taken_heap
  taken_heap-IsValid = record {
    spaced =
        carve-IsSpaced requested h.free_list index f (omega (arith, rounded.enough))
          (omega (arith, end, v.in_range)) v.spaced;
    aligned = carve-IsAligned requested h.free_list index f rounded.multiple v.aligned;
    ascending = insert-IsAscending 0 address requested h.allocations (omega arith) v.ascending;
    live =
        AllEntries-insert (IsLive h.local_base) address requested h.allocations
          (record {
            above = omega arith;
            nonempty = omega (arith, rounded.enough);
            aligned =
                omega (arith, (found_all requested h.free_list index f IsAligned v.aligned).0);
            multiple = rounded.multiple;
          })
          v.live;
    exact = λ x. same_owners x ∙ v.exact x;
    base_aligned = v.base_aligned;
    in_range = v.in_range;
  }

  pub take_block-Granted :
      (p : SymPtr) × (h' : SymHeap) × (take_block requested index h ≡ (ok p, h'))
      × Granted h size p h'
      × IsValid h'
  take_block-Granted = (
    record { addr = address },
    taken_heap,
    take_block_lem,
    record {
      requested = requested;
      offset = offset;
      rounded = rounded;
      address = refl;
      aligned = (found_all requested h.free_list index f IsAligned v.aligned).0;
      inside = omega (arith, end, enough);
      taken = carved;
      fresh = address_fresh;
      recorded = refl;
      same_region = refl;
      same_base = refl;
      same_memh = refl;
      same_rkey = refl;
    },
    taken_heap-IsValid,
  )
