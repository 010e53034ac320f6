-- ===== src/SymHeap/Twins.antt =====
-- Two heaps that differ in where they lie: the allocator on the PEs of one job.
use mathlib.Core.Path.{subst}
use openshmem_rs.Prelude.{
  ℕ, ◌+◌, ◌%◌, ◌≤◌, ◌<◌, ◌≡◌, refl, sym, ap, ◌∙◌, List, [], ◌∷◌, ◌++◌, none, some, false, inl, inr,
  arith, Bool-cases, Option-cases, ◌==◌, add_usize, checked_sub, get_elem?, position,
  position-Found, Found, usize_mod,
}
use openshmem_rs.Prelude.BTree
use openshmem_rs.Error.{Error, Result, ok, err}
use openshmem_rs.SymHeap.Invariant.{IsValid, free_list-Below, allocation-IsLive, allocation_bound}
use openshmem_rs.SymHeap.Carve.{found_elem, found_all}
use openshmem_rs.SymHeap.Blocks.{merge, sort_by_start}
use openshmem_rs.SymHeap.{
  SymPtr, SymHeap, capacity, round_up, carve, take_block, fits, malloc, out_of_heap, give_back,
  free,
}

-- Allocations by their offsets, of a heap at a base.
unfoldable pub located : ℕ → List (ℕ × ℕ) → List (ℕ × ℕ)
located base [] = []
located base ((offset, len) ∷ m) = (base + offset, len) ∷ located base m

pub get-located :
    (base offset : ℕ) (m : List (ℕ × ℕ))
    → BTree.get (base + offset) (located base m) ≡ BTree.get offset m
unfolding located BTree.get
get-located base offset [] = refl
get-located base offset ((o, len) ∷ m) = ground (arith, get-located base offset m)

insert-located :
    (base offset len : ℕ) (m : List (ℕ × ℕ))
    → BTree.insert (base + offset) len (located base m) ≡ located base (BTree.insert offset len m)
unfolding located BTree.insert
insert-located base offset len [] = refl
insert-located base offset len ((o, l) ∷ m) = ground (arith, insert-located base offset len m)

erase-located :
    (base offset : ℕ) (m : List (ℕ × ℕ))
    → BTree.erase (base + offset) (located base m) ≡ located base (BTree.erase offset m)
unfolding located BTree.erase
erase-located base offset [] = refl
erase-located base offset ((o, l) ∷ m) = ground (arith, erase-located base offset m)

-- The heaps agree on all but their bases and what UCX has registered: they have the same capacity, the
-- same free blocks, and allocations of the same lengths at the same offsets.
pub record Twins (h g : SymHeap) : Type 0 where
  pub same_capacity : capacity g ≡ capacity h
  pub same_free : g.free_list ≡ h.free_list
  pub offsets : List (ℕ × ℕ)
  pub first : h.allocations ≡ located h.local_base offsets
  pub second : g.allocations ≡ located g.local_base offsets

-- A call on both heaps with a pointer or nothing as its value: it is granted at one offset, or ends well,
-- or fails with one error and changes nothing, in both; and the heaps are twins afterwards.
pub data Agree {A : Type 0} (value : ℕ → ℕ → A) (h g : SymHeap)
    : Result A × SymHeap → Result A × SymHeap → Type 0 where
  both :
      {h' g' : SymHeap} (offset : ℕ)
      → Twins h' g'
      → h'.local_base ≡ h.local_base
      → g'.local_base ≡ g.local_base
      → Agree value h g (ok (value h.local_base offset), h') (ok (value g.local_base offset), g')
  neither : {e : Error} → Agree value h g (err e, h) (err e, g)

abbrev pub at : ℕ → ℕ → SymPtr
at base offset = record { addr = base + offset }

module _ (h g : SymHeap) (v : IsValid h) (w : IsValid g) (twins : Twins h g) where
  taken :
      (requested index : ℕ)
      → Found (fits requested) h.free_list index
      → Agree at h g (take_block requested index h) (take_block requested index g)
  unfolding take_block
  taken requested index f =
      let block = f.hit in
      let here : get_elem? h.free_list index ≡ some block =
        found_elem requested h.free_list index f in
      let there : get_elem? g.free_list index ≡ some block =
        subst (λ l. get_elem? l index ≡ some block) (sym twins.same_free) here in
      let bound : block.start + block.len ≤ capacity h =
        found_all requested h.free_list index f (λ b. b.start + b.len ≤ capacity h)
          (free_list-Below h v) in
      let near : add_usize h.local_base block.start ≡ h.local_base + block.start =
        omega (arith, bound, v.in_range) in
      let far : add_usize g.local_base block.start ≡ g.local_base + block.start =
        omega (arith, bound, w.in_range, twins.same_capacity) in
      rw (here, there, near, far, take_block)
        (both block.start
          (record {
            same_capacity = twins.same_capacity;
            same_free = ap (λ l. carve l index block requested) twins.same_free;
            offsets = BTree.insert block.start requested twins.offsets;
            first =
                ap (BTree.insert (h.local_base + block.start) requested) twins.first
                ∙ insert-located h.local_base block.start requested twins.offsets;
            second =
                ap (BTree.insert (g.local_base + block.start) requested) twins.second
                ∙ insert-located g.local_base block.start requested twins.offsets;
          })
          refl refl)

  pub malloc-Agree : (size : ℕ) → Agree at h g (malloc size h) (malloc size g)
  unfolding malloc
  malloc-Agree size = elim (Bool-cases (size == 0)) [
    | inl zero ↦ rw zero neither
    | inr pos ↦ elim (Option-cases (round_up size)) [
      | inl over ↦ rw (pos, over, malloc) neither
      | inr (requested, e) ↦ elim (Option-cases (position (fits requested) h.free_list)) [
        | inl missing ↦
            let there : position (fits requested) g.free_list ≡ none =
              subst (λ l. position (fits requested) l ≡ none) (sym twins.same_free) missing in
            rw (pos, e, missing, there, malloc) neither
        | inr (index, hit) ↦
            let there : position (fits requested) g.free_list ≡ some index =
              subst (λ l. position (fits requested) l ≡ some index) (sym twins.same_free) hit in
            rw (pos, e, hit, there, malloc)
              (taken requested index (position-Found (fits requested) h.free_list index hit))
      ]
    ]
  ]

in_heap :
    (h : SymHeap) (offset len : ℕ)
    → offset + len ≤ capacity h
    → capacity h < usize_mod
    → offset % 8 ≡ 0
    → out_of_heap h offset len ≡ false
unfolding out_of_heap
in_heap h offset len inside narrow aligned = ground arith

give_back_lem :
    (h : SymHeap) (offset len : ℕ)
    → out_of_heap h offset len ≡ false
    → give_back (at h.local_base offset) len h ≡ (
      ok tt,
      record h {
        free_list =
            merge (sort_by_start (h.free_list ++ record { start = offset; len = len } ∷ []));
      },
    )
unfolding give_back
give_back_lem h offset len inside =
    let above : checked_sub (h.local_base + offset) h.local_base ≡ some offset = ground arith in
    rw (above, inside, give_back)

module _ (h g : SymHeap) (v : IsValid h) (w : IsValid g) (twins : Twins h g) where
  released :
      (offset len : ℕ)
      → BTree.get (h.local_base + offset) h.allocations ≡ some len
      → BTree.get (g.local_base + offset) g.allocations ≡ some len
      → Agree (λ base o. tt) h g (free (at h.local_base offset) h) (free (at g.local_base offset) g)
  unfolding free
  released offset len here there =
      let live = allocation-IsLive h v (h.local_base + offset) len here in
      let bound = allocation_bound h v (h.local_base + offset) len here in
      let aligned : offset % 8 ≡ 0 = omega (arith, live.aligned) in
      let h' : SymHeap = record h {
        allocations = BTree.erase (h.local_base + offset) h.allocations;
      } in
      let g' : SymHeap = record g {
        allocations = BTree.erase (g.local_base + offset) g.allocations;
      } in
      rw
        (
          here,
          there,
          free,
          give_back_lem h' offset len
              (in_heap h' offset len (omega arith) (omega (arith, v.in_range)) aligned),
          give_back_lem g' offset len (
              in_heap g' offset len (omega (arith, twins.same_capacity)) (omega (arith, w.in_range))
                aligned),
        )
        (both offset
          (record {
            same_capacity = twins.same_capacity;
            same_free =
                ap (λ l. merge (sort_by_start (l ++ record { start = offset; len = len } ∷ [])))
                  twins.same_free;
            offsets = BTree.erase offset twins.offsets;
            first =
                ap (BTree.erase (h.local_base + offset)) twins.first
                ∙ erase-located h.local_base offset twins.offsets;
            second =
                ap (BTree.erase (g.local_base + offset)) twins.second
                ∙ erase-located g.local_base offset twins.offsets;
          })
          refl refl)

  pub free-Agree :
      (offset : ℕ)
      → Agree (λ base o. tt) h g (free (at h.local_base offset) h) (free (at g.local_base offset) g)
  unfolding free
  free-Agree offset =
      let here : BTree.get (h.local_base + offset) h.allocations ≡ BTree.get offset twins.offsets =
        ap (BTree.get (h.local_base + offset)) twins.first
        ∙ get-located h.local_base offset twins.offsets in
      let there : BTree.get (g.local_base + offset) g.allocations ≡ BTree.get offset twins.offsets =
        ap (BTree.get (g.local_base + offset)) twins.second
        ∙ get-located g.local_base offset twins.offsets in
      elim (Option-cases (BTree.get offset twins.offsets)) [
        | inl absent ↦ rw (here ∙ absent, there ∙ absent, free) neither
        | inr (len, e) ↦ released offset len (here ∙ e) (there ∙ e)
      ]
