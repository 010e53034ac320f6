-- ===== src/SymHeap/Invariant.antt =====
-- The allocator's invariant: free blocks and allocations tile the heap.
use openshmem_rs.Prelude.{
  ℕ, ◌+◌, ◌-◌, ◌%◌, ◌≤◌, ◌<◌, ◌≡◌, some, arith, if◌then◌else◌, ltb, All, usize_mod,
}
use openshmem_rs.Prelude.BTree
use openshmem_rs.Prelude.BTree.{IsAscending, AllEntries, AllEntries-get}
use openshmem_rs.SymHeap.Cover.{cover, IsSpaced, Below, Below-cover}
use openshmem_rs.SymHeap.Coalesce.{IsAligned}
use openshmem_rs.SymHeap.Live.{live_cover, live_cover-erase}
use openshmem_rs.SymHeap.{SymHeap, capacity}

-- An allocation starts at an aligned offset from `base` and has a positive multiple of eight bytes.
pub record IsLive (base address len : ℕ) : Type 0 where
  pub above : base ≤ address
  pub nonempty : 0 < len
  pub aligned : (address - base) % 8 ≡ 0
  pub multiple : len % 8 ≡ 0

pub record IsValid (h : SymHeap) : Type 0 where
  -- The free list ascends, its blocks are not empty, and no two of them touch.
  pub spaced : IsSpaced 0 h.free_list
  pub aligned : All IsAligned h.free_list
  pub ascending : IsAscending 0 h.allocations
  pub live : AllEntries (IsLive h.local_base) h.allocations
  -- Each byte of the heap is in one free block or in one allocation, and no other byte is.
  pub exact :
      (x : ℕ)
      → cover h.free_list x + live_cover h.local_base h.allocations x
        ≡ (if ltb x (capacity h) then 1 else 0)
  -- The region is a vector of words inside the address space.
  pub base_aligned : h.local_base % 8 ≡ 0
  pub in_range : h.local_base + capacity h < usize_mod

module _ (h : SymHeap) (v : IsValid h) where
  pub free_list-Below : Below (capacity h) h.free_list
  free_list-Below =
      Below-cover (capacity h) h.free_list 0 v.spaced (λ x l. ground (arith, v.exact x))

  module _ (address len : ℕ) (e : BTree.get address h.allocations ≡ some len) where
    pub allocation-IsLive : IsLive h.local_base address len
    allocation-IsLive = AllEntries-get (IsLive h.local_base) address len h.allocations v.live e

    -- The byte of an allocation belongs to that allocation alone.
    pub allocation_owns :
        (x : ℕ)
        → address ≤ h.local_base + x
        → h.local_base + x < address + len
        → (x < capacity h)
          × (cover h.free_list x ≡ 0)
          × (live_cover h.local_base (BTree.erase address h.allocations) x ≡ 0)
    allocation_owns x lower upper = ground (
      arith,
      v.exact x,
      live_cover-erase h.local_base address len 0 h.allocations x v.ascending e,
    )

    pub allocation_bound : address + len ≤ h.local_base + capacity h
    allocation_bound =
        let l = allocation-IsLive in
        let last =
          allocation_owns (address - h.local_base + (len - 1)) (omega arith) (omega arith) in
        omega arith
