-- ===== src/Rma/Symmetric.antt =====
-- Transfers to a symmetric address: where they land in the peer's heap.
use openshmem_rs.Prelude.{
  ℕ, ◌+◌, ◌-◌, ◌≤◌, ◌<◌, ◌≡◌, sym, ap, ◌∙◌, List, some, true, arith, ltb, usize_mod, u32_mod,
  checked_sub,
}
use mathlib.Core.Path.{subst}
use openshmem_rs.Prelude.BTree
use openshmem_rs.Error.{ok}
use openshmem_rs.Error.Convert.{Statuses}
use openshmem_rs.Bootstrap.{PeerConnection}
use openshmem_rs.SymHeap.{SymHeap, SymPtr, Registration, with_size}
use openshmem_rs.SymHeap.Invariant.{IsValid, allocation-IsLive, allocation_bound}
use openshmem_rs.SymHeap.Create.{IsVector, with_size-IsValid}
use openshmem_rs.SymHeap.Pointer.{offset_from}
use openshmem_rs.SymHeap.Twins.{Twins, get-located}
use openshmem_rs.SymHeap.Symmetry.{
  Request, after_requests, after_requests-IsValid, after_requests-Twins, fresh-Twins,
}
use openshmem_rs.Init.State.{ShmemState}
use openshmem_rs.Rma.{peer_and_address}

-- A transfer of `n` bytes, `skip` bytes into the allocation at `p`, to a peer with the heap `g`: it is admitted,
-- and goes to an allocation of the peer that has the same offset and length.
abbrev pub Lands : SymHeap → SymHeap → ShmemState → ℕ → PeerConnection → SymPtr → ℕ → ℕ → ℕ → Type 0
Lands h g st pe peer p len skip n =
    (offset : ℕ) × (offset_from p h.local_base ≡ ok offset)
    × (BTree.get (g.local_base + offset) g.allocations ≡ some len)
    × (peer_and_address st pe (offset + skip) n ≡ ok (peer, g.local_base + offset + skip))

module _ (st : ShmemState) (pe : ℕ) (peer : PeerConnection) (narrow : pe < u32_mod)
    (found : BTree.get pe st.peers ≡ some peer) where
  admitted :
      (base offset n : ℕ)
      → peer.heap_base ≡ base
      → base + offset < usize_mod
      → offset + n < usize_mod
      → peer_and_address st pe offset n ≡ ok (peer, base + offset)
  unfolding peer_and_address
  admitted base offset n same near fit =
      let small : ltb pe u32_mod ≡ true = ground arith in
      let address : ltb (peer.heap_base + offset) usize_mod ≡ true = ground arith in
      let range : ltb (offset + n) usize_mod ≡ true = ground arith in
      rw (small, found, address, range, peer_and_address) (ap (λ b. ok (peer, b + offset)) same)

  Twins-Lands :
      (h g : SymHeap) (p : SymPtr) (len skip n : ℕ)
      → IsValid h
      → IsValid g
      → Twins h g
      → peer.heap_base ≡ g.local_base
      → BTree.get p.addr h.allocations ≡ some len
      → skip + n ≤ len
      → Lands h g st pe peer p len skip n
  unfolding offset_from
  Twins-Lands h g p len skip n v w twins same live inside =
      let above = (allocation-IsLive h v p.addr len live).above in
      let bound = allocation_bound h v p.addr len live in
      let offset = p.addr - h.local_base in
      let split : h.local_base + offset ≡ p.addr = omega arith in
      let lies : checked_sub p.addr h.local_base ≡ some offset = ground arith in
      let here : BTree.get offset twins.offsets ≡ some len =
        sym (get-located h.local_base offset twins.offsets)
        ∙ sym (ap (BTree.get (h.local_base + offset)) twins.first)
        ∙ ap (λ a. BTree.get a h.allocations) split
        ∙ live in
      let there : BTree.get (g.local_base + offset) g.allocations ≡ some len =
        ap (BTree.get (g.local_base + offset)) twins.second
        ∙ get-located g.local_base offset twins.offsets
        ∙ here in
      let assoc : g.local_base + (offset + skip) ≡ g.local_base + offset + skip = omega arith in
      (
        offset,
        rw lies,
        there,
        subst (λ a. peer_and_address st pe (offset + skip) n ≡ ok (peer, a)) assoc
            (admitted g.local_base (offset + skip) n same
              (omega (arith, bound, twins.same_capacity, w.in_range))
              (omega (arith, bound, v.in_range))),
      )

-- Two PEs whose heaps were made with the same size, on global allocators whose vectors are aligned and end in
-- the address space, and that have made the same allocations and releases since. A pointer to a live
-- allocation of the one has an offset at which the other has a live allocation of the same length. Where the other is
-- a peer in the table, with its base, any transfer of bytes of that allocation at the pointer's offset is admitted, and goes to the
-- same bytes of the peer's allocation.
pub peer_and_address-malloc :
    (s t : Statuses) (r q : Registration) (size : ℕ) (h g : SymHeap) (rs : List Request)
    → IsVector r
    → IsVector q
    → with_size s r size ≡ ok h
    → with_size t q size ≡ ok g
    → (st : ShmemState) (pe : ℕ) (peer : PeerConnection) → pe < u32_mod
    → BTree.get pe st.peers ≡ some peer
    → peer.heap_base ≡ (after_requests g rs).local_base
    → (p : SymPtr) (len skip n : ℕ) → BTree.get p.addr (after_requests h rs).allocations ≡ some len
    → skip + n ≤ len
    → Lands (after_requests h rs) (after_requests g rs) st pe peer p len skip n
peer_and_address-malloc s t r q size h g rs vec wec e f st pe peer narrow found same p len skip n
      live inside =
    let (valid, fresh) = with_size-IsValid s r size h vec e in
    let (sound, new) = with_size-IsValid t q size g wec f in
    Twins-Lands st pe peer narrow found (after_requests h rs) (after_requests g rs) p len skip n
      (after_requests-IsValid h rs valid) (after_requests-IsValid g rs sound)
      (after_requests-Twins h g rs valid sound (fresh-Twins size h g fresh new)) same live inside
