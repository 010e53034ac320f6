-- ===== src/SymHeap/Pointer/Laws.antt =====
-- Translation keeps the offset, goes back and forth, and takes an allocation into the peer's heap.
use openshmem_rs.Prelude.{
  ℕ, ◌+◌, ◌-◌, ◌%◌, ◌≤◌, ◌<◌, ◌≡◌, ◌⊎◌, inl, inr, ltb, Bool-cases, arith, usize_mod, sym, ap, ◌∙◌,
}
use openshmem_rs.Error.{ok, err, usage}
use openshmem_rs.SymHeap.Address.{SymPtr}
use openshmem_rs.SymHeap.{SymHeap, capacity, malloc}
use openshmem_rs.SymHeap.Invariant.{IsValid}
use openshmem_rs.SymHeap.Malloc.{malloc_lem}
use openshmem_rs.SymHeap.Pointer.{to_remote_addr}

-- The three outcomes: the same offset from the peer's base, or an error that names which bound fails.
pub to_remote_addr_lem :
    (p : SymPtr) (local_base peer_base : ℕ)
    → ((offset : ℕ) × (p.addr ≡ local_base + offset)
        × (peer_base + offset < usize_mod)
        × (to_remote_addr p local_base peer_base ≡ ok (peer_base + offset)))
      ⊎ ((p.addr < local_base)
          × (to_remote_addr p local_base peer_base
              ≡ err (usage "pointer is below symmetric heap base")))
      ⊎ ((local_base ≤ p.addr)
          × (usize_mod ≤ peer_base + (p.addr - local_base))
          × (to_remote_addr p local_base peer_base
              ≡ err (usage "remote symmetric address overflow")))
unfolding to_remote_addr
to_remote_addr_lem p local_base peer_base = elim (Bool-cases (ltb p.addr local_base)) [
  | inl below ↦ inr (inl (ground arith, rw below))
  | inr above ↦ elim (Bool-cases (ltb (peer_base + (p.addr - local_base)) usize_mod)) [
    | inl fit ↦ inl (p.addr - local_base, ground arith, ground arith, rw (above, fit))
    | inr over ↦ inr (inr (ground arith, ground arith, rw (above, over)))
  ]
]

-- A remote address, translated back by the peer, is the pointer that it came from, where the pointer
-- is a machine address.
pub to_remote_addr-to_remote_addr :
    (p : SymPtr) (local_base peer_base remote : ℕ)
    → p.addr < usize_mod
    → to_remote_addr p local_base peer_base ≡ ok remote
    → to_remote_addr (record { addr = remote }) peer_base local_base ≡ ok p.addr
unfolding to_remote_addr
to_remote_addr-to_remote_addr p local_base peer_base remote h e = ground arith

translated :
    (p : SymPtr) (local_base peer_base offset : ℕ)
    → p.addr ≡ local_base + offset
    → peer_base + offset < usize_mod
    → to_remote_addr p local_base peer_base ≡ ok (peer_base + offset)
unfolding to_remote_addr
translated p local_base peer_base offset e fit = ground arith

-- Where a peer has room for a heap of the same capacity: the address that `malloc` returns on a valid
-- heap lies at an aligned offset from the heap's base, with room for all of the bytes asked, and is
-- translated to the address at that offset from the peer's base, which the peer translates back to it.
pub to_remote_addr-malloc :
    (h h' : SymHeap) (size peer_base : ℕ) (p : SymPtr)
    → IsValid h
    → malloc size h ≡ (ok p, h')
    → peer_base + capacity h < usize_mod
    → (offset : ℕ) × (p.addr ≡ h.local_base + offset)
      × (to_remote_addr p h.local_base peer_base ≡ ok (peer_base + offset))
      × (to_remote_addr (record { addr = peer_base + offset }) peer_base h.local_base ≡ ok p.addr)
      × (offset + size ≤ capacity h)
      × (offset % 8 ≡ 0)
to_remote_addr-malloc h h' size peer_base p v run room = elim (malloc_lem h size v) [
  | inl (q, g, r, granted, valid) ↦
      let pointer : ok q ≡ ok p = ap (λ t. t.0) (sym r ∙ run) in
      let same : q.addr ≡ p.addr = cc in
      let inside = granted.inside in
      let enough = granted.rounded.enough in
      let address : p.addr ≡ h.local_base + granted.offset = sym same ∙ granted.address in
      let there = translated p h.local_base peer_base granted.offset address (omega arith) in
      (
        granted.offset,
        address,
        there,
        to_remote_addr-to_remote_addr p h.local_base peer_base (peer_base + granted.offset)
            (omega (arith, v.in_range)) there,
        omega arith,
        granted.aligned,
      )
  | inr (e, r, refused) ↦ let clash : err e ≡ ok p = ap (λ t. t.0) (sym r ∙ run) in cc
]
