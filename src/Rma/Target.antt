-- ===== src/Rma/Target.antt =====
-- `peer_and_address`: the address of an offset in a peer's heap.
use mathlib.Core.Path.{subst}
use openshmem_rs.Prelude.{Option-cases, sym}
use openshmem_rs.Prelude.{
  ℕ, ◌+◌, ◌≤◌, ◌<◌, ◌≡◌, ◌⊎◌, some, inl, inr, ltb, Bool-cases, arith, usize_mod, u32_mod,
}
use openshmem_rs.Prelude.BTree
use openshmem_rs.Error.{usage, ok, err}
use openshmem_rs.World.{Services, History}
use openshmem_rs.World.Loop.{Loop, then_loop, Ends, then_step}
use openshmem_rs.Bootstrap.{PeerConnection}
use openshmem_rs.Init.{Setup}
use openshmem_rs.Init.State.{ShmemState}
use openshmem_rs.Init.Start.{IsSound}
use openshmem_rs.Rma.{peer_and_address}

-- What an admitted transfer has passed.
pub peer_and_address-inv :
    (st : ShmemState) (pe offset len address : ℕ) (peer : PeerConnection)
    → peer_and_address st pe offset len ≡ ok (peer, address)
    → (BTree.get pe st.peers ≡ some peer)
      × (address ≡ peer.heap_base + offset)
      × (peer.heap_base + offset < usize_mod)
      × (offset + len < usize_mod)
unfolding peer_and_address
peer_and_address-inv st pe offset len address peer e = elim (Bool-cases (ltb pe u32_mod)) [
  | inl narrow ↦ elim (Option-cases (BTree.get pe st.peers)) [
    | inr (found, there) ↦ elim (Bool-cases (ltb (found.heap_base + offset) usize_mod)) [
      | inl near ↦ elim (Bool-cases (ltb (offset + len) usize_mod)) [
        | inl fit ↦
            let same : found ≡ peer = ground arith in
            let at : address ≡ found.heap_base + offset = ground arith in
            (
              cc,
              cc,
              subst (λ q. q.heap_base + offset < usize_mod) same (ground arith),
              ground arith,
            )
        | inr over ↦ absurd (ground arith)
      ]
      | inr far ↦ absurd (ground arith)
    ]
    | inl absent ↦ absurd (ground arith)
  ]
  | inr wide ↦ absurd (ground arith)
]

-- The peer is in the job, and the range has passed its tests.
abbrev pub Reached : ShmemState → ℕ → ℕ → ℕ → PeerConnection → Type 0
Reached st pe offset len peer =
    (BTree.get pe st.peers ≡ some peer)
    × (peer.heap_base + offset < usize_mod)
    × (offset + len < usize_mod)

-- The rule for the code behind the test of the range.
pub Reached-step :
    {B : Type 0} {Q : B → History → Type 0} (st : ShmemState) (pe offset len : ℕ) (h : History)
    (k : PeerConnection × ℕ → Loop B)
    → ((peer : PeerConnection)
        → Reached st pe offset len peer
        → Ends Q (k (peer, peer.heap_base + offset) h))
    → Ends Q (then_loop (peer_and_address st pe offset len, h) k)
Reached-step {Q = Q} st pe offset len h k next = then_step _ k λ (peer, address) f e.
    let (found, at, range, fits) =
      peer_and_address-inv st pe offset len address peer (λ i. (e i).0) in
    subst (λ t. Ends Q (k t f)) (λ i. (peer, sym at i))
      (subst (λ g. Ends Q (k (peer, peer.heap_base + offset) g)) (λ i. (e i).1)
        (next peer (found, range, fits)))

-- The tests on the range, once the peer is found.
abbrev pub Admitted : ShmemState → ℕ → ℕ → ℕ → PeerConnection → Type 0
Admitted st pe offset len peer =
    ((peer.heap_base + offset < usize_mod)
      × (offset + len < usize_mod)
      × (peer_and_address st pe offset len ≡ ok (peer, peer.heap_base + offset)))
    ⊎ ((usize_mod ≤ peer.heap_base + offset)
        × (peer_and_address st pe offset len ≡ err (usage "RMA address overflow")))
    ⊎ ((peer.heap_base + offset < usize_mod)
        × (usize_mod ≤ offset + len)
        × (peer_and_address st pe offset len ≡ err (usage "RMA range overflow")))

admitted :
    (st : ShmemState) (pe offset len : ℕ) (peer : PeerConnection)
    → pe < u32_mod
    → BTree.get pe st.peers ≡ some peer
    → Admitted st pe offset len peer
unfolding peer_and_address
admitted st pe offset len peer narrow found =
    elim (Bool-cases (ltb (peer.heap_base + offset) usize_mod)) [
      | inl near ↦ elim (Bool-cases (ltb (offset + len) usize_mod)) [
        | inl fit ↦ inl (ground arith, ground arith, ground arith)
        | inr over ↦ inr (inr (ground arith, ground arith, ground arith))
      ]
      | inr far ↦ inr (inl (ground arith, ground arith))
    ]

-- In a sound state of a job of less than 2^32 PEs, a transfer is admitted just when the PE is in the
-- job, and neither the address of its first byte nor the end of its range within the heap overflows;
-- then it goes to the PE's connection, at the offset from its base, which is not null. The end of the
-- range in the peer's address space is not tested.
pub peer_and_address_lem :
    (s : Services) (u : Setup) (st : ShmemState) (pe offset len : ℕ)
    → IsSound s u st
    → st.size < u32_mod
    → ((pe < st.size)
        × ((peer : PeerConnection) × (BTree.get pe st.peers ≡ some peer)
            × (0 < peer.heap_base)
            × Admitted st pe offset len peer))
      ⊎ ((st.size ≤ pe)
          × (pe < u32_mod)
          × (peer_and_address st pe offset len ≡ err (usage "PE number is not in the job")))
      ⊎ ((u32_mod ≤ pe)
          × (peer_and_address st pe offset len ≡ err (usage "PE number is out of range")))
unfolding peer_and_address
peer_and_address_lem s u st pe offset len sound small = elim (Bool-cases (ltb pe u32_mod)) [
  | inl narrow ↦ elim (Bool-cases (ltb pe st.size)) [
    | inl inside ↦
        let (peer, key, found, _, _, pos, _) = sound.connected.below pe (ground arith) in
        inl (ground arith, (peer, found, pos, admitted st pe offset len peer (ground arith) found))
    | inr outside ↦
        let absent = (sound.connected.beyond pe (ground arith)).0 in
        inr (inl (ground arith, ground arith, ground arith))
  ]
  | inr wide ↦ inr (inr (ground arith, ground arith))
]
