-- ===== src/Rma/Attempt.antt =====
-- The tests of a transfer's range, on every branch.
use openshmem_rs.Prelude.{
  ℕ, ◌+◌, ◌<◌, ◌≤◌, ◌≡◌, Option, none, some, inl, inr, arith, ltb, Bool-cases, Option-cases,
  usize_mod, u32_mod,
}
use openshmem_rs.Prelude.BTree
use openshmem_rs.Error.{Error, usage, Result, err}
use openshmem_rs.World.{History}
use openshmem_rs.World.Loop.{Loop, then_loop}
use openshmem_rs.Bootstrap.{PeerConnection}
use openshmem_rs.Init.State.{ShmemState}
use openshmem_rs.Rma.{peer_and_address}
use openshmem_rs.Rma.Target.{Reached}

-- Why there is no connection to a PE.
pub data Missing (st : ShmemState) (pe : ℕ) : Error → Type 0 where
  out_of_range : u32_mod ≤ pe → Missing st pe (usage "PE number is out of range")
  not_in_job :
      pe < u32_mod
      → BTree.get pe st.peers ≡ none
      → Missing st pe (usage "PE number is not in the job")

-- Why a transfer is refused without a call.
pub data Refused (st : ShmemState) (pe offset len : ℕ) : Error → Type 0 where
  no_peer : {e : Error} → Missing st pe e → Refused st pe offset len e
  address_overflow :
      (peer : PeerConnection)
      → BTree.get pe st.peers ≡ some peer
      → usize_mod ≤ peer.heap_base + offset
      → Refused st pe offset len (usage "RMA address overflow")
  range_overflow :
      (peer : PeerConnection)
      → BTree.get pe st.peers ≡ some peer
      → peer.heap_base + offset < usize_mod
      → usize_mod ≤ offset + len
      → Refused st pe offset len (usage "RMA range overflow")

module _ {A : Type 0} where
  -- A transfer: it is refused, and nothing is called; or its peer is reached, and the rest is run.
  pub data Attempt (st : ShmemState) (pe offset len : ℕ)
      (Rest : PeerConnection → Option (Result A × History) → Type 0) (h : History)
      : Option (Result A × History) → Type 0 where
    refused :
        {e : Error} → Refused st pe offset len e → Attempt st pe offset len Rest h (some (err e, h))
    admitted :
        {r : Option (Result A × History)} (peer : PeerConnection)
        → Reached st pe offset len peer
        → Rest peer r
        → Attempt st pe offset len Rest h r

  pub peer_and_address-Attempt :
      (st : ShmemState) (pe offset len : ℕ)
      (Rest : PeerConnection → Option (Result A × History) → Type 0) (h : History)
      (k : PeerConnection × ℕ → Loop A)
      → ((peer : PeerConnection) → Rest peer (k (peer, peer.heap_base + offset) h))
      → Attempt st pe offset len Rest h (then_loop (peer_and_address st pe offset len, h) k)
  unfolding peer_and_address then_loop
  peer_and_address-Attempt st pe offset len Rest h k rest = elim (Bool-cases (ltb pe u32_mod)) [
    | inl narrow ↦ elim (Option-cases (BTree.get pe st.peers)) [
      | inr (peer, there) ↦ elim (Bool-cases (ltb (peer.heap_base + offset) usize_mod)) [
        | inl near ↦ elim (Bool-cases (ltb (offset + len) usize_mod)) [
          | inl fit ↦
              rw (narrow, there, near, fit, peer_and_address)
                (admitted peer (there, ground arith, ground arith) (rest peer))
          | inr over ↦
              rw (narrow, there, near, over, peer_and_address)
                (refused (range_overflow peer there (ground arith) (ground arith)))
        ]
        | inr far ↦
            rw (narrow, there, far, peer_and_address)
              (refused (address_overflow peer there (ground arith)))
      ]
      | inl absent ↦
          rw (narrow, absent, peer_and_address)
            (refused (no_peer (not_in_job (ground arith) absent)))
    ]
    | inr wide ↦ rw (wide, peer_and_address) (refused (no_peer (out_of_range (ground arith))))
  ]

  -- The flush of one peer: there is no connection to it, or the rest is run with that.
  pub data Found (st : ShmemState) (pe : ℕ)
      (Rest : PeerConnection → Option (Result A × History) → Type 0) (h : History)
      : Option (Result A × History) → Type 0 where
    missing : {e : Error} → Missing st pe e → Found st pe Rest h (some (err e, h))
    found :
        {r : Option (Result A × History)} (peer : PeerConnection)
        → pe < u32_mod
        → BTree.get pe st.peers ≡ some peer
        → Rest peer r
        → Found st pe Rest h r

  -- A transfer returns where what is behind its tests does.
  pub Attempt-returns :
      {st : ShmemState} {pe offset len : ℕ} {h : History}
      {Rest : PeerConnection → Option (Result A × History) → Type 0}
      → ((peer : PeerConnection) → Rest peer none → ⊥)
      → Attempt st pe offset len Rest h none
      → ⊥
  Attempt-returns ends (admitted peer reached rest) = ends peer rest
