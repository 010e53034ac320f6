-- ===== src/Rma/Transfer.antt =====
-- What a transfer or a completion that succeeds has done.
use mathlib.Core.Path.{subst}
use openshmem_rs.Prelude.{
  ℕ, ◌+◌, ◌<◌, ◌≡◌, ◌⊎◌, sym, List, [], ◌∷◌, some, inl, inr, arith, Bool-cases, length, ◌==◌,
  usize_mod,
}
use openshmem_rs.Prelude.BTree
use openshmem_rs.Error.{ok}
use openshmem_rs.World.{Services, History, rma_put, flushed}
use openshmem_rs.Transport.{UcxTransport}
use openshmem_rs.Bootstrap.{PeerConnection}
use openshmem_rs.Init.State.{ShmemState, Global}
use openshmem_rs.Init.State.{unlocked}
use openshmem_rs.Rma.{
  peer_and_address, issue_put, put_bytes, putmem, flush_peer, flush_peers, quiet,
}
use openshmem_rs.World.Loop.{and_loop-inv, then_loop-inv}
use openshmem_rs.Init.Locked.{with_state_loop-inv}
use openshmem_rs.Rma.Target.{peer_and_address-inv}
use openshmem_rs.Rma.Wait.{Carried, call-Carried}

module _ (s : Services) where
  -- The part of a put behind the test of the range: there was nothing to transfer, or one call was made,
  -- and it went through.
  abbrev pub Issued : UcxTransport → List ℕ → PeerConnection → ℕ → History → History → Type 0
  Issued t bytes peer address h g =
      ((length bytes ≡ 0) × (g ≡ h))
      ⊎ ((0 < length bytes)
          × Carried s t (rma_put peer.endpoint bytes address peer.rkey)
              (s.ucx.rma_put h peer.endpoint bytes address peer.rkey) h g)

  issue_put-Issued :
      (rounds : ℕ) (bytes : List ℕ) (t : UcxTransport) (peer : PeerConnection) (address : ℕ)
      (h g : History)
      → issue_put s rounds bytes t (peer, address) h ≡ some (ok tt, g)
      → Issued t bytes peer address h g
  unfolding issue_put
  issue_put-Issued rounds bytes t peer address h g e = elim (Bool-cases (length bytes == 0)) [
    | inl nothing ↦ inl (ground arith, ground arith)
    | inr something ↦ inr (
      ground arith,
      call-Carried s rounds t (rma_put peer.endpoint bytes address peer.rkey)
          (λ k. s.ucx.rma_put k peer.endpoint bytes address peer.rkey) h g (ground arith),
    )
  ]

  -- Putting bytes in a state of the process: the peer is found, the address is in range, and the bytes
  -- go there.
  abbrev pub Put : ShmemState → ℕ → List ℕ → ℕ → History → History → Type 0
  Put st pe bytes offset h g =
      (peer : PeerConnection) × (BTree.get pe st.peers ≡ some peer)
      × (peer.heap_base + offset < usize_mod)
      × Issued st.transport bytes peer (peer.heap_base + offset) h g

  pub put_bytes-Put :
      (rounds pe offset : ℕ) (bytes : List ℕ) (st : ShmemState) (h g : History)
      → put_bytes s rounds pe bytes offset st h ≡ some (ok tt, g)
      → Put st pe bytes offset h g
  unfolding put_bytes
  put_bytes-Put rounds pe offset bytes st h g e =
      let ((peer, address), f, target, rest) =
        then_loop-inv (peer_and_address st pe offset (length bytes), h)
          (issue_put s rounds bytes st.transport) g e in
      let (found, at, range, _) =
        peer_and_address-inv st pe offset (length bytes) address peer (λ i. (target i).0) in
      let issued = issue_put-Issued rounds bytes st.transport peer address f g rest in
      (
        peer,
        found,
        range,
        subst (λ k. Issued st.transport bytes peer (peer.heap_base + offset) k g)
            (sym (λ i. (target i).1)) (subst (λ x. Issued st.transport bytes peer x f g) at issued),
      )

  -- A `putmem` that returns `Ok` has found the process initialised and the PE in the job. Unless there
  -- are no bytes, it has made one put, of these bytes, with the peer's key, at the offset from the
  -- peer's base, which does not overflow; the put was complete at once or UCX has reported its request
  -- complete. The state is unchanged.
  pub putmem_lem :
      (rounds pe offset : ℕ) (bytes : List ℕ) (m m' : Global)
      → putmem s rounds pe bytes offset m ≡ some (ok tt, m')
      → (st : ShmemState) × (h g : History) × (m ≡ unlocked (some st) h)
        × Put st pe bytes offset h g
        × (m' ≡ unlocked (some st) g)
  unfolding putmem
  putmem_lem rounds pe offset bytes m m' e =
      let (st, h, g, before, run, left) =
        with_state_loop-inv (put_bytes s rounds pe bytes offset) m m' e in
      (st, h, g, before, put_bytes-Put rounds pe offset bytes st h g run, left)

  -- Each of these peers was flushed, in this order, and each flush was completed before the next.
  pub data Flushed (t : UcxTransport) : List (ℕ × PeerConnection) → History → History → Type 0 where
    no_peers : {h : History} → Flushed t [] h h
    next_peer :
        {pe : ℕ} {peer : PeerConnection} {peers : List (ℕ × PeerConnection)} {h f g : History}
        → Carried s t (flushed peer.endpoint) (s.ucx.flush h peer.endpoint) h f
        → Flushed t peers f g
        → Flushed t ((pe, peer) ∷ peers) h g

  pub flush_peer-Carried :
      (rounds : ℕ) (t : UcxTransport) (peer : PeerConnection) (h g : History)
      → flush_peer s rounds t peer h ≡ some (ok tt, g)
      → Carried s t (flushed peer.endpoint) (s.ucx.flush h peer.endpoint) h g
  unfolding flush_peer
  flush_peer-Carried rounds t peer h g e =
      call-Carried s rounds t (flushed peer.endpoint) (λ k. s.ucx.flush k peer.endpoint) h g e

  flush_peers-Flushed :
      (rounds : ℕ) (t : UcxTransport) (peers : List (ℕ × PeerConnection)) (h g : History)
      → flush_peers s rounds t peers h ≡ some (ok tt, g)
      → Flushed t peers h g
  unfolding flush_peers
  flush_peers-Flushed rounds t [] h g e =
      let same : h ≡ g = ground arith in subst (λ k. Flushed t [] h k) same no_peers
  flush_peers-Flushed rounds t ((pe, peer) ∷ peers) h g e =
      let (_, f, first, rest) =
        and_loop-inv (flush_peer s rounds t peer h) (λ _. flush_peers s rounds t peers) g e in
      next_peer (flush_peer-Carried rounds t peer h f first)
        (flush_peers-Flushed rounds t peers f g rest)

  -- A `quiet` that returns `Ok` has flushed the endpoint of every peer in turn, and the flushes were
  -- complete at once or UCX has reported their requests complete. The state is unchanged.
  pub quiet_lem :
      (rounds : ℕ) (m m' : Global)
      → quiet s rounds m ≡ some (ok tt, m')
      → (st : ShmemState) × (h g : History) × (m ≡ unlocked (some st) h)
        × Flushed st.transport st.peers h g
        × (m' ≡ unlocked (some st) g)
  unfolding quiet
  quiet_lem rounds m m' e =
      let (st, h, g, before, run, left) =
        with_state_loop-inv (λ st. flush_peers s rounds st.transport st.peers) m m' e in
      (st, h, g, before, flush_peers-Flushed rounds st.transport st.peers h g run, left)
