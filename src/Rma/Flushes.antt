-- ===== src/Rma/Flushes.antt =====
-- The flushes on every branch: each result that they can have, and the calls that
-- each is preceded by.
use openshmem_rs.Prelude.{
  ℕ, refl, List, [], ◌∷◌, Option, none, some, inl, inr, arith, Bool-cases, Option-cases, ltb,
  u32_mod,
}
use openshmem_rs.Prelude.BTree
use openshmem_rs.Error.{Error, Result, ok, err, panic}
use openshmem_rs.World.{Services, History, flushed}
use openshmem_rs.World.Loop.{then_loop, and_loop}
use openshmem_rs.Transport.{UcxTransport}
use openshmem_rs.Bootstrap.{PeerConnection}
use openshmem_rs.Init.State.{ShmemState, Global}
use openshmem_rs.Init.Held.{Held, with_state_loop-Held}
use openshmem_rs.Rma.{flush_peer, flush_peers, quiet, find_peer, quiet_pe}
use openshmem_rs.Rma.Complete.{
  Completes, Completes-calm, Called, Called-avoids, call-Called, complete_request-Completes_plain,
}
use openshmem_rs.Rma.Attempt.{Found, missing, found, not_in_job, out_of_range}

module _ (s : Services) (rounds : ℕ) where
  -- The flush of one endpoint.
  abbrev pub Flush :
      UcxTransport → PeerConnection → History → Option (Result (Unit {0}) × History) → Type 0
  Flush t peer h =
      Called s (flushed peer.endpoint) (s.ucx.flush h peer.endpoint) (Completes s rounds t λ _. tt)
        h

  flush_peer-Flush :
      (t : UcxTransport) (peer : PeerConnection) (h : History)
      → Flush t peer h (flush_peer s rounds t peer h)
  unfolding flush_peer
  flush_peer-Flush t peer h = call-Called s _ _ _ h _ (complete_request-Completes_plain s rounds t)

  -- The flushes of all peers, in order: each is complete before the next is made, and the first that
  -- fails, or that is still waited for, is the last.
  pub data Flushes (t : UcxTransport)
      : List (ℕ × PeerConnection) → History → Option (Result (Unit {0}) × History) → Type 0 where
    all_flushed : {h : History} → Flushes t [] h (some (ok tt, h))
    one_flushed :
        {pe : ℕ} {peer : PeerConnection} {peers : List (ℕ × PeerConnection)} {h f : History}
        {r : Option (Result (Unit {0}) × History)}
        → Flush t peer h (some (ok tt, f))
        → Flushes t peers f r
        → Flushes t ((pe, peer) ∷ peers) h r
    flush_failed :
        {pe : ℕ} {peer : PeerConnection} {peers : List (ℕ × PeerConnection)} {h f : History}
        {e : Error}
        → Flush t peer h (some (err e, f))
        → Flushes t ((pe, peer) ∷ peers) h (some (err e, f))
    flush_waiting :
        {pe : ℕ} {peer : PeerConnection} {peers : List (ℕ × PeerConnection)} {h : History}
        → Flush t peer h none
        → Flushes t ((pe, peer) ∷ peers) h none

  Flush-calm :
      (t : UcxTransport) (peer : PeerConnection) (h g : History)
      → Flush t peer h (some (panic, g))
      → ⊥
  Flush-calm t peer h g flush =
      Called-avoids s (λ e f same. ground arith) (λ b f rest. Completes-calm s _ rest refl) flush

  Flushes-next :
      (t : UcxTransport) (pe : ℕ) (peer : PeerConnection) (peers : List (ℕ × PeerConnection))
      (h : History) (m : Option (Result (Unit {0}) × History))
      → Flush t peer h m
      → ((f : History) → Flushes t peers f (flush_peers s rounds t peers f))
      → Flushes t ((pe, peer) ∷ peers) h (and_loop m λ _. flush_peers s rounds t peers)
  unfolding and_loop then_loop
  Flushes-next t pe peer peers h none first rest = flush_waiting first
  Flushes-next t pe peer peers h (some (ok a, f)) first rest = one_flushed first (rest f)
  Flushes-next t pe peer peers h (some (err e, f)) first rest = flush_failed first
  Flushes-next t pe peer peers h (some (panic, f)) first rest = absurd (Flush-calm t peer h f first)

  flush_peers-Flushes :
      (t : UcxTransport) (peers : List (ℕ × PeerConnection)) (h : History)
      → Flushes t peers h (flush_peers s rounds t peers h)
  unfolding flush_peers
  flush_peers-Flushes t [] h = all_flushed
  flush_peers-Flushes t ((pe, peer) ∷ peers) h =
      Flushes-next t pe peer peers h _ (flush_peer-Flush t peer h) (flush_peers-Flushes t peers)

  -- `quiet` on any state of the process, whatever UCX answers. A poisoned lock and a process without a
  -- state are errors without a call. Else the endpoints of the peers are flushed in the order of their
  -- ranks, each flush complete before the next is made; the first that is rejected or that fails is the
  -- last call, and its status the error. It is still waiting only where UCX has reported a flush
  -- incomplete in every round. The state stays as it was, and the lock free.
  pub quiet-Flushes :
      (m : Global) → Held (λ st h. Flushes st.transport st.peers h) m (quiet s rounds m)
  unfolding quiet
  quiet-Flushes m = with_state_loop-Held _ _ (λ st h. flush_peers-Flushes st.transport st.peers h) m

  -- `quiet_pe` on any state of the process, whatever UCX answers: the errors of `quiet`, an error
  -- without a call for a PE that is not in the job, and else the flush of that PE's endpoint alone.
  pub quiet_pe-Found :
      (pe : ℕ) (m : Global)
      → Held (λ st h. Found st pe (λ peer. Flush st.transport peer h) h) m (quiet_pe s rounds pe m)
  unfolding quiet_pe then_loop
  quiet_pe-Found pe m = with_state_loop-Held _ _ body m
    where
      body :
          (st : ShmemState) (h : History)
          → Found st pe
              (λ peer. Flush st.transport peer h)
              h
              (then_loop (find_peer s st pe, h) (flush_peer s rounds st.transport))
      body st h = elim (Bool-cases (ltb pe u32_mod)) [
        | inl narrow ↦ elim (Option-cases (BTree.get pe st.peers)) [
          | inr (peer, there) ↦
              rw (narrow, there)
                (found peer (ground arith) there (flush_peer-Flush st.transport peer h))
          | inl absent ↦ rw (narrow, absent) (missing (not_in_job (ground arith) absent))
        ]
        | inr wide ↦ rw wide (missing (out_of_range (ground arith)))
      ]
