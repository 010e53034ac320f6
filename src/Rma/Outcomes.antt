-- ===== src/Rma/Outcomes.antt =====
-- The transfers and the completions on every branch: each result that they can have, and the calls that
-- each is preceded by.
use openshmem_rs.Prelude.{
  ℕ, ◌+◌, ◌<◌, ◌≤◌, ◌≡◌, List, [], Option, some, inl, inr, arith, Bool-cases, length, ◌==◌, leb,
  replicate, overwrite, isize_limit,
}
use openshmem_rs.Error.{Result, ok, panic}
use openshmem_rs.World.{Services, History, rma_put, rma_get}
use openshmem_rs.Transport.{UcxTransport}
use openshmem_rs.Bootstrap.{PeerConnection}
use openshmem_rs.Init.State.{ShmemState, Global}
use openshmem_rs.Init.Held.{Held, with_state_loop-Held}
use openshmem_rs.Rma.{issue_put, put_bytes, putmem, issue_get, get_bytes, getmem}
use openshmem_rs.Rma.Complete.{
  Completes, Called, call-Called, complete_request-Completes, complete_request-Completes_plain,
}
use openshmem_rs.Rma.Attempt.{Attempt, peer_and_address-Attempt}

module _ (s : Services) (rounds : ℕ) where
  -- A put behind the tests of its range: no bytes make no call, and others one put.
  pub data Puts (bytes : List ℕ) (t : UcxTransport) (peer : PeerConnection) (address : ℕ)
      (h : History) : Option (Result (Unit {0}) × History) → Type 0 where
    no_bytes : length bytes ≡ 0 → Puts bytes t peer address h (some (ok tt, h))
    put_made :
        {r : Option (Result (Unit {0}) × History)}
        → 0 < length bytes
        → Called s
            (rma_put peer.endpoint bytes address peer.rkey)
            (s.ucx.rma_put h peer.endpoint bytes address peer.rkey)
            (Completes s rounds t λ _. tt)
            h
            r
        → Puts bytes t peer address h r

  issue_put-Puts :
      (bytes : List ℕ) (t : UcxTransport) (peer : PeerConnection) (address : ℕ) (h : History)
      → Puts bytes t peer address h (issue_put s rounds bytes t (peer, address) h)
  unfolding issue_put
  issue_put-Puts bytes t peer address h = elim (Bool-cases (length bytes == 0)) [
    | inl nothing ↦ rw (nothing, issue_put) (no_bytes (ground arith))
    | inr something ↦
        rw (something, issue_put)
          (put_made (ground arith)
            (call-Called s _ _ _ h _ (complete_request-Completes_plain s rounds t)))
  ]

  abbrev pub PutBody :
      ℕ → List ℕ → ℕ → ShmemState → History → Option (Result (Unit {0}) × History) → Type 0
  PutBody pe bytes offset st h =
      Attempt st pe offset (length bytes)
        (λ peer. Puts bytes st.transport peer (peer.heap_base + offset) h) h

  -- `putmem` on any state of the process, whatever UCX answers. A poisoned lock, a process without a
  -- state and a range that fails its tests are errors without a call. No bytes are put without a call.
  -- Else it makes one put, of these bytes at the offset from the peer's base with the peer's key; the
  -- status of a put that is rejected is the error. A put that leaves no request is complete; a request
  -- is waited for, until UCX reports it complete, and then it is freed, or reports a failure, whose
  -- status is the error. It is still waiting only where UCX has reported the request incomplete in every
  -- round. The state stays as it was, and the lock free.
  pub putmem-Puts :
      (pe : ℕ) (bytes : List ℕ) (offset : ℕ) (m : Global)
      → Held (PutBody pe bytes offset) m (putmem s rounds pe bytes offset m)
  unfolding putmem put_bytes
  putmem-Puts pe bytes offset m =
      with_state_loop-Held (PutBody pe bytes offset) _
        (λ st h.
          peer_and_address-Attempt st pe offset (length bytes) _ h _
            λ peer. issue_put-Puts bytes st.transport peer (peer.heap_base + offset) h)
        m

  -- A get behind the tests of its range: a buffer over the limit of an allocation panics, a length of
  -- zero makes no call, and another one get, whose bytes are those that UCX has stored when it is
  -- complete, in a buffer of zeros.
  pub data Gets (len : ℕ) (t : UcxTransport) (peer : PeerConnection) (address : ℕ) (h : History)
      : Option (Result (List ℕ) × History) → Type 0 where
    too_long : isize_limit ≤ len → Gets len t peer address h (some (panic, h))
    no_length : len ≡ 0 → Gets len t peer address h (some (ok [], h))
    get_made :
        {r : Option (Result (List ℕ) × History)}
        → 0 < len
        → len < isize_limit
        → Called s
            (rma_get peer.endpoint len address peer.rkey)
            (s.ucx.rma_get h peer.endpoint len address peer.rkey)
            (Completes s rounds t λ g.
              overwrite (replicate len 0) (s.ucx.received g peer.endpoint address len peer.rkey))
            h
            r
        → Gets len t peer address h r

  issue_get-Gets :
      (len : ℕ) (t : UcxTransport) (peer : PeerConnection) (address : ℕ) (h : History)
      → Gets len t peer address h (issue_get s rounds len t (peer, address) h)
  unfolding issue_get
  issue_get-Gets len t peer address h = elim (Bool-cases (leb isize_limit len)) [
    | inl huge ↦ rw (huge, issue_get) (too_long (ground arith))
    | inr small ↦ elim (Bool-cases (len == 0)) [
      | inl nothing ↦ rw (small, nothing, issue_get) (no_length (ground arith))
      | inr something ↦
          rw (small, something, issue_get)
            (get_made (ground arith) (ground arith)
              (call-Called s _ _ _ h _ (complete_request-Completes s rounds t _)))
    ]
  ]

  abbrev pub GetBody :
      ℕ → ℕ → ℕ → ShmemState → History → Option (Result (List ℕ) × History) → Type 0
  GetBody pe offset len st h =
      Attempt st pe offset len (λ peer. Gets len st.transport peer (peer.heap_base + offset) h) h

  -- `getmem` on any state of the process, whatever UCX answers. A poisoned lock, a process without a
  -- state and a range that fails its tests are errors without a call, and a length of zero gives no
  -- bytes without a call. A length of 2^63 or more panics, which poisons the lock. Else it makes one get
  -- of the length at the offset from the peer's base with the peer's key, which ends as a put does; the
  -- bytes are what UCX has stored when it is complete, in a buffer of zeros.
  pub getmem-Gets :
      (pe offset len : ℕ) (m : Global)
      → Held (GetBody pe offset len) m (getmem s rounds pe offset len m)
  unfolding getmem get_bytes
  getmem-Gets pe offset len m =
      with_state_loop-Held (GetBody pe offset len) _
        (λ st h.
          peer_and_address-Attempt st pe offset len _ h _
            λ peer. issue_get-Gets len st.transport peer (peer.heap_base + offset) h)
        m
