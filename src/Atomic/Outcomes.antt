-- ===== src/Atomic/Outcomes.antt =====
-- The atomic operations on every branch.
use openshmem_rs.Prelude.{ℕ, ◌+◌, [], ◌∷◌, List, Option}
use openshmem_rs.Error.{Result}
use openshmem_rs.World.{Services, Atomics, History, amo_called, Amo}
use openshmem_rs.Init.State.{ShmemState, Global}
use openshmem_rs.Init.Held.{Held, with_state_loop-Held}
use openshmem_rs.Rma.Complete.{Completes, Called, call-Called, complete_request-Completes_plain}
use openshmem_rs.Rma.Replies.{Replies, complete_fetch-Replies}
use openshmem_rs.Rma.Attempt.{Attempt, peer_and_address-Attempt}
use openshmem_rs.Atomic.{
  Family, Width, family, unsigned, posted, fetched, atomic_op, atomic_cswap, atomic_fetch,
  atomic_fcswap,
}
use openshmem_rs.Atomic.Calls.{
  Plain, adds, xors, swaps, ands, ors, Fetching, fadds, fxors, fswaps, method, amo_of, fetch_method,
  fetch_amo_of,
}

module _ (s : Services) (a : Atomics) (rounds : ℕ) where
  -- An operation of the binding on a peer, without a reply, and its completion.
  abbrev pub OpBody :
      ℕ
      → Amo
      → List ℕ
      → ℕ
      → ℕ
      → ShmemState
      → History
      → Option (Result (Unit {0}) × History)
      → Type 0
  OpBody size amo operands pe offset st h =
      Attempt st pe offset size
        (λ peer.
          Called s (amo_called amo peer.endpoint operands (peer.heap_base + offset) peer.rkey)
            (a.amo h amo peer.endpoint operands (peer.heap_base + offset) peer.rkey size)
            (Completes s rounds st.transport λ _. tt) h)
        h

  posted-OpBody :
      (f : Family) (amo : Amo) (operands : List ℕ) (pe offset : ℕ) (st : ShmemState) (h : History)
      → OpBody f.size amo operands pe offset st h (
          posted s a
            (unsigned a f)
            (λ e address key p g.
              (a.amo g amo e operands address key p, amo_called amo e operands address key ∷ g))
            rounds
            pe
            offset
            st
            h)
  unfolding posted unsigned
  posted-OpBody f amo operands pe offset st h =
      peer_and_address-Attempt st pe offset f.size _ h _
        λ peer. call-Called s _ _ _ h _ (complete_request-Completes_plain s rounds st.transport)

  plain_body :
      (op : Plain) (w : Width) (pe offset value : ℕ) (st : ShmemState) (h : History)
      → OpBody (family w).size (amo_of op (family w)) (value ∷ []) pe offset st h (
          posted s a
            (unsigned a (family w))
            (λ e address key p. method op (unsigned a (family w)) e value address key p)
            rounds
            pe
            offset
            st
            h)
  unfolding unsigned
  plain_body adds w pe offset value = posted-OpBody (family w) (family w).add (value ∷ []) pe offset
  plain_body xors w pe offset value = posted-OpBody (family w) (family w).xor (value ∷ []) pe offset
  plain_body swaps w pe offset value =
      posted-OpBody (family w) (family w).swap (value ∷ []) pe offset
  plain_body ands w pe offset value = posted-OpBody (family w) (family w).and (value ∷ []) pe offset
  plain_body ors w pe offset value = posted-OpBody (family w) (family w).or (value ∷ []) pe offset

  -- The operations without a reply on the unsigned type of either width, on any state of the process and
  -- whatever UCX answers. A poisoned lock, a process without a state and a range that fails its tests
  -- are errors without a call. Else an operation makes one call of the binding's operation of that name
  -- and width, with the value, or with the value that is expected and then its replacement, at the offset
  -- from the peer's base with the peer's key. The status of a call that is rejected is the error. A call
  -- that leaves no request is complete; a request is waited for, until UCX reports it complete, and then
  -- it is freed, or reports a failure, whose status is the error. It is still waiting only where UCX has
  -- reported the request incomplete in every round.
  pub atomic-OpBody :
      (w : Width) (pe offset : ℕ) (m : Global)
      → ((op : Plain) (value : ℕ)
          → Held (OpBody (family w).size (amo_of op (family w)) (value ∷ []) pe offset) m (
              atomic_op s a
                (unsigned a (family w))
                (method op (unsigned a (family w)))
                rounds
                pe
                offset
                value
                m))
        × ((expected replacement : ℕ)
            → Held
                (OpBody (family w).size (family w).cswap (expected ∷ replacement ∷ []) pe offset)
                m
                (atomic_cswap s a (unsigned a (family w)) rounds pe offset expected replacement m))
  unfolding atomic_op atomic_cswap unsigned
  atomic-OpBody w pe offset m = (
    λ op value. with_state_loop-Held _ _ (plain_body op w pe offset value) m,
    λ expected replacement.
        with_state_loop-Held _ _
          (posted-OpBody (family w) (family w).cswap (expected ∷ replacement ∷ []) pe offset) m,
  )

  -- An operation of the binding on a peer with a reply, whose buffer holds a first value, and its
  -- completion.
  abbrev pub FetchBody :
      ℕ → Amo → List ℕ → ℕ → ℕ → ℕ → ShmemState → History → Option (Result ℕ × History) → Type 0
  FetchBody size amo operands first pe offset st h =
      Attempt st pe offset size
        (λ peer.
          Called s (amo_called amo peer.endpoint operands (peer.heap_base + offset) peer.rkey)
            (a.fetch_amo h amo peer.endpoint operands (peer.heap_base + offset) peer.rkey first)
            (λ request. Replies s rounds (λ g. a.replied g request) request) h)
        h

  fetched-FetchBody :
      (f : Family) (amo : Amo) (operands : List ℕ) (first pe offset : ℕ) (st : ShmemState)
      (h : History)
      → FetchBody f.size amo operands first pe offset st h (
          fetched s a
            (unsigned a f)
            (λ e worker address key g. (
              a.fetch_amo g amo e operands address key first,
              amo_called amo e operands address key ∷ g,
            ))
            rounds
            pe
            offset
            st
            h)
  unfolding fetched unsigned
  fetched-FetchBody f amo operands first pe offset st h =
      peer_and_address-Attempt st pe offset f.size _ h _ λ peer.
        call-Called s _ _ _ h _
          λ request. complete_fetch-Replies s rounds (λ g. a.replied g request) request

  fetch_body :
      (op : Fetching) (w : Width) (pe offset value : ℕ) (st : ShmemState) (h : History)
      → FetchBody (family w).size (fetch_amo_of op (family w)) (value ∷ []) value pe offset st h (
          fetched s a
            (unsigned a (family w))
            (λ e worker address key.
              fetch_method op (unsigned a (family w)) e worker value address key value)
            rounds
            pe
            offset
            st
            h)
  unfolding unsigned
  fetch_body fadds w pe offset value =
      fetched-FetchBody (family w) (family w).fadd (value ∷ []) value pe offset
  fetch_body fxors w pe offset value =
      fetched-FetchBody (family w) (family w).fxor (value ∷ []) value pe offset
  fetch_body fswaps w pe offset value =
      fetched-FetchBody (family w) (family w).fswap (value ∷ []) value pe offset

  -- The operations with a reply on the unsigned type of either width, on any state of the process and
  -- whatever UCX answers. The errors before the call are those of an operation without a reply. Then one
  -- call is made of the binding's operation of that name and width, with the operand, or with the value
  -- that is expected and then its replacement, at the offset from the peer's base with the peer's key, into a
  -- reply that holds the operand, or the value that is expected. The status of a call that is rejected is the error. Else its
  -- request is tested, with a round of progress after each test that finds it unfinished, until UCX reports it finished, and then it is
  -- freed and the result is what it has stored, or reports a failure, whose status is the error. It is
  -- still waiting only where UCX has reported the request unfinished in every round.
  pub atomic-FetchBody :
      (w : Width) (pe offset : ℕ) (m : Global)
      → ((op : Fetching) (value : ℕ)
          → Held
              (FetchBody (family w).size (fetch_amo_of op (family w)) (value ∷ []) value pe offset)
              m
              (atomic_fetch s a
                (unsigned a (family w))
                (fetch_method op (unsigned a (family w)))
                rounds
                pe
                offset
                value
                m))
        × ((expected replacement : ℕ)
            → Held
                (FetchBody
                  (family w).size
                  (family w).fcswap
                  (expected ∷ replacement ∷ [])
                  expected
                  pe
                  offset)
                m
                (atomic_fcswap s a (unsigned a (family w)) rounds pe offset expected replacement m))
  unfolding atomic_fetch atomic_fcswap unsigned
  atomic-FetchBody w pe offset m = (
    λ op value. with_state_loop-Held _ _ (fetch_body op w pe offset value) m,
    λ expected replacement.
        with_state_loop-Held _ _
          (fetched-FetchBody (family w) (family w).fcswap (expected ∷ replacement ∷ []) expected pe
            offset)
          m,
  )
