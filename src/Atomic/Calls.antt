-- ===== src/Atomic/Calls.antt =====
-- What an atomic operation that succeeds has done.
use openshmem_rs.Prelude.{
  ℕ, ◌+◌, ◌<◌, ◌^◌, ◌≡◌, refl, sym, List, [], ◌∷◌, Option, some, Outcome, done, usize_mod, arith,
}
use openshmem_rs.Prelude
use openshmem_rs.Error.{ok}
use openshmem_rs.World.{Services, Atomics, History, amo_called, Amo, Event}
use openshmem_rs.World.Loop.{
  Loop, then_loop, Ends, returned, failed, and_step, last_step, Ends-mono,
}
use openshmem_rs.Bootstrap.{PeerConnection}
use openshmem_rs.Init.State.{ShmemState, Global, unlocked}
use openshmem_rs.Init.Locked.{locked_Ends}
use openshmem_rs.Rma.Target.{Reached, Reached-step}
use openshmem_rs.Rma.Wait.{Completed, complete_request-Completed}
use openshmem_rs.Rma.Fetch.{Finished, complete_fetch-Finished}
use openshmem_rs.Atomic.{
  Family, Width, family, AtomicValue, Made, Post, Fetch, converted, unsigned, posted, fetched,
  atomic_op, atomic_fetch,
}

-- The operations of `atomic_op!` and of `atomic_fetch!`.
pub data Plain : Type 0 where
  adds xors swaps ands ors : Plain

pub data Fetching : Type 0 where
  fadds fxors fswaps : Fetching

abbrev pub method : {T : Type 0} → Plain → AtomicValue T → Post
method adds v = v.add
method xors v = v.xor
method swaps v = v.swap
method ands v = v.and
method ors v = v.or

abbrev pub amo_of : Plain → Family → Amo
amo_of adds f = f.add
amo_of xors f = f.xor
amo_of swaps f = f.swap
amo_of ands f = f.and
amo_of ors f = f.or

abbrev pub fetch_method : {T : Type 0} → Fetching → AtomicValue T → Fetch
fetch_method fadds v = v.fadd
fetch_method fxors v = v.fxor
fetch_method fswaps v = v.fswap

abbrev pub fetch_amo_of : Fetching → Family → Amo
fetch_amo_of fadds f = f.fadd
fetch_amo_of fxors f = f.fxor
fetch_amo_of fswaps f = f.fswap

module _ (s : Services) where
  -- The rule for the code behind a method of the binding.
  converted_step :
      {A B : Type 0} {Q : B → History → Type 0} (o : Outcome A × History) (k : A → Loop B)
      → ((x : A) → o.0 ≡ done x → Ends Q (k x o.1))
      → Ends Q (then_loop (converted s o) k)
  unfolding then_loop
  converted_step (done x, h) k next = next x refl
  converted_step (Prelude.failed status, h) k next = failed

  module _ (a : Atomics) {T : Type 0} (v : AtomicValue T) where
    posted-Ends :
        (method : ℕ → ℕ → ℕ → ℕ → Made (Option ℕ)) (rounds pe offset : ℕ) (st : ShmemState)
        (h : History)
        → Ends
            (λ _ g.
              (peer : PeerConnection) × Reached st pe offset v.size peer
              × Completed s st.transport
                  (method peer.endpoint (peer.heap_base + offset) peer.rkey v.size h).1
                  g)
            (posted s a v method rounds pe offset st h)
    unfolding posted
    posted-Ends method rounds pe offset st h = Reached-step st pe offset v.size h _ λ peer reached.
        converted_step _ _ λ request _.
          last_step _
            λ _ g e. (peer, reached, complete_request-Completed s rounds st.transport request _ g e)

    fetched-Ends :
        (method : ℕ → ℕ → ℕ → ℕ → Made ℕ) (rounds pe offset : ℕ) (st : ShmemState) (h : History)
        → Ends
            (λ r g.
              (peer : PeerConnection) × (request : ℕ) × Reached st pe offset v.size peer
              × ((method peer.endpoint st.transport.worker (peer.heap_base + offset) peer.rkey h).0
                  ≡ done request)
              × Finished s request
                  (method peer.endpoint st.transport.worker (peer.heap_base + offset) peer.rkey h).1
                  g
              × (r ≡ v.from_bits (a.replied g request)))
            (fetched s a v method rounds pe offset st h)
    unfolding fetched
    fetched-Ends method rounds pe offset st h = Reached-step st pe offset v.size h _ λ peer reached.
        converted_step _ _ λ request made. and_step _ _ λ _ g e.
          returned
            (peer, request, reached, made, complete_fetch-Finished s request rounds _ g e, refl)

  module _ (a : Atomics) where
    -- Posting `call` has reached the PE, and has been completed.
    abbrev pub Posted :
        ShmemState → ℕ → ℕ → ℕ → (PeerConnection → Event) → History → History → Type 0
    Posted st pe offset size made h g =
        (peer : PeerConnection) × Reached st pe offset size peer
        × Completed s st.transport (made peer ∷ h) g

    posted_plain :
        (op : Plain) (f : Family) (rounds pe offset value : ℕ) (st : ShmemState) (h : History)
        → Ends
            (λ _ g.
              Posted st pe offset f.size
                (λ peer.
                  amo_called
                    (amo_of op f)
                    peer.endpoint
                    (value ∷ [])
                    (peer.heap_base + offset)
                    peer.rkey)
                h
                g)
            (posted s a
              (unsigned a f)
              (λ e address key p. method op (unsigned a f) e value address key p)
              rounds
              pe
              offset
              st
              h)
    unfolding unsigned
    posted_plain adds f rounds pe offset value st h =
        posted-Ends a (unsigned a f) _ rounds pe offset st h
    posted_plain xors f rounds pe offset value st h =
        posted-Ends a (unsigned a f) _ rounds pe offset st h
    posted_plain swaps f rounds pe offset value st h =
        posted-Ends a (unsigned a f) _ rounds pe offset st h
    posted_plain ands f rounds pe offset value st h =
        posted-Ends a (unsigned a f) _ rounds pe offset st h
    posted_plain ors f rounds pe offset value st h =
        posted-Ends a (unsigned a f) _ rounds pe offset st h

    -- For both widths and each of the five operations: an operation on the unsigned type that returns
    -- `Ok` has found the process initialised, the PE in the job, and the range free of overflow. It has
    -- made one call, of the binding's operation of that name and width, with the value, the offset's
    -- address and the peer's key, which was complete at once or was waited for. The state is unchanged.
    pub atomic_op_lem :
        (op : Plain) (w : Width) (rounds pe offset value : ℕ) (m m' : Global)
        → atomic_op s a
            (unsigned a (family w))
            (method op (unsigned a (family w)))
            rounds
            pe
            offset
            value
            m
          ≡ some (ok tt, m')
        → (st : ShmemState) × (h g : History) × (m ≡ unlocked (some st) h)
          × Posted st pe offset
              (family w).size
              (λ peer.
                amo_called
                  (amo_of op (family w))
                  peer.endpoint
                  (value ∷ [])
                  (peer.heap_base + offset)
                  peer.rkey)
              h
              g
          × (m' ≡ unlocked (some st) g)
    unfolding atomic_op unsigned
    atomic_op_lem op w rounds pe offset value m m' e =
        locked_Ends _ _ m m' (posted_plain op (family w) rounds pe offset value) e

    -- A reply: the peer was reached, one call was made and has left a request, which was finished, and
    -- what it has stored is the result.
    abbrev pub Replied :
        ShmemState → ℕ → ℕ → ℕ → (PeerConnection → Event) → History → ℕ → History → Type 0
    Replied st pe offset size made h r g =
        (peer : PeerConnection) × (request : ℕ) × Reached st pe offset size peer
        × Finished s request (made peer ∷ h) g
        × (r ≡ a.replied g request)

    fetched_plain :
        (op : Fetching) (f : Family) (rounds pe offset value : ℕ) (st : ShmemState) (h : History)
        → Ends
            (Replied st pe offset f.size
              (λ peer.
                amo_called
                  (fetch_amo_of op f)
                  peer.endpoint
                  (value ∷ [])
                  (peer.heap_base + offset)
                  peer.rkey)
              h)
            (fetched s a
              (unsigned a f)
              (λ e w address key. fetch_method op (unsigned a f) e w value address key value)
              rounds
              pe
              offset
              st
              h)
    unfolding unsigned
    fetched_plain fadds f rounds pe offset value st h =
        Ends-mono (fetched-Ends a (unsigned a f) _ rounds pe offset st h)
          λ r g p. (p.0, p.1, p.2, p.4, p.5)
    fetched_plain fxors f rounds pe offset value st h =
        Ends-mono (fetched-Ends a (unsigned a f) _ rounds pe offset st h)
          λ r g p. (p.0, p.1, p.2, p.4, p.5)
    fetched_plain fswaps f rounds pe offset value st h =
        Ends-mono (fetched-Ends a (unsigned a f) _ rounds pe offset st h)
          λ r g p. (p.0, p.1, p.2, p.4, p.5)

    -- For both widths and each of the three operations: an operation with a reply on the unsigned type
    -- that returns a value has found the process initialised, the PE in the job, and the range free of
    -- overflow. It has made one call, of the binding's operation of that name and width, with the
    -- operand, the offset's address and the peer's key, and has driven the worker until its request was
    -- finished; the value is what that has stored in the reply. The state is unchanged.
    pub atomic_fetch_lem :
        (op : Fetching) (w : Width) (rounds pe offset value r : ℕ) (m m' : Global)
        → atomic_fetch s a
            (unsigned a (family w))
            (fetch_method op (unsigned a (family w)))
            rounds
            pe
            offset
            value
            m
          ≡ some (ok r, m')
        → (st : ShmemState) × (h g : History) × (m ≡ unlocked (some st) h)
          × Replied st pe offset
              (family w).size
              (λ peer.
                amo_called
                  (fetch_amo_of op (family w))
                  peer.endpoint
                  (value ∷ [])
                  (peer.heap_base + offset)
                  peer.rkey)
              h
              r
              g
          × (m' ≡ unlocked (some st) g)
    unfolding atomic_fetch unsigned
    atomic_fetch_lem op w rounds pe offset value r m m' e =
        locked_Ends _ _ m m' (fetched_plain op (family w) rounds pe offset value) e
