-- ===== src/Examples/Agreement.antt =====
-- What the two PEs of ping_put_get have done when they succeed.
use mathlib.Core.Path.{subst}
use openshmem_rs.Prelude.{
  ℕ, ◌+◌, ◌≡◌, ◌≢◌, refl, sym, ap, ◌∙◌, [], ◌∷◌, some, Bool, inl, inr, arith, Bool-cases, ◌==◌,
  if◌then◌else◌,
}
use mathlib.Core.Option.{some-injective}
use openshmem_rs.Prelude.BTree
use openshmem_rs.Error.{usage, ok, err}
use openshmem_rs.World.{Services, History, worker_fenced, flushed}
use openshmem_rs.Bootstrap.{PeerConnection}
use openshmem_rs.Pod.{Endian, u64, bytes_of}
use openshmem_rs.SymHeap.{SymHeap, SymPtr}
use openshmem_rs.SymHeap.Create.{IsVector}
use openshmem_rs.SymHeap.First.{malloc-IsFresh, malloc-base}
use openshmem_rs.SymHeap.Roundtrip.{free-malloc}
use openshmem_rs.SymHeap.Pointer.{offset_from}
use openshmem_rs.Init.{Setup, init, my_pe, n_pes, free, heap_base}
use openshmem_rs.Init.State.{ShmemState, Global, unlocked}
use openshmem_rs.Init.Start.{IsReady}
use openshmem_rs.Rma.{fence, putmem, quiet_pe}
use openshmem_rs.Init.Locked.{with_state_loop-running}
use openshmem_rs.Rma.Wait.{Carried}
use openshmem_rs.Rma.Transfer.{Issued, put_bytes-Put}
use openshmem_rs.Rma.Values.{put-putmem}
use openshmem_rs.Rma.Roundtrip.{quiet_pe-Carried}
use openshmem_rs.Rma.Typed.{put}
use openshmem_rs.Examples.Program.{settled, and_run}
use openshmem_rs.Examples.PingPutGet.{poll, ping, with_buffer, run, value, value_offset, target_pe}
use openshmem_rs.Examples.Started.{and_run-inv, known_step, init-Begun}
use openshmem_rs.Examples.Running.{
  my_pe-running, n_pes-running, heap_base-running, malloc-running, free-running, fence-running,
}
use openshmem_rs.Examples.Polling.{Polls, last_poll, next_poll, poll-Polls}

module _ (s : Services) (order : Endian) (late : History → Bool) where
  -- The bytes of the value were put at the offset in PE 1's heap, and after a fence PE 1's endpoint was
  -- flushed.
  abbrev pub Sent : ShmemState → ℕ → History → History → Type 0
  Sent st offset h g =
      (peer : PeerConnection) × (f : History) × (BTree.get target_pe st.peers ≡ some peer)
      × Issued s st.transport (bytes_of order u64 (value ∷ [])) peer
          (peer.heap_base + (offset + value_offset)) h f
      × Carried s st.transport (flushed peer.endpoint)
          (s.ucx.flush (worker_fenced st.transport.worker ∷ f) peer.endpoint)
          (worker_fenced st.transport.worker ∷ f) g

  -- What the PEs have done between `malloc` and `free`: PE 0 has put the value at an offset in PE 1's
  -- heap, and after a fence has flushed that PE's endpoint, all of which is complete; another PE has
  -- polled its own heap at the offset until it has got the value.
  pub data Exchanged (st : ShmemState) (offset : ℕ) (h : History) : History → Type 0 where
    sent : {g : History} → st.rank ≡ 0 → Sent st offset h g → Exchanged st offset h g
    received :
        {g : History} → st.rank ≢ 0 → Polls s order late st offset h g → Exchanged st offset h g

  put-Sent :
      (rounds offset : ℕ) (st : ShmemState) (h : History) (m1 m2 m3 : Global)
      → put s order rounds u64 target_pe (value ∷ []) (offset + value_offset) (unlocked (some st) h)
        ≡ some (ok tt, m1)
      → fence s m1 ≡ (ok tt, m2)
      → quiet_pe s rounds target_pe m2 ≡ some (ok tt, m3)
      → (g : History) × Sent st offset h g × (m3 ≡ unlocked (some st) g)
  unfolding putmem
  put-Sent rounds offset st h m1 m2 m3 puts fences quiets =
      let bytes = bytes_of order u64 (value ∷ []) in
      let putting =
        sym (
          put-putmem s order u64 rounds target_pe (offset + value_offset) (value ∷ [])
            (unlocked (some st) h) (omega arith))
        ∙ puts in
      let (f, run, left) = with_state_loop-running _ st h m1 putting in
      let (peer, found, range, issued) =
        put_bytes-Put s rounds target_pe (offset + value_offset) bytes st h f run in
      let fence_left = fence-running s st f m2 (subst (λ q. fence s q ≡ (ok tt, m2)) left fences) in
      let (to, g, found_to, flush, last) =
        quiet_pe-Carried s rounds target_pe st (worker_fenced st.transport.worker ∷ f) m3
          (subst (λ q. quiet_pe s rounds target_pe q ≡ some (ok tt, m3)) fence_left quiets) in
      let same : to ≡ peer = cc in
      (
        g,
        (
          peer,
          f,
          found,
          issued,
          subst
              (λ p.
                Carried s st.transport (flushed p.endpoint)
                  (s.ucx.flush (worker_fenced st.transport.worker ∷ f) p.endpoint)
                  (worker_fenced st.transport.worker ∷ f) g)
              same flush,
        ),
        last,
      )

  ping-Exchanged :
      (rounds polls offset : ℕ) (st : ShmemState) (h : History) (m' : Global)
      → ping s order late rounds polls st.rank offset (unlocked (some st) h) ≡ some (ok tt, m')
      → (g : History) × Exchanged st offset h g × (m' ≡ unlocked (some st) g)
  unfolding ping
  ping-Exchanged rounds polls offset st h m' e = elim (Bool-cases (st.rank == 0)) [
    | inl first ↦
        let (_, m1, puts, rest) = and_run-inv _ _ (rw first at e) in
        let (_, m2, fences, quiets) = and_run-inv _ _ rest in
        let (g, sent_all, left) =
          put-Sent rounds offset st h m1 m2 m' puts (some-injective _ _ fences) quiets in
        (g, sent (ground arith) sent_all, left)
    | inr other ↦
        let polling : poll s order late rounds polls st.rank offset (unlocked (some st) h)
            ≡ some (ok tt, m') =
          ground arith in
        let (g, polled, left) = poll-Polls s order late rounds polls offset st h m' polling in
        (g, received (ground arith) polled, left)
  ]

  -- The allocation does not matter to the with_buffer.
  moved-Polls :
      (st : ShmemState) (heap : SymHeap) (offset : ℕ) (h g : History)
      → Polls s order late (record st { heap = heap }) offset h g
      → Polls s order late st offset h g
  moved-Polls st heap offset h g (last_poll found got same) = last_poll found got same
  moved-Polls st heap offset h g (next_poll found got other early rest) =
      next_poll found got other early (moved-Polls st heap offset _ g rest)

  moved :
      (st : ShmemState) (heap : SymHeap) (h g : History)
      → Exchanged (record st { heap = heap }) 0 h g
      → Exchanged st 0 h g
  moved st heap h g (sent first all) = sent first all
  moved st heap h g (received other polled) = received other (moved-Polls st heap 0 h g polled)

  offset_zero : (p : SymPtr) (base : ℕ) → p.addr ≡ base → offset_from p base ≡ ok 0
  unfolding offset_from
  offset_zero p base same = ground arith

  with_buffer-Exchanged :
      (u : Setup) (rounds polls : ℕ) (st : ShmemState) (h : History) (m' : Global)
      → IsReady s u st
      → with_buffer s order late rounds polls st.rank (unlocked (some st) h) ≡ some (ok tt, m')
      → (g : History) × Exchanged st 0 h g × (m' ≡ unlocked (some st) g)
  unfolding with_buffer and_run
  with_buffer-Exchanged u rounds polls st h m' begun e =
      let (p, m1, mallocs, after_malloc) = and_run-inv _ _ e in
      let (heap, granted, left) = malloc-running st h 8 p m1 (some-injective _ _ mallocs) in
      let buffered : ShmemState = record st { heap = heap } in
      let valid = begun.sound.heap_valid in
      let same_base : heap.local_base ≡ st.heap.local_base =
        malloc-base st.heap heap 8 p valid granted in
      let zero_offset : offset_from p heap.local_base ≡ ok 0 =
        offset_zero p heap.local_base
          (malloc-IsFresh st.heap heap _ 8 p valid begun.heap_fresh.1 granted ∙ sym same_base) in
      let in_base = known_step heap_base _ left (heap_base-running buffered h) after_malloc in
      let in_offset =
        known_step (λ q. (offset_from p heap.local_base, q)) _ refl
          (ap (λ r. (r, unlocked (some buffered) h)) zero_offset) in_base in
      let (_, m2, pings, frees) = and_run-inv _ _ in_offset in
      let (g, exchanged, after_ping) = ping-Exchanged rounds polls 0 buffered h m2 pings in
      let (heap2, freed, last) =
        free-running buffered g p m'
          (subst (λ q. free p q ≡ (ok tt, m')) after_ping (some-injective _ _ frees)) in
      let restored : heap2 ≡ st.heap =
        λ i. ((sym freed ∙ free-malloc st.heap heap 8 p valid granted) i).1 in
      (
        g,
        moved st heap h g exchanged,
        last ∙ ap (λ t. unlocked (some (record st { heap = t })) g) restored,
      )

  two_pes :
      (rounds polls : ℕ) (st : ShmemState) (h : History) (m' : Global)
      → (if st.size == 2
            then with_buffer s order late rounds polls st.rank
            else settled (err (usage "ping_put_get requires exactly two PEs")))
          (unlocked (some st) h)
        ≡ some (ok tt, m')
      → (st.size ≡ 2)
        × (with_buffer s order late rounds polls st.rank (unlocked (some st) h) ≡ some (ok tt, m'))
  two_pes rounds polls st h m' e = ground arith

  -- `run` of ping_put_get that returns `Ok`, with a global allocator whose vectors are aligned and end in the
  -- address space: `init` has left a state that is ready, of two PEs. PE 0 has put the value's bytes at the base
  -- of PE 1's heap, after which it has fenced, and flushed that PE's endpoint; PE 1 has polled the base of its own heap
  -- until the value was there. So both have used one offset, zero. The buffer is free again: the state
  -- is as `init` has left it.
  pub run-Exchanged :
      (u : Setup) (rounds polls : ℕ) (m m' : Global)
      → IsVector u.registration
      → run s u order late rounds polls m ≡ some (ok tt, m')
      → (st : ShmemState) × (h g : History) × IsReady s u st
        × (st.size ≡ 2)
        × (init s u m ≡ (ok tt, unlocked (some st) h))
        × Exchanged st 0 h g
        × (m' ≡ unlocked (some st) g)
  unfolding run
  run-Exchanged u rounds polls m m' vec e =
      let (_, m1, inits, after_init) = and_run-inv _ _ e in
      let (st, h, begun, left) = init-Begun s u m m1 vec (some-injective _ _ inits) in
      let in_rank = known_step my_pe _ left (my_pe-running st h) after_init in
      let in_size = known_step n_pes _ refl (n_pes-running st h) in_rank in
      let (two, exchanges) = two_pes rounds polls st h m' in_size in
      let (g, exchanged, last) = with_buffer-Exchanged u rounds polls st h m' begun exchanges in
      (st, h, g, begun, two, some-injective _ _ inits ∙ ap (λ q. (ok tt, q)) left, exchanged, last)
