-- ===== src/Coll/Returns.antt =====
-- The collectives that wait return: how many rounds of progress are enough.
use openshmem_rs.Prelude.{
  ℕ, zero, suc, ◌<◌, ◌≤◌, ◌≡◌, ◌≢◌, refl, ◌∷◌, List, Option, none, some, true, inl, inr, arith,
  Bool-cases, ◌==◌, length,
}
use openshmem_rs.Error.{Result, ok, err, panic, Result-cases}
use openshmem_rs.World.{Collectives, History, Io, ucc_progressed}
use openshmem_rs.World.Loop.{Loop, then_loop, and_loop}
use openshmem_rs.World.Ucc.{UccReductionOp}
use openshmem_rs.Pod.{Endian, Scalar, encode}
use openshmem_rs.Pod.Collective.{reduction_supported}
use openshmem_rs.Init.State.{ShmemState, Runtime, Global}
use openshmem_rs.Init.Locked.{with_state_loop}
use openshmem_rs.Init.Held.{Held-returns, with_state_loop-Held}
use openshmem_rs.Rma.Returns.{Returns}
use openshmem_rs.Coll.{wait, waited_buffer, afterwards, barrier, broadcast, reduce, collect}
use openshmem_rs.Coll.Wait.{status, after_progress}

-- Code with a loop that has ended.
abbrev Ended : {A : Type 0} → Option (Result A × History) → Type 0
Ended r = r ≢ none

then_loop-Ended :
    {A B : Type 0} (r : Result A × History) (k : A → Loop B)
    → ((a : A) (h : History) → Ended (k a h))
    → Ended (then_loop r k)
unfolding then_loop
then_loop-Ended (ok a, h) k next = next a h
then_loop-Ended (err e, h) k next = λ e. ground arith
then_loop-Ended (panic, h) k next = λ e. ground arith

and_loop-Ended :
    {A B : Type 0} (r : Option (Result A × History)) (k : A → Loop B)
    → Ended r
    → ((a : A) (h : History) → Ended (k a h))
    → Ended (and_loop r k)
unfolding and_loop
and_loop-Ended none k ended next = λ e. ended refl
and_loop-Ended (some r) k ended next = then_loop-Ended r k next

-- Code under the lock returns where the code has ended.
locked-Returns :
    {T : Type 0} (operation : ShmemState → Loop T) (m : Global)
    → ((st : ShmemState) (h : History) → Ended (operation st h))
    → Returns (with_state_loop operation m)
locked-Returns operation m ended =
    Held-returns (λ st h stuck. stuck refl) (with_state_loop-Held (λ st h. Ended) operation ended m)

afterwards-Returns :
    {A B : Type 0} (rest : A → Result B) (r : Option (Result A × Global))
    → Returns r
    → Returns (afterwards rest r)
afterwards-Returns rest none (out, e) = absurd (ground arith)
afterwards-Returns rest (some (ok a, m)) ret = (_, refl)
afterwards-Returns rest (some (err e, m)) ret = (_, refl)
afterwards-Returns rest (some (panic, m)) ret = (_, refl)

module _ (u : Collectives) where
  -- UCC reports of every operation, whatever was called before, another status than that there is no
  -- message, within `limit` rounds of progress.
  abbrev pub Progresses : ℕ → Type 0
  Progresses limit =
      (context op : ℕ) (h : History)
      → (n : ℕ) × (n < limit)
        × (status u context op (after_progress n context h) ≢ u.ucc_err_no_message)

  wait-Ended :
      (context op n rounds : ℕ) (h : History)
      → n < rounds
      → status u context op (after_progress n context h) ≢ u.ucc_err_no_message
      → Ended (wait u rounds context op h)
  unfolding wait after_progress
  wait-Ended context op n zero h enough last = absurd (omega arith)
  wait-Ended context op n (suc rounds) h enough last =
      elim (Bool-cases (u.request_status h op == u.ucc_ok)) [
        | inl done ↦ rw (done, wait) (λ e. ground arith)
        | inr running ↦ elim (Bool-cases (u.request_status h op == u.ucc_err_no_message)) [
          | inr failed ↦ rw (running, failed, wait) (λ e. ground arith)
          | inl pending ↦
              rw (running, pending, wait)
                (later n enough last pending
                  (λ k small. wait-Ended context op k rounds (ucc_progressed context ∷ h) small))
        ]
      ]
    where
      later :
          (n : ℕ)
          → n < suc rounds
          → status u context op (after_progress n context h) ≢ u.ucc_err_no_message
          → (u.request_status h op == u.ucc_err_no_message) ≡ true
          → ((k : ℕ)
              → k < rounds
              → status u context op (after_progress k context (ucc_progressed context ∷ h))
                ≢ u.ucc_err_no_message
              → Ended (wait u rounds context op (ucc_progressed context ∷ h)))
          → Ended (wait u rounds context op (ucc_progressed context ∷ h))
      later zero enough last pending again = absurd (last (ground arith))
      later (suc n) enough last pending again = again n (omega arith) last

  -- Where UCC progresses within a number of rounds, that many are enough for each collective that waits, on
  -- any state of the process, whatever else UCC answers: it returns.
  pub blocking_return :
      (limit rounds : ℕ)
      → Progresses limit
      → limit ≤ rounds
      → (order : Endian) (ty : Scalar) (op : UccReductionOp) (root : ℕ) (values : List ℕ)
        (m : Global)
      → Returns (barrier u rounds m)
        × Returns (broadcast u rounds order ty root values m)
        × Returns (reduce u rounds order ty op values m)
        × Returns (collect u rounds order ty values m)
  unfolding barrier broadcast reduce collect waited_buffer
  blocking_return limit rounds progresses enough order ty op root values m = (
    locked-Returns _ m (λ st h. then_loop-Ended _ _ λ begun g. waits begun.0.context begun.1 g),
    broadcasts,
    reduces,
    collects,
  )
    where
      waits : (context op : ℕ) (h : History) → Ended (wait u rounds context op h)
      waits context op h =
          let (n, small, last) = progresses context op h in
          wait-Ended context op n rounds h (omega arith) last

      buffered :
          (start : ShmemState → Io (Runtime × ℕ)) (bytes : List ℕ) (st : ShmemState) (h : History)
          → Ended (waited_buffer u rounds start bytes st h)
      buffered start bytes st h =
          then_loop-Ended _ _
            λ begun g. and_loop-Ended _ _ (waits begun.0.context begun.1 g) λ x f e. ground arith

      broadcasts : Returns (broadcast u rounds order ty root values m)
      broadcasts = elim (Bool-cases (length values == 0)) [
        | inl empty ↦ rw (empty, broadcast) (_, refl)
        | inr some_values ↦ elim (Result-cases (encode order ty values)) [
          | inl (bytes, e) ↦
              rw (some_values, e, broadcast)
                (afterwards-Returns _ _ (locked-Returns _ m (buffered _ bytes)))
          | inr (inl (x, e)) ↦ rw (some_values, e, broadcast) (_, refl)
          | inr (inr e) ↦ rw (some_values, e, broadcast) (_, refl)
        ]
      ]

      reduces : Returns (reduce u rounds order ty op values m)
      reduces = elim (Bool-cases (reduction_supported ty op)) [
        | inr unsupported ↦ rw (unsupported, reduce) (_, refl)
        | inl supported ↦ elim (Result-cases (encode order ty values)) [
          | inl (bytes, e) ↦
              rw (supported, e, reduce)
                (afterwards-Returns _ _ (locked-Returns _ m (buffered _ bytes)))
          | inr (inl (x, e)) ↦ rw (supported, e, reduce) (_, refl)
          | inr (inr e) ↦ rw (supported, e, reduce) (_, refl)
        ]
      ]

      collects : Returns (collect u rounds order ty values m)
      collects = elim (Bool-cases (length values == 0)) [
        | inl empty ↦ rw (empty, collect) (_, refl)
        | inr some_values ↦
            rw (some_values, collect)
              (locked-Returns _ m (λ st h. then_loop-Ended _ _ λ begun g.
                and_loop-Ended _ _ (waits begun.1.0.context begun.1.1 g) λ x f e. ground arith))
      ]
