-- ===== src/Coll/Agree.antt =====
-- A collective that waits does what the one without a wait and the request's `wait` do.
use openshmem_rs.Prelude.{
  ℕ, zero, suc, ◌≡◌, ◌≢◌, refl, sym, ap, ◌∙◌, ◌∷◌, List, Option, none, some, Bool, true, false,
  ◌==◌, arith, Bool-cases, Outcome-cases, inl, inr,
}
use openshmem_rs.Error.{Result, ok, err, panic}
use openshmem_rs.World.{Collectives, History, Io, ucc_progressed, and_then, pure}
use openshmem_rs.World.Loop.{Loop, then_loop, and_loop}
use openshmem_rs.Lock.{with_lock}
use openshmem_rs.Pod.{Endian}
use openshmem_rs.Init.State.{
  Runtime, ShmemState, Process, Global, unlocked, with_state, lock_state, reading,
}
use openshmem_rs.Init.Locked.{with_state_loop, locked_loop}
use openshmem_rs.Coll.{wait, afterwards}
use openshmem_rs.Coll.Wait.{wait-calm}
use openshmem_rs.Coll.Request
use openshmem_rs.Coll.Request.{
  CollectiveRequest, Destination, Polled, copy_back, written, read_last, last, store_last, finish,
  test_op, test, poll_again,
}

-- The request that a wait leaves, and the history.
abbrev pub completion :
    Option (Result (Unit {0}) × (CollectiveRequest × History))
    → Option (Result CollectiveRequest × History)
completion none = none
completion (some (ok x, (request, h))) = some (ok request, h)
completion (some (err e, (request, h))) = some (err e, h)
completion (some (panic, (request, h))) = some (panic, h)

abbrev pub closed :
    Result Bool × (CollectiveRequest × History) → Option (Result CollectiveRequest × History)
closed (ok b, (request, h)) = some (ok request, h)
closed (err e, (request, h)) = some (err e, h)
closed (panic, (request, h)) = some (panic, h)

module _ (u : Collectives) (order : Endian) where
  copy_back-closed :
      (d : Option Destination) (r : CollectiveRequest × History)
      (again : CollectiveRequest × History
        → Option (Result (Unit {0}) × (CollectiveRequest × History)))
      → completion (poll_again u order again (copy_back order d r)) ≡ closed (copy_back order d r)
  unfolding copy_back
  copy_back-closed none r again = refl
  copy_back-closed (some d) r again = read (last r.0.buffers)
    where
      write :
          (w : Result Destination)
          → completion (poll_again u order again (written order w r)) ≡ closed (written order w r)
      write (ok x) = refl
      write (err e) = refl
      write panic = refl

      read :
          (o : Option (List ℕ))
          → completion (poll_again u order again (read_last order d o r))
            ≡ closed (read_last order d o r)
      read none = refl
      read (some bytes) = write _

  -- The request once its operation has been finalized.
  abbrev pub taken : CollectiveRequest → ℕ → History → CollectiveRequest
  taken request op g = record request {
    op = none;
    buffers = store_last (u.stored g op) request.buffers;
  }

  abbrev closing :
      CollectiveRequest
      → ℕ
      → Option (Result (Unit {0}) × History)
      → Option (Result CollectiveRequest × History)
  closing request op none = none
  closing request op (some (ok x, g)) =
      closed (copy_back order request.destination (taken request op g, g))
  closing request op (some (err e, g)) = some (err e, g)
  closing request op (some (panic, g)) = some (panic, g)

  poll-wait :
      (rounds : ℕ) (rt : Runtime) (op : ℕ) (buffers : List (List ℕ)) (d : Option Destination)
      (index : Option ℕ) (h : History)
      → u.ucc_ok ≢ u.ucc_err_no_message
      → completion (Request.wait u order rounds (Request.new (rt, op) buffers d index, h))
        ≡ closing (Request.new (rt, op) buffers d index) op (wait u rounds rt.context op h)
  unfolding Request.wait Request.new test test_op finish wait
  poll-wait zero rt op buffers d index h apart = refl
  poll-wait (suc rounds) rt op buffers d index h apart =
      elim (Bool-cases (u.request_status h op == u.ucc_ok)) [
        | inl over ↦
            let quiet : (u.request_status h op == u.ucc_err_no_message) ≡ false = ground arith in
            elim (Outcome-cases (u.finalize h op)) [
              | inl (x, good) ↦ rw (over, quiet, finish, good) (copy_back-closed d _ _)
              | inr (code, bad) ↦ rw (over, quiet, finish, bad)
            ]
        | inr pending ↦ elim (Bool-cases (u.request_status h op == u.ucc_err_no_message)) [
          | inl message ↦
              rw (pending, message)
                (poll-wait rounds rt op buffers d index (ucc_progressed rt.context ∷ h) apart)
          | inr other ↦ rw (pending, other)
        ]
      ]

-- What follows outside the lock, with the calls in the process's history.
abbrev pub outside :
    {B : Type 0} → Global → Option (Result B × History) → Option (Result B × Global)
outside m none = none
outside m (some (r, g)) = some (r, record m { value = record m.value { history = g } })

abbrev pub used :
    {B : Type 0}
    → (CollectiveRequest → Result B)
    → Option (Result CollectiveRequest × History)
    → Option (Result B × History)
used use_it none = none
used use_it (some (ok request, g)) = some (use_it request, g)
used use_it (some (err e, g)) = some (err e, g)
used use_it (some (panic, g)) = some (panic, g)

module _ (u : Collectives) (order : Endian) {B : Type 0}
    (use_it : CollectiveRequest → Result B) where
  -- A program that posts a collective, waits for the request, and uses it.
  abbrev pub then_wait : ℕ → Result CollectiveRequest × Global → Option (Result B × Global)
  then_wait rounds (ok request, m) =
      outside m (used use_it (completion (Request.wait u order rounds (request, m.value.history))))
  then_wait rounds (err e, m) = some (err e, m)
  then_wait rounds (panic, m) = some (panic, m)

  abbrev pub chained : {A : Type 0} → Result A → (A → Result B) → Result B
  chained (ok a) rest = rest a
  chained (err e) rest = err e
  chained panic rest = panic

  -- A collective that is started by `start` on either side. A start that returns gives what `P` says of;
  -- then the wait's value, with the rest outside the lock, is what the request is used for.
  module _ {S A : Type 0} (apart : u.ucc_ok ≢ u.ucc_err_no_message) (rounds : ℕ)
      (start : ShmemState → Io S) (begun : S → Runtime × ℕ) (buffers : S → List (List ℕ))
      (d : Option Destination) (index : Option ℕ) (value : S → History → Result A)
      (rest : A → Result B) (P : S → Type 0)
      (good : (st : ShmemState) (h : History) (x : S) (g : History) → start st h ≡ (ok x, g) → P x)
      (calm : (x : S) (g : History) → P x → value x g ≢ panic)
      (same : (x : S) (g : History)
        → P x
        → used use_it (
            closed (
              copy_back order d
                (taken u order (Request.new (begun x) (buffers x) d index) (begun x).1 g, g)))
          ≡ some (chained (value x g) rest, g)) where
    abbrev waited : S → Loop A
    waited x g =
        and_loop (wait u rounds (begun x).0.context (begun x).1 g) λ _ f. some (value x f, f)

    abbrev posted : Result S × History → Result CollectiveRequest × History
    posted r = and_then r λ x. pure (Request.new (begun x) (buffers x) d index)

    abbrev at : Option ShmemState → History → Process
    at state h = record { state = state; history = h }

    after_value :
        (v : Result A) (st : ShmemState) (g g0 g1 : History)
        → v ≢ panic
        → afterwards rest (locked_loop (λ _ _. some (v, g)) (some st) (at (some st) g0))
          ≡ outside (unlocked (some st) g1) (some (chained v rest, g))
    unfolding locked_loop
    after_value (ok v) st g g0 g1 calm = refl
    after_value (err e) st g g0 g1 calm = refl
    after_value panic st g g0 g1 calm = absurd (calm refl)

    after_wait :
        (x : S) (st : ShmemState) (w : Option (Result (Unit {0}) × History)) (g0 g1 : History)
        → P x
        → ((g : History) → w ≢ some (panic, g))
        → afterwards rest
            (locked_loop (λ _ _. and_loop w λ _ f. some (value x f, f)) (some st) (at (some st) g0))
          ≡ outside (unlocked (some st) g1) (
              used use_it
                (closing u order (Request.new (begun x) (buffers x) d index) (begun x).1 w))
    unfolding locked_loop and_loop then_loop Request.new copy_back
    after_wait x st none g0 g1 p quiet = refl
    after_wait x st (some (ok y, g)) g0 g1 p quiet =
        after_value (value x g) st g g0 g1 (calm x g p)
        ∙ ap (outside (unlocked (some st) g1)) (sym (same x g p))
    after_wait x st (some (err e, g)) g0 g1 p quiet = refl
    after_wait x st (some (panic, g)) g0 g1 p quiet = absurd (quiet g refl)

    after_start :
        (r : Result S × History) (st : ShmemState) (h : History)
        → ((x : S) (g : History) → r ≡ (ok x, g) → P x)
        → afterwards rest (locked_loop (λ _ _. then_loop r waited) (some st) (at (some st) h))
          ≡ then_wait rounds (with_state (λ _ _. posted r) (unlocked (some st) h))
    unfolding locked_loop then_loop and_then with_state lock_state with_lock reading
    after_start (ok x, g) st h p =
        after_wait x st (wait u rounds (begun x).0.context (begun x).1 g) h g (p x g refl)
          (wait-calm u (begun x).0.context (begun x).1 rounds g)
        ∙ ap (λ r. outside (unlocked (some st) g) (used use_it r))
            (sym (poll-wait u order rounds (begun x).0 (begun x).1 (buffers x) d index g apart))
    after_start (err e, g) st h p = refl
    after_start (panic, g) st h p = refl

    pub wait_is_post :
        (m : Global)
        → afterwards rest (with_state_loop (λ st h. then_loop (start st h) waited) m)
          ≡ then_wait rounds (with_state (λ st h. posted (start st h)) m)
    unfolding with_state_loop with_state lock_state with_lock reading locked_loop
    wait_is_post m = go m.poisoned m.value.state m.value.history
      where
        go :
            (poisoned : Bool) (state : Option ShmemState) (h : History)
            → afterwards rest (
                with_state_loop
                  (λ st h. then_loop (start st h) waited)
                  (record { poisoned = poisoned; value = at state h }))
              ≡ then_wait rounds (
                  with_state
                    (λ st h. posted (start st h))
                    (record { poisoned = poisoned; value = at state h }))
        go true state h = refl
        go false none h = refl
        go false (some st) h = after_start (start st h) st h (good st h)
