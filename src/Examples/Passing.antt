-- ===== src/Examples/Passing.antt =====
-- How the barrier example ends.
use mathlib.Core.Path.{subst}
use openshmem_rs.Prelude.{ℕ, ◌≡◌, sym, ◌∷◌, Option, none, some}
use openshmem_rs.Error.{Error, Result, ok, err, panic}
use openshmem_rs.World.{Services, Collectives, History, disconnected}
use openshmem_rs.SymHeap.Create.{IsVector}
use openshmem_rs.Init.{Setup, init, finalize}
use openshmem_rs.Init.State.{ShmemState, Global, unlocked}
use openshmem_rs.Init.Lifecycle.{finalize-unlocked}
use openshmem_rs.Init.Held.{Held, leave, still_waiting, left, with_state_loop-Held}
use openshmem_rs.Coll.{barrier}
use openshmem_rs.Examples.Program.{plain, and_run}
use openshmem_rs.Examples.Barrier.{run}
use openshmem_rs.Examples.Started.{init-Begun}
use openshmem_rs.Examples.Running.{my_pe-running, n_pes-running}

module _ (s : Services) where
  -- How the program ends after its barrier.
  pub data Passes
      : Option (Result (Unit {0}) × Global) → Option (Result (Unit {0}) × Global) → Type 0 where
    pending : Passes none none
    panicked : {m : Global} → Passes (some (panic, m)) (some (panic, m))
    -- without a call of `finalize`
    barrier_failed :
        {e : Error} {st : ShmemState} {g : History}
        → Passes (some (err e, unlocked (some st) g)) (some (err e, unlocked (some st) g))
    passed :
        {st : ShmemState} {g : History}
        → Passes (some (ok tt, unlocked (some st) g)) (
            some
              ((finalize s (unlocked (some st) g)).0, unlocked none (disconnected st.client ∷ g)))

module _ (s : Services) (u : Setup) (c : Collectives) (rounds : ℕ) where
  closing :
      (st : ShmemState) (r : Result (Unit {0})) (g : History)
      → Passes s (some (leave st (r, g))) (and_run (some (leave st (r, g))) λ _. plain (finalize s))
  unfolding and_run
  closing st (ok x) g =
      subst
        (λ m.
          Passes s (some (ok tt, unlocked (some st) g))
            (some ((finalize s (unlocked (some st) g)).0, m)))
        (sym (finalize-unlocked s st g)) passed
  closing st (err e) g = barrier_failed
  closing st panic g = panicked

  barrier-Passes :
      (st : ShmemState) (h : History) (r : Option (Result (Unit {0}) × Global))
      → Held (λ st h r. Unit {0}) (unlocked (some st) h) r
      → Passes s r (and_run r λ _. plain (finalize s))
  unfolding and_run
  barrier-Passes st h r (still_waiting x) = pending
  barrier-Passes st h r (left {out = (a, g)} x) = closing st a g

  -- Once `init` has returned, with a global allocator whose vectors are aligned and end in the address
  -- space: a barrier that returns is followed by `finalize`, which disconnects the client and takes the
  -- state away. A barrier that fails ends the program with its error, and `finalize` is not called: the
  -- state is still installed, and the client connected.
  pub run-Passes :
      (m m1 : Global)
      → IsVector u.registration
      → init s u m ≡ (ok tt, m1)
      → Passes s (barrier c rounds m1) (run s u c rounds m)
  unfolding run and_run barrier
  run-Passes m m1 vec e =
      let (st, g, begun, same) = init-Begun s u m m1 vec e in
      rw (e, same, and_run, my_pe-running st g, n_pes-running st g)
        (barrier-Passes st g _
          (with_state_loop-Held (λ st h r. Unit {0}) _ (λ st h. tt) (unlocked (some st) g)))
