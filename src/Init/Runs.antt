-- ===== src/Init/Runs.antt =====
-- What every history of lifecycle and heap calls keeps.
use mathlib.Core.Path.{subst}
use openshmem_rs.Prelude.{ℕ, ◌≡◌, refl, sym, List, [], ◌∷◌, Option, none, some, Bool, true, false}
use openshmem_rs.Error.{Result, ok, err, panic}
use openshmem_rs.Lock.{after, with_lock}
use openshmem_rs.World.{Services, History}
use openshmem_rs.SymHeap
use openshmem_rs.SymHeap.{SymHeap, SymPtr}
use openshmem_rs.SymHeap.Invariant.{IsValid}
use openshmem_rs.SymHeap.Create.{IsVector}
use openshmem_rs.SymHeap.Runs as HeapRuns
use openshmem_rs.Init.State.{ShmemState, Process, Global, lock_state, with_state_mut, changing}
use openshmem_rs.Init.Start.{Started, IsSound, ready, refused, undone, crashed}
use openshmem_rs.Init.Lifecycle.{Initialised, init_lem, locked_out, again, starting}
use openshmem_rs.Init.{Setup, init, finalize, finalize_locked, malloc, free, on_heap}

pub data Call : Type 0 where
  inits : Call
  finalizes : Call
  mallocs : ℕ → Call
  frees : SymPtr → Call

module _ (s : Services) (u : Setup) where
  unfoldable pub step : Global → Call → Global
  step m inits = (init s u m).1
  step m finalizes = (finalize s m).1
  step m (mallocs size) = (malloc size m).1
  step m (frees ptr) = (free ptr m).1

  unfoldable pub run : Global → List Call → Global
  run m [] = m
  run m (c ∷ cs) = run (step m c) cs

  -- If there is a state, it is sound.
  pub data IsKept : Option ShmemState → Type 0 where
    stateless : IsKept none
    kept : {st : ShmemState} → IsSound s u st → IsKept (some st)

  Started-IsKept :
      (h : History) (r : Result (Unit {0}) × Process)
      → Started s u h r
      → IsKept (after r).1.value.state
  Started-IsKept h r (ready e p) = kept p.sound
  Started-IsKept h r (refused e) = stateless
  Started-IsKept h r (undone e) = stateless
  Started-IsKept h r (crashed e) = stateless

  Initialised-IsKept :
      (m : Global) (out : Result (Unit {0}) × Global)
      → Initialised s u m out
      → IsKept m.value.state
      → IsKept out.1.value.state
  Initialised-IsKept m out (locked_out p) k = subst (λ o. IsKept o.1.value.state) (sym p.1) k
  Initialised-IsKept m out again k = k
  Initialised-IsKept m out (starting p) k = Started-IsKept _ _ p

  after_value : {A B : Type 0} (out : Result A × B) → (after out).1.value ≡ out.1
  after_value (ok a, b) = refl
  after_value (err e, b) = refl
  after_value (panic, b) = refl

  -- A method of the allocator that keeps its invariant, called on the installed heap.
  on_heap-IsKept :
      {T : Type 0} (method : SymHeap → Result T × SymHeap) (m : Global)
      → ((h : SymHeap) → IsValid h → IsValid (method h).1)
      → IsKept m.value.state
      → IsKept (with_state_mut (on_heap method) m).1.value.state
  unfolding with_state_mut lock_state with_lock changing
  on_heap-IsKept method m keeps k = go m.poisoned m.value.state m.value.history k
    where
      go :
          (poisoned : Bool) (state : Option ShmemState) (h : History)
          → IsKept state
          → IsKept
              (with_state_mut (on_heap method) (record {
                poisoned = poisoned;
                value = record { state = state; history = h };
              })).1.value.state
      go true state h k = k
      go false none h k = k
      go false (some st) h (kept p) =
          subst (λ v. IsKept v.state)
            (sym (
              after_value
                (changing (on_heap method) (some st) (record { state = some st; history = h }))))
            (kept (record {
              heap_valid = keeps st.heap p.heap_valid;
              some_pe = p.some_pe;
              connected = p.connected;
              own_rank = p.own_rank;
              team = p.team;
            }))

  finalize-IsKept : (m : Global) → IsKept m.value.state → IsKept (finalize s m).1.value.state
  unfolding finalize lock_state with_lock finalize_locked
  finalize-IsKept m k = go m.poisoned m.value.state m.value.history k
    where
      go :
          (poisoned : Bool) (state : Option ShmemState) (h : History)
          → IsKept state
          → IsKept
              (finalize s (record {
                poisoned = poisoned;
                value = record { state = state; history = h };
              })).1.value.state
      go true state h k = k
      go false none h k = k
      go false (some st) h k =
          subst (λ v. IsKept v.state)
            (sym
              (after_value (finalize_locked s (some st) (record { state = some st; history = h }))))
            stateless

  step-IsKept :
      (m : Global) (c : Call)
      → IsVector u.registration
      → IsKept m.value.state
      → IsKept (step m c).value.state
  unfolding step malloc free HeapRuns.step
  step-IsKept m inits vec k = Initialised-IsKept m _ (init_lem s u m vec) k
  step-IsKept m finalizes vec k = finalize-IsKept m k
  step-IsKept m (mallocs size) vec k =
      on_heap-IsKept (SymHeap.malloc size) m
        (λ h v. HeapRuns.step-IsValid h (HeapRuns.mallocs size) v) k
  step-IsKept m (frees ptr) vec k =
      on_heap-IsKept (SymHeap.free ptr) m (λ h v. HeapRuns.step-IsValid h (HeapRuns.frees ptr) v) k

  -- With a global allocator whose vectors are aligned and end in the address space: over any history
  -- of `init`, `finalize`, `malloc` and `free`, failed ones included, from a process without a state
  -- or with a sound one, the state that is there is sound: the heap is valid and each PE below the job
  -- size is connected, as far as a `u32` goes.
  pub run-IsKept :
      (m : Global) (cs : List Call)
      → IsVector u.registration
      → IsKept m.value.state
      → IsKept (run m cs).value.state
  unfolding run
  run-IsKept m [] vec k = k
  run-IsKept m (c ∷ cs) vec k = run-IsKept (step m c) cs vec (step-IsKept m c vec k)
