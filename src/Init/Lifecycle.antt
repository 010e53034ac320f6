-- ===== src/Init/Lifecycle.antt =====
-- `init`, `finalize` and the queries on the process-global state.
use mathlib.Core.Path.{subst}
use openshmem_rs.Prelude.{
  ◌⊎◌, ℕ, ◌≡◌, refl, ◌∷◌, Option, none, some, Bool, true, false, inl, inr, Outcome, done, failed,
  sym, Outcome-cases, arith,
}
use openshmem_rs.Error.{Error, Result, ok, err, already_initialized, not_initialized, pmix}
use openshmem_rs.Error.Convert.{map_err}
use openshmem_rs.Lock.{after, with_lock}
use openshmem_rs.World.{Services, History, disconnected}
use openshmem_rs.SymHeap.Create.{IsVector}
use openshmem_rs.Init.State.{
  unlocked, ShmemState, Process, Global, poisoned_state, lock_state, with_state, reading,
}
use openshmem_rs.Init.Start.{Started, start_lem}
use openshmem_rs.Init.{Setup, init_locked, init, finalize, finalize_locked, my_pe, n_pes}

-- A lock that a panic has poisoned, which stays so.
abbrev pub Poisoned : {T : Type 0} → Global → Result T × Global → Type 0
Poisoned m out = (m.poisoned ≡ true) × (out ≡ (err poisoned_state, m))

module _ (s : Services) (u : Setup) where
  -- What `init` does. A poisoned lock and an installed state are errors that change nothing. On a
  -- process without a state, it starts.
  pub data Initialised : Global → Result (Unit {0}) × Global → Type 0 where
    locked_out :
        {m : Global} {out : Result (Unit {0}) × Global} → Poisoned m out → Initialised m out
    again :
        {st : ShmemState} {h : History}
        → Initialised (unlocked (some st) h) (err already_initialized, unlocked (some st) h)
    starting :
        {h : History} {r : Result (Unit {0}) × Process}
        → Started s u h r
        → Initialised (unlocked none h) (after r)

  -- `init` on any state of the process, with a global allocator whose vectors are aligned and end in
  -- the address space. A poisoned lock and an installed state are errors that change nothing.
  -- Otherwise PMIx is asked to connect. If it refuses, its status is the error, nothing else was called,
  -- and there is no state. If it connects a client, the process has a state that is ready and holds
  -- that client, or an error after it was answered by disconnecting that client as the last call, and
  -- there is no state, or a panic has poisoned the lock.
  pub init_lem : (m : Global) → IsVector u.registration → Initialised m (init s u m)
  unfolding init lock_state with_lock init_locked
  init_lem m vec = go m.poisoned m.value.state m.value.history
    where
      go :
          (poisoned : Bool) (state : Option ShmemState) (h : History)
          → Initialised
              (record { poisoned = poisoned; value = record { state = state; history = h } })
              (init s u
                (record { poisoned = poisoned; value = record { state = state; history = h } }))
      go true state h = locked_out (refl, refl)
      go false (some st) h = again
      go false none h = starting (start_lem s u h vec)

after-map_err :
    {A : Type 0} (convert : ℕ → Error) (o : Outcome A) (p : Process)
    → (after (map_err convert o, p)).1 ≡ record { poisoned = false; value = p }
after-map_err convert (done a) p = refl
after-map_err convert (failed status) p = refl

module _ (s : Services) where
  -- What `finalize` does. A poisoned lock is an error that changes nothing. Without a state there is
  -- nothing to do. A state is gone and its client was asked to disconnect: the result is success or
  -- the error of PMIx's status.
  pub data Finalised : Global → Result (Unit {0}) × Global → Type 0 where
    locked_out : {m : Global} {out : Result (Unit {0}) × Global} → Poisoned m out → Finalised m out
    nothing_there : {h : History} → Finalised (unlocked none h) (ok tt, unlocked none h)
    closed :
        {st : ShmemState} {h : History}
        → s.pmix.disconnect h st.client ≡ done tt
        → Finalised (unlocked (some st) h) (ok tt, unlocked none (disconnected st.client ∷ h))
    cut_off :
        {st : ShmemState} {h : History} {status : ℕ}
        → s.pmix.disconnect h st.client ≡ failed status
        → Finalised
            (unlocked (some st) h)
            (err (pmix (s.pmix.from_raw status)), unlocked none (disconnected st.client ∷ h))

  -- A second call does nothing; the queries fail as before `init`; and `init` asks PMIx for a new
  -- connection. Behind a poisoned lock all four report it.
  pub data Ended (u : Setup) : Global → Type 0 where
    stateless :
        {h : History}
        → finalize s (unlocked none h) ≡ (ok tt, unlocked none h)
        → my_pe (unlocked none h) ≡ (err not_initialized, unlocked none h)
        → n_pes (unlocked none h) ≡ (err not_initialized, unlocked none h)
        → Initialised s u (unlocked none h) (init s u (unlocked none h))
        → Ended u (unlocked none h)
    shut :
        {m : Global}
        → Poisoned m (finalize s m)
        → Poisoned m (my_pe m)
        → Poisoned m (n_pes m)
        → Poisoned m (init s u m)
        → Ended u m

  pub finalize-unlocked :
      (st : ShmemState) (g : History)
      → (finalize s (unlocked (some st) g)).1 ≡ unlocked none (disconnected st.client ∷ g)
  unfolding finalize lock_state with_lock finalize_locked
  finalize-unlocked st g = after-map_err _ (s.pmix.disconnect g st.client) _

  -- Under a free lock: the history that is left, and that there is no state.
  pub finalize_clears :
      (p : Process)
      → (h : History) × (((p.state ≡ none) × (h ≡ p.history))
          ⊎ ((st : ShmemState) × (p.state ≡ some st) × (h ≡ disconnected st.client ∷ p.history)))
        × ((finalize s (record { poisoned = false; value = p })).1 ≡ unlocked none h)
  unfolding finalize lock_state with_lock finalize_locked
  finalize_clears p = go p.state p.history
    where
      go :
          (state : Option ShmemState) (g : History)
          → (h : History) × (((state ≡ none) × (h ≡ g))
              ⊎ ((st : ShmemState) × (state ≡ some st) × (h ≡ disconnected st.client ∷ g)))
            × ((finalize s (unlocked state g)).1 ≡ unlocked none h)
      go none g = (g, inl (refl, refl), refl)
      go (some st) g = (disconnected st.client ∷ g, inr (st, refl, refl), finalize-unlocked st g)

  finalize-Finalised : (m : Global) → Finalised m (finalize s m)
  unfolding finalize lock_state with_lock finalize_locked
  finalize-Finalised m = go m.poisoned m.value.state m.value.history
    where
      go :
          (poisoned : Bool) (state : Option ShmemState) (h : History)
          → Finalised
              (record { poisoned = poisoned; value = record { state = state; history = h } })
              (finalize s
                (record { poisoned = poisoned; value = record { state = state; history = h } }))
      go true state h = locked_out (refl, refl)
      go false none h = nothing_there
      go false (some st) h = elim (Outcome-cases (s.pmix.disconnect h st.client)) [
        | inl (tt, e) ↦ rw (e, map_err) (closed e)
        | inr (status, e) ↦ rw (e, map_err) (cut_off e)
      ]

  module _ (u : Setup) (vec : IsVector u.registration) where
    left_stateless : (h : History) → Ended u (unlocked none h)
    unfolding finalize my_pe n_pes lock_state with_lock finalize_locked with_state reading
    left_stateless h = stateless refl refl refl (init_lem s u (unlocked none h) vec)

    left_locked : (m : Global) → m.poisoned ≡ true → Ended u m
    unfolding finalize my_pe n_pes init lock_state with_lock with_state reading
    left_locked m e = go m.poisoned m.value e
      where
        go :
            (poisoned : Bool) (p : Process)
            → poisoned ≡ true
            → Ended u (record { poisoned = poisoned; value = p })
        go true p e = shut (refl, refl) (refl, refl) (refl, refl) (refl, refl)
        go false p e = absurd (ground arith)

    -- `finalize` on any state of the process, with a global allocator whose vectors are aligned and end
    -- in the address space. A poisoned lock is an error that changes nothing, and `finalize`, the
    -- queries and `init` report it from then on. Otherwise there is no state afterwards. Its client, if
    -- there was a state, was asked to disconnect, and a status with which PMIx refuses is the error. From
    -- then on `finalize` succeeds without a call, the queries fail as before `init`, and `init` does
    -- what it does on a process that was never initialised: it asks PMIx for a connection again.
    pub finalize_lem : (m : Global) → Finalised m (finalize s m) × Ended u (finalize s m).1
    finalize_lem m = (finalize-Finalised m, ended m (finalize s m) (finalize-Finalised m))
      where
        ended : (m : Global) (out : Result (Unit {0}) × Global) → Finalised m out → Ended u out.1
        ended m out (locked_out (e, same)) = subst (λ o. Ended u o.1) (sym same) (left_locked m e)
        ended m out nothing_there = left_stateless _
        ended m out (closed e) = left_stateless _
        ended m out (cut_off e) = left_stateless _
