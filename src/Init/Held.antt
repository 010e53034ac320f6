-- ===== src/Init/Held.antt =====
-- Every way in which code under the lifecycle lock can go.
use openshmem_rs.Prelude.{Option, none, some, ◌≡◌, refl, Bool, true, false}
use openshmem_rs.Error.{Result, err, not_initialized}
use openshmem_rs.Lock.{after}
use openshmem_rs.World.{History}
use openshmem_rs.World.Loop.{Loop}
use openshmem_rs.Init.State.{ShmemState, Process, Global, poisoned_state, unlocked}
use openshmem_rs.Init.Locked.{with_state_loop, locked_loop}

module _ {T : Type 0} where
  -- What a body that has ended leaves: the state that it read, and a lock that a panic has poisoned.
  abbrev pub leave : ShmemState → Result T × History → Result T × Global
  leave st (r, g) = after (r, record { state = some st; history = g })

  -- The result of a body on the state it finds. A poisoned lock is an error, and so is a process
  -- without a state; both change nothing. Else the body runs; what it returns is returned.
  pub data Held (Body : ShmemState → History → Option (Result T × History) → Type 0)
      : Global → Option (Result T × Global) → Type 0 where
    locked_out :
        {p : Process}
        → Held Body
            (record { poisoned = true; value = p })
            (some (err poisoned_state, record { poisoned = true; value = p }))
    uninitialised :
        {h : History} → Held Body (unlocked none h) (some (err not_initialized, unlocked none h))
    still_waiting :
        {st : ShmemState} {h : History} → Body st h none → Held Body (unlocked (some st) h) none
    left :
        {st : ShmemState} {h : History} {out : Result T × History}
        → Body st h (some out)
        → Held Body (unlocked (some st) h) (some (leave st out))

  body-Held :
      (Body : ShmemState → History → Option (Result T × History) → Type 0) (st : ShmemState)
      (h : History) (r : Option (Result T × History))
      → Body st h r
      → Held Body
          (unlocked (some st) h)
          (locked_loop (λ _ _. r) (some st) (record { state = some st; history = h }))
  unfolding locked_loop
  body-Held Body st h none holds = still_waiting holds
  body-Held Body st h (some out) holds = left holds

  pub with_state_loop-Held :
      (Body : ShmemState → History → Option (Result T × History) → Type 0)
      (operation : ShmemState → Loop T)
      → ((st : ShmemState) (h : History) → Body st h (operation st h))
      → (m : Global) → Held Body m (with_state_loop operation m)
  unfolding with_state_loop locked_loop
  with_state_loop-Held Body operation holds m = go m.poisoned m.value.state m.value.history
    where
      go :
          (poisoned : Bool) (state : Option ShmemState) (h : History)
          → Held Body
              (record { poisoned = poisoned; value = record { state = state; history = h } })
              (with_state_loop operation
                (record { poisoned = poisoned; value = record { state = state; history = h } }))
      go true state h = locked_out
      go false none h = uninitialised
      go false (some st) h = body-Held Body st h (operation st h) (holds st h)

  -- Code under the lock returns where its body does.
  pub Held-returns :
      {Body : ShmemState → History → Option (Result T × History) → Type 0} {m : Global}
      {r : Option (Result T × Global)}
      → ((st : ShmemState) (h : History) → Body st h none → ⊥)
      → Held Body m r
      → (out : Result T × Global) × (r ≡ some out)
  Held-returns ends locked_out = (_, refl)
  Held-returns ends uninitialised = (_, refl)
  Held-returns ends (still_waiting body) = absurd (ends _ _ body)
  Held-returns ends (left body) = (_, refl)
