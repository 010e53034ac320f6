-- ===== src/Init/Locked.antt =====
-- `with_state` of code with a loop.
use mathlib.Core.Path.{subst}
use openshmem_rs.Prelude.{
  ◌≡◌, refl, sym, ap, ◌∙◌, Option, none, some, Bool, true, false, inl, inr, arith, Option-cases,
}
use openshmem_rs.Error.{not_initialized, Result, ok, err, panic}
use openshmem_rs.Lock.{after}
use openshmem_rs.World.{History}
use openshmem_rs.World.Loop.{Loop, Ends, Ends-ok, map_run}
use openshmem_rs.Init.State.{ShmemState, Process, Global, poisoned_state, unlocked}

module _ {T : Type 0} where
  unfoldable pub locked_loop :
      (ShmemState → Loop T) → Option ShmemState → Process → Option (Result T × Global)
  locked_loop operation none p = some (after (err not_initialized, p))
  locked_loop operation (some st) p = elim (operation st p.history) [
    | none ↦ none
    | some out ↦ some (after (out.0, record p { history = out.1 }))
  ]

  -- `with_state` of code with a loop.
  unfoldable pub with_state_loop : (ShmemState → Loop T) → Global → Option (Result T × Global)
  unfolding locked_loop
  with_state_loop operation m = elim m.poisoned [
    | true ↦ some (err poisoned_state, m)
    | false ↦ locked_loop operation m.value.state m.value
  ]

left_behind :
    {T : Type 0} (st : ShmemState) (r : Result T × History) (m' : Global) (a : T)
    → some (after (r.0, record { state = some st; history = r.1 })) ≡ some (ok a, m')
    → (g : History) × (some r ≡ some (ok a, g)) × (m' ≡ unlocked (some st) g)
left_behind st (ok b, g) m' a e =
    let same : b ≡ a = ground arith in (g, ap (λ x. some (ok x, g)) same, ground arith)
left_behind st (err x, g) m' a e = absurd (ground arith)
left_behind st (panic, g) m' a e = absurd (ground arith)

-- Code under the lock that returns has found a free lock and a state, and has left both.
pub with_state_loop-inv :
    {T : Type 0} (operation : ShmemState → Loop T) (m m' : Global) {a : T}
    → with_state_loop operation m ≡ some (ok a, m')
    → (st : ShmemState) × (h g : History) × (m ≡ unlocked (some st) h)
      × (operation st h ≡ some (ok a, g))
      × (m' ≡ unlocked (some st) g)
unfolding with_state_loop locked_loop
with_state_loop-inv {T = T} operation m m' e = go m.poisoned m.value.state m.value.history e
  where
    go :
        {a : T} (poisoned : Bool) (state : Option ShmemState) (h : History)
        → with_state_loop operation
            (record { poisoned = poisoned; value = record { state = state; history = h } })
          ≡ some (ok a, m')
        → (st : ShmemState) × (f g : History) × (record {
          poisoned = poisoned;
          value = record { state = state; history = h };
        }
            ≡ unlocked (some st) f)
          × (operation st f ≡ some (ok a, g))
          × (m' ≡ unlocked (some st) g)
    go true state h e = absurd (ground arith)
    go false none h e = absurd (ground arith)
    go false (some st) h e = elim (Option-cases (operation st h)) [
      | inr (r, some_run) ↦
          let (g, run, left) = left_behind st r m' _ (ground arith) in
          (st, h, g, refl, some_run ∙ run, left)
      | inl no_run ↦ absurd (ground arith)
    ]

same_running :
    (st t : ShmemState) (h g : History)
    → unlocked (some st) h ≡ unlocked (some t) g
    → (st ≡ t) × (h ≡ g)
same_running st t h g e = (ground arith, λ i. (e i).value.history)

-- The same on a process that is known to run.
pub with_state_loop-running :
    {T : Type 0} (operation : ShmemState → Loop T) (st : ShmemState) (h : History) (m' : Global)
    {a : T}
    → with_state_loop operation (unlocked (some st) h) ≡ some (ok a, m')
    → (g : History) × (operation st h ≡ some (ok a, g)) × (m' ≡ unlocked (some st) g)
with_state_loop-running operation st h m' {a = a} e =
    let (t, k, g, before, run, left) = with_state_loop-inv operation (unlocked (some st) h) m' e in
    let (same, calls) = same_running st t h k before in
    (
      g,
      subst (λ q. operation q h ≡ some (ok a, g)) (sym same)
          (subst (λ q. operation t q ≡ some (ok a, g)) (sym calls) run),
      left ∙ ap (λ q. unlocked (some q) g) (sym same),
    )

-- What holds of code that returns, whatever the state it finds, holds of it under the lock.
pub locked_Ends :
    {T : Type 0} (P : ShmemState → History → T → History → Type 0) (operation : ShmemState → Loop T)
    (m m' : Global) {a : T}
    → ((st : ShmemState) (h : History) → Ends (P st h) (operation st h))
    → with_state_loop operation m ≡ some (ok a, m')
    → (st : ShmemState) × (h g : History) × (m ≡ unlocked (some st) h)
      × P st h a g
      × (m' ≡ unlocked (some st) g)
locked_Ends P operation m m' holds e =
    let (st, h, g, before, run, left) = with_state_loop-inv operation m m' e in
    (st, h, g, before, Ends-ok (holds st h) run, left)

module _ {A B : Type 0} (f : A → B) where
  left-map_run :
      (r : Option (Result A × History)) (st : ShmemState) (p : Process)
      → locked_loop (λ _ _. map_run f r) (some st) p
        ≡ map_run f (locked_loop (λ _ _. r) (some st) p)
  unfolding locked_loop
  left-map_run none st p = refl
  left-map_run (some (ok a, h)) st p = refl
  left-map_run (some (err e, h)) st p = refl
  left-map_run (some (panic, h)) st p = refl

  -- Two bodies that differ by a conversion of the value do so under the lock.
  pub with_state_loop-map_run :
      (operation : ShmemState → Loop A) (converted : ShmemState → Loop B) (m : Global)
      → ((st : ShmemState) (h : History) → converted st h ≡ map_run f (operation st h))
      → with_state_loop converted m ≡ map_run f (with_state_loop operation m)
  unfolding with_state_loop locked_loop
  with_state_loop-map_run operation converted m same = go m.poisoned m.value.state m.value.history
    where
      go :
          (poisoned : Bool) (state : Option ShmemState) (h : History)
          → with_state_loop converted
              (record { poisoned = poisoned; value = record { state = state; history = h } })
            ≡ map_run f (
                with_state_loop operation
                  (record { poisoned = poisoned; value = record { state = state; history = h } }))
      go true state h = refl
      go false none h = refl
      go false (some st) h =
          ap (λ r. locked_loop (λ _ _. r) (some st) (record { state = some st; history = h }))
            (same st h)
          ∙ left-map_run (operation st h) st (record { state = some st; history = h })
