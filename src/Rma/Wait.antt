-- ===== src/Rma/Wait.antt =====
-- The loops that wait for UCX.
use mathlib.Core.Path.{subst}
use openshmem_rs.Prelude.{
  sym, ℕ, zero, suc, ◌<◌, ◌≡◌, ◌∷◌, Outcome, done, failed, none, some, Bool, true, false, arith,
  Outcome-cases, inl, inr, ◌≢◌, ◌⊎◌, Option,
}
use openshmem_rs.Error.{Result, ok, err}
use openshmem_rs.Error.Convert.{from_ucx}
use openshmem_rs.World.{Services, History, Event, waited, freed, call}
use openshmem_rs.Transport.{UcxTransport}
use openshmem_rs.World.Loop.{then_loop, then_loop-inv, and_loop-inv}
use openshmem_rs.World.Post.{map_err-done}
use openshmem_rs.Rma.{wait_request, complete_request}

-- The history after `n` more rounds of waiting.
unfoldable pub after_rounds : ℕ → ℕ → History → History
after_rounds zero request h = h
after_rounds (suc n) request h = after_rounds n request (waited request ∷ h)

module _ (s : Services) where
  -- What `wait_request` returns on the last answer.
  abbrev pub settle : Outcome Bool → Result (Unit {0})
  settle (done b) = ok tt
  settle (failed status) = err (from_ucx s.statuses status)

  module _ (t : UcxTransport) (request : ℕ) where
    abbrev pub answer : History → Outcome Bool
    answer h = s.ucx.wait_request h t.worker request

    -- Where UCX reports the request incomplete in the first `n` calls, and completion or a failure in
    -- the next, `wait_request` returns just that after `n + 1` calls, for any number of rounds over `n`.
    pub wait_request_lem :
        (n rounds : ℕ) (h : History)
        → n < rounds
        → ((k : ℕ) → k < n → answer (after_rounds k request h) ≡ done false)
        → answer (after_rounds n request h) ≢ done false
        → wait_request s rounds t request h
          ≡ some (settle (answer (after_rounds n request h)), after_rounds (suc n) request h)
    unfolding wait_request after_rounds
    wait_request_lem n zero h enough busy last = absurd (omega arith)
    wait_request_lem zero (suc rounds) h enough busy last = elim (Outcome-cases (answer h)) [
      | inl (true, now) ↦ rw (now, wait_request)
      | inl (false, later) ↦ absurd (last later)
      | inr (status, broken) ↦ rw (broken, wait_request)
    ]
    wait_request_lem (suc n) (suc rounds) h enough busy last =
        rw (busy 0 (omega arith), wait_request)
          (wait_request_lem n rounds (waited request ∷ h) (omega arith)
            (λ k small. busy (suc k) (omega arith)) last)

    -- A wait that returns has made some calls, and in the last UCX has reported completion.
    abbrev pub Waited : History → History → Type 0
    Waited h g =
        (n : ℕ) × (g ≡ after_rounds (suc n) request h)
        × (answer (after_rounds n request h) ≡ done true)

    pub wait_request-Waited :
        (rounds : ℕ) (h g : History)
        → wait_request s rounds t request h ≡ some (ok tt, g)
        → Waited h g
    unfolding wait_request after_rounds
    wait_request-Waited zero h g e = absurd (ground arith)
    wait_request-Waited (suc rounds) h g e = elim (Outcome-cases (answer h)) [
      | inl (true, now) ↦ (0, ground arith, now)
      | inl (false, later) ↦
          let rest : wait_request s rounds t request (waited request ∷ h) ≡ some (ok tt, g) =
            ground arith in
          let (n, same, last) = wait_request-Waited rounds (waited request ∷ h) g rest in
          (suc n, same, last)
      | inr (status, broken) ↦ absurd (ground arith)
    ]

  -- What follows a call that has put `h` on the history: it was complete at once, or it has left a
  -- request that was waited for until UCX reported completion, and freed.
  abbrev pub Completed : UcxTransport → History → History → Type 0
  Completed t h g =
      (g ≡ h) ⊎ ((request : ℕ) × (f : History) × Waited t request h f × (g ≡ freed request ∷ f))

  pub complete_request-Completed :
      (rounds : ℕ) (t : UcxTransport) (request : Option ℕ) (h g : History)
      → complete_request s rounds t request h ≡ some (ok tt, g)
      → Completed t h g
  unfolding complete_request
  complete_request-Completed rounds t none h g e = inl (ground arith)
  complete_request-Completed rounds t (some request) h g e =
      let (_, f, waits, rest) = and_loop-inv _ _ g e in
      inr (request, f, wait_request-Waited t request rounds h f waits, ground arith)

  -- A call of UCX that went through: it was complete at once, or it has left a request that was waited
  -- for until UCX reported completion, and freed.
  abbrev pub Carried : UcxTransport → Event → Outcome (Option ℕ) → History → History → Type 0
  Carried t made o h g =
      ((o ≡ done none) × (g ≡ made ∷ h))
      ⊎ ((request : ℕ) × (o ≡ done (some request))
          × (f : History) × Waited t request (made ∷ h) f
          × (g ≡ freed request ∷ f))

  pub Carried-Completed :
      (t : UcxTransport) (made : Event) (o : Outcome (Option ℕ)) (h g : History)
      → Carried t made o h g
      → Completed t (made ∷ h) g
  Carried-Completed t made o h g (inl (now, same)) = inl same
  Carried-Completed t made o h g (inr (request, posted, f, waits, same)) =
      inr (request, f, waits, same)

  pub carried :
      (rounds : ℕ) (t : UcxTransport) (made : Event) (o : Outcome (Option ℕ)) (request : Option ℕ)
      (h f g : History)
      → o ≡ done request
      → made ∷ h ≡ f
      → complete_request s rounds t request f ≡ some (ok tt, g)
      → Carried t made o h g
  unfolding complete_request
  carried rounds t made o none h f g answered same e = inl (answered, ground arith)
  carried rounds t made o (some request) h f g answered same e =
      let (_, k, waits, rest) = and_loop-inv _ _ g e in
      inr (
        request,
        answered,
        k,
        subst (λ l. Waited t request l k) (sym same)
            (wait_request-Waited t request rounds f k waits),
        ground arith,
      )

  -- A call and its completion that return `Ok`.
  pub call-Carried :
      (rounds : ℕ) (t : UcxTransport) (made : Event) (answers : History → Outcome (Option ℕ))
      (h g : History)
      → then_loop (call made answers (from_ucx s.statuses) h) (complete_request s rounds t)
        ≡ some (ok tt, g)
      → Carried t made (answers h) h g
  call-Carried rounds t made answers h g e =
      let (request, f, answered, rest) = then_loop-inv _ (complete_request s rounds t) g e in
      carried rounds t made (answers h) request h f g
        (map_err-done (from_ucx s.statuses) (answers h) (λ i. (answered i).0)) (λ i. (answered i).1)
        rest
