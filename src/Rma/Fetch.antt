-- ===== src/Rma/Fetch.antt =====
-- The loop that drives the worker until a request with a reply is finished.
use openshmem_rs.Prelude.{
  ℕ, zero, suc, ◌<◌, ◌≡◌, ◌≢◌, ◌∷◌, Outcome, done, failed, some, Bool, true, false, arith,
  Outcome-cases, inl, inr,
}
use openshmem_rs.Error.{Result, ok, err}
use openshmem_rs.Error.Convert.{from_ucx}
use openshmem_rs.World.{Services, History, checked, progressed, freed}
use openshmem_rs.Rma.{complete_fetch}

-- The history after `n` more tests of the request, each with a round of progress.
unfoldable pub after_checks : ℕ → ℕ → History → History
after_checks zero request h = h
after_checks (suc n) request h = after_checks n request (progressed ∷ checked request ∷ h)

module _ (s : Services) (request : ℕ) where
  abbrev pub state : History → Outcome Bool
  state h = s.ucx.check_finished h request

  -- How the loop ends on the last answer: a request that has failed is not freed.
  abbrev pub ended : Outcome Bool → History → Result (Unit {0}) × History
  ended (done b) h = (ok tt, freed request ∷ checked request ∷ h)
  ended (failed status) h = (err (from_ucx s.statuses status), checked request ∷ h)

  -- Where UCX reports the request unfinished in the first `n` tests, and finished or failed in the
  -- next, `complete_fetch` has driven the worker `n` times and returns just that, for any number of
  -- rounds over `n`.
  pub complete_fetch_lem :
      (n rounds : ℕ) (h : History)
      → n < rounds
      → ((k : ℕ) → k < n → state (after_checks k request h) ≡ done false)
      → state (after_checks n request h) ≢ done false
      → complete_fetch s rounds request h
        ≡ some (ended (state (after_checks n request h)) (after_checks n request h))
  unfolding complete_fetch after_checks
  complete_fetch_lem n zero h enough busy last = absurd (omega arith)
  complete_fetch_lem zero (suc rounds) h enough busy last = elim (Outcome-cases (state h)) [
    | inl (true, now) ↦ rw (now, complete_fetch)
    | inl (false, later) ↦ absurd (last later)
    | inr (status, broken) ↦ rw (broken, complete_fetch)
  ]
  complete_fetch_lem (suc n) (suc rounds) h enough busy last =
      rw (busy 0 (omega arith), complete_fetch)
        (complete_fetch_lem n rounds (progressed ∷ checked request ∷ h) (omega arith)
          (λ k small. busy (suc k) (omega arith)) last)

  -- A request that is complete was tested, with progress between the tests, until UCX reported it
  -- finished, and then freed.
  abbrev pub Finished : History → History → Type 0
  Finished h g =
      (n : ℕ) × (g ≡ freed request ∷ checked request ∷ after_checks n request h)
      × (state (after_checks n request h) ≡ done true)

  pub complete_fetch-Finished :
      (rounds : ℕ) (h g : History)
      → complete_fetch s rounds request h ≡ some (ok tt, g)
      → Finished h g
  unfolding complete_fetch after_checks
  complete_fetch-Finished zero h g e = absurd (ground arith)
  complete_fetch-Finished (suc rounds) h g e = elim (Outcome-cases (state h)) [
    | inl (true, now) ↦ (0, ground arith, now)
    | inl (false, later) ↦
        let rest : complete_fetch s rounds request (progressed ∷ checked request ∷ h)
            ≡ some (ok tt, g) =
          ground arith in
        let (n, same, last) =
          complete_fetch-Finished rounds (progressed ∷ checked request ∷ h) g rest in
        (suc n, same, last)
    | inr (status, broken) ↦ absurd (ground arith)
  ]
