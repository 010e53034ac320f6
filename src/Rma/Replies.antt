-- ===== src/Rma/Replies.antt =====
-- Every way in which a request with a reply can go.
use openshmem_rs.Prelude.{
  ℕ, zero, suc, ◌<◌, ◌≤◌, ◌≡◌, refl, ◌∷◌, Option, none, some, Outcome, done, failed, Bool, true,
  inl, inr, arith,
}
use openshmem_rs.Error.{Result, ok, err}
use openshmem_rs.Error.Convert.{from_ucx}
use openshmem_rs.World.{Services, History, freed, checked, progressed}
use openshmem_rs.World.Loop.{then_loop, and_loop}
use openshmem_rs.Rma.{complete_fetch}
use openshmem_rs.Rma.Fetch.{after_checks, state, complete_fetch_lem}
use openshmem_rs.Rma.Complete.{Busy, Settled, first-Settled, Settled-busy}

module _ (s : Services) where
  -- What UCX reports of a request in each of the next tests.
  abbrev pub states : ℕ → History → ℕ → Outcome Bool
  states request h k = state s request (after_checks k request h)

  -- A request with a reply, in a number of rounds: UCX has reported it finished, and it was freed and its
  -- reply read; or UCX has reported a failure; or all rounds have passed.
  pub data Replies {A : Type 0} (rounds : ℕ) (give : History → A) (request : ℕ) (h : History)
      : Option (Result A × History) → Type 0 where
    finished :
        (n : ℕ)
        → n < rounds
        → Busy (states request h) n
        → states request h n ≡ done true
        → Replies rounds give request h (
            some (
              ok (give (freed request ∷ checked request ∷ after_checks n request h)),
              freed request ∷ checked request ∷ after_checks n request h,
            ))
    fetch_failed :
        (n status : ℕ)
        → n < rounds
        → Busy (states request h) n
        → states request h n ≡ failed status
        → Replies rounds give request h
            (some (err (from_ucx s.statuses status), checked request ∷ after_checks n request h))
    unfinished : Busy (states request h) rounds → Replies rounds give request h none

  complete_fetch-unfinished :
      (rounds request : ℕ) (h : History)
      → Busy (states request h) rounds
      → complete_fetch s rounds request h ≡ none
  unfolding complete_fetch after_checks
  complete_fetch-unfinished zero request h busy = refl
  complete_fetch-unfinished (suc rounds) request h busy =
      rw (busy 0 (omega arith), complete_fetch)
        (complete_fetch-unfinished rounds request (progressed ∷ checked request ∷ h)
          λ k small. busy (suc k) (omega arith))

  pub complete_fetch-Replies :
      {A : Type 0} (rounds : ℕ) (give : History → A) (request : ℕ) (h : History)
      → Replies rounds give request h
          (and_loop (complete_fetch s rounds request h) λ _ g. some (ok (give g), g))
  unfolding and_loop then_loop
  complete_fetch-Replies rounds give request h = elim (first-Settled (states request h) rounds) [
    | inl busy ↦ rw (complete_fetch-unfinished rounds request h busy) (unfinished busy)
    | inr (n, small, busy, inl now) ↦
        rw (complete_fetch_lem s request n rounds h small busy (λ e. absurd (ground arith)), now)
          (finished n small busy now)
    | inr (n, small, busy, inr (status, now)) ↦
        rw (complete_fetch_lem s request n rounds h small busy (λ e. absurd (ground arith)), now)
          (fetch_failed n status small busy now)
  ]

  -- UCX reports every request, whatever was called before, finished or failed within `limit` tests.
  abbrev pub PromptReplies : ℕ → Type 0
  PromptReplies limit =
      (request : ℕ) (h : History) → (n : ℕ) × (n < limit) × Settled (states request h n)

  pub Replies-Prompt :
      {A : Type 0} {limit rounds : ℕ} {give : History → A} {request : ℕ} {h : History}
      → PromptReplies limit
      → limit ≤ rounds
      → Replies rounds give request h none
      → ⊥
  Replies-Prompt {request = request} {h = h} prompt enough (unfinished busy) =
      let (n, small, last) = prompt request h in
      Settled-busy (states request h n) (busy n (omega arith)) last
