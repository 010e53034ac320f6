-- ===== src/Coll/Wait.antt =====
-- The loop that waits for a collective.
use openshmem_rs.Prelude.{
  ℕ, zero, suc, ◌<◌, ◌≡◌, ◌≢◌, ◌∷◌, some, true, false, if◌then◌else◌, ◌==◌, arith, Bool-cases,
  Outcome-cases, inl, inr,
}
use openshmem_rs.Error.{Result, err, panic}
use openshmem_rs.Error.Convert.{map_err}
use openshmem_rs.World.{Collectives, History, collective_finalized, ucc_progressed}
use openshmem_rs.Init.{map_ucc}
use openshmem_rs.Coll.{wait}

-- The history after `n` rounds of progress.
unfoldable pub after_progress : ℕ → ℕ → History → History
after_progress zero context h = h
after_progress (suc n) context h = after_progress n context (ucc_progressed context ∷ h)

module _ (u : Collectives) (context op : ℕ) where
  abbrev pub status : History → ℕ
  status h = u.request_status h op

  -- How a wait ends on the last status.
  abbrev pub ended : History → Result (Unit {0}) × History
  ended h =
      if status h == u.ucc_ok
      then (map_err map_ucc (u.finalize h op), collective_finalized op ∷ h)
      else (err (map_ucc (status h)), h)

  -- Where the status is `UCC_ERR_NO_MESSAGE` for the first `n` rounds of progress and then is not,
  -- `wait` drives the context `n` times. Then it finalizes an operation whose status is `UCC_OK`, and
  -- returns any other status as an error, the operation unfinalized; so for any number of rounds over
  -- `n`.
  pub wait_lem :
      (n rounds : ℕ) (h : History)
      → n < rounds
      → u.ucc_ok ≢ u.ucc_err_no_message
      → ((k : ℕ) → k < n → status (after_progress k context h) ≡ u.ucc_err_no_message)
      → status (after_progress n context h) ≢ u.ucc_err_no_message
      → wait u rounds context op h ≡ some (ended (after_progress n context h))
  unfolding wait after_progress
  wait_lem n zero h enough apart busy last = absurd (omega arith)
  wait_lem zero (suc rounds) h enough apart busy last = elim (Bool-cases (status h == u.ucc_ok)) [
    | inl over ↦ rw (over, wait)
    | inr pending ↦
        let other : (status h == u.ucc_err_no_message) ≡ false = ground arith in
        rw (pending, other, wait)
  ]
  wait_lem (suc n) (suc rounds) h enough apart busy last =
      let now : status h ≡ u.ucc_err_no_message = busy 0 (omega arith) in
      let pending : (status h == u.ucc_ok) ≡ false = ground arith in
      let message : (status h == u.ucc_err_no_message) ≡ true = ground arith in
      rw (pending, message, wait)
        (wait_lem n rounds (ucc_progressed context ∷ h) (omega arith) apart
          (λ k small. busy (suc k) (omega arith)) last)

  pub wait-calm : (rounds : ℕ) (h g : History) → wait u rounds context op h ≢ some (panic, g)
  unfolding wait
  wait-calm zero h g e = absurd (ground arith)
  wait-calm (suc rounds) h g e = elim (Bool-cases (status h == u.ucc_ok)) [
    | inl over ↦ elim (Outcome-cases (u.finalize h op)) [
      | inl (x, good) ↦ absurd (ground arith)
      | inr (code, bad) ↦ absurd (ground arith)
    ]
    | inr pending ↦ elim (Bool-cases (status h == u.ucc_err_no_message)) [
      | inl message ↦ wait-calm rounds (ucc_progressed context ∷ h) g (ground arith)
      | inr other ↦ absurd (ground arith)
    ]
  ]
