-- ===== src/Coll/Requests.antt =====
-- The collectives return, those that wait and those that are waited for.
use mathlib.Core.Path.{subst}
use openshmem_rs.Prelude.{
  ℕ, zero, suc, ◌<◌, ◌≤◌, ◌≡◌, ◌≢◌, refl, ◌∷◌, List, Option, none, some, sym, ap, Bool, true, false,
  inl, inr, arith, Bool-cases, Option-cases, Outcome-cases, ◌==◌,
}
use openshmem_rs.Error.{Result, ok, err, panic}
use openshmem_rs.World.{Collectives, History, ucc_progressed}
use openshmem_rs.Pod.{Endian, Scalar}
use openshmem_rs.World.Ucc.{UccReductionOp}
use openshmem_rs.Init.State.{Global}
use openshmem_rs.Rma.Returns.{Returns}
use openshmem_rs.Coll
use openshmem_rs.Coll.Wait.{status, after_progress}
use openshmem_rs.Coll.Returns.{Progresses, blocking_return}
use openshmem_rs.Coll.Request.{
  CollectiveRequest, Destination, decode_to, written, read_last, copy_back, finish, test_op, test,
  poll_again, wait,
}

abbrev Polled : Type 0
Polled = Result Bool × (CollectiveRequest × History)

abbrev pub HasEnded : Option (Result (Unit {0}) × (CollectiveRequest × History)) → Type 0
HasEnded r = (out : Result (Unit {0}) × (CollectiveRequest × History)) × (r ≡ some out)

module _ (u : Collectives) (order : Endian) where
  written-done :
      (d : Result Destination) (r : CollectiveRequest × History) → (written order d r).0 ≢ ok false
  written-done (ok d) r e = ground arith
  written-done (err x) r e = ground arith
  written-done panic r e = ground arith

  read-done :
      (d : Destination) (bytes : Option (List ℕ)) (r : CollectiveRequest × History)
      → (read_last order d bytes r).0 ≢ ok false
  read-done d none r e = ground arith
  read-done d (some bytes) r e = written-done (decode_to order bytes d) r e

  copy-done :
      (d : Option Destination) (r : CollectiveRequest × History)
      → (copy_back order d r).0 ≢ ok false
  unfolding copy_back
  copy-done none r e = ground arith
  copy-done (some d) r e = read-done d _ r e

  -- The end of an operation is not a reason to poll again.
  finish-done :
      (op : ℕ) (request : CollectiveRequest) (h : History)
      → (finish u order op (request, h)).0 ≢ ok false
  unfolding finish
  finish-done op request h e = elim (Outcome-cases (u.finalize h op)) [
    | inl (x, good) ↦ copy-done request.destination _ (rw (good, finish) at e)
    | inr (code, bad) ↦ absurd (ground arith)
  ]

  Polled-Returns :
      (again : CollectiveRequest × History
        → Option (Result (Unit {0}) × (CollectiveRequest × History)))
      (r : Polled)
      → r.0 ≢ ok false
      → HasEnded (poll_again u order again r)
  Polled-Returns again (ok true, r) over = (_, refl)
  Polled-Returns again (ok false, r) over = absurd (over refl)
  Polled-Returns again (err e, r) over = (_, refl)
  Polled-Returns again (panic, r) over = (_, refl)

  polled :
      (n op : ℕ) (request : CollectiveRequest) (h : History) (rounds : ℕ)
      → n < suc rounds
      → status u request.context op (after_progress n request.context h) ≢ u.ucc_err_no_message
      → ((k : ℕ)
          → k < rounds
          → status u request.context op
              (after_progress k request.context (ucc_progressed request.context ∷ h))
            ≢ u.ucc_err_no_message
          → HasEnded (wait u order rounds (request, ucc_progressed request.context ∷ h)))
      → HasEnded (poll_again u order (wait u order rounds) (test_op u order (some op) (request, h)))
  unfolding test_op after_progress
  polled n op request h rounds enough last again =
      elim (Bool-cases (u.request_status h op == u.ucc_err_no_message)) [
        | inl pending ↦ rw (pending, test_op) (later n enough last pending again)
        | inr other ↦ elim (Bool-cases (u.request_status h op == u.ucc_ok)) [
          | inl done ↦ rw (other, done, test_op) (Polled-Returns _ _ (finish-done op request h))
          | inr failed ↦ rw (other, failed, test_op) (_, refl)
        ]
      ]
    where
      later :
          (n : ℕ)
          → n < suc rounds
          → status u request.context op (after_progress n request.context h) ≢ u.ucc_err_no_message
          → (u.request_status h op == u.ucc_err_no_message) ≡ true
          → ((k : ℕ)
              → k < rounds
              → status u request.context op
                  (after_progress k request.context (ucc_progressed request.context ∷ h))
                ≢ u.ucc_err_no_message
              → HasEnded (wait u order rounds (request, ucc_progressed request.context ∷ h)))
          → HasEnded (wait u order rounds (request, ucc_progressed request.context ∷ h))
      later zero enough last pending again = absurd (last (ground arith))
      later (suc n) enough last pending again = again n (omega arith) last

  polls :
      (rounds n op : ℕ) (request : CollectiveRequest) (h : History)
      → request.op ≡ some op
      → n < rounds
      → status u request.context op (after_progress n request.context h) ≢ u.ucc_err_no_message
      → HasEnded (wait u order rounds (request, h))
  unfolding wait test after_progress
  polls zero n op request h posted enough last = absurd (omega arith)
  polls (suc rounds) n op request h posted enough last =
      let tested : test u order (request, h) ≡ test_op u order (some op) (request, h) =
        ap (λ o. test_op u order o (request, h)) posted in
      subst (λ r. HasEnded (poll_again u order (wait u order rounds) r)) (sym tested)
        (polled n op request h rounds enough last
          (λ k small. polls rounds k op request (ucc_progressed request.context ∷ h) posted small))

  request_wait-Returns :
      (limit rounds : ℕ)
      → Progresses u limit
      → limit ≤ rounds
      → (request : CollectiveRequest) (h : History) → HasEnded (wait u order rounds (request, h))
  unfolding wait test test_op
  request_wait-Returns limit zero progresses enough request h =
      let (n, small, last) = progresses 0 0 h in absurd (omega arith)
  request_wait-Returns limit (suc rounds) progresses enough request h =
      elim (Option-cases request.op) [
        | inr (op, posted) ↦
            let (n, small, last) = progresses request.context op h in
            polls (suc rounds) n op request h posted (omega arith) last
        | inl over ↦
            let tested : test u order (request, h) ≡ test_op u order none (request, h) =
              ap (λ o. test_op u order o (request, h)) over in
            subst (λ r. HasEnded (poll_again u order (wait u order rounds) r)) (sym tested)
              (_, refl)
      ]

-- Where UCC reports of every operation another status than that there is no message within a number of
-- rounds of progress, that many rounds are enough, whatever else UCC answers: each collective that waits
-- returns, on any state of the process, and so does the `wait` of any request, one with an operation or
-- one that has none any more.
pub collectives_return :
    (u : Collectives) (limit rounds : ℕ)
    → Progresses u limit
    → limit ≤ rounds
    → (order : Endian) (ty : Scalar) (op : UccReductionOp) (root : ℕ) (values : List ℕ) (m : Global)
      (request : CollectiveRequest) (h : History)
    → Returns (Coll.barrier u rounds m)
      × Returns (Coll.broadcast u rounds order ty root values m)
      × Returns (Coll.reduce u rounds order ty op values m)
      × Returns (Coll.collect u rounds order ty values m)
      × HasEnded (wait u order rounds (request, h))
collectives_return u limit rounds progresses enough order ty op root values m request h =
    let (barriers, broadcasts, reduces, collects) =
      blocking_return u limit rounds progresses enough order ty op root values m in
    (
      barriers,
      broadcasts,
      reduces,
      collects,
      request_wait-Returns u order limit rounds progresses enough request h,
    )
