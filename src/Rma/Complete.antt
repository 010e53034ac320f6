-- ===== src/Rma/Complete.antt =====
-- Every way in which the completion of a call of UCX can go.
use mathlib.Core.Path.{subst}
use openshmem_rs.Prelude.{
  ℕ, zero, suc, ◌<◌, ◌≤◌, ◌≡◌, ◌≢◌, ◌⊎◌, ◌∷◌, refl, Option, none, some, Outcome, done, failed, Bool,
  true, false, inl, inr, arith, Bool-cases, Outcome-cases, ltb,
}
use openshmem_rs.Error.{Error, Result, ok, err, panic}
use openshmem_rs.Error.Convert.{from_ucx}
use openshmem_rs.World.{Services, History, Event, call, freed, waited}
use openshmem_rs.World.Loop.{Loop, then_loop, and_loop}
use openshmem_rs.Transport.{UcxTransport}
use openshmem_rs.Rma.{wait_request, complete_request}
use openshmem_rs.Rma.Wait.{answer, after_rounds, wait_request_lem}

-- The first `n` answers are that the request is incomplete.
abbrev pub Busy : (ℕ → Outcome Bool) → ℕ → Type 0
Busy answers n = (k : ℕ) → k < n → answers k ≡ done false

-- An answer other than that.
abbrev pub Settled : Outcome Bool → Type 0
Settled o = (o ≡ done true) ⊎ ((status : ℕ) × (o ≡ failed status))

pub Settled-busy : (o : Outcome Bool) → o ≡ done false → Settled o → ⊥
Settled-busy o busy (inl now) = ground arith
Settled-busy o busy (inr (status, now)) = ground arith

Busy-longer :
    (answers : ℕ → Outcome Bool) (n : ℕ)
    → Busy answers n
    → answers n ≡ done false
    → Busy answers (suc n)
Busy-longer answers n busy last k small = elim (Bool-cases (ltb k n)) [
  | inl less ↦ busy k (ground arith)
  | inr equal ↦ let same : n ≡ k = ground arith in subst (λ x. answers x ≡ done false) same last
]

-- In a number of rounds, all answers are that the request is incomplete, or there is a first other one.
pub first-Settled :
    (answers : ℕ → Outcome Bool) (rounds : ℕ)
    → Busy answers rounds ⊎ ((n : ℕ) × (n < rounds) × Busy answers n × Settled (answers n))
first-Settled answers zero = inl (λ k small. absurd (omega arith))
first-Settled answers (suc rounds) = elim (first-Settled answers rounds) [
  | inr (n, small, busy, last) ↦ inr (n, omega arith, busy, last)
  | inl busy ↦ elim (Outcome-cases (answers rounds)) [
    | inl (true, now) ↦ inr (rounds, omega arith, busy, inl now)
    | inl (false, later) ↦ inl (Busy-longer answers rounds busy later)
    | inr broken ↦ inr (rounds, omega arith, busy, inr broken)
  ]
]

module _ (s : Services) where
  -- The answers to one request, each of the next rounds.
  abbrev pub answers : UcxTransport → ℕ → History → ℕ → Outcome Bool
  answers t request h k = answer s t request (after_rounds k request h)

  -- The completion of what a call has returned, in a number of rounds, and then a value that is read
  -- when it is complete: there was no request; or UCX has reported the request complete, and it was
  -- freed; or UCX has reported a failure; or all rounds have passed.
  pub data Completes {A : Type 0} (rounds : ℕ) (t : UcxTransport) (give : History → A)
      : Option ℕ → History → Option (Result A × History) → Type 0 where
    at_once : {h : History} → Completes rounds t give none h (some (ok (give h), h))
    completed :
        {request : ℕ} {h : History} (n : ℕ)
        → n < rounds
        → Busy (answers t request h) n
        → answers t request h n ≡ done true
        → Completes rounds t give (some request) h (
            some (
              ok (give (freed request ∷ after_rounds (suc n) request h)),
              freed request ∷ after_rounds (suc n) request h,
            ))
    broken :
        {request : ℕ} {h : History} (n status : ℕ)
        → n < rounds
        → Busy (answers t request h) n
        → answers t request h n ≡ failed status
        → Completes rounds t give
            (some request)
            h
            (some (err (from_ucx s.statuses status), after_rounds (suc n) request h))
    waiting :
        {request : ℕ} {h : History}
        → Busy (answers t request h) rounds
        → Completes rounds t give (some request) h none

  module _ (t : UcxTransport) (request : ℕ) where
    wait_request-waiting :
        (rounds : ℕ) (h : History)
        → Busy (answers t request h) rounds
        → wait_request s rounds t request h ≡ none
    unfolding wait_request after_rounds
    wait_request-waiting zero h busy = refl
    wait_request-waiting (suc rounds) h busy =
        rw (busy 0 (omega arith), wait_request)
          (wait_request-waiting rounds (waited request ∷ h) λ k small. busy (suc k) (omega arith))

  pub complete_request-Completes :
      {A : Type 0} (rounds : ℕ) (t : UcxTransport) (give : History → A) (request : Option ℕ)
      (h : History)
      → Completes rounds t give request h
          (and_loop (complete_request s rounds t request h) λ _ g. some (ok (give g), g))
  unfolding complete_request and_loop
  complete_request-Completes rounds t give none h = at_once
  complete_request-Completes rounds t give (some request) h =
      elim (first-Settled (answers t request h) rounds) [
        | inl busy ↦ rw (wait_request-waiting t request rounds h busy) (waiting busy)
        | inr (n, small, busy, inl now) ↦
            rw
              (wait_request_lem s t request n rounds h small busy (λ e. absurd (ground arith)), now)
              (completed n small busy now)
        | inr (n, small, busy, inr (status, now)) ↦
            rw
              (wait_request_lem s t request n rounds h small busy (λ e. absurd (ground arith)), now)
              (broken n status small busy now)
      ]

  plain : (r : Option (Result (Unit {0}) × History)) → and_loop r (λ _ g. some (ok tt, g)) ≡ r
  unfolding and_loop then_loop
  plain none = refl
  plain (some (ok a, g)) = refl
  plain (some (err e, g)) = refl
  plain (some (panic, g)) = refl

  pub complete_request-Completes_plain :
      (rounds : ℕ) (t : UcxTransport) (request : Option ℕ) (h : History)
      → Completes rounds t (λ _. tt) request h (complete_request s rounds t request h)
  complete_request-Completes_plain rounds t request h =
      subst (Completes rounds t (λ _. tt) request h) (plain (complete_request s rounds t request h))
        (complete_request-Completes rounds t (λ _. tt) request h)

  -- A call of UCX: its status is the error, or the rest is run on what it has returned.
  pub data Called {A B : Type 0} (made : Event) (o : Outcome B)
      (Rest : B → History → Option (Result A × History) → Type 0) (h : History)
      : Option (Result A × History) → Type 0 where
    rejected :
        (status : ℕ)
        → o ≡ failed status
        → Called made o Rest h (some (err (from_ucx s.statuses status), made ∷ h))
    accepted :
        {r : Option (Result A × History)} (b : B)
        → o ≡ done b
        → Rest b (made ∷ h) r
        → Called made o Rest h r

  pub call-Called :
      {A B : Type 0} (made : Event) (o : Outcome B)
      (Rest : B → History → Option (Result A × History) → Type 0) (h : History) (rest : B → Loop A)
      → ((b : B) (g : History) → Rest b g (rest b g))
      → Called made o Rest h (then_loop (call made (λ _. o) (from_ucx s.statuses) h) rest)
  unfolding then_loop
  call-Called made (done b) Rest h rest holds = accepted b refl (holds b (made ∷ h))
  call-Called made (failed status) Rest h rest holds = rejected status refl

  pub Completes-calm :
      {A : Type 0} {rounds : ℕ} {t : UcxTransport} {give : History → A} {request : Option ℕ}
      {h : History} {r : Option (Result A × History)} (g : History)
      → Completes rounds t give request h r
      → r ≢ some (panic, g)
  Completes-calm g at_once e = ground arith
  Completes-calm g (completed n small busy now) e = ground arith
  Completes-calm g (broken n status small busy now) e = ground arith
  Completes-calm g (waiting busy) e = ground arith

  -- What the rest never is, and no error is, the call with the rest never is.
  pub Called-avoids :
      {A B : Type 0} {made : Event} {o : Outcome B}
      {Rest : B → History → Option (Result A × History) → Type 0} {h : History}
      {r : Option (Result A × History)}
      → ((e : Error) (g : History) → r ≢ some (err e, g))
      → ((b : B) (g : History) → Rest b g r → ⊥)
      → Called made o Rest h r
      → ⊥
  Called-avoids fine avoids (rejected status now) = fine _ _ refl
  Called-avoids fine avoids (accepted b now rest) = avoids b _ rest

  -- UCX answers every request, whatever was called before, otherwise than that it is incomplete, within
  -- `limit` rounds.
  abbrev pub Prompt : ℕ → Type 0
  Prompt limit =
      (t : UcxTransport) (request : ℕ) (h : History)
      → (n : ℕ) × (n < limit) × Settled (answers t request h n)

  pub Completes-Prompt :
      {A : Type 0} {limit rounds : ℕ} {t : UcxTransport} {give : History → A} {request : Option ℕ}
      {h : History}
      → Prompt limit
      → limit ≤ rounds
      → Completes rounds t give request h none
      → ⊥
  Completes-Prompt {request = none} prompt enough c = elim c [ ]
  Completes-Prompt {t = t} {request = some request} {h = h} prompt enough (waiting busy) =
      let (n, small, last) = prompt t request h in
      Settled-busy (answers t request h n) (busy n (omega arith)) last
