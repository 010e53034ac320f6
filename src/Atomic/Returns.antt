-- ===== src/Atomic/Returns.antt =====
-- The atomic operations return: how many rounds are enough.
use openshmem_rs.Prelude.{ℕ, ◌≤◌, arith}
use openshmem_rs.World.{Services, Atomics, Amo, History}
use openshmem_rs.Prelude.{List, none}
use openshmem_rs.Init.State.{ShmemState, Global}
use openshmem_rs.Init.Held.{Held-returns}
use openshmem_rs.Rma.Complete.{Called-avoids, Prompt, Completes-Prompt}
use openshmem_rs.Rma.Replies.{PromptReplies, Replies-Prompt}
use openshmem_rs.Rma.Attempt.{Attempt-returns}
use openshmem_rs.Rma.Returns.{Returns}
use openshmem_rs.Atomic.{
  Width, family, unsigned, atomic_op, atomic_cswap, atomic_fetch, atomic_fcswap,
}
use openshmem_rs.Atomic.Calls.{Plain, Fetching, method, fetch_method}
use openshmem_rs.Atomic.Outcomes.{OpBody, atomic-OpBody, FetchBody, atomic-FetchBody}

module _ (s : Services) (a : Atomics) (limit rounds : ℕ) (enough : limit ≤ rounds) where
  op_returns :
      (size : ℕ) (amo : Amo) (operands : List ℕ) (pe offset : ℕ)
      → Prompt s limit
      → (st : ShmemState) (h : History) → OpBody s a rounds size amo operands pe offset st h none
      → ⊥
  op_returns size amo operands pe offset prompt st h =
      Attempt-returns
        λ peer. Called-avoids s (λ e g same. ground arith) (λ b g. Completes-Prompt s prompt enough)

  fetch_returns :
      (size : ℕ) (amo : Amo) (operands : List ℕ) (first pe offset : ℕ)
      → PromptReplies s limit
      → (st : ShmemState) (h : History)
      → FetchBody s a rounds size amo operands first pe offset st h none
      → ⊥
  fetch_returns size amo operands first pe offset prompt st h =
      Attempt-returns
        λ peer. Called-avoids s (λ e g same. ground arith) (λ b g. Replies-Prompt s prompt enough)

-- Where UCX answers every request within a number of rounds with completion or with a failure, and
-- reports every request with a reply finished or failed within that number of tests, it is enough rounds,
-- on any state of the process, for each operation on the unsigned type of either width: it returns.
pub atomics_return :
    (s : Services) (a : Atomics) (limit rounds : ℕ)
    → Prompt s limit
    → PromptReplies s limit
    → limit ≤ rounds
    → (w : Width) (pe offset x y : ℕ) (m : Global)
    → ((op : Plain)
        → Returns (
            atomic_op s a
              (unsigned a (family w))
              (method op (unsigned a (family w)))
              rounds
              pe
              offset
              x
              m))
      × Returns (atomic_cswap s a (unsigned a (family w)) rounds pe offset x y m)
      × ((op : Fetching)
          → Returns (
              atomic_fetch s a
                (unsigned a (family w))
                (fetch_method op (unsigned a (family w)))
                rounds
                pe
                offset
                x
                m))
      × Returns (atomic_fcswap s a (unsigned a (family w)) rounds pe offset x y m)
atomics_return s a limit rounds prompt replies enough w pe offset x y m =
    let (op, cswap) = atomic-OpBody s a rounds w pe offset m in
    let (fetch, fcswap) = atomic-FetchBody s a rounds w pe offset m in
    (
      λ o. Held-returns (op_returns s a limit rounds enough _ _ _ pe offset prompt) (op o x),
      Held-returns (op_returns s a limit rounds enough _ _ _ pe offset prompt) (cswap x y),
      λ o.
          Held-returns (fetch_returns s a limit rounds enough _ _ _ _ pe offset replies)
            (fetch o x),
      Held-returns (fetch_returns s a limit rounds enough _ _ _ _ pe offset replies) (fcswap x y),
    )
