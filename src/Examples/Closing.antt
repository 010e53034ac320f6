-- ===== src/Examples/Closing.antt =====
-- How the examples leave the process.
use mathlib.Core.Path.{subst}
use openshmem_rs.Prelude.{
  ℕ, zero, suc, ◌≡◌, ◌⊎◌, refl, sym, ◌∷◌, [], List, Option, none, some, Bool, false, inl, inr,
  arith, Bool-cases, ◌==◌, checked_mul, Option-cases,
}
use openshmem_rs.Error.{Error, Result, ok, err, panic, Exec, Result-cases, ◌>>=◌}
use openshmem_rs.Lock.{after, with_lock}
use openshmem_rs.World.{Services, History, disconnected}
use openshmem_rs.World.Loop.{Loop}
use openshmem_rs.Pod.{Endian, Scalar, u64, size_of, pod_as_bytes}
use openshmem_rs.SymHeap.Pointer.{offset_from}
use openshmem_rs.Init.{Setup, init, finalize, my_pe, n_pes, malloc, free, heap_base}
use openshmem_rs.Init.State.{
  ShmemState, Process, Global, unlocked, lock_state, with_state, with_state_mut,
}
use openshmem_rs.Init.Locked.{with_state_loop}
use openshmem_rs.Init.Held.{
  Held, locked_out, uninitialised, still_waiting, left, with_state_loop-Held,
}
use openshmem_rs.Init.Lifecycle.{finalize_clears}
use openshmem_rs.Rma.{putmem, getmem, fence, quiet_pe}
use openshmem_rs.Rma.Typed.{put, get}
use openshmem_rs.Examples.Program.{Program, plain, and_run}
use openshmem_rs.Examples.PingPutGet.{
  poll, ping, with_buffer, run, closed, main, is_value, value, target_pe,
}

-- A program has not ended, or a panic has ended it, or the lifecycle lock is free.
pub data IsSane {A : Type 0} : Option (Result A × Global) → Type 0 where
  unended : IsSane none
  crashed : {m : Global} → IsSane (some (panic, m))
  lock_free :
      {r : Result A} {p : Process} → IsSane (some (r, record { poisoned = false; value = p }))

abbrev pub unpoisoned : Process → Global
unpoisoned p = record { poisoned = false; value = p }

-- A program that is sane wherever the lock is free.
abbrev pub Sane : {A : Type 0} → Program A → Type 0
Sane program = (p : Process) → IsSane (program (unpoisoned p))

and_run-IsSane :
    {A B : Type 0} {r : Option (Result A × Global)} (k : A → Program B)
    → IsSane r
    → ((a : A) → Sane (k a))
    → IsSane (and_run r k)
unfolding and_run
and_run-IsSane k unended next = unended
and_run-IsSane k crashed next = crashed
and_run-IsSane k (lock_free {r = ok a} {p = p}) next = next a p
and_run-IsSane k (lock_free {r = err e}) next = lock_free
and_run-IsSane k (lock_free {r = panic}) next = crashed

after-IsSane : {A : Type 0} (r : Result A) (p : Process) → IsSane (some (after (r, p)))
after-IsSane (ok a) p = lock_free
after-IsSane (err e) p = lock_free
after-IsSane panic p = crashed

locked-Sane : {A : Type 0} (method : Exec Process A) → Sane (plain (lock_state method))
unfolding lock_state with_lock
locked-Sane method p = let (r, q) = method p in after-IsSane r q

Held-IsSane :
    {T : Type 0} {Body : ShmemState → History → Option (Result T × History) → Type 0} {m : Global}
    {r : Option (Result T × Global)}
    → Held Body m r
    → m.poisoned ≡ false
    → IsSane r
Held-IsSane locked_out e = absurd (ground arith)
Held-IsSane uninitialised e = lock_free
Held-IsSane (still_waiting body) e = unended
Held-IsSane (left {st = st} {out = (r, g)} body) e = after-IsSane r _

loop-Sane : {T : Type 0} (operation : ShmemState → Loop T) → Sane (with_state_loop operation)
loop-Sane operation p =
    Held-IsSane (with_state_loop-Held (λ st h r. Unit {0}) operation (λ st h. tt) (unpoisoned p))
      refl

module _ (s : Services) (order : Endian) (rounds : ℕ) where
  put-Sane :
      (ty : Scalar) (pe offset : ℕ) (values : List ℕ)
      → Sane (put s order rounds ty pe values offset)
  unfolding put putmem
  put-Sane ty pe offset values p = elim (Result-cases (pod_as_bytes order ty values)) [
    | inl (bytes, e) ↦ rw (e, put) (loop-Sane _ p)
    | inr (inl (e, failed)) ↦ rw (failed, put) lock_free
    | inr (inr crash) ↦ rw (crash, put) crashed
  ]

  decoded-IsSane :
      {A B : Type 0} (k : A → Result B) {r : Result A} {m : Global}
      → IsSane (some (r, m))
      → IsSane (some (r >>= k, m))
  decoded-IsSane k crashed = crashed
  decoded-IsSane k lock_free = lock_free

  got-IsSane :
      {A B : Type 0} (k : A → Result B) (r : Option (Result A × Global))
      → IsSane r
      → IsSane (elim r [ none ↦ none | some out ↦ some (out.0 >>= k, out.1) ])
  got-IsSane k none sane = unended
  got-IsSane k (some (r, m)) sane = decoded-IsSane k sane

  get-Sane : (ty : Scalar) (pe offset count : ℕ) → Sane (get s order rounds ty pe offset count)
  unfolding get getmem
  get-Sane ty pe offset count p = elim (Option-cases (checked_mul count (size_of ty))) [
    | inl over ↦ rw (over, get) lock_free
    | inr (len, fit) ↦ rw (fit, get) (got-IsSane _ _ (loop-Sane _ p))
  ]

module _ (s : Services) (order : Endian) (late : History → Bool) (rounds : ℕ) where
  poll-Sane : (polls rank offset : ℕ) → Sane (poll s order late rounds polls rank offset)
  unfolding poll
  poll-Sane zero rank offset p = unended
  poll-Sane (suc polls) rank offset p =
      and_run-IsSane _ (get-Sane s order rounds u64 rank _ 1 p) λ received q.
        elim (Bool-cases (is_value received)) [
          | inl same ↦ rw same lock_free
          | inr other ↦ elim (Bool-cases (late q.history)) [
            | inl over ↦ rw (other, over) lock_free
            | inr early ↦ rw (other, early) (poll-Sane polls rank offset q)
          ]
        ]

  ping-Sane : (polls rank offset : ℕ) → Sane (ping s order late rounds polls rank offset)
  unfolding ping fence quiet_pe with_state
  ping-Sane polls rank offset p = elim (Bool-cases (rank == 0)) [
    | inl first ↦ rw first (
        and_run-IsSane _ (put-Sane s order rounds u64 target_pe _ (value ∷ []) p)
          λ done. λ q. and_run-IsSane _ (locked-Sane _ q) λ fenced. loop-Sane _)
    | inr other ↦ rw other (poll-Sane polls rank offset p)
  ]

  with_buffer-Sane : (polls rank : ℕ) → Sane (with_buffer s order late rounds polls rank)
  unfolding with_buffer malloc heap_base free with_state with_state_mut
  with_buffer-Sane polls rank p = and_run-IsSane _ (locked-Sane _ p) λ buffer p1.
      and_run-IsSane _ (locked-Sane _ p1) λ base p2.
        and_run-IsSane _ (lock_free {r = offset_from buffer base})
          λ offset p3. and_run-IsSane _ (ping-Sane polls rank offset p3) λ done. locked-Sane _

-- There is no state any more; the client of one that there was has been disconnected.
abbrev pub Gone : Process → History → Type 0
Gone p h =
    ((p.state ≡ none) × (h ≡ p.history))
    ⊎ ((st : ShmemState) × (p.state ≡ some st) × (h ≡ disconnected st.client ∷ p.history))

module _ (s : Services) where
  -- How `main` ends after `run`: it has not, or a panic has ended it; else `finalize` has run, the process
  -- has no state, and if there was one its client was disconnected last. An error of `run` is reported, else
  -- that of `finalize`, if any.
  pub data Closes
      : Option (Result (Unit {0}) × Global) → Option (Result (Unit {0}) × Global) → Type 0 where
    still_running : Closes none none
    run_crashed : {m : Global} → Closes (some (panic, m)) (some (panic, m))
    after_error :
        {e : Error} {p : Process} {h : History}
        → Gone p h
        → Closes (some (err e, unpoisoned p)) (some (err e, unlocked none h))
    after_success :
        {p : Process} {h : History}
        → Gone p h
        → Closes
            (some (ok tt, unpoisoned p))
            (some ((finalize s (unpoisoned p)).0, unlocked none h))

module _ (s : Services) (u : Setup) (order : Endian) (late : History → Bool) (rounds : ℕ) where
  run-Sane : (polls : ℕ) → Sane (run s u order late rounds polls)
  unfolding run init my_pe n_pes with_state
  run-Sane polls p = and_run-IsSane _ (locked-Sane _ p) λ started p1.
      and_run-IsSane _ (locked-Sane _ p1) λ rank p2. and_run-IsSane _ (locked-Sane _ p2) λ size p3.
        elim (Bool-cases (size == 2)) [
          | inr other ↦ rw other lock_free
          | inl two ↦ rw two (with_buffer-Sane s order late rounds polls rank p3)
        ]

  run-Closes :
      {r : Option (Result (Unit {0}) × Global)}
      → IsSane r
      → Closes s r (elim r [ none ↦ none | some out ↦ some (closed s out) ])
  unfolding closed
  run-Closes unended = still_running
  run-Closes crashed = run_crashed
  run-Closes (lock_free {r = ok x} {p = p}) =
      let (h, gone, last) = finalize_clears s p in
      subst (λ m. Closes s (some (ok tt, unpoisoned p)) (some ((finalize s (unpoisoned p)).0, m)))
        (sym last) (after_success gone)
  run-Closes (lock_free {r = err e} {p = p}) =
      let (h, gone, last) = finalize_clears s p in
      subst (λ m. Closes s (some (err e, unpoisoned p)) (some (err e, m))) (sym last)
        (after_error gone)
  run-Closes (lock_free {r = panic}) = run_crashed

  -- On a process whose lifecycle lock is free, whatever PMIx and UCX answer: unless a panic ends it or its
  -- loops have run out of rounds, `main` of ping_put_get has finalized the library, whether or not `run`
  -- has failed. Then the process has no state, and the client of the state that `run` left, if it left one, was
  -- disconnected after everything that `run` has called. The error of `run` is the one reported, and after a
  -- success that of `finalize`, if it fails.
  pub main-Closes :
      (polls : ℕ) (p : Process)
      → Closes s
          (run s u order late rounds polls (unpoisoned p))
          (main s u order late rounds polls (unpoisoned p))
  unfolding main
  main-Closes polls p = run-Closes (run-Sane polls p)
