-- ===== src/Examples/PingPutGet.antt =====
-- examples/ping_put_get.rs: PE 0 puts a value into PE 1's heap, and PE 1 polls its own heap for it.
use openshmem_rs.Prelude.{
  ℕ, zero, suc, ◌+◌, List, [], ◌∷◌, none, some, Bool, false, ◌==◌, if◌then◌else◌,
}
use openshmem_rs.Error.{usage, internal, Result, ok, err, panic}
use openshmem_rs.World.{Services, History}
use openshmem_rs.Pod.{Endian, u64, size_of}
use openshmem_rs.SymHeap.Pointer.{offset_from}
use openshmem_rs.Init.{Setup, init, finalize, my_pe, n_pes, malloc, free, heap_base}
use openshmem_rs.Init.State.{Global}
use openshmem_rs.Rma.{fence, quiet_pe}
use openshmem_rs.Rma.Typed.{put, get}
use openshmem_rs.Examples.Program.{Program, plain, settled, and_run, ◌>>=◌, ◌>>◌}

abbrev pub target_pe : ℕ
target_pe = 1

abbrev pub value_offset : ℕ
value_offset = 0

-- `0x5049_4e47_2d52_4d41`
abbrev pub value : ℕ
value = 5785241263944125761

-- `received.as_slice() == [VALUE]`
unfoldable pub is_value : List ℕ → Bool
is_value (x ∷ []) = x == value
is_value xs = false

-- `late` says whether the deadline has passed, when these calls have been made.
module _ (s : Services) (order : Endian) (late : History → Bool) (rounds : ℕ) where
  -- The loop of PE 1, on a number of polls.
  unfoldable pub poll : ℕ → ℕ → ℕ → Program (Unit {0})
  unfolding is_value get
  poll zero rank offset m = none
  poll (suc polls) rank offset m =
      and_run (get s order rounds u64 rank (offset + value_offset) 1 m) λ received g.
        let rest = poll polls rank offset g in
        if is_value received
        then some (ok tt, g)
        else if late g.value.history
        then some (err (internal "timed out waiting for PE 1's value"), g)
        else rest

  -- What either PE does once it has its buffer.
  unfoldable pub ping : ℕ → ℕ → ℕ → Program (Unit {0})
  unfolding poll put fence quiet_pe
  ping polls rank offset =
      if rank == 0
      then (do
        put s order rounds u64 target_pe (value ∷ []) (offset + value_offset)
        plain (fence s)
        quiet_pe s rounds target_pe)
      else poll polls rank offset

  -- The buffer, and what is done while it is there.
  unfoldable pub with_buffer : ℕ → ℕ → Program (Unit {0})
  unfolding ping
  with_buffer polls rank = do
    buffer ← plain (malloc (size_of u64))
    base ← plain heap_base
    offset ← settled (offset_from buffer base)
    ping polls rank offset
    plain (free buffer)

-- `main`, whose error is what it prints before it exits with status 1. A panic of `run` ends it.
module _ (s : Services) where
  unfoldable pub closed : Result (Unit {0}) × Global → Result (Unit {0}) × Global
  unfolding finalize
  closed (panic, m) = (panic, m)
  closed (err e, m) = (err e, (finalize s m).1)
  closed (ok x, m) = finalize s m

module _ (s : Services) (u : Setup) (order : Endian) (late : History → Bool) (rounds : ℕ) where
  unfoldable pub run : ℕ → Program (Unit {0})
  unfolding with_buffer
  run polls = do
    plain (init s u)
    rank ← plain my_pe
    size ← plain n_pes
    if size == 2
        then with_buffer s order late rounds polls rank
        else settled (err (usage "ping_put_get requires exactly two PEs"))

  unfoldable pub main : ℕ → Program (Unit {0})
  unfolding run closed
  main polls m = elim (run polls m) [ none ↦ none | some out ↦ some (closed s out) ]
