-- ===== src/Atomic/Tests.antt =====
-- Atomic operations between two PEs, on services with fixed answers.
use openshmem_rs.Prelude.{ℕ, ◌^◌, refl, [], ◌∷◌, some, arith, done, leb, length}
use openshmem_rs.Prelude.Int.{pos, negsuc}
use openshmem_rs.World.{Services, Ucx, Atomics}
use openshmem_rs.Init.State.{unlocked}
use openshmem_rs.Prelude.{inl}
use openshmem_rs.Init.Held.{Held}
use openshmem_rs.Rma.Wait.{after_rounds}
use openshmem_rs.Rma.Fetch.{after_checks}
use openshmem_rs.Rma.Complete.{Prompt}
use openshmem_rs.Rma.Replies.{PromptReplies}
use openshmem_rs.Rma.Returns.{Returns}
use openshmem_rs.Atomic.{atomic_cswap, atomic_fcswap}
use openshmem_rs.Atomic.Outcomes.{OpBody, FetchBody, atomic-OpBody, atomic-FetchBody}
use openshmem_rs.Atomic.Returns.{atomics_return}
use openshmem_rs.Rma.Tests as Two
use openshmem_rs.Atomic.{w32, w64, family, unsigned, signed, atomic_op, atomic_fetch}
use openshmem_rs.Atomic.Calls.{
  adds, fadds, Plain, Fetching, method, amo_of, fetch_method, fetch_amo_of,
}
use openshmem_rs.Atomic.Bits.{Represents}
use openshmem_rs.Atomic.Signed.{AgreesPlain, AgreesFetching, atomic-signed}

-- Request 7 is unfinished in its first two tests.
abbrev slow : Ucx
slow = record Two.services.ucx { check_finished = λ h r. done (leb 5 (length h)) }

abbrev services : Services
services = record Two.services { ucx = slow }

abbrev atomics : Atomics
atomics = record {
  amo = λ h method e operands address key size. done (some 7);
  fetch_amo = λ h method e operands address key reply. done 7;
  replied = λ h request. 18446744073709551615;
}

-- Of minus one and three.
atomic-signed_example :
    AgreesPlain services atomics adds w64 9 1 16
      (negsuc 0)
      (pos 3)
      18446744073709551615
      3
      (unlocked (some Two.running) [])
    × AgreesFetching services atomics fadds w64 9 1 16
        (negsuc 0)
        (pos 3)
        18446744073709551615
        3
        (unlocked (some Two.running) [])
    × Represents
        (2 ^ 64)
        ((signed atomics (family w64)).from_bits 18446744073709551615)
        18446744073709551615
atomic-signed_example =
    atomic-signed services atomics adds fadds w64 9 1 16 (negsuc 0) (pos 3) 18446744073709551615 3
      18446744073709551615 (unlocked (some Two.running) []) (omega arith, omega arith, refl)
      (omega arith, omega arith, refl) (omega arith)

atomic-OpBody_example :
    ((op : Plain) (value : ℕ)
      → Held
          (OpBody services atomics 9 (family w32).size (amo_of op (family w32)) (value ∷ []) 1 16)
          (unlocked (some Two.running) [])
          (atomic_op services atomics
            (unsigned atomics (family w32))
            (method op (unsigned atomics (family w32)))
            9
            1
            16
            value
            (unlocked (some Two.running) [])))
    × ((expected replacement : ℕ)
        → Held
            (OpBody services atomics 9
              (family w32).size
              (family w32).cswap
              (expected ∷ replacement ∷ [])
              1
              16)
            (unlocked (some Two.running) [])
            (atomic_cswap services atomics
              (unsigned atomics (family w32))
              9
              1
              16
              expected
              replacement
              (unlocked (some Two.running) [])))
atomic-OpBody_example = atomic-OpBody services atomics 9 w32 1 16 (unlocked (some Two.running) [])

atomic-FetchBody_example :
    ((op : Fetching) (value : ℕ)
      → Held
          (FetchBody services atomics 9
            (family w64).size
            (fetch_amo_of op (family w64))
            (value ∷ [])
            value
            1
            16)
          (unlocked (some Two.running) [])
          (atomic_fetch services atomics
            (unsigned atomics (family w64))
            (fetch_method op (unsigned atomics (family w64)))
            9
            1
            16
            value
            (unlocked (some Two.running) [])))
    × ((expected replacement : ℕ)
        → Held
            (FetchBody services atomics 9
              (family w64).size
              (family w64).fcswap
              (expected ∷ replacement ∷ [])
              expected
              1
              16)
            (unlocked (some Two.running) [])
            (atomic_fcswap services atomics
              (unsigned atomics (family w64))
              9
              1
              16
              expected
              replacement
              (unlocked (some Two.running) [])))
atomic-FetchBody_example =
    atomic-FetchBody services atomics 9 w64 1 16 (unlocked (some Two.running) [])

Prompt-requests : Prompt services 6
unfolding after_rounds
Prompt-requests t request h = (3, omega arith, inl (ground arith))

Prompt-replies : PromptReplies services 6
unfolding after_checks
Prompt-replies request h = (5, omega arith, inl (ground arith))

atomics_return_example :
    ((op : Plain)
      → Returns (
          atomic_op services atomics
            (unsigned atomics (family w32))
            (method op (unsigned atomics (family w32)))
            6
            1
            16
            5
            (unlocked (some Two.running) [])))
    × Returns (
        atomic_cswap services atomics
          (unsigned atomics (family w32))
          6
          1
          16
          5
          7
          (unlocked (some Two.running) []))
    × ((op : Fetching)
        → Returns (
            atomic_fetch services atomics
              (unsigned atomics (family w32))
              (fetch_method op (unsigned atomics (family w32)))
              6
              1
              16
              5
              (unlocked (some Two.running) [])))
    × Returns (
        atomic_fcswap services atomics
          (unsigned atomics (family w32))
          6
          1
          16
          5
          7
          (unlocked (some Two.running) []))
atomics_return_example =
    atomics_return services atomics 6 6 Prompt-requests Prompt-replies (omega arith) w32 1 16 5 7
      (unlocked (some Two.running) [])
