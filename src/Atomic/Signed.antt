-- ===== src/Atomic/Signed.antt =====
-- The atomic operations on signed types against those on unsigned types.
use mathlib.Core.Path.{subst}
use openshmem_rs.Prelude.{ℕ, ◌<◌, ◌≡◌, refl}
use openshmem_rs.Prelude.Int.{ℤ}
use openshmem_rs.World.{Services, Atomics, History}
use openshmem_rs.World.Loop.{map_run, then_loop-map_run, and_loop-map_run}
use openshmem_rs.Init.State.{ShmemState, Global}
use openshmem_rs.Init.Locked.{with_state_loop, with_state_loop-map_run}
use openshmem_rs.Atomic.{
  Family, Width, family, Made, unsigned, signed, fetched, atomic_op, atomic_cswap, atomic_fetch,
  atomic_fcswap,
}
use openshmem_rs.Atomic.Bits.{modulus, Represents, bits-Represents, from_bits-Represents}
use openshmem_rs.Atomic.Calls.{
  Plain, adds, xors, swaps, ands, ors, Fetching, fadds, fxors, fswaps, method, fetch_method,
}

module _ (s : Services) (a : Atomics) where
  -- The operations on a signed type are those on the unsigned type of its width, on two words.
  abbrev pub AgreesPlain : Plain → Width → ℕ → ℕ → ℕ → ℤ → ℤ → ℕ → ℕ → Global → Type 0
  AgreesPlain op w rounds pe offset value expected bits expected_bits m =
      (atomic_op s a (signed a (family w)) (method op (signed a (family w))) rounds pe offset value
          m
        ≡ atomic_op s a (unsigned a (family w)) (method op (unsigned a (family w))) rounds pe offset
            bits m)
      × (atomic_cswap s a (signed a (family w)) rounds pe offset expected value m
          ≡ atomic_cswap s a (unsigned a (family w)) rounds pe offset expected_bits bits m)

  atomic_op-signed :
      (op : Plain) (w : Width) (rounds pe offset : ℕ) (value expected : ℤ) (m : Global)
      → AgreesPlain op w rounds pe offset value expected
          ((signed a (family w)).bits value)
          ((signed a (family w)).bits expected)
          m
  unfolding atomic_op atomic_cswap signed
  atomic_op-signed adds w rounds pe offset value expected m = (refl, refl)
  atomic_op-signed xors w rounds pe offset value expected m = (refl, refl)
  atomic_op-signed swaps w rounds pe offset value expected m = (refl, refl)
  atomic_op-signed ands w rounds pe offset value expected m = (refl, refl)
  atomic_op-signed ors w rounds pe offset value expected m = (refl, refl)

  fetched-signed :
      (f : Family) (method : ℕ → ℕ → ℕ → ℕ → Made ℕ) (rounds pe offset : ℕ) (st : ShmemState)
      (h : History)
      → fetched s a (signed a f) method rounds pe offset st h
        ≡ map_run (signed a f).from_bits (fetched s a (unsigned a f) method rounds pe offset st h)
  unfolding fetched signed
  fetched-signed f method rounds pe offset st h =
      then_loop-map_run (signed a f).from_bits _ _ _ λ target g.
        then_loop-map_run (signed a f).from_bits _ _ _
          λ request k. and_loop-map_run (signed a f).from_bits _ _ _ λ _ j. refl

  signed_run :
      (w : Width) (method : ℕ → ℕ → ℕ → ℕ → Made ℕ) (rounds pe offset : ℕ) (m : Global)
      → with_state_loop (fetched s a (signed a (family w)) method rounds pe offset) m
        ≡ map_run
            (signed a (family w)).from_bits
            (with_state_loop (fetched s a (unsigned a (family w)) method rounds pe offset) m)
  signed_run w method rounds pe offset m =
      with_state_loop-map_run _ _ _ m
        (λ st h. fetched-signed (family w) method rounds pe offset st h)

  abbrev fcswap_bits : (w : Width) → ℤ → ℤ → ℕ → ℕ → ℕ → ℕ → Made ℕ
  fcswap_bits w expected value e worker address key =
      (unsigned a (family w)).fcswap e worker ((signed a (family w)).bits expected)
        ((signed a (family w)).bits value) address key ((signed a (family w)).bits expected)

  abbrev fetch_bits : Fetching → (w : Width) → ℤ → ℕ → ℕ → ℕ → ℕ → Made ℕ
  fetch_bits op w value e worker address key =
      fetch_method op (unsigned a (family w)) e worker ((signed a (family w)).bits value) address
        key ((signed a (family w)).bits value)

  -- The operations with a reply on a signed type are those on the unsigned type of its width, on two
  -- words, with the reply read back.
  abbrev pub AgreesFetching : Fetching → Width → ℕ → ℕ → ℕ → ℤ → ℤ → ℕ → ℕ → Global → Type 0
  AgreesFetching op w rounds pe offset value expected bits expected_bits m =
      (atomic_fetch s a (signed a (family w)) (fetch_method op (signed a (family w))) rounds pe
          offset value m
        ≡ map_run (signed a (family w)).from_bits (
            atomic_fetch s a (unsigned a (family w)) (fetch_method op (unsigned a (family w)))
              rounds pe offset bits m))
      × (atomic_fcswap s a (signed a (family w)) rounds pe offset expected value m
          ≡ map_run (signed a (family w)).from_bits
              (atomic_fcswap s a (unsigned a (family w)) rounds pe offset expected_bits bits m))

  atomic_fetch-signed :
      (op : Fetching) (w : Width) (rounds pe offset : ℕ) (value expected : ℤ) (m : Global)
      → AgreesFetching op w rounds pe offset value expected
          ((signed a (family w)).bits value)
          ((signed a (family w)).bits expected)
          m
  unfolding atomic_fetch atomic_fcswap signed
  atomic_fetch-signed fadds w rounds pe offset value expected m = (
    signed_run w (fetch_bits fadds w value) rounds pe offset m,
    signed_run w (fcswap_bits w expected value) rounds pe offset m,
  )
  atomic_fetch-signed fxors w rounds pe offset value expected m = (
    signed_run w (fetch_bits fxors w value) rounds pe offset m,
    signed_run w (fcswap_bits w expected value) rounds pe offset m,
  )
  atomic_fetch-signed fswaps w rounds pe offset value expected m = (
    signed_run w (fetch_bits fswaps w value) rounds pe offset m,
    signed_run w (fcswap_bits w expected value) rounds pe offset m,
  )

  -- For both widths, at the words that represent the arguments in two's complement: each operation on a
  -- signed type, with or without a reply, the two that compare and swap included, is that on the
  -- unsigned type of its width at those words, with the reply, if there is one, read back; errors and
  -- the final state are the same. Any reply of that width is read back as the value of the signed type
  -- that it represents.
  pub atomic-signed :
      (plain : Plain) (fetching : Fetching) (w : Width) (rounds pe offset : ℕ) (value expected : ℤ)
      (bits expected_bits reply : ℕ) (m : Global)
      → Represents (modulus w) value bits
      → Represents (modulus w) expected expected_bits
      → reply < modulus w
      → AgreesPlain plain w rounds pe offset value expected bits expected_bits m
        × AgreesFetching fetching w rounds pe offset value expected bits expected_bits m
        × Represents (modulus w) ((signed a (family w)).from_bits reply) reply
  atomic-signed plain fetching w rounds pe offset value expected bits expected_bits reply m here
        there small =
      let same = bits-Represents a w value bits here in
      let same' = bits-Represents a w expected expected_bits there in
      (
        subst (λ b. AgreesPlain plain w rounds pe offset value expected b expected_bits m) same
            (subst
              (λ b.
                AgreesPlain plain w rounds pe offset value expected
                  ((signed a (family w)).bits value) b m)
              same' (atomic_op-signed plain w rounds pe offset value expected m)),
        subst (λ b. AgreesFetching fetching w rounds pe offset value expected b expected_bits m)
            same
            (subst
              (λ b.
                AgreesFetching fetching w rounds pe offset value expected
                  ((signed a (family w)).bits value) b m)
              same' (atomic_fetch-signed fetching w rounds pe offset value expected m)),
        from_bits-Represents a w reply small,
      )
