-- ===== src/Atomic/Bits.antt =====
-- The bit patterns of the signed types.
use openshmem_rs.Prelude.{ℕ, ◌+◌, ◌%◌, ◌^◌, ◌<◌, ◌≡◌, arith}
use openshmem_rs.Prelude.Int.{ℤ, pos, negsuc, IsSigned}
use openshmem_rs.World.{Atomics}
use openshmem_rs.Atomic.{Width, w32, w64, family, signed}

-- The values that a word of a width has, signed or not.
abbrev pub modulus : Width → ℕ
modulus w32 = 2 ^ 32
modulus w64 = 2 ^ 64

-- The two parts of an integer, of which one is zero.
abbrev pub pos_part : ℤ → ℕ
pos_part (pos n) = n
pos_part (negsuc n) = 0

abbrev pub neg_part : ℤ → ℕ
neg_part (pos n) = 0
neg_part (negsuc n) = n + 1

-- `bits` is the word in which the signed type holds `x`: the word that is equal to it up to multiples
-- of `m`. There is one for each value of the signed type.
abbrev pub Represents : ℕ → ℤ → ℕ → Type 0
Represents m x bits = IsSigned m x × (bits < m) × ((bits + neg_part x) % m ≡ pos_part x % m)

module _ (a : Atomics) where
  -- The cast to the unsigned type gives the word that represents the value.
  pub bits-Represents :
      (w : Width) (x : ℤ) (bits : ℕ)
      → Represents (modulus w) x bits
      → (signed a (family w)).bits x ≡ bits
  unfolding signed
  bits-Represents w32 (pos n) bits (range, small, equal) = omega (arith, range, small, equal)
  bits-Represents w32 (negsuc n) bits (range, small, equal) = omega (arith, range, small, equal)
  bits-Represents w64 (pos n) bits (range, small, equal) = omega (arith, range, small, equal)
  bits-Represents w64 (negsuc n) bits (range, small, equal) = omega (arith, range, small, equal)

  -- The cast from the unsigned type gives a value that the word represents.
  pub from_bits-Represents :
      (w : Width) (v : ℕ)
      → v < modulus w
      → Represents (modulus w) ((signed a (family w)).from_bits v) v
  unfolding signed
  from_bits-Represents w32 v small = (ground arith, small, ground arith)
  from_bits-Represents w64 v small = (ground arith, small, ground arith)
