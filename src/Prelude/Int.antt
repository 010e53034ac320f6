-- ===== src/Prelude/Int.antt =====
-- Integers over the native numbers, as two's complement reads them.
use Prim.Native.Nat.{ℕ, ◌+◌, ◌-◌, ◌<◌}
use openshmem_rs.Prelude.Tests.{ltb, if◌then◌else◌}

-- `negsuc n` is -(n + 1).
pub data ℤ : Type 0 where
  pos : ℕ → ℤ
  negsuc : ℕ → ℤ

-- A cast of a signed word of modulus `m` to the unsigned type, and back. The values of the signed type
-- lie between `-half` and `half - 1`, where `m` is twice `half`.
abbrev pub to_unsigned : ℕ → ℤ → ℕ
to_unsigned m (pos n) = n
to_unsigned m (negsuc n) = m - (n + 1)

abbrev pub to_signed : ℕ → ℕ → ℤ
to_signed m v = if ltb (v + v) m then pos v else negsuc (m - v - 1)

-- In the range of the signed type.
abbrev pub IsSigned : ℕ → ℤ → Type 0
IsSigned m (pos n) = n + n < m
IsSigned m (negsuc n) = n + n < m
