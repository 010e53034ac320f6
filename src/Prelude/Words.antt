-- ===== src/Prelude/Words.antt =====
-- Machine words as native numbers: `usize` and `u64` have 64 bits, `u32` has 32.
use Prim.Native.Nat.{ℕ, ◌+◌, ◌-◌, ◌*◌, ◌%◌, ◌^◌}
use mathlib.Core.Option.{Option, none, some}
use openshmem_rs.Prelude.Tests.{ltb, if◌then◌else◌}

-- One more than the largest `usize`, and the largest `u64`.
abbrev pub usize_mod : ℕ
usize_mod = 2 ^ 64

-- One more than `isize::MAX`, the bound on the bytes of an allocation.
abbrev pub isize_limit : ℕ
isize_limit = 2 ^ 63

abbrev pub u32_mod : ℕ
u32_mod = 2 ^ 32

-- `a + b` on `usize`, as it wraps where overflow is not checked.
abbrev pub add_usize : ℕ → ℕ → ℕ
add_usize a b = (a + b) % usize_mod

abbrev pub checked_add : ℕ → ℕ → Option ℕ
checked_add a b = if ltb (a + b) usize_mod then some (a + b) else none

abbrev pub checked_sub : ℕ → ℕ → Option ℕ
checked_sub a b = if ltb a b then none else some (a - b)

abbrev pub checked_mul : ℕ → ℕ → Option ℕ
checked_mul a b = if ltb (a * b) usize_mod then some (a * b) else none

-- `u32::try_from`
abbrev pub u32_try_from : ℕ → Option ℕ
u32_try_from n = if ltb n u32_mod then some n else none
