-- ===== src/Prelude/Bits.antt =====
-- `x & !7` on 64-bit words: a mask of ones above a few zeros clears the digits under them.
use Prim.Native.Nat.{
  ℕ, zero, suc, ◌+◌, ◌-◌, ◌*◌, ◌/◌, ◌%◌, ◌^◌, ◌≤◌, ◌<◌, min, bit_and, digits, bit_and-bitwise,
}
use mathlib.Core.Path.{◌≡◌, refl, sym}
use native.Mathlib.Omega.{arith}

-- `k` ones with `j` zeros under them.
abbrev mask : ℕ → ℕ → ℕ
mask zero zero = 0
mask zero (suc k) = 2 * mask zero k + 1
mask (suc j) k = 2 * mask j k

-- The lowest `j` digits set to zero.
abbrev clear : ℕ → ℕ → ℕ
clear zero a = a
clear (suc j) a = 2 * clear j (a / 2)

-- One more than the largest number of `j + k` digits.
abbrev limit : ℕ → ℕ → ℕ
limit zero zero = 1
limit zero (suc k) = 2 * limit zero k
limit (suc j) k = 2 * limit j k

clear-zero : (j : ℕ) → clear j 0 ≡ 0
clear-zero zero = refl
clear-zero (suc j) = omega (arith, clear-zero j)

half_odd : (m : ℕ) → (2 * m + 1) / 2 ≡ m
half_odd m = omega arith

half_even : (m : ℕ) → 2 * m / 2 ≡ m
half_even m = omega arith

digits-mask :
    (j k n a : ℕ) → a ≤ n → a < limit j k → digits (λ b. zero) min n a (mask j k) ≡ clear j a
digits-mask zero zero zero a h l = omega arith
digits-mask zero (suc k) zero a h l = omega arith
digits-mask (suc j) k zero a h l = let z : a ≡ 0 = omega arith in rw z (sym (clear-zero (suc j)))
digits-mask zero zero (suc n) zero h l = omega arith
digits-mask zero (suc k) (suc n) zero h l = omega arith
digits-mask (suc j) k (suc n) zero h l = sym (clear-zero (suc j))
digits-mask zero zero (suc n) (suc a) h l = absurd (omega arith)
digits-mask zero (suc k) (suc n) (suc a) h l =
    rw (half_odd (mask zero k))
      (omega (arith, digits-mask zero k n (suc a / 2) (omega arith) (omega arith)))
digits-mask (suc j) k (suc n) (suc a) h l =
    rw (half_even (mask j k))
      (omega (arith, digits-mask j k n (suc a / 2) (omega arith) (omega arith)))

-- `x & !7` is `x` rounded down to a multiple of eight, for every 64-bit `x`.
pub bit_and-not_seven : (x : ℕ) → x < 2 ^ 64 → bit_and x (2 ^ 64 - 8) ≡ x - x % 8
bit_and-not_seven x h =
    omega (arith, bit_and-bitwise x (2 ^ 64 - 8), digits-mask 3 61 x x (omega arith) h)
