-- ===== src/Base/Bits.antt =====
-- Masks of machine words as arithmetic: `x & m` is at most `m`, and `x & (2^k - 1)` is `x % 2^k`.
use Prim.Native.Nat.{digits, bit_and, bit_and-bitwise}
use native.Mathlib.Nat.{pow-suc, one-le-pow}
use photon.Base.{ℕ, zero, suc, ◌+◌, ◌-◌, ◌*◌, ◌/◌, ◌%◌, ◌^◌, ◌≤◌, ◌<◌, ◌≡◌, min, arith}

-- The recursion on binary digits that `bit_and` stands for.
abbrev and_fuel : ℕ → ℕ → ℕ → ℕ
and_fuel = digits (λ _. 0) min

and_fuel-le : (n a b : ℕ) → and_fuel n a b ≤ b
and_fuel-le zero a b = omega arith
and_fuel-le (suc n) zero b = omega arith
and_fuel-le (suc n) (suc a) b = omega (arith, and_fuel-le n (suc a / 2) (b / 2))

pub bit_and-le : (a b : ℕ) → bit_and a b ≤ b
bit_and-le a b = omega (arith, bit_and-bitwise a b, and_fuel-le a a b)

mod_double : (p a : ℕ) → 0 < p → a % (p * 2) ≡ a / 2 % p * 2 + a % 2
mod_double p a h = grind arith

and_fuel_step :
    (n p a : ℕ)
    → 0 < p
    → and_fuel n (suc a / 2) (p - 1) ≡ suc a / 2 % p
    → and_fuel (suc n) (suc a) (p * 2 - 1) ≡ suc a % (p * 2)
and_fuel_step n p a h ih =
    let half : (p * 2 - 1) / 2 ≡ p - 1 = omega arith in
    rw (half, ih, mod_double p (suc a) h) (omega arith)

and_fuel_mask : (k n a : ℕ) → a ≤ n → and_fuel n a (2 ^ k - 1) ≡ a % 2 ^ k
and_fuel_mask k zero zero h = omega (arith, one-le-pow k 2 (omega arith))
and_fuel_mask k zero (suc a) h = absurd (omega arith)
and_fuel_mask k (suc n) zero h = omega (arith, one-le-pow k 2 (omega arith))
and_fuel_mask zero (suc n) (suc a) h = omega (arith, and_fuel-le (suc n) (suc a) 0)
and_fuel_mask (suc k) (suc n) (suc a) h = rw (pow-suc 2 k) (
    and_fuel_step n (2 ^ k) a (one-le-pow k 2 (omega arith))
      (and_fuel_mask k n (suc a / 2) (omega arith)))

pub bit_and_mask : (k a : ℕ) → bit_and a (2 ^ k - 1) ≡ a % 2 ^ k
bit_and_mask k a = omega (arith, bit_and-bitwise a (2 ^ k - 1), and_fuel_mask k a a (omega arith))
