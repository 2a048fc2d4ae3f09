-- ===== src/Base/Digits.antt =====
-- `bit_or`, `bit_xor` and `bit_and` with a single bit, `2 ^ k`.
use Prim.Native.Nat.{
  digits, bit_and, bit_or, bit_xor, bit_and-bitwise, bit_or-bitwise, bit_xor-bitwise, max, differ,
}
use native.Mathlib.Nat.{pow-suc}
use photon.Base.{
  ℕ, zero, suc, ◌+◌, ◌-◌, ◌*◌, ◌/◌, ◌%◌, ◌^◌, ◌≤◌, ◌<◌, ◌≡◌, ◌≢◌, ◌⊎◌, refl, ap, min, arith,
}

abbrev digit_fold : (ℕ → ℕ) → (ℕ → ℕ → ℕ) → ℕ → ℕ → ℕ → ℕ
digit_fold r f n a b = digits r f n a b

fold_fuel :
    (r : ℕ → ℕ) (f : ℕ → ℕ → ℕ) (n m a b : ℕ)
    → a ≤ n
    → a ≤ m
    → digit_fold r f n a b ≡ digit_fold r f m a b
fold_fuel r f zero zero a b p q = refl
fold_fuel r f zero (suc m) zero b p q = refl
fold_fuel r f zero (suc m) (suc a) b p q = absurd (omega arith)
fold_fuel r f (suc n) zero zero b p q = refl
fold_fuel r f (suc n) zero (suc a) b p q = absurd (omega arith)
fold_fuel r f (suc n) (suc m) zero b p q = refl
fold_fuel r f (suc n) (suc m) (suc a) b p q =
    omega (arith, fold_fuel r f n m (suc a / 2) (b / 2) (omega arith) (omega arith))

and_step : (a b : ℕ) → bit_and a b ≡ bit_and (a / 2) (b / 2) * 2 + min (a % 2) (b % 2)
and_step zero b = omega (arith, bit_and-bitwise 0 b, bit_and-bitwise 0 (b / 2))
and_step (suc a) b = omega (
  arith,
  bit_and-bitwise (suc a) b,
  bit_and-bitwise (suc a / 2) (b / 2),
  fold_fuel (λ b. zero) min a (suc a / 2) (suc a / 2) (b / 2) (omega arith) (omega arith),
)

or_step : (a b : ℕ) → bit_or a b ≡ bit_or (a / 2) (b / 2) * 2 + max (a % 2) (b % 2)
or_step zero b = omega (arith, bit_or-bitwise 0 b, bit_or-bitwise 0 (b / 2))
or_step (suc a) b = omega (
  arith,
  bit_or-bitwise (suc a) b,
  bit_or-bitwise (suc a / 2) (b / 2),
  fold_fuel (λ b. b) max a (suc a / 2) (suc a / 2) (b / 2) (omega arith) (omega arith),
)

xor_step : (a b : ℕ) → bit_xor a b ≡ bit_xor (a / 2) (b / 2) * 2 + differ (a % 2) (b % 2)
xor_step zero b = omega (arith, bit_xor-bitwise 0 b, bit_xor-bitwise 0 (b / 2))
xor_step (suc a) b = omega (
  arith,
  bit_xor-bitwise (suc a) b,
  bit_xor-bitwise (suc a / 2) (b / 2),
  fold_fuel (λ b. b) differ a (suc a / 2) (suc a / 2) (b / 2) (omega arith) (omega arith),
)

and_zero_fuel : (n a : ℕ) → a ≤ n → bit_and a 0 ≡ 0
and_zero_fuel n zero h = refl
and_zero_fuel zero (suc a) h = absurd (omega arith)
and_zero_fuel (suc n) (suc a) h =
    omega (arith, and_step (suc a) 0, and_zero_fuel n (suc a / 2) (omega arith))

or_zero_fuel : (n a : ℕ) → a ≤ n → bit_or a 0 ≡ a
or_zero_fuel n zero h = refl
or_zero_fuel zero (suc a) h = absurd (omega arith)
or_zero_fuel (suc n) (suc a) h =
    omega (arith, or_step (suc a) 0, or_zero_fuel n (suc a / 2) (omega arith))

differ_zero : (x : ℕ) → differ x 0 ≡ x
differ_zero zero = refl
differ_zero (suc x) = refl

differ_one : (x : ℕ) → x < 2 → differ x 1 ≡ 1 - x
differ_one zero h = refl
differ_one (suc zero) h = refl
differ_one (suc (suc x)) h = absurd (omega arith)

xor_zero_fuel : (n a : ℕ) → a ≤ n → bit_xor a 0 ≡ a
xor_zero_fuel n zero h = refl
xor_zero_fuel zero (suc a) h = absurd (omega arith)
xor_zero_fuel (suc n) (suc a) h =
    omega (
      arith,
      xor_step (suc a) 0,
      differ_zero (suc a % 2),
      xor_zero_fuel n (suc a / 2) (omega arith),
    )

-- The digit 0 of a number, and the digits above it.
and_low : (a : ℕ) → bit_and a 1 ≡ a % 2
and_low a = omega (arith, and_step a 1, and_zero_fuel (a / 2) (a / 2) (omega arith))

pow_half : (k : ℕ) → 2 ^ suc k / 2 ≡ 2 ^ k
pow_half k = omega (arith, pow-suc 2 k)

pow_even : (k : ℕ) → 2 ^ suc k % 2 ≡ 0
pow_even k = omega (arith, pow-suc 2 k)

and_high : (a k : ℕ) → bit_and a (2 ^ suc k) ≡ bit_and (a / 2) (2 ^ k) * 2
and_high a k = omega (arith, and_step a (2 ^ suc k), ap (bit_and (a / 2)) (pow_half k), pow_even k)

or_low : (a : ℕ) → bit_or a 1 ≡ a / 2 * 2 + 1
or_low a = omega (arith, or_step a 1, or_zero_fuel (a / 2) (a / 2) (omega arith))

or_high : (a k : ℕ) → bit_or a (2 ^ suc k) ≡ bit_or (a / 2) (2 ^ k) * 2 + a % 2
or_high a k = omega (arith, or_step a (2 ^ suc k), ap (bit_or (a / 2)) (pow_half k), pow_even k)

xor_low : (a : ℕ) → bit_xor a 1 ≡ a / 2 * 2 + (1 - a % 2)
xor_low a = omega (
  arith,
  xor_step a 1,
  differ_one (a % 2) (omega arith),
  xor_zero_fuel (a / 2) (a / 2) (omega arith),
)

xor_high : (a k : ℕ) → bit_xor a (2 ^ suc k) ≡ bit_xor (a / 2) (2 ^ k) * 2 + a % 2
xor_high a k = omega (
  arith,
  xor_step a (2 ^ suc k),
  ap (differ (a % 2)) (pow_even k),
  differ_zero (a % 2),
  ap (bit_xor (a / 2)) (pow_half k),
  pow_even k,
)

and_high_of : (q r k : ℕ) → r < 2 → bit_and (q * 2 + r) (2 ^ suc k) ≡ bit_and q (2 ^ k) * 2
and_high_of q r k h =
    let half : (q * 2 + r) / 2 ≡ q = omega arith in
    omega (arith, and_high (q * 2 + r) k, ap (λ x. bit_and x (2 ^ k)) half)

-- The bit that is or-ed in is there, and no other bit changes.
pub or_self : (a k : ℕ) → bit_and (bit_or a (2 ^ k)) (2 ^ k) ≡ 2 ^ k
or_self a zero = omega (arith, and_low (bit_or a 1), or_low a)
or_self a (suc k) = rw (or_high a k) (
    omega (
      arith,
      and_high_of (bit_or (a / 2) (2 ^ k)) (a % 2) k (omega arith),
      or_self (a / 2) k,
      pow-suc 2 k,
    ))

pub or_other : (a k j : ℕ) → j ≢ k → bit_and (bit_or a (2 ^ k)) (2 ^ j) ≡ bit_and a (2 ^ j)
or_other a zero zero h = absurd (h refl)
or_other a zero (suc j) h =
    rw (or_low a) (omega (arith, and_high_of (a / 2) 1 j (omega arith), and_high a j))
or_other a (suc k) zero h =
    rw (or_high a k) (omega (arith, and_low (bit_or (a / 2) (2 ^ k) * 2 + a % 2), and_low a))
or_other a (suc k) (suc j) h = rw (or_high a k) (
    omega (
      arith,
      and_high_of (bit_or (a / 2) (2 ^ k)) (a % 2) j (omega arith),
      or_other (a / 2) k j (λ e. h (ap suc e)),
      and_high a j,
    ))

-- The bit that is xor-ed in is flipped, and no other bit changes.
pub xor_self : (a k : ℕ) → bit_and (bit_xor a (2 ^ k)) (2 ^ k) + bit_and a (2 ^ k) ≡ 2 ^ k
xor_self a zero = omega (arith, and_low (bit_xor a 1), xor_low a, and_low a)
xor_self a (suc k) = rw (xor_high a k) (
    omega (
      arith,
      and_high_of (bit_xor (a / 2) (2 ^ k)) (a % 2) k (omega arith),
      xor_self (a / 2) k,
      pow-suc 2 k,
      and_high a k,
    ))

pub xor_other : (a k j : ℕ) → j ≢ k → bit_and (bit_xor a (2 ^ k)) (2 ^ j) ≡ bit_and a (2 ^ j)
xor_other a zero zero h = absurd (h refl)
xor_other a zero (suc j) h =
    rw (xor_low a) (omega (arith, and_high_of (a / 2) (1 - a % 2) j (omega arith), and_high a j))
xor_other a (suc k) zero h =
    rw (xor_high a k) (omega (arith, and_low (bit_xor (a / 2) (2 ^ k) * 2 + a % 2), and_low a))
xor_other a (suc k) (suc j) h = rw (xor_high a k) (
    omega (
      arith,
      and_high_of (bit_xor (a / 2) (2 ^ k)) (a % 2) j (omega arith),
      xor_other (a / 2) k j (λ e. h (ap suc e)),
      and_high a j,
    ))

pub bit_zero-and : (b : ℕ) → bit_and 0 b ≡ 0
bit_zero-and b = bit_and-bitwise 0 b

-- A single bit reads as nothing or as all of its mask.
pub single : (a k : ℕ) → (bit_and a (2 ^ k) ≡ 0) ⊎ (bit_and a (2 ^ k) ≡ 2 ^ k)
single a zero = ground (arith, and_low a)
single a (suc k) = ground (arith, single (a / 2) k, and_high a k, pow-suc 2 k)
