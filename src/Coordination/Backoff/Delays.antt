-- ===== src/Coordination/Backoff/Delays.antt =====
-- coordination/backoff/exponential.go: the bound of the delays.
use photon.Base.{ℕ, ◌≡◌, arith, true, false, Option, none, Bool-cases, inl, inr}
use photon.Base.Int.{ℤ, pos, ◌≤ℤ◌}
use photon.Coordination.Backoff.{Floats, Backoff, raw_delay, get_delay}

-- What the code relies on of the conversions: a whole number up to 2^53 bounds the whole part of
-- every float, NaN apart, that it is not less than, and is a number itself.
pub record Converts {F : Type 0} (fs : Floats F) : Type 0 where
  pub whole :
      (m : ℤ) (x : F)
      → m ≤ℤ pos 9_007_199_254_740_992
      → fs.same x x ≡ true
      → fs.less (fs.of_int m) x ≡ false
      → fs.to_int x ≤ℤ m
  pub number : (m : ℤ) → fs.same (fs.of_int m) (fs.of_int m) ≡ true
  pub irreflexive : (x : F) → fs.less x x ≡ false

-- Without a strategy of the caller the delay of an attempt is at most the configured maximum,
-- when that is at most 2^53 nanoseconds and the delay before the cap is a number.
pub get_delay-le :
    {F E : Type 0} (fs : Floats F) (b : Backoff F E) (bytes : Option ℕ) (attempt : ℕ)
    → Converts fs
    → b.strategy ≡ none
    → b.max_delay ≤ℤ pos 9_007_199_254_740_992
    → fs.same (raw_delay fs b bytes attempt) (raw_delay fs b bytes attempt) ≡ true
    → get_delay fs b bytes attempt ≤ℤ b.max_delay
unfolding get_delay
get_delay-le fs b bytes attempt c s small number =
    let x = raw_delay fs b bytes attempt in
    let m = b.max_delay in
    elim (Bool-cases (fs.less (fs.of_int m) x)) [
      | inl e ↦
          let most = c.whole m (fs.of_int m) small (c.number m) (c.irreflexive _) in
          ground (arith, s, e, most)
      | inr e ↦ let most = c.whole m x small number e in ground (arith, s, e, most)
    ]
