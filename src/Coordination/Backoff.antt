-- ===== src/Coordination/Backoff.antt =====
-- coordination/backoff/exponential.go: `Retry` and its delays. Floats are a parameter; a run of the
-- function is a result for each attempt, and `interrupted` says of an attempt that the caller's
-- context ends before its delay does. `trail` is what the metrics hook is called with.
pub mod Delays
pub mod Runs
use photon.Base.{
  ℕ, zero, suc, ◌-◌, Bool, true, false, not, Option, none, some, List, [], ◌∷◌, ◌++◌, if◌then◌else◌,
  ltb,
}
use photon.Base.Int.{ℤ, pos, negsuc}

-- Go's float64; `pow` takes the whole exponents that the code gives it.
pub record Floats (F : Type 0) : Type 0 where
  pub of_int : ℤ → F
  pub to_int : F → ℤ
  pub mul : F → F → F
  pub add : F → F → F
  pub div : F → F → F
  pub pow : F → ℕ → F
  pub less : F → F → Bool
  pub same : F → F → Bool

-- The logger, the hook and the timeout of one attempt do not take part in the decisions.
pub record Backoff (F E : Type 0) : Type 0 where
  pub min_delay : ℤ
  pub max_delay : ℤ
  pub max_retries : ℤ
  pub factor : F
  pub jitter : Bool
  pub retry_if : Option (E → Bool)
  pub strategy : Option (ℕ → ℤ)
  pub deterministic : Bool

-- `NewBackoff` without options.
abbrev pub new_backoff : {F E : Type 0} → Floats F → Backoff F E
new_backoff fs = record {
  min_delay = pos 100_000_000;
  max_delay = pos 10_000_000_000;
  max_retries = pos 5;
  factor = fs.of_int (pos 2);
  jitter = true;
  retry_if = none;
  strategy = none;
  deterministic = false;
}

-- The result of the function: its value and its error.
pub data Result (V E : Type 0) : Type 0 where
  success : V → Result V E
  failure : V → E → Result V E

-- What `Retry` returns; `cancelled` has the error of the context.
pub data Outcome (V E X : Type 0) : Type 0 where
  done : V → Outcome V E X
  rejected : V → E → Outcome V E X
  cancelled : X → Outcome V E X
  exhausted : Outcome V E X

-- `RetryContext`
pub record RetryContext (E : Type 0) : Type 0 where
  pub attempt : ℕ
  pub delay_used : ℤ
  pub error : E

-- What `Retry` returns, how often it called the function, and the calls of the metrics hook.
pub record Run (V E X : Type 0) : Type 0 where
  pub outcome : Outcome V E X
  pub calls : ℕ
  pub reports : List (RetryContext E)

abbrev pub retryable : {F E : Type 0} → Backoff F E → E → Bool
retryable b e = elim b.retry_if [ none ↦ true | some p ↦ p e ]

-- The attempts from 0 to `MaxRetries`.
abbrev pub attempts : ℤ → ℕ
attempts (pos n) = suc n
attempts (negsuc n) = 0

module _ {F : Type 0} (fs : Floats F) where
  -- `cryptoFloat64`, from eight random bytes, if they can be read.
  unfoldable pub crypto_float64 : Option ℕ → F
  crypto_float64 none = fs.of_int (pos 1)
  crypto_float64 (some n) = fs.div (fs.of_int (pos n)) (fs.of_int (pos 18_446_744_073_709_551_615))

  module _ {E : Type 0} (b : Backoff F E) where
    -- `randFloat`
    unfoldable pub rand_float : Option ℕ → F
    rand_float bytes = if b.deterministic then fs.of_int (pos 1) else crypto_float64 bytes

    -- The delay of `getDelay` before the cap; the jitter is 0.75 and half of the random number.
    unfoldable pub raw_delay : Option ℕ → ℕ → F
    raw_delay bytes attempt =
        let delay = fs.mul (fs.of_int b.min_delay) (fs.pow b.factor (attempt - 1)) in
        let jitter =
          fs.add (fs.div (fs.of_int (pos 3)) (fs.of_int (pos 4)))
            (fs.mul (rand_float bytes) (fs.div (fs.of_int (pos 1)) (fs.of_int (pos 2)))) in
        if b.jitter then fs.mul delay jitter else delay

    -- `getDelay`
    unfoldable pub get_delay : Option ℕ → ℕ → ℤ
    get_delay bytes attempt = elim b.strategy [
      | some strategy ↦ strategy attempt
      | none ↦
          let delay = raw_delay bytes attempt in
          if fs.less (fs.of_int b.max_delay) delay
          then fs.to_int (fs.of_int b.max_delay)
          else fs.to_int delay
    ]

    module _ {V X : Type 0} (fn : ℕ → Result V E) (bytes : ℕ → Option ℕ)
        (interrupted : ℕ → Option X) where
      -- The loop of `Retry`, with the attempts left and the number of the next one.
      unfoldable pub retry_from : ℕ → ℕ → List (RetryContext E) → Run V E X
      retry_from zero attempt reports = record {
        outcome = exhausted;
        calls = attempt;
        reports = reports;
      }
      retry_from (suc left) attempt reports = elim (fn attempt) [
        | success v ↦ record { outcome = done v; calls = suc attempt; reports = reports }
        | failure v e ↦
            let report : RetryContext E = record {
              attempt = suc attempt;
              delay_used = get_delay (bytes attempt) (suc attempt);
              error = e;
            } in
            let reports' = reports ++ (report ∷ []) in
            let rest = retry_from left (suc attempt) reports' in
            let last = retry_from left (suc attempt) reports in
            if not (retryable b e)
            then record { outcome = rejected v e; calls = suc attempt; reports = reports }
            else if ltb 0 left
            then elim (interrupted attempt) [
              | some x ↦ record { outcome = cancelled x; calls = suc attempt; reports = reports' }
              | none ↦ rest
            ]
            else last
      ]

      -- `Retry`
      unfoldable pub retry : Run V E X
      retry = retry_from (attempts b.max_retries) 0 []
