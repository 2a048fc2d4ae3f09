-- ===== src/Coordination/Backoff/Runs.antt =====
-- coordination/backoff/exponential.go: the runs of `Retry`.
use photon.Base.{
  ℕ, zero, suc, ◌+◌, ◌≤◌, ◌<◌, ◌≡◌, refl, arith, true, Option, none, List, [], ◌∷◌, ◌++◌, sym,
  ℕ_discrete, inl, inr, ◌⊎◌,
}
use photon.Coordination.Backoff.{
  Floats, Backoff, Result, success, failure, done, exhausted, RetryContext, retryable, attempts,
  retry_from, retry, get_delay,
}

Result-cases :
    {V E : Type 0} (r : Result V E)
    → ((v : V) × (r ≡ success v)) ⊎ ((v : V) × (e : E) × (r ≡ failure v e))
Result-cases (success v) = inl (v, refl)
Result-cases (failure v e) = inr (v, e, refl)

module _ {F E V X : Type 0} (fs : Floats F) (b : Backoff F E) (fn : ℕ → Result V E)
    (bytes : ℕ → Option ℕ) (interrupted : ℕ → Option X) where
  -- An attempt that fails and is followed by another one.
  pub record GoesOn (i : ℕ) : Type 0 where
    pub value : V
    pub error : E
    pub fails : fn i ≡ failure value error
    pub again : retryable b error ≡ true
    pub waits : interrupted i ≡ none

  abbrev report_of : ℕ → E → RetryContext E
  report_of attempt e = record {
    attempt = suc attempt;
    delay_used = get_delay fs b (bytes attempt) (suc attempt);
    error = e;
  }

  retry_from-calls :
      (left attempt : ℕ) (reports : List (RetryContext E))
      → (let r = retry_from fs b fn bytes interrupted left attempt reports in
          (attempt ≤ r.calls) × (r.calls ≤ attempt + left))
  unfolding retry_from
  retry_from-calls zero attempt reports = (omega arith, omega arith)
  retry_from-calls (suc left) attempt reports = elim (Result-cases (fn attempt)) [
    | inl (v, e) ↦ rw (e, retry_from) (omega arith, omega arith)
    | inr (v, x, e) ↦
        let one = retry_from-calls left (suc attempt) reports in
        let other = retry_from-calls left (suc attempt) (reports ++ (report_of attempt x ∷ [])) in
        rw (e, retry_from) (ground (arith, one, other))
  ]

  -- `Retry` calls the function at most `MaxRetries` times and once more, and not at all for a
  -- negative number.
  pub retry-calls : let r = retry fs b fn bytes interrupted in r.calls ≤ attempts b.max_retries
  unfolding retry
  retry-calls = omega (arith, retry_from-calls (attempts b.max_retries) 0 [])

  retry_from_succeeds :
      (left attempt n : ℕ) (v : V) (reports : List (RetryContext E))
      → ((i : ℕ) → attempt ≤ i → i < n → GoesOn i)
      → fn n ≡ success v
      → attempt ≤ n
      → n < attempt + left
      → (let r = retry_from fs b fn bytes interrupted left attempt reports in
          (r.outcome ≡ done v) × (r.calls ≡ n + 1))
  unfolding retry_from
  retry_from_succeeds zero attempt n v reports on ok l m = absurd (omega arith)
  retry_from_succeeds (suc left) attempt n v reports on ok l m = elim (ℕ_discrete n attempt) [
    | yes e ↦
        let ok' : fn attempt ≡ success v = rw (sym e) ok in rw (ok', retry_from) (refl, omega arith)
    | no ne ↦
        let g = on attempt (omega arith) (omega arith) in
        let rest =
          retry_from_succeeds left (suc attempt) n v (reports ++ (report_of attempt g.error ∷ []))
            (λ i h. on i (omega arith)) ok (omega arith) (omega arith) in
        rw (g.fails, retry_from) (ground (arith, g.again, g.waits, rest))
  ]

  -- When the function succeeds at an attempt within the configured number, and every attempt
  -- before fails with an error that can be retried and waits for its delay undisturbed, `Retry`
  -- returns that value after calling the function exactly that often.
  pub retry_succeeds :
      (k : ℕ) (v : V)
      → ((i : ℕ) → i < k → GoesOn i)
      → fn k ≡ success v
      → k < attempts b.max_retries
      → (let r = retry fs b fn bytes interrupted in (r.outcome ≡ done v) × (r.calls ≡ k + 1))
  unfolding retry
  retry_succeeds k v on ok l =
      retry_from_succeeds (attempts b.max_retries) 0 k v [] (λ i h. on i) ok (omega arith)
        (omega arith)

  retry_from_exhausts :
      (left attempt : ℕ) (reports : List (RetryContext E))
      → ((i : ℕ) → attempt ≤ i → i < attempt + left → GoesOn i)
      → (let r = retry_from fs b fn bytes interrupted left attempt reports in
          (r.outcome ≡ exhausted) × (r.calls ≡ attempt + left))
  unfolding retry_from
  retry_from_exhausts zero attempt reports on = (refl, omega arith)
  retry_from_exhausts (suc left) attempt reports on =
      let g = on attempt (omega arith) (omega arith) in
      let next : (i : ℕ) → suc attempt ≤ i → i < suc attempt + left → GoesOn i =
        λ i h h'. on i (omega arith) (omega arith) in
      let one = retry_from_exhausts left (suc attempt) reports next in
      let other =
        retry_from_exhausts left (suc attempt) (reports ++ (report_of attempt g.error ∷ [])) next in
      rw (g.fails, retry_from) (ground (arith, g.again, g.waits, one, other))

  -- When every attempt fails with an error that can be retried and waits undisturbed, `Retry`
  -- ends with the error of exhausted retries after exactly the configured number of attempts.
  pub retry_exhausts :
      ((i : ℕ) → i < attempts b.max_retries → GoesOn i)
      → (let r = retry fs b fn bytes interrupted in
          (r.outcome ≡ exhausted) × (r.calls ≡ attempts b.max_retries))
  unfolding retry
  retry_exhausts on =
      let it = retry_from_exhausts (attempts b.max_retries) 0 [] (λ i h h'. on i (omega arith)) in
      (it.0, omega (arith, it.1))
