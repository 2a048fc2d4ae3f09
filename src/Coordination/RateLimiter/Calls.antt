-- ===== src/Coordination/RateLimiter/Calls.antt =====
-- coordination/concurrency/ratelimiter/redis_limiter.go: what a call of the limiter gives and costs.
use photon.Base.{
  ℕ, ◌+◌, ◌-◌, ◌*◌, ◌/◌, ◌≤◌, ◌<◌, ◌≡◌, ◌≢◌, refl, arith, min, Bool, true, false, some, String, ltb,
}
use photon.Coordination.RateLimiter.{
  Bucket, Redis, IsRedis, RedisLimiter, answer, refilled, take, script, allow,
}

abbrev pub granted : Bool → ℕ
granted true = 1
granted false = 0

-- With a positive interval and no more tokens than the limit, a call leaves at most the limit,
-- grants and keeps together at most the tokens that were there and one for each interval that has
-- passed, and is granted exactly when that makes at least one.
pub take-refilled :
    (l : RedisLimiter) (now : ℕ) (b : Bucket)
    → 0 < l.interval
    → b.tokens ≤ l.max_tokens
    → (let (b', allowed) = take (refilled l now (some b)) in
        (b'.tokens ≤ l.max_tokens)
        × (b'.tokens + granted allowed ≤ b.tokens + (now - b.last) / l.interval)
        × (allowed ≡ ltb 0 (min l.max_tokens (b.tokens + (now - b.last) / l.interval))))
unfolding take refilled
take-refilled l now b positive small = ground arith

module _ {S : Type 0} (r : Redis S) (l : RedisLimiter) where
  -- When twice the interval passes between two calls for a key, its bucket has expired: the
  -- next call works with a full bucket, however few tokens were left, and is allowed; the limit
  -- is positive and Redis keeps what it documents.
  pub idle_is_full :
      (time now time' now' : ℕ) (key : String) (s : S)
      → IsRedis r
      → time + l.interval * 2 ≤ time'
      → 0 < l.max_tokens
      → (let s' = (allow r l time now key s).0 in
          (refilled l now' (r.hmget time' key s') ≡ record { tokens = l.max_tokens; last = now' })
          × ((allow r l time' now' key s').1 ≡ answer true))
  unfolding allow script
  idle_is_full time now time' now' key s laws idle some_tokens =
      let gone =
        laws.expires time time' (l.interval * 2) key (take (refilled l now (r.hmget time key s))).0
          s idle in
      (
        rw gone (unfold refilled in refl),
        rw gone (unfold refilled take in ground (arith, some_tokens, laws.says_true)),
      )

  -- Calls of one key do not touch the buckets of another one.
  pub allow_apart :
      (time now time' : ℕ) (key other : String) (s : S)
      → IsRedis r
      → key ≢ other
      → r.hmget time' other (allow r l time now key s).0 ≡ r.hmget time' other s
  unfolding allow script
  allow_apart time now time' key other s laws ne = laws.apart time time' _ key other _ s ne
