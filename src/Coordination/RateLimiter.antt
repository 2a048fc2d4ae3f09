-- ===== src/Coordination/RateLimiter.antt =====
-- coordination/concurrency/ratelimiter/redis_limiter.go: the token bucket, which a Lua script keeps in
-- a hash of Redis. Redis and its client are parameters. Times are milliseconds: `now` is the clock of
-- the caller, `time` that of the server. Numbers of the script stay below 2^53.
pub mod Calls
use photon.Base.{
  ℕ, ◌+◌, ◌-◌, ◌*◌, ◌/◌, ◌≤◌, ◌<◌, ◌≡◌, ◌≢◌, min, Bool, true, false, Option, none, some, String,
  if◌then◌else◌, ltb, ◌==◌,
}
use photon.Base.Int.{ℤ, pos}

-- The fields `tokens` and `last` of the hash of a key.
pub record Bucket : Type 0 where
  pub tokens : ℕ
  pub last : ℕ

-- What the client makes of the reply to a script.
pub data Cmd : Type 0 where
  int64_result : ℤ → Cmd
  other_result failed_cmd : Cmd

-- The commands of the script, HMGET, HMSET and PEXPIRE, at a time of the server, and the way
-- of a Lua boolean to the client.
pub record Redis (S : Type 0) : Type 0 where
  pub hmget : ℕ → String → S → Option Bucket
  pub hmset : ℕ → String → Bucket → S → S
  pub pexpire : ℕ → String → ℕ → S → S
  pub boolean : Bool → Cmd

-- What the documentation of Redis says of them: a hash can be read until it expires and is gone then,
-- other keys are not touched, true becomes the integer 1 and false a nil reply, which the client
-- returns as an error.
pub record IsRedis {S : Type 0} (r : Redis S) : Type 0 where
  pub lives :
      (t t' ttl : ℕ) (k : String) (b : Bucket) (s : S)
      → t ≤ t'
      → t' < t + ttl
      → r.hmget t' k (r.pexpire t k ttl (r.hmset t k b s)) ≡ some b
  pub expires :
      (t t' ttl : ℕ) (k : String) (b : Bucket) (s : S)
      → t + ttl ≤ t'
      → r.hmget t' k (r.pexpire t k ttl (r.hmset t k b s)) ≡ none
  pub apart :
      (t t' ttl : ℕ) (k j : String) (b : Bucket) (s : S)
      → k ≢ j
      → r.hmget t' j (r.pexpire t k ttl (r.hmset t k b s)) ≡ r.hmget t' j s
  pub says_true : r.boolean true ≡ int64_result (pos 1)
  pub says_false : r.boolean false ≡ failed_cmd

-- The interval is in whole milliseconds.
pub record RedisLimiter : Type 0 where
  pub max_tokens : ℕ
  pub interval : ℕ

pub data Allowed : Type 0 where
  answer : Bool → Allowed
  script_error unexpected_type : Allowed

-- The quotient of the script, rounded down; one by zero is zero or more than everything.
abbrev pub refill_of : RedisLimiter → ℕ → ℕ
refill_of l delta =
    if l.interval == 0 then (if delta == 0 then 0 else l.max_tokens) else delta / l.interval

-- The bucket that the script works with: a new one if there is none, and refilled.
unfoldable pub refilled : RedisLimiter → ℕ → Option Bucket → Bucket
refilled l now none = record { tokens = l.max_tokens; last = now }
refilled l now (some b) =
    let refill = refill_of l (now - b.last) in
    if ltb 0 refill then record { tokens = min l.max_tokens (b.tokens + refill); last = now } else b

-- The bucket after the script, and its answer.
unfoldable pub take : Bucket → Bucket × Bool
take b = if ltb 0 b.tokens then (record b { tokens = b.tokens - 1 }, true) else (b, false)

abbrev pub eq_one : ℤ → Bool
eq_one (pos n) = n == 1
eq_one _ = false

abbrev pub read : Cmd → Allowed
read (int64_result n) = answer (eq_one n)
read other_result = unexpected_type
read failed_cmd = script_error

module _ {S : Type 0} (r : Redis S) (l : RedisLimiter) where
  -- The script of `getScript`.
  unfoldable pub script : ℕ → ℕ → String → S → S × Bool
  script time now key s =
      let (b, allowed) = take (refilled l now (r.hmget time key s)) in
      (r.pexpire time key (l.interval * 2) (r.hmset time key b s), allowed)

  -- `Allow`
  unfoldable pub allow : ℕ → ℕ → String → S → S × Allowed
  allow time now key s = let (s', allowed) = script time now key s in (s', read (r.boolean allowed))
