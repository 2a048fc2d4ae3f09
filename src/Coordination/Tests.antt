-- ===== src/Coordination/Tests.antt =====
-- coordination: runs of the backoff and the limiter at concrete inputs. Floats are whole numbers here,
-- and Redis is a function of the keys.
use photon.Base.{
  ℕ, ◌+◌, ◌≤◌, ◌≡◌, refl, arith, Bool, true, false, ◌&&◌, Option, none, some, ◌<◌, if◌then◌else◌,
  ◌==◌,
}
use photon.Base.{String, string_discrete, ite, ltb, ◌/◌, ◌-◌, min}
use photon.Coordination.RateLimiter.{
  Bucket, Cmd, int64_result, failed_cmd, Redis, IsRedis, RedisLimiter, answer, refilled, take,
  allow,
}
use photon.Coordination.RateLimiter.Calls.{take-refilled, granted, idle_is_full, allow_apart}
use photon.Base.Int.{ℤ, pos, ltb_ℤ, leb_ℤ}
use photon.Coordination.Backoff.{
  Floats, Backoff, Result, success, failure, done, exhausted, retry, new_backoff,
}
use photon.Coordination.Backoff.Delays.{Converts}
use photon.Coordination.Backoff.Runs.{GoesOn, retry_succeeds, retry_exhausts}

abbrev whole : Floats ℤ
whole = record {
  of_int = λ n. n;
  to_int = λ x. x;
  mul = λ a b. a;
  add = λ a b. a;
  div = λ a b. a;
  pow = λ a n. a;
  less = ltb_ℤ;
  same = λ a b. leb_ℤ a b && leb_ℤ b a;
}

whole-Converts : Converts whole
whole-Converts = record {
  whole = λ m x h s l. ground (arith, l);
  number = λ m. ground arith;
  irreflexive = λ x. ground arith;
}

abbrev standard : Backoff ℤ ℕ
standard = new_backoff whole

-- A failure, and then a success.
abbrev flaky : ℕ → Result ℕ ℕ
flaky i = if i == 0 then failure 0 503 else success 7

abbrev down : ℕ → Result ℕ ℕ
down i = failure 0 500

abbrev patient : ℕ → Option ℕ
patient i = none

abbrev no_bytes : ℕ → Option ℕ
no_bytes i = none

flaky-GoesOn : (i : ℕ) → i < 1 → GoesOn whole standard flaky no_bytes patient i
flaky-GoesOn i h = record {
  value = 0;
  error = 503;
  fails = ground (arith, h);
  again = refl;
  waits = refl;
}

down-GoesOn : (i : ℕ) → GoesOn whole standard down no_bytes patient i
down-GoesOn i = record { value = 0; error = 500; fails = refl; again = refl; waits = refl }

retry_succeeds_example :
    let r = retry whole standard flaky no_bytes patient in (r.outcome ≡ done 7) × (r.calls ≡ 1 + 1)
retry_succeeds_example =
    retry_succeeds whole standard flaky no_bytes patient 1 7 flaky-GoesOn refl (omega arith)

retry_exhausts_example :
    let r = retry whole standard down no_bytes patient in (r.outcome ≡ exhausted) × (r.calls ≡ 6)
retry_exhausts_example = retry_exhausts whole standard down no_bytes patient (λ i h. down-GoesOn i)

-- The keys with their buckets, and the times when they expire.
abbrev Keys : Type 0
Keys = String → Option (Bucket × Option ℕ)

abbrev fetch : ℕ → Option (Bucket × Option ℕ) → Option Bucket
fetch t none = none
fetch t (some (b, none)) = some b
fetch t (some (b, some e)) = if ltb t e then some b else none

abbrev expire : ℕ → Option (Bucket × Option ℕ) → Option (Bucket × Option ℕ)
expire e none = none
expire e (some (b, _)) = some (b, some e)

abbrev to_cmd : Bool → Cmd
to_cmd true = int64_result (pos 1)
to_cmd false = failed_cmd

abbrev server : Redis Keys
server = record {
  hmget = λ t k s. fetch t (s k);
  hmset = λ t k b s j. ite (string_discrete k j) (some (b, none)) (s j);
  pexpire = λ t k ttl s j. ite (string_discrete k j) (expire (t + ttl) (s j)) (s j);
  boolean = to_cmd;
}

server-IsRedis : IsRedis server
server-IsRedis = record {
  lives = λ t t' ttl k b s h l. ground (arith, h, l);
  expires = λ t t' ttl k b s h. ground (arith, h);
  apart = λ t t' ttl k j b s n. ground (arith, n);
  says_true = refl;
  says_false = refl;
}

abbrev limiter : RedisLimiter
limiter = record { max_tokens = 5; interval = 1_000 }

abbrev spent : Bucket
spent = record { tokens = 0; last = 500 }

abbrev spent_keys : Keys
spent_keys k = some (spent, none)

take-refilled_example :
    let (b', allowed) = take (refilled limiter 2_600 (some spent)) in
    (b'.tokens ≤ 5)
    × (b'.tokens + granted allowed ≤ 0 + (2_600 - 500) / 1_000)
    × (allowed ≡ ltb 0 (min 5 (0 + (2_600 - 500) / 1_000)))
take-refilled_example = take-refilled limiter 2_600 spent (omega arith) (omega arith)

abbrev user : String
user = "user"

abbrev guest : String
guest = "guest"

idle_is_full_example :
    let s' = (allow server limiter 600 600 user spent_keys).0 in
    (refilled limiter 2_600 (server.hmget 2_600 user s') ≡ record { tokens = 5; last = 2_600 })
    × ((allow server limiter 2_600 2_600 user s').1 ≡ answer true)
idle_is_full_example =
    idle_is_full server limiter 600 600 2_600 2_600 user spent_keys server-IsRedis (omega arith)
      (omega arith)

allow_apart_example :
    server.hmget 700 guest (allow server limiter 600 600 user spent_keys).0
    ≡ server.hmget 700 guest spent_keys
allow_apart_example =
    allow_apart server limiter 600 600 700 user guest spent_keys server-IsRedis (λ e. absurd (cc))
