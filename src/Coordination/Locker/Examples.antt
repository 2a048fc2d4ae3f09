-- ===== src/Coordination/Locker/Examples.antt =====
-- coordination/concurrency/lock: runs of the locker over a small Redis: the counters, and the values
-- with the times when they expire.
use photon.Base.{
  ℕ, ◌+◌, ◌*◌, ◌<◌, ◌≤◌, ◌≡◌, refl, arith, Bool, true, false, ◌||◌, Option, none, some, List, [],
  ◌∷◌, String, string_discrete, ite, if◌then◌else◌, ltb,
}
use photon.Coordination.Locker.{
  Redis, not_acquired, fail, fencing_counter_key, try_acquire, lock_from, duration_milliseconds,
}
use photon.Coordination.Locker.Fencing.{
  IsRedis, Try, Increasing, tokens_of, tokens_increase, lock_excludes, duration_milliseconds_lem,
}

abbrev Keys : Type 0
Keys = (String → ℕ) × (String → Option (String × ℕ))

abbrev fetch : ℕ → Option (String × ℕ) → Option String
fetch t none = none
fetch t (some (v, e)) = if ltb t e then some v else none

abbrev is_some : Option String → Bool
is_some none = false
is_some (some v) = true

abbrev server : Redis Keys
server = record {
  get = λ t k s. fetch t (s.1 k);
  exists = λ t k s. is_some (fetch t (s.1 k)) || ltb 0 (s.0 k);
  incr = λ t k s.
      if is_some (fetch t (s.1 k))
      then (s, none)
      else (((λ i. ite (string_discrete k i) (s.0 k + 1) (s.0 i)), s.1), some (s.0 k + 1));
  psetex = λ t k ttl v s. (
    (λ i. ite (string_discrete k i) 0 (s.0 i)),
    (λ i. ite (string_discrete k i) (some (v, t + ttl)) (s.1 i)),
  );
  del = λ t k s. (s, 0);
  pexpire = λ t k ttl s. (s, 0);
  print = λ n. "n";
}

abbrev counter : String → Keys → ℕ
counter k s = s.0 k

server-IsRedis : IsRedis server counter
server-IsRedis = record {
  counts = λ t k s n h. ground (arith, h);
  refuses = λ t k s h. ground (arith, h);
  lives = λ t t' ttl k v s l l'. ground (arith, l, l');
  incr_apart = λ t j k s n. ground (arith, n);
  psetex_apart = λ t ttl j k v s n. ground (arith, n);
}

abbrev nothing : Keys
nothing = ((λ k. 0), (λ k. none))

abbrev job : String
job = "job"

abbrev tries : List Try
tries =
    record { time = 10; expiry = 100; key = "job"; owner = "a" }
    ∷ record { time = 500; expiry = 100; key = "job"; owner = "b" }
    ∷ []

tokens_increase_example :
    Increasing (counter (fencing_counter_key job) nothing) (tokens_of server job tries nothing)
tokens_increase_example =
    tokens_increase server counter server-IsRedis job tries nothing
      ((λ e. absurd (cc)), ((λ e. absurd (cc)), tt))

lock_excludes_example :
    let s' = (try_acquire server 10 job "a" 100 nothing).0 in
    lock_from server job "b" 100 (20 ∷ 109 ∷ []) [] s' ≡ ([], (s', fail not_acquired))
unfolding try_acquire
lock_excludes_example =
    lock_excludes server counter server-IsRedis 10 100 1 job "a" "b" (20 ∷ 109 ∷ []) [] nothing refl
      (omega arith) ((omega arith, omega arith), ((omega arith, omega arith), tt))

duration_milliseconds_lem_example :
    (1_500_000 ≤ duration_milliseconds 1_500_000 * 1_000_000)
    × (duration_milliseconds 1_500_000 * 1_000_000 < 1_500_000 + 1_000_000)
duration_milliseconds_lem_example = duration_milliseconds_lem 1_500_000
