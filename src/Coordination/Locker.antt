-- ===== src/Coordination/Locker.antt =====
-- coordination/concurrency/lock/redis_locker.go: locks with fencing tokens, which Lua scripts keep in
-- Redis. The commands of Redis and the printing of numbers are parameters. `time` is the server's
-- clock in milliseconds. The store of a locker holds what `Lock` puts into it.
pub mod Fencing
mod Examples
use Prim.Native.String.{◌++◌}
use photon.Base.{
  ℕ, ◌+◌, ◌/◌, ◌%◌, Bool, not, Option, none, some, List, [], ◌∷◌, String, string_discrete, ite,
  if◌then◌else◌, ltb, ◌==◌,
}
use photon.Base.Dict
use photon.Base.Dict.{Dict}
use photon.Base.Int.{ℤ, pos, negsuc}

-- GET (`none` is nil), EXISTS, INCR (`none` is an error), PSETEX, DEL, PEXPIRE; `print` is the
-- decimal form of a number, the same in Lua and in Go.
pub record Redis (S : Type 0) : Type 0 where
  pub get : ℕ → String → S → Option String
  pub exists : ℕ → String → S → Bool
  pub incr : ℕ → String → S → S × Option ℕ
  pub psetex : ℕ → String → ℕ → String → S → S
  pub del : ℕ → String → S → S × ℕ
  pub pexpire : ℕ → String → ℕ → S → S × ℕ
  pub print : ℕ → String

-- `redisLockState`
pub record RedisLockState : Type 0 where
  pub value : String
  pub token : ℕ

abbrev pub Held : Type 0
Held = Dict String RedisLockState

pub data LockError : Type 0 where
  not_positive redis_error not_acquired not_held : LockError

pub data Reply (A : Type 0) : Type 0 where
  ok : A → Reply A
  fail : LockError → Reply A

-- `durationMilliseconds`, of nanoseconds that are not negative.
unfoldable pub duration_milliseconds : ℕ → ℕ
duration_milliseconds d =
    let millis = d / 1_000_000 in if not (d % 1_000_000 == 0) then millis + 1 else millis

-- `fencingCounterKey`
abbrev pub fencing_counter_key : String → String
fencing_counter_key key = key ++ ":fence"

module _ {S : Type 0} (r : Redis S) where
  -- `lockValue`
  abbrev pub lock_value : ℕ → String → String
  lock_value token owner = r.print token ++ ":" ++ owner

  -- `tryAcquire`: an error, 0 for a lock that is taken, or the token.
  unfoldable pub try_acquire : ℕ → String → String → ℕ → S → S × Option ℕ
  try_acquire time key owner expiry s =
      if r.exists time key s
      then (s, some 0)
      else let (s', n) = r.incr time (fencing_counter_key key) s in
        elim n [
          | none ↦ (s', none)
          | some token ↦ (r.psetex time key expiry (lock_value token owner) s', some token)
        ]

  -- The loop of `Lock`, over the times of its tries until the context is done.
  unfoldable pub lock_from : String → String → ℕ → List ℕ → Held → S → Held × (S × Reply ℕ)
  lock_from key owner expiry [] held s = (held, (s, fail not_acquired))
  lock_from key owner expiry (time ∷ times) held s =
      let (s', token) = try_acquire time key owner expiry s in
      let rest = lock_from key owner expiry times held s' in
      elim token [
        | none ↦ (held, (s', fail redis_error))
        | some t ↦
            if ltb 0 t
            then (
              Dict.put string_discrete key (record { value = lock_value t owner; token = t }) held,
              (s', ok t),
            )
            else rest
      ]

  -- `Lock`, with the expiry in nanoseconds.
  unfoldable pub lock : String → String → ℤ → ℕ → List ℕ → Held → S → Held × (S × Reply ℕ)
  lock key owner (negsuc n) time times held s = (held, (s, fail not_positive))
  lock key owner (pos n) time times held s =
      if n == 0
      then (held, (s, fail not_positive))
      else lock_from key owner (duration_milliseconds n) (time ∷ times) held s

  -- The script of `Unlock`.
  unfoldable pub delete_if : ℕ → String → String → S → S × ℕ
  delete_if time key value s = elim (r.get time key s) [
    | none ↦ (s, 0)
    | some v ↦ ite (string_discrete v value) (r.del time key s) (s, 0)
  ]

  -- `Unlock`
  unfoldable pub unlock : ℕ → String → Held → S → Held × (S × Reply (Unit {0}))
  unlock time key held s = elim (Dict.get string_discrete key held) [
    | none ↦ (held, (s, fail not_held))
    | some state ↦
        ite (string_discrete state.value "") (held, (s, fail not_held))
          (let (s', n) = delete_if time key state.value s in
            if n == 0
            then (Dict.del string_discrete key held, (s', fail not_held))
            else (Dict.del string_discrete key held, (s', ok tt)))
  ]

  -- The script of `Extend`.
  unfoldable pub expire_if : ℕ → String → String → ℕ → S → S × ℕ
  expire_if time key value millis s = elim (r.get time key s) [
    | none ↦ (s, 0)
    | some v ↦ ite (string_discrete v value) (r.pexpire time key millis s) (s, 0)
  ]

  -- `Extend`, by nanoseconds.
  unfoldable pub extend : ℕ → String → ℤ → Held → S → Held × (S × Reply (Unit {0}))
  extend time key (negsuc n) held s = (held, (s, fail not_positive))
  extend time key (pos n) held s =
      if n == 0 then (held, (s, fail not_positive)) else elim (Dict.get string_discrete key held) [
        | none ↦ (held, (s, fail not_held))
        | some state ↦
            ite (string_discrete state.value "") (held, (s, fail not_held))
              (let (s', k) = expire_if time key state.value (duration_milliseconds n) s in
                if k == 0
                then (Dict.del string_discrete key held, (s', fail not_held))
                else (held, (s', ok tt)))
      ]

-- `FencingToken`
unfoldable pub fencing_token : String → Held → Option ℕ
fencing_token key held = elim (Dict.get string_discrete key held) [
  | none ↦ none
  | some state ↦
      ite (string_discrete state.value "") none
        (if state.token == 0 then none else some state.token)
]
