-- ===== src/Flashdb/Cell.antt =====
-- storage/flashdb/store.go, the operations on one key: each works on the key's shard and on the
-- TinyLFU that all shards share. `now` is the clock's reading at the start of the operation.
pub mod Accounting
pub mod Invariant
pub mod Operations
pub mod Safety
pub mod Writes
pub mod Effects
use photon.Base.{
  ℕ, suc, ◌+◌, ◌-◌, ◌%◌, Option, none, some, List, [], ◌∷◌, ◌++◌, Bool, true, false, ltb, leb, ◌==◌,
  ◌&&◌, if◌then◌else◌, String, string_discrete,
}
use photon.Base.Dict
use photon.Base.Int.{ℤ, pos, negsuc, pos_part, ◌-ℤ◌, ltb_ℤ, leb_ℤ, wrap_int64}
use photon.Stdlib.Lru
use photon.Stdlib.TinyLfu
use photon.Stdlib.TinyLfu.{TinyLfu}
use photon.Flashdb.Value.{
  str, Fields, Env, Record, Reply, ok, fail, StoreError, not_found, bad_type, illegal_field,
  is_expired, add_int, compute_size, non_negative,
}
use photon.Flashdb.Shard
use photon.Flashdb.Shard.{Shard, two64}

pub record Cell : Type 0 where
  pub shard : Shard
  pub lfu : Option (TinyLfu String)

abbrev pub find : String → Shard → Option Record
find key sh = Dict.get string_discrete key sh.entries

abbrev pub store : String → Record → Shard → Shard
store key r sh = record sh { entries = Dict.put string_discrete key r sh.entries }

-- `s.lfu.Record(key)`, if there is a TinyLFU.
unfoldable pub note : String → Option (TinyLfu String) → Option (TinyLfu String)
note key none = none
note key (some t) = some (TinyLfu.note t key)

-- Recency and frequency of a key that was used.
unfoldable pub used : String → Cell → Cell
unfolding note
used key c = record { shard = Shard.bump key c.shard; lfu = note key c.lfu }

-- The record of a key, if it is there and not expired; an expired one is removed on the way.
unfoldable pub live : ℕ → String → Cell → Cell × Option Record
live now key c = elim (find key c.shard) [
  | none ↦ (c, none)
  | some r ↦
      if is_expired r now
      then (record c { shard = Shard.remove key c.shard }, none)
      else (c, some r)
]

-- `Get`
unfoldable pub get : ℕ → String → Cell → Cell × Reply Fields
unfolding live used
get now key c =
    let (c', found) = live now key c in
    elim found [ none ↦ (c', fail not_found) | some r ↦ (used key c', ok r.value) ]

-- The accounting of an update from one size to another, in uint64 arithmetic.
unfoldable pub resize : ℤ → ℤ → ℕ → ℕ
resize old new current =
    if leb_ℤ old new
    then (current + non_negative (wrap_int64 (new -ℤ old))) % two64
    else (current + two64 - non_negative (wrap_int64 (old -ℤ new))) % two64

-- `Set` of a key that is there: an unconditional update, and the trim.
unfoldable pub update : String → Record → Record → Shard → Shard
unfolding resize
update key r r' sh =
    let sh' = record sh {
      entries = Dict.put string_discrete key r' sh.entries;
      current_size =
          if leb_ℤ (pos 0) r'.size then resize r.size r'.size sh.current_size else sh.current_size;
    } in
    Shard.trim_all (Shard.bump key sh')

-- `Set` of a new key, the TinyLFU already told of it.
unfoldable pub insert : String → Record → Cell → Cell × Bool
insert key r c =
    let cost = non_negative r.size in
    if ltb c.shard.capacity cost
    then (c, false)
    else let (sh, room) = Shard.make_room (suc (Lru.len c.shard.lru)) c.lfu key cost c.shard in
      if room
      then (
        record c {
          shard = record sh {
            entries = Dict.put string_discrete key r sh.entries;
            current_size = (sh.current_size + cost) % two64;
            lru = (Lru.set string_discrete key tt sh.lru).0;
          };
        },
        true,
      )
      else (record c { shard = sh }, false)

-- The TTL that applies, and the time of expiry that it gives; 0 is none.
unfoldable pub expiry_of : ℕ → ℤ → ℤ → ℕ
expiry_of now default_ttl ttl =
    let is_zero = leb_ℤ ttl (pos 0) && leb_ℤ (pos 0) ttl in
    let t = if is_zero && ltb_ℤ (pos 0) default_ttl then default_ttl else ttl in
    if ltb_ℤ (pos 0) t then now + pos_part t else 0

-- `Set`
unfoldable pub set : Env → ℤ → ℕ → String → Fields → ℤ → Cell → Cell × Bool
unfolding expiry_of note
set env default_ttl now key value ttl c =
    let r : Record = record {
      value = value;
      size = compute_size env key value;
      expiry = expiry_of now default_ttl ttl;
    } in
    let c' = record c { lfu = note key c.lfu } in
    elim (find key c.shard) [
      | some old ↦ (record c' { shard = update key old r c.shard }, true)
      | none ↦ insert key r c'
    ]

-- `Delete`
unfoldable pub delete : String → Cell → Cell × Bool
delete key c = elim (find key c.shard) [
  | none ↦ (c, false)
  | some r ↦ (record c { shard = Shard.remove key c.shard }, true)
]

-- The loop of `Increment`, in the order in which the map of offsets is walked: the value after the
-- updates that were made, and the error that stopped it.
unfoldable pub increment_fields : Env → List (String × ℤ) → Fields → Fields × Option StoreError
increment_fields env [] value = (value, none)
increment_fields env ((field, delta) ∷ rest) value = elim (Dict.get string_discrete field value) [
  | none ↦ (value, some illegal_field)
  | some cur ↦ elim (add_int env cur delta) [
    | none ↦ (value, some bad_type)
    | some next ↦ increment_fields env rest (Dict.put string_discrete field next value)
  ]
]

-- `Increment`: the record is changed in place, so also when a later field fails.
unfoldable pub increment : Env → ℕ → String → List (String × ℤ) → Cell → Cell × Reply (Unit {0})
unfolding live used
increment env now key offsets c =
    let (c', found) = live now key c in
    elim found [
      | none ↦ (c', fail not_found)
      | some r ↦
          let (value', stopped) = increment_fields env offsets r.value in
          let c'' = record c' { shard = store key (record r { value = value' }) c'.shard } in
          elim stopped [ some e ↦ (c'', fail e) | none ↦ (used key c'', ok tt) ]
    ]

-- `Decrement`: the offsets are negated in int64 arithmetic.
unfoldable pub negate_all : List (String × ℤ) → List (String × ℤ)
negate_all [] = []
negate_all ((field, delta) ∷ rest) = (field, wrap_int64 (pos 0 -ℤ delta)) ∷ negate_all rest

unfoldable pub decrement : Env → ℕ → String → List (String × ℤ) → Cell → Cell × Reply (Unit {0})
decrement env now key offsets c = increment env now key (negate_all offsets) c

-- The loop of `Append`.
unfoldable pub append_fields : List (String × List ℕ) → Fields → Fields × Option StoreError
append_fields [] value = (value, none)
append_fields ((field, suffix) ∷ rest) value = elim (Dict.get string_discrete field value) [
  | none ↦ (value, some illegal_field)
  | some (str base) ↦
      append_fields rest (Dict.put string_discrete field (str (base ++ suffix)) value)
  | some _ ↦ (value, some bad_type)
]

-- `Append`
unfoldable pub append : Env → ℕ → String → List (String × List ℕ) → Cell → Cell × Reply (Unit {0})
unfolding live used resize
append env now key appends c =
    let (c', found) = live now key c in
    elim found [
      | none ↦ (c', fail not_found)
      | some r ↦
          let (value', stopped) = append_fields appends r.value in
          elim stopped [
            | some e ↦
                (record c' { shard = store key (record r { value = value' }) c'.shard }, fail e)
            | none ↦
                let new_size = compute_size env key value' in
                let sh = record c'.shard {
                  entries =
                      Dict.put string_discrete key (record r { value = value'; size = new_size })
                        c'.shard.entries;
                  current_size = resize r.size new_size c'.shard.current_size;
                } in
                let c'' = used key (record c' { shard = sh }) in
                (record c'' { shard = Shard.trim_all c''.shard }, ok tt)
          ]
    ]

-- `GetTTL`; `remaining` reads the clock again and gives whole seconds.
unfoldable pub get_ttl : (ℕ → ℤ) → ℕ → String → Cell → Cell × Reply ℤ
unfolding live
get_ttl remaining now key c =
    let (c', found) = live now key c in
    elim found [
      | none ↦ (c', fail not_found)
      | some r ↦
          if r.expiry == 0
          then (c', ok (negsuc 0))
          else if ltb_ℤ (remaining r.expiry) (pos 0)
          then (record c' { shard = Shard.remove key c'.shard }, fail not_found)
          else (c', ok (remaining r.expiry))
    ]

-- `SetTTL`
unfoldable pub set_ttl : ℕ → String → ℤ → Cell → Cell × Reply (Unit {0})
unfolding live used
set_ttl now key ttl c =
    let (c', found) = live now key c in
    elim found [
      | none ↦ (c', fail not_found)
      | some r ↦
          let expiry' = if ltb_ℤ (pos 0) ttl then now + pos_part ttl else 0 in
          (
            used key (record c' { shard = store key (record r { expiry = expiry' }) c'.shard }),
            ok tt,
          )
    ]

-- The second half of `Exists`, under the write lock.
unfoldable pub exists_again : ℕ → String → Cell → Cell × Bool
exists_again now key c = elim (find key c.shard) [
  | none ↦ (c, true)
  | some r ↦
      if is_expired r now then (record c { shard = Shard.remove key c.shard }, false) else (c, true)
]

-- `Exists`: the lock is dropped between the look and the removal, and `between` is what the other
-- goroutines do to the cell in the gap.
unfoldable pub exists : ℕ → String → (Cell → Cell) → Cell → Cell × Bool
exists now key between c = elim (find key c.shard) [
  | none ↦ (c, false)
  | some r ↦ if is_expired r now then exists_again now key (between c) else (c, true)
]

-- One shard's part of a run of `janitor`, over the keys in the order in which the map is walked:
-- expired records go until `max_delete` of them are gone.
unfoldable pub sweep : ℕ → ℕ → ℕ → List String → Shard → Shard
sweep now max_delete deleted [] sh = sh
sweep now max_delete deleted (k ∷ order) sh = elim (find k sh) [
  | none ↦ sweep now max_delete deleted order sh
  | some r ↦ elim (is_expired r now) [
    | false ↦ sweep now max_delete deleted order sh
    | true ↦ elim (leb max_delete (deleted + 1)) [
      | true ↦ Shard.remove k sh
      | false ↦ sweep now max_delete (deleted + 1) order (Shard.remove k sh)
    ]
  ]
]
