-- ===== src/Flashdb/Shard.antt =====
-- storage/flashdb/shard.go, and the two eviction loops of store.go. `current_size` is a uint64.
-- The model is one goroutine at a time: every function here runs under the shard's lock.
pub mod Tracked
pub mod Trim
pub mod Front
pub mod Room
use photon.Base.{
  ℕ, zero, suc, ◌+◌, ◌-◌, ◌%◌, Option, none, some, Bool, true, false, ltb, String, string_discrete,
}
use photon.Base.Dict
use photon.Base.Dict.{Dict}
use photon.Stdlib.Lru
use photon.Stdlib.Lru.{Lru}
use photon.Stdlib.TinyLfu
use photon.Stdlib.TinyLfu.{TinyLfu}
use photon.Flashdb.Value.{Record, non_negative}

abbrev pub two64 : ℕ
two64 = 18_446_744_073_709_551_616

pub record Shard : Type 0 where
  pub entries : Dict String Record
  pub lru : Lru String (Unit {0})
  pub capacity : ℕ
  pub current_size : ℕ

-- `tailKeyLocked`
unfoldable pub tail_key : Shard → Option String
tail_key sh = Lru.tail_key sh.lru

-- `removeLocked`
unfoldable pub remove : String → Shard → Shard
remove key sh =
    let lru' = (Lru.delete string_discrete key sh.lru).0 in
    elim (Dict.get string_discrete key sh.entries) [
      | none ↦ record sh { lru = lru' }
      | some r ↦ record sh {
        entries = Dict.del string_discrete key sh.entries;
        lru = lru';
        current_size = (sh.current_size + two64 - non_negative r.size) % two64;
      }
    ]

-- `isFull`
unfoldable pub is_full : Shard → Bool
is_full sh = ltb sh.capacity sh.current_size

-- `isFullAfter`
unfoldable pub is_full_after : ℕ → Shard → Bool
is_full_after new_size sh = ltb sh.capacity ((sh.current_size + new_size) % two64)

-- `shard.lru.Get(key)`, called for the recency only.
unfoldable pub bump : String → Shard → Shard
bump key sh = record sh { lru = (Lru.get string_discrete key sh.lru).0 }

-- `for shard.isFull() { … }`: the tail goes until the shard is within its budget, or empty.
unfoldable pub trim : ℕ → Shard → Shard
trim zero sh = sh
trim (suc fuel) sh = elim (is_full sh) [
  | false ↦ sh
  | true ↦ elim (tail_key sh) [ none ↦ sh | some vk ↦ trim fuel (remove vk sh) ]
]

-- Every round removes an entry, so the number of entries is fuel enough.
unfoldable pub trim_all : Shard → Shard
unfolding trim
trim_all sh = trim (Lru.len sh.lru) sh

unfoldable pub admits : Option (TinyLfu String) → String → String → Bool
admits none key vk = true
admits (some t) key vk = TinyLfu.should_admit t key vk

-- `for shard.isFullAfter(newCost) { … }`: victims go while the incoming key is admitted against
-- them. The flag says whether there is room now.
unfoldable pub make_room : ℕ → Option (TinyLfu String) → String → ℕ → Shard → Shard × Bool
make_room zero lfu key cost sh = (sh, false)
make_room (suc fuel) lfu key cost sh = elim (is_full_after cost sh) [
  | false ↦ (sh, true)
  | true ↦ elim (tail_key sh) [
    | none ↦ (sh, false)
    | some vk ↦ elim (admits lfu key vk) [
      | false ↦ (sh, false)
      | true ↦ make_room fuel lfu key cost (remove vk sh)
    ]
  ]
]
