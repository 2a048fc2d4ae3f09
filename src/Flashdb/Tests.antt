-- ===== src/Flashdb/Tests.antt =====
-- storage/flashdb: runs of the store's operations at concrete inputs.
use photon.Base.{
  ℕ, ◌≤◌, ◌<◌, ◌≡◌, ◌≢◌, refl, arith, Option, none, some, [], ◌∷◌, true, false, String,
  string_discrete, All, if◌then◌else◌, leb,
}
use photon.Base.Dict
use photon.Base.Int.{ℤ, pos, ◌+ℤ◌, wrap_int64, ◌-ℤ◌}
use photon.Stdlib.Lru
use photon.Stdlib.Sketch
use photon.Stdlib.TinyLfu
use photon.Stdlib.TinyLfu.{TinyLfu}
use photon.Flashdb.Value.{
  int, Env, Fields, Record, ok, fail, illegal_field, compute_size, safe_deep_size, non_negative,
  is_expired, add_int, leaves,
}
use photon.Flashdb.Shard
use photon.Flashdb.Shard.{Shard, make_room}
use photon.Flashdb.Shard.Tracked.{cost}
use photon.Flashdb.Shard.Room.{IsValid, Made, make_room_lem}
use photon.Flashdb.Cell
use photon.Flashdb.Cell.{Cell, find}
use photon.Flashdb.Cell.Operations.{SizesFit}
use photon.Flashdb.Cell.Safety.{new_shard, Call, step, run, run_is_within_budget}
use photon.Flashdb.Cell.Writes.{SetNew, incoming, set_there, set_new}
use photon.Flashdb.Cell.Effects.{get-set, increment_partly}
use photon.Flashdb.Store.{Store, Options, new_store}
use photon.Flashdb.Store.Shards.{new_store-IsValid}

-- Each string has one byte, and each value an estimated size of ten.
abbrev machine : Env
machine = record { bytes = λ s. 65 ∷ []; deep_size = λ v. some (pos 10); float_add = λ x d. x }

abbrev fields : Fields
fields = ("hits", int (pos 1)) ∷ []

abbrev seconds : ℕ → ℤ
seconds n = pos n

abbrev empty : Cell
empty = record { shard = new_shard 1000; lfu = none }

machine-SizesFit : SizesFit machine
unfolding compute_size safe_deep_size wrap_int64 ◌+ℤ◌
machine-SizesFit key value = omega arith

-- Key "a" without an expiry, and with one at 105.
abbrev kept : Record
kept = record { value = fields; size = pos 107; expiry = 0 }

abbrev brief : Record
brief = record { value = fields; size = pos 107; expiry = 105 }

abbrev with_kept : Cell
with_kept = run machine (pos 0) seconds empty (Call.sets 100 "a" fields (pos 0) ∷ [])

abbrev with_brief : Cell
with_brief = run machine (pos 0) seconds empty (Call.sets 100 "a" fields (pos 5) ∷ [])

finds_kept : find "a" with_kept.shard ≡ some kept
unfolding run step new_shard Cell.set Cell.insert Cell.expiry_of compute_size safe_deep_size
    wrap_int64 ◌+ℤ◌ non_negative Shard.make_room Shard.is_full_after Dict.get Dict.put
    string_discrete
finds_kept = refl

run_is_within_budget_example : IsValid with_kept.shard
run_is_within_budget_example =
    run_is_within_budget machine (pos 0) seconds 1000 none (Call.sets 100 "a" fields (pos 0) ∷ [])
      machine-SizesFit (omega arith)

finds_brief : find "a" with_brief.shard ≡ some brief
unfolding run step new_shard Cell.set Cell.insert Cell.expiry_of compute_size safe_deep_size
    wrap_int64 ◌+ℤ◌ non_negative Shard.make_room Shard.is_full_after Dict.get Dict.put
    string_discrete
finds_brief = refl

misses_b : find "b" with_kept.shard ≡ none
unfolding run step new_shard Cell.set Cell.insert Cell.expiry_of compute_size safe_deep_size
    wrap_int64 ◌+ℤ◌ non_negative Shard.make_room Shard.is_full_after Dict.get Dict.put
    string_discrete
misses_b = refl

kept-IsValid : IsValid with_kept.shard
kept-IsValid =
    run_is_within_budget machine (pos 0) seconds 1000 none (Call.sets 100 "a" fields (pos 0) ∷ [])
      machine-SizesFit (omega arith)

fits_kept : 950 ≤ with_kept.shard.capacity
unfolding run step new_shard Cell.set Cell.insert Cell.expiry_of compute_size safe_deep_size
    wrap_int64 ◌+ℤ◌ non_negative Shard.make_room Shard.is_full_after Dict.get Dict.put
    string_discrete Lru.new_lru Lru.set Lru.len Lru.insert_front Lru.find_id
fits_kept = omega arith

one_kept : Lru.len with_kept.shard.lru < 2
unfolding run step new_shard Cell.set Cell.insert Cell.expiry_of compute_size safe_deep_size
    wrap_int64 ◌+ℤ◌ non_negative Shard.make_room Shard.is_full_after Dict.get Dict.put
    string_discrete Lru.new_lru Lru.set Lru.len Lru.insert_front Lru.find_id
one_kept = omega arith

one_kept_le : Lru.len with_kept.shard.lru ≤ 1
unfolding run step new_shard Cell.set Cell.insert Cell.expiry_of compute_size safe_deep_size
    wrap_int64 ◌+ℤ◌ non_negative Shard.make_room Shard.is_full_after Dict.get Dict.put
    string_discrete Lru.new_lru Lru.set Lru.len Lru.insert_front Lru.find_id
one_kept_le = omega arith

rewrite_fits :
    cost (incoming machine (pos 0) 110 "a" [] (pos 5) with_kept) ≤ with_kept.shard.capacity
unfolding run step new_shard Cell.set Cell.insert Cell.expiry_of compute_size safe_deep_size
    wrap_int64 ◌+ℤ◌ non_negative Shard.make_room Shard.is_full_after Dict.get Dict.put
    string_discrete Lru.new_lru Lru.set Lru.len Lru.insert_front Lru.find_id
rewrite_fits = omega arith

rewrite_fresh : is_expired (incoming machine (pos 0) 110 "a" [] (pos 5) with_kept) 115 ≡ false
unfolding is_expired Cell.expiry_of
rewrite_fresh = refl

expired_brief : is_expired brief 200 ≡ true
unfolding is_expired
expired_brief = refl

lives_kept : is_expired kept 101 ≡ false
unfolding is_expired
lives_kept = refl

empty_has_none : find "a" empty.shard ≡ none
unfolding new_shard Dict.get
empty_has_none = refl

hits_there : Dict.get string_discrete "hits" fields ≡ some (int (pos 1))
unfolding Dict.get string_discrete
hits_there = refl

hits_added : add_int machine (int (pos 1)) (pos 2) ≡ some (int (pos 3))
unfolding add_int leaves ◌+ℤ◌ ◌-ℤ◌
hits_added = refl

misses_missing : Dict.get string_discrete "misses" fields ≡ none
unfolding Dict.get string_discrete
misses_missing = refl

fields_differ : (let m : String = "misses" in let h : String = "hits" in m ≢ h)
fields_differ e = absurd (cc)

-- Two shards, and the store's options for one.
abbrev options : Options
options = record {
  shards = 2;
  max_storage_size = 2000;
  default_ttl = pos 0;
  lfu_depth = pos 1;
  lfu_width = 16;
  lfu_aging_every = 1000;
}

abbrev store_or : Option Store → Store
store_or none = record { parts = []; default_ttl = pos 0; lfu = none }
store_or (some s) = s

abbrev two_shards : Store
two_shards = store_or (new_store machine options)

two_shards_made : new_store machine options ≡ some two_shards
unfolding new_store TinyLfu.new_tiny_lfu TinyLfu.new_with_options Sketch.new_sketch
two_shards_made = refl

two_shards-IsValid : All IsValid two_shards.parts
two_shards-IsValid = (new_store-IsValid machine options two_shards (omega arith) two_shards_made).0

set_there_example :
    let q = Cell.set machine (pos 0) 110 "a" [] (pos 0) with_kept in
    (q.1 ≡ true)
    × (find "a" q.0.shard ≡ (
        if leb
          (cost (incoming machine (pos 0) 110 "a" [] (pos 0) with_kept))
          with_kept.shard.capacity
        then some (incoming machine (pos 0) 110 "a" [] (pos 0) with_kept)
        else none))
set_there_example =
    set_there machine (pos 0) 110 "a" [] (pos 0) with_kept kept kept-IsValid finds_kept
      (machine-SizesFit "a" [])

set_new_example :
    SetNew "b"
      (incoming machine (pos 0) 110 "b" fields (pos 0) with_kept)
      with_kept
      (Cell.set machine (pos 0) 110 "b" fields (pos 0) with_kept)
set_new_example = set_new machine (pos 0) 110 "b" fields (pos 0) with_kept kept-IsValid misses_b

make_room_lem_example : Made none "b" 950 with_kept.shard (make_room 2 none "b" 950 with_kept.shard)
make_room_lem_example = make_room_lem none "b" 950 2 with_kept.shard kept-IsValid fits_kept one_kept

get-set_example :
    (Cell.get 115 "a" (Cell.set machine (pos 0) 110 "a" [] (pos 5) with_kept).0).1 ≡ ok []
get-set_example =
    get-set machine (pos 0) 110 115 "a" [] (pos 5) with_kept kept kept-IsValid finds_kept
      (machine-SizesFit "a" []) rewrite_fits rewrite_fresh

increment_partly_example :
    let q = Cell.increment machine 101 "a" (("hits", pos 2) ∷ ("misses", pos 1) ∷ []) with_kept in
    (q.1 ≡ fail illegal_field)
    × (find "a" q.0.shard
        ≡ some (record kept { value = Dict.put string_discrete "hits" (int (pos 3)) fields }))
increment_partly_example =
    increment_partly machine 101 "a" "hits" "misses" (pos 2) (pos 1) with_kept kept (int (pos 1))
      (int (pos 3)) finds_kept lives_kept hits_there hits_added misses_missing fields_differ
