-- ===== src/Caching/Tests.antt =====
-- caching/flash.go: runs of the cache's methods at concrete inputs.
use photon.Base.{
  true, ◌≤◌, ◌≡◌, refl, arith, Option, none, some, List, [], ◌∷◌, false, String, string_discrete,
  All,
}
use photon.Base.Dict
use photon.Base.Int.{pos}
use photon.Flashdb.Shard.Room.{IsValid}
use photon.Flashdb.Store
use photon.Flashdb.Store.{Store}
use photon.Flashdb.Value.{Env, Fields, int, is_expired, non_negative, compute_size, safe_deep_size}
use photon.Flashdb.Cell.Operations.{SizesFit}
use photon.Base.Int.{wrap_int64, ◌+ℤ◌}
use photon.Caching.Flash.{
  answer, compose_key, FlashDbCache, MultiRequest, map_value, new_flash_db_cache,
}
use photon.Caching.Flash.Keys.{compose_key_confuses}
use photon.Caching.Flash.Batches.{full_keys, multi_get}
use photon.Caching.Flash.Replies.{multi_get_lem}
use photon.Flashdb.Cell.Safety.{Call, new_shard, new_shard-IsValid}
use photon.Flashdb.Shard.Tracked.{cost}
use photon.Flashdb.Shard.{make_room, is_full_after}
use photon.Flashdb.Cell
use photon.Flashdb.Cell.{expiry_of}
use photon.Flashdb.Store.{on_key, at_shard, shard_for, fnv32a}
use photon.Caching.Flash
use photon.Caching.Flash.{Request, SetPayload, opened, seconds_to_duration, plain_value, payload_of}
use photon.Caching.Flash.RoundTrip.{requested, reread, cache_set-get}
use photon.Caching.Flash.Safety.{CacheCall, run, cache_run_is_within_budget}
use photon.Stdlib.TinyLfu
use photon.Stdlib.Sketch

abbrev machine : Env
machine = record { bytes = λ s. 65 ∷ []; deep_size = λ v. some (pos 10); float_add = λ x d. x }

machine-SizesFit : SizesFit machine
unfolding compute_size safe_deep_size wrap_int64 ◌+ℤ◌
machine-SizesFit key value = omega arith

abbrev cache_or : Option FlashDbCache → FlashDbCache
cache_or none = record {
  store = record { parts = []; default_ttl = pos 0; lfu = none };
  default_ttl = pos 0;
}
cache_or (some c) = c

abbrev cache : FlashDbCache
cache = cache_or (new_flash_db_cache machine (pos 60))

cache_made : new_flash_db_cache machine (pos 60) ≡ some cache
unfolding new_flash_db_cache Store.new_store TinyLfu.new_tiny_lfu TinyLfu.new_with_options
    Sketch.new_sketch
cache_made = refl

abbrev calls : List CacheCall
calls =
    CacheCall.sets 100 false (
      some (record {
        namespace = "app";
        collection = "";
        key = "k";
        payload = record { value = map_value []; fields = none; ttl = pos 0 };
      }))
    ∷ CacheCall.gets 101 false
        (some (record { namespace = "app"; collection = ""; key = "k"; payload = [] }))
    ∷ CacheCall.checks 1_000_000_000_000 (Call.deletes 102 "app::k" ∷ []) false
        (some (record { namespace = "app"; collection = ""; key = "k"; payload = tt }))
    ∷ []

cache_run_is_within_budget_example : All IsValid (run machine (λ n. pos n) cache calls).store.parts
cache_run_is_within_budget_example =
    cache_run_is_within_budget machine (λ n. pos n) (pos 60) cache calls machine-SizesFit cache_made

-- A small cache of two shards.
abbrev small_cache : FlashDbCache
small_cache = record {
  store = record {
    parts = new_shard 1_000 ∷ new_shard 1_000 ∷ [];
    default_ttl = pos 60;
    lfu = none;
  };
  default_ttl = pos 60;
}

shard_valid : IsValid (new_shard 1_000)
shard_valid = new_shard-IsValid machine (pos 0) (λ n. pos n) 1_000 (omega arith)

small_cache-IsValid : All IsValid small_cache.store.parts
small_cache-IsValid = (shard_valid, (shard_valid, tt))

abbrev put_request : Request SetPayload
put_request = record {
  namespace = "app";
  collection = "";
  key = "k";
  payload = record { value = plain_value (int (pos 7)); fields = none; ttl = pos 5 };
}

put_key : compose_key "app" "" "k" ≡ answer "app::k"
unfolding compose_key string_discrete
put_key = refl

put_fits :
    All
      (λ sh. cost (requested machine 100 200 put_request "app::k" small_cache) ≤ sh.capacity)
      small_cache.store.parts
unfolding compute_size safe_deep_size wrap_int64 ◌+ℤ◌ new_shard non_negative
put_fits = (omega arith, (omega arith, tt))

put_fresh : is_expired (requested machine 100 200 put_request "app::k" small_cache) 200 ≡ false
unfolding is_expired expiry_of seconds_to_duration wrap_int64
put_fresh = refl

put_stored : (Flash.set machine 100 false (some put_request) small_cache).1 ≡ answer true
unfolding string_discrete Flash.set opened compose_key Store.set on_key at_shard shard_for fnv32a
    Cell.set Cell.insert make_room is_full_after new_shard compute_size safe_deep_size wrap_int64
    ◌+ℤ◌ Dict.get non_negative
put_stored = refl

cache_set-get_example :
    (Flash.get machine 200 false
      (some (reread machine 100 200 put_request "app::k" small_cache))
      (Flash.set machine 100 false (some put_request) small_cache).0).1
    ≡ answer (payload_of put_request.payload)
cache_set-get_example =
    cache_set-get machine 100 200 put_request "app::k" small_cache put_key small_cache-IsValid
      put_fits (machine-SizesFit _ _) put_fresh put_stored

abbrev name : String
name = "k"

compose_key_confuses_example :
    (compose_key "" "app" "k" ≡ compose_key "app" "" "k")
    × (compose_key "app" "users" "k" ≡ compose_key "app::users" "" "k")
compose_key_confuses_example =
    compose_key_confuses "app" "users" "k" (λ e. absurd (cc)) (λ e. absurd (cc))

abbrev wanted : MultiRequest (List String)
wanted = record { namespace = "app"; collection = ""; payload = "j" ∷ "k" ∷ [] }

multi_get_lem_example :
    (out : Dict.Dict String Fields) × ((multi_get machine 100 false (some wanted) cache).1
      ≡ answer out)
    × (Dict.get string_discrete "k" out
        ≡ Dict.get string_discrete "app::k"
            (Store.multi_get machine 100 ("app::j" ∷ "app::k" ∷ []) [] cache.store).1)
unfolding compose_key string_discrete full_keys
multi_get_lem_example = multi_get_lem machine 100 1 "k" "app::k" wanted cache refl refl
