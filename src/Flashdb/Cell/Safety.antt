-- ===== src/Flashdb/Cell/Safety.antt =====
-- storage/flashdb/store.go: sequences of calls on a shard, by the callers and the janitor.
use photon.Base.{ℕ, ◌<◌, refl, arith, Option, List, [], ◌∷◌, false, String, string_discrete}
use photon.Base.Dict
use photon.Base.Int.{ℤ}
use photon.Stdlib.Lru
use photon.Stdlib.Lru.Bound.{new_lru-Inv}
use photon.Stdlib.TinyLfu.{TinyLfu}
use photon.Flashdb.Value.{Env, Fields}
use photon.Flashdb.Shard.{Shard}
use photon.Flashdb.Shard.Room.{IsValid}
use photon.Flashdb.Cell
use photon.Flashdb.Cell.{Cell, sweep}
use photon.Flashdb.Cell.Operations.{
  SizesFit, get-IsValid, get_ttl-IsValid, set_ttl-IsValid, increment-IsValid, append-IsValid,
  set-IsValid, delete-IsValid, exists_again-IsValid,
}
use photon.Flashdb.Cell.Accounting.{two63}
use photon.Flashdb.Cell.Invariant.{sweep-IsValid}

-- `new`'s shards: empty, with an unlimited LRU and no hook.
unfoldable pub new_shard : ℕ → Shard
new_shard per_shard = record {
  entries = [];
  lru = Lru.new_lru 0 false;
  capacity = per_shard;
  current_size = 0;
}

-- What can happen to a shard, one lock section at a time. `looks_again` is the second half of
-- `Exists`; the first half changes nothing.
pub data Call : Type 0 where
  gets deletes looks_again : ℕ → String → Call
  sets : ℕ → String → Fields → ℤ → Call
  increments decrements : ℕ → String → List (String × ℤ) → Call
  appends : ℕ → String → List (String × List ℕ) → Call
  gets_ttl : ℕ → String → Call
  sets_ttl : ℕ → String → ℤ → Call
  sweeps : ℕ → ℕ → List String → Call

module _ (env : Env) (default_ttl : ℤ) (remaining : ℕ → ℤ) where
  unfoldable pub step : Cell → Call → Cell
  step c (Call.gets now key) = (Cell.get now key c).0
  step c (Call.deletes now key) = (Cell.delete key c).0
  step c (Call.looks_again now key) = (Cell.exists_again now key c).0
  step c (Call.sets now key value ttl) = (Cell.set env default_ttl now key value ttl c).0
  step c (Call.increments now key offsets) = (Cell.increment env now key offsets c).0
  step c (Call.decrements now key offsets) = (Cell.decrement env now key offsets c).0
  step c (Call.appends now key suffixes) = (Cell.append env now key suffixes c).0
  step c (Call.gets_ttl now key) = (Cell.get_ttl remaining now key c).0
  step c (Call.sets_ttl now key ttl) = (Cell.set_ttl now key ttl c).0
  step c (Call.sweeps now max_delete order) = record c {
    shard = sweep now max_delete 0 order c.shard;
  }

  unfoldable pub run : Cell → List Call → Cell
  run c [] = c
  run c (call ∷ calls) = run (step c call) calls

  -- When the estimated sizes fit an int64, every call keeps a well-formed shard well formed.
  step-IsValid :
      (c : Cell) (call : Call) → SizesFit env → IsValid c.shard → IsValid (step c call).shard
  unfolding step
  step-IsValid c (Call.gets now key) fit v = get-IsValid env default_ttl remaining now key c v
  step-IsValid c (Call.deletes now key) fit v = delete-IsValid env default_ttl remaining key c v
  step-IsValid c (Call.looks_again now key) fit v =
      exists_again-IsValid env default_ttl remaining now key c v
  step-IsValid c (Call.sets now key value ttl) fit v =
      set-IsValid env default_ttl remaining now key value ttl c fit v
  step-IsValid c (Call.increments now key offsets) fit v =
      increment-IsValid env default_ttl remaining now key offsets c v
  step-IsValid c (Call.decrements now key offsets) fit v =
      unfold Cell.decrement in
      increment-IsValid env default_ttl remaining now key (Cell.negate_all offsets) c v
  step-IsValid c (Call.appends now key suffixes) fit v =
      append-IsValid env default_ttl remaining now key suffixes c fit v
  step-IsValid c (Call.gets_ttl now key) fit v =
      get_ttl-IsValid env default_ttl remaining now key c v
  step-IsValid c (Call.sets_ttl now key ttl) fit v =
      set_ttl-IsValid env default_ttl remaining now key ttl c v
  step-IsValid c (Call.sweeps now max_delete order) fit v = sweep-IsValid now max_delete 0 order v

  -- Every sequence of calls keeps a well-formed shard well formed.
  pub run-IsValid :
      (c : Cell) (calls : List Call) → SizesFit env → IsValid c.shard → IsValid (run c calls).shard
  unfolding run
  run-IsValid c [] fit v = v
  run-IsValid c (call ∷ calls) fit v =
      run-IsValid (step c call) calls fit (step-IsValid c call fit v)

  pub new_shard-IsValid : (per_shard : ℕ) → per_shard < two63 → IsValid (new_shard per_shard)
  unfolding new_shard
  new_shard-IsValid per_shard small = record {
    tracked = record {
      linked = new_lru-Inv string_discrete 0 false;
      unlimited = unfold Lru.new_lru in refl;
      distinct = tt;
      same = λ k. unfold Lru.new_lru Dict.get in refl;
      sized = λ k r h. unfold Dict.get in cc;
      counted = unfold Dict.total in refl;
      small = omega arith;
    };
    within = omega arith;
    in_memory = small;
  }

  -- After any sequence of calls on a new shard, of any number of goroutines and the janitor,
  -- one lock section at a time, the shard is well formed: its map, its LRU and its byte count
  -- describe the same records, and the bytes are within its budget. The estimated sizes fit an
  -- int64, and the budget is below 2^63.
  pub run_is_within_budget :
      (per_shard : ℕ) (lfu : Option (TinyLfu String)) (calls : List Call)
      → SizesFit env
      → per_shard < two63
      → IsValid (run (record { shard = new_shard per_shard; lfu = lfu }) calls).shard
  run_is_within_budget per_shard lfu calls fit small =
      run-IsValid _ calls fit (new_shard-IsValid per_shard small)
