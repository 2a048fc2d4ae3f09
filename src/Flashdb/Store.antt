-- ===== src/Flashdb/Store.antt =====
-- storage/flashdb/store.go, options.go and constants.go: the store over its shards, and the batch
-- operations. A Go map that an operation walks is given as a list, in the order of the walk; a map
-- that it returns is built by insertions.
pub mod Shards
pub mod Operations
pub mod RoundTrip
use Prim.Native.Nat.{bit_xor}
use photon.Base.{
  ℕ, ◌*◌, ◌/◌, ◌%◌, Option, none, some, List, [], ◌∷◌, Bool, false, String, string_discrete, ite,
  ◌==◌, if◌then◌else◌, get_elem?, set as set_elem, length, replicate,
}
use photon.Base.Dict
use photon.Base.Dict.{Dict}
use photon.Base.Int.{ℤ, pos}
use photon.Stdlib.Sketch.{built, refused}
use photon.Stdlib.Sketch.Hashes.{hash64}
use photon.Stdlib.TinyLfu
use photon.Stdlib.TinyLfu.{TinyLfu}
use photon.Flashdb.Value.{Env, Fields, Reply, ok, fail, invalid_key}
use photon.Flashdb.Shard.{Shard}
use photon.Flashdb.Cell
use photon.Flashdb.Cell.{Cell}
use photon.Flashdb.Cell.Safety.{new_shard}

pub record Options : Type 0 where
  pub shards : ℕ
  pub max_storage_size : ℕ
  pub default_ttl : ℤ
  pub lfu_depth : ℤ
  pub lfu_width : ℕ
  pub lfu_aging_every : ℕ

pub record Store : Type 0 where
  pub parts : List Shard
  pub default_ttl : ℤ
  pub lfu : Option (TinyLfu String)

abbrev pub or_default : ℕ → ℕ → ℕ
or_default n d = if n == 0 then d else n

abbrev pub is_zero : ℤ → Bool
is_zero (pos n) = n == 0
is_zero _ = false

-- The shards that `New` makes.
unfoldable pub new_shards : Options → List Shard
new_shards opts =
    let count = or_default opts.shards 128 in
    replicate count (new_shard (opts.max_storage_size / count))

-- `New`, without the start of the janitor: `none` is an error.
unfoldable pub new_store : Env → Options → Option Store
unfolding new_shards
new_store env opts =
    elim (TinyLfu.new_tiny_lfu (if is_zero opts.lfu_depth then pos 4 else opts.lfu_depth)
      (or_default opts.lfu_width 65_536) (or_default opts.lfu_aging_every 200_000)
      (λ key. hash64 (env.bytes key))) [
        | refused e ↦ none
        | built lfu ↦
            if opts.max_storage_size == 0
            then none
            else some
                (record { parts = new_shards opts; default_ttl = opts.default_ttl; lfu = some lfu })
      ]

-- `hash/fnv`'s New32a over the bytes of a key.
unfoldable pub fnv32a : ℕ → List ℕ → ℕ
fnv32a h [] = h
fnv32a h (b ∷ bs) = fnv32a (bit_xor h b * 16_777_619 % 4_294_967_296) bs

-- `shardFor`, as the index of the shard.
unfoldable pub shard_for : Env → List Shard → String → ℕ
shard_for env parts key = fnv32a 2_166_136_261 (env.bytes key) % length parts

-- An operation on the shard at an index, with the shared TinyLFU.
unfoldable pub at_shard : {R : Type 0} → ℕ → (Cell → Cell × R) → R → Store → Store × R
at_shard i f default s = elim (get_elem? s.parts i) [
  | none ↦ (s, default)
  | some sh ↦
      let (c, r) = f (record { shard = sh; lfu = s.lfu }) in
      (record s { parts = set_elem s.parts i c.shard; lfu = c.lfu }, r)
]

-- Each method on one key: an invalid key is an error, any other key goes to its shard.
unfoldable pub on_key :
    {R : Type 0} → Env → String → R → (Cell → Cell × Reply R) → Store → Store × Reply R
unfolding at_shard
on_key env key default f s =
    ite (string_discrete key "") (s, fail invalid_key)
      (at_shard (shard_for env s.parts key) f (ok default) s)

-- An operation that always answers, as a reply.
abbrev pub answered : {R : Type 0} → (Cell → Cell × R) → Cell → Cell × Reply R
answered f c = let (c', r) = f c in (c', ok r)

unfoldable pub get : Env → ℕ → String → Store → Store × Reply Fields
get env now key s = on_key env key [] (Cell.get now key) s

unfoldable pub set : Env → ℕ → String → Fields → ℤ → Store → Store × Reply Bool
set env now key value ttl s =
    on_key env key false (answered (Cell.set env s.default_ttl now key value ttl)) s

unfoldable pub delete : Env → String → Store → Store × Reply Bool
delete env key s = on_key env key false (answered (Cell.delete key)) s

-- `between` is what other goroutines do to the cell of the key between the two locks.
unfoldable pub exists : Env → ℕ → String → (Cell → Cell) → Store → Store × Reply Bool
exists env now key between s = on_key env key false (answered (Cell.exists now key between)) s

unfoldable pub increment : Env → ℕ → String → List (String × ℤ) → Store → Store × Reply (Unit {0})
increment env now key offsets s = on_key env key tt (Cell.increment env now key offsets) s

unfoldable pub decrement : Env → ℕ → String → List (String × ℤ) → Store → Store × Reply (Unit {0})
decrement env now key offsets s = on_key env key tt (Cell.decrement env now key offsets) s

unfoldable pub append : Env → ℕ → String → List (String × List ℕ) → Store → Store × Reply (Unit {0})
append env now key appends s = on_key env key tt (Cell.append env now key appends) s

unfoldable pub get_ttl : Env → (ℕ → ℤ) → ℕ → String → Store → Store × Reply ℤ
get_ttl env remaining now key s = on_key env key (pos 0) (Cell.get_ttl remaining now key) s

unfoldable pub set_ttl : Env → ℕ → String → ℤ → Store → Store × Reply (Unit {0})
set_ttl env now key ttl s = on_key env key tt (Cell.set_ttl now key ttl) s

-- The result of a batch for one key; an error counts as false.
abbrev pub success : Reply Bool → Bool
success (ok b) = b
success (fail e) = false

-- The loop of `MultiGet`, with the map built so far.
unfoldable pub multi_get :
    Env → ℕ → List String → Dict String Fields → Store → Store × Dict String Fields
multi_get env now [] out s = (s, out)
multi_get env now (k ∷ keys) out s =
    let (s', reply) = get env now k s in
    multi_get env now keys (elim reply [ ok v ↦ Dict.put string_discrete k v out | fail e ↦ out ])
      s'

-- The loop of `MultiSet`.
unfoldable pub multi_set :
    Env → ℕ → ℤ → List (String × Fields) → Dict String Bool → Store → Store × Dict String Bool
multi_set env now ttl [] out s = (s, out)
multi_set env now ttl ((k, v) ∷ items) out s =
    let (s', reply) = set env now k v ttl s in
    multi_set env now ttl items (Dict.put string_discrete k (success reply) out) s'

-- The loop of `MultiDelete`.
unfoldable pub multi_delete :
    Env → List String → Dict String Bool → Store → Store × Dict String Bool
multi_delete env [] out s = (s, out)
multi_delete env (k ∷ keys) out s =
    let (s', reply) = delete env k s in
    multi_delete env keys (Dict.put string_discrete k (success reply) out) s'
