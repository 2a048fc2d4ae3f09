-- ===== src/Flashdb/Store/Shards.antt =====
-- storage/flashdb/store.go: the shards of a store under an operation on a key, and a new store.
use photon.Base.{
  subst, ℕ, zero, suc, ◌/◌, ◌<◌, ◌≡◌, ◌≢◌, refl, ap, ◌⊎◌, inl, inr, arith, Option, none, some, List,
  [], ◌∷◌, String, string_discrete, get_elem?, set, length, replicate, All, Option-cases,
  ℕ_discrete, if_neg, if_pos, length-set, length-replicate,
}
use photon.Base.Int.{pos}
use photon.Flashdb.Value.{Env, Reply, ok, fail, invalid_key}
use photon.Flashdb.Shard.{Shard}
use photon.Flashdb.Shard.Room.{IsValid}
use photon.Flashdb.Cell.{Cell}
use photon.Flashdb.Cell.Safety.{new_shard, new_shard-IsValid}
use photon.Flashdb.Cell.Accounting.{two63}
use photon.Flashdb.Store.{
  Store, Options, at_shard, on_key, shard_for, new_store, new_shards, or_default,
}

-- A key always has a shard.
pub shard_for-lt :
    (env : Env) (parts : List Shard) (key : String)
    → 0 < length parts
    → shard_for env parts key < length parts
unfolding shard_for
shard_for-lt env parts key h = grind arith

some_inj : (a b : Shard) → some a ≡ some b → a ≡ b
some_inj a b h = cc

pub get_elem?-All :
    (P : Shard → Type 0) (xs : List Shard) (i : ℕ) (sh : Shard)
    → All P xs
    → get_elem? xs i ≡ some sh
    → P sh
get_elem?-All P [] i sh a h = absurd (cc)
get_elem?-All P (x ∷ xs) zero sh a h = subst P (some_inj x sh h) a.0
get_elem?-All P (x ∷ xs) (suc i) sh a h = get_elem?-All P xs i sh a.1 h

set-All :
    (xs : List Shard) (i : ℕ) (sh : Shard) → All IsValid xs → IsValid sh → All IsValid (set xs i sh)
set-All [] i sh a v = tt
set-All (x ∷ xs) zero sh a v = (v, a.1)
set-All (x ∷ xs) (suc i) sh a v = (a.0, set-All xs i sh a.1 v)

replicate-All : (n : ℕ) (sh : Shard) → IsValid sh → All IsValid (replicate n sh)
replicate-All zero sh v = tt
replicate-All (suc n) sh v = (v, replicate-All n sh v)

get_elem?-set_ne :
    (xs : List Shard) (i j : ℕ) (sh : Shard) → i ≢ j → get_elem? (set xs i sh) j ≡ get_elem? xs j
get_elem?-set_ne [] i j sh h = refl
get_elem?-set_ne (x ∷ xs) zero zero sh h = absurd (h refl)
get_elem?-set_ne (x ∷ xs) zero (suc j) sh h = refl
get_elem?-set_ne (x ∷ xs) (suc i) zero sh h = refl
get_elem?-set_ne (x ∷ xs) (suc i) (suc j) sh h = get_elem?-set_ne xs i j sh (λ e. h (ap suc e))

-- What `at_shard` does with the shard it looked up.
abbrev pub with_shard : {R : Type 0} → ℕ → (Cell → Cell × R) → R → Store → Option Shard → Store × R
with_shard i f default s none = (s, default)
with_shard i f default s (some sh) =
    let (c, r) = f (record { shard = sh; lfu = s.lfu }) in
    (record s { parts = set s.parts i c.shard; lfu = c.lfu }, r)

pub at_shard_lem :
    {R : Type 0} (i : ℕ) (default : R) (f : Cell → Cell × R) (s : Store) (o : Option Shard)
    → get_elem? s.parts i ≡ o
    → at_shard i f default s ≡ with_shard i f default s o
unfolding at_shard
at_shard_lem i default f s none h = ground arith
at_shard_lem i default f s (some sh) h = ground arith

at_shard-IsValid :
    {R : Type 0} (i : ℕ) (default : R) (f : Cell → Cell × R) (s : Store)
    → ((c : Cell) → IsValid c.shard → IsValid (f c).0.shard)
    → All IsValid s.parts
    → let s' = (at_shard i f default s).0 in
      All IsValid s'.parts
      × (length s'.parts ≡ length s.parts)
      × ((j : ℕ) → (i ≡ j) ⊎ (get_elem? s'.parts j ≡ get_elem? s.parts j))
at_shard-IsValid i default f s keeps a = elim (Option-cases (get_elem? s.parts i)) [
  | inl e ↦ rw (at_shard_lem i default f s none e) (a, refl, λ j. inr refl)
  | inr (sh, e) ↦
      let c = (f (record { shard = sh; lfu = s.lfu })).0.shard in
      rw (at_shard_lem i default f s (some sh) e) (
        set-All s.parts i c a (keeps _ (get_elem?-All IsValid s.parts i sh a e)),
        length-set s.parts i c,
        λ j. elim (ℕ_discrete i j) [
          | yes same ↦ inl same
          | no ne ↦ inr (get_elem?-set_ne s.parts i j c ne)
        ],
      )
]

pub on_key_invalid :
    {R : Type 0} (env : Env) (key : String) (default : R) (f : Cell → Cell × Reply R) (s : Store)
    → key ≡ ""
    → on_key env key default f s ≡ (s, fail invalid_key)
unfolding on_key
on_key_invalid env key default f s e = if_pos (string_discrete key "") e _ _

pub on_key_valid :
    {R : Type 0} (env : Env) (key : String) (default : R) (f : Cell → Cell × Reply R) (s : Store)
    → key ≢ ""
    → on_key env key default f s ≡ at_shard (shard_for env s.parts key) f (ok default) s
unfolding on_key
on_key_valid env key default f s n = if_neg (string_discrete key "") n _ _

-- An operation on a key that keeps a shard well formed keeps all shards of the store so; the
-- number of shards stays, and no shard but that of the key is touched.
pub on_key-IsValid :
    {R : Type 0} (env : Env) (key : String) (default : R) (f : Cell → Cell × Reply R) (s : Store)
    → ((c : Cell) → IsValid c.shard → IsValid (f c).0.shard)
    → All IsValid s.parts
    → let s' = (on_key env key default f s).0 in
      All IsValid s'.parts
      × (length s'.parts ≡ length s.parts)
      × ((j : ℕ) → (shard_for env s.parts key ≡ j) ⊎ (get_elem? s'.parts j ≡ get_elem? s.parts j))
on_key-IsValid env key default f s keeps a = elim (string_discrete key "") [
  | yes e ↦ rw (on_key_invalid env key default f s e) (a, refl, λ j. inr refl)
  | no n ↦
      rw (on_key_valid env key default f s n)
        (at_shard-IsValid (shard_for env s.parts key) (ok default) f s keeps a)
]

-- The empty key is refused by every method, and changes nothing.
pub on_key_empty :
    {R : Type 0} (env : Env) (default : R) (f : Cell → Cell × Reply R) (s : Store)
    → on_key env "" default f s ≡ (s, fail invalid_key)
on_key_empty env default f s = on_key_invalid env "" default f s refl

new_store_parts :
    (env : Env) (opts : Options) (s : Store)
    → new_store env opts ≡ some s
    → s.parts ≡ new_shards opts
unfolding new_store
new_store_parts env opts s h = ground arith

-- A store that `New` makes of a total budget below 2^63 has at least one shard, as many as the
-- options say (128 for zero), and each is well formed.
pub new_store-IsValid :
    (env : Env) (opts : Options) (s : Store)
    → opts.max_storage_size < two63
    → new_store env opts ≡ some s
    → All IsValid s.parts × (length s.parts ≡ or_default opts.shards 128) × (0 < length s.parts)
unfolding new_shards
new_store-IsValid env opts s small h = rw (new_store_parts env opts s h) (
    let n = or_default opts.shards 128 in
    let sh = new_shard (opts.max_storage_size / n) in
    let small' : opts.max_storage_size / n < two63 = omega arith in
    let here : 0 < n = ground arith in
    (
      replicate-All n sh (new_shard-IsValid env opts.default_ttl (λ n. pos n) _ small'),
      length-replicate n sh,
      omega (arith, length-replicate n sh, here),
    ))
