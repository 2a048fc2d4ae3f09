-- ===== src/Caching/Flash.antt =====
-- caching/flash.go, requests.go and context.go: the cache over the flashdb store. A request carries a
-- namespace, a collection and a key; the three make the key of the store. `cancelled` says that
-- the context of the call has an error, and a nil request is `none`. Go maps that are walked are
-- lists in the order of the walk.
pub mod Keys
pub mod Batches
pub mod Replies
pub mod Safety
pub mod RoundTrip
use Prim.Native.String.{◌++◌}
use photon.Base.{
  ℕ, ◌*◌, ◌≡◌, refl, ◌⊎◌, inl, inr, Option, none, some, List, [], ◌∷◌, Bool, true, false, String,
  string_discrete, ite, if◌then◌else◌, ◌==◌,
}
use photon.Base.Dict
use photon.Base.Dict.{Dict}
use photon.Base.Int.{ℤ, pos, negsuc, leb_ℤ, wrap_int64}
use photon.Flashdb.Value.{Any, Env, Fields, StoreError, Reply, ok, fail}
use photon.Flashdb.Cell.{Cell}
use photon.Flashdb.Store
use photon.Flashdb.Store.{Store, Options}

pub data CacheError : Type 0 where
  cancelled_context nil_request empty_key : CacheError
  of_store : StoreError → CacheError

pub data CacheReply (A : Type 0) : Type 0 where
  answer : A → CacheReply A
  refuse : CacheError → CacheReply A

pub CacheReply-cases :
    {A : Type 0} (r : CacheReply A)
    → ((a : A) × (r ≡ answer a)) ⊎ ((e : CacheError) × (r ≡ refuse e))
CacheReply-cases (answer a) = inl (a, refl)
CacheReply-cases (refuse e) = inr (e, refl)

-- A request on one key, with what its kind of request adds.
pub record Request (P : Type 0) : Type 0 where
  pub namespace : String
  pub collection : String
  pub key : String
  pub payload : P

-- A request on many keys.
pub record MultiRequest (P : Type 0) : Type 0 where
  pub namespace : String
  pub collection : String
  pub payload : P

-- A value handed to the cache: nil, a map of fields, or anything else.
pub data CacheValue : Type 0 where
  nil_value : CacheValue
  map_value : Fields → CacheValue
  plain_value : Any → CacheValue

pub record SetPayload : Type 0 where
  pub value : CacheValue
  pub fields : Option Fields
  pub ttl : ℤ

-- What Increment, Decrement and Append take: fields, or one value for the field "bin".
pub record Change (A : Type 0) : Type 0 where
  pub fields : Option (List (String × A))
  pub value : A

pub record FlashDbCache : Type 0 where
  pub store : Store
  pub default_ttl : ℤ

-- `secondsToDuration`: nanoseconds, in int64 arithmetic.
unfoldable pub seconds_to_duration : ℤ → ℤ
seconds_to_duration (pos s) = if s == 0 then pos 0 else wrap_int64 (pos (s * 1_000_000_000))
seconds_to_duration (negsuc n) = pos 0

abbrev pub is_zero : ℤ → Bool
is_zero (pos n) = n == 0
is_zero (negsuc n) = false

-- The duration of a request, or the default of the cache for zero.
abbrev pub ttl_or : ℤ → ℤ → ℤ
ttl_or seconds default_ttl =
    let t = seconds_to_duration seconds in if is_zero t then default_ttl else t

-- The options that `NewFlashDBCache` gives to the store, but for the interval of the janitor.
abbrev pub store_options : ℤ → Options
store_options default_ttl = record {
  shards = 128;
  max_storage_size = 1_073_741_824;
  default_ttl = seconds_to_duration (if leb_ℤ default_ttl (pos 0) then pos 0 else default_ttl);
  lfu_depth = pos 4;
  lfu_width = 65_536;
  lfu_aging_every = 200_000;
}

unfoldable pub new_flash_db_cache : Env → ℤ → Option FlashDbCache
new_flash_db_cache env default_ttl = elim (Store.new_store env (store_options default_ttl)) [
  | none ↦ none
  | some s ↦ some (record { store = s; default_ttl = seconds_to_duration default_ttl })
]

-- `composeKey`
unfoldable pub compose_key : String → String → String → CacheReply String
compose_key ns coll key = ite (string_discrete key "") (refuse empty_key) (
    ite (string_discrete ns "")
      (ite (string_discrete coll "") (answer key) (answer (coll ++ "::" ++ key)))
      (ite (string_discrete coll "") (answer (ns ++ "::" ++ key))
        (answer (ns ++ "::" ++ coll ++ "::" ++ key))))

-- A reply of the store, as a reply of the cache.
abbrev pub passed : {A : Type 0} → Reply A → CacheReply A
passed (ok a) = answer a
passed (fail e) = refuse (of_store e)

abbrev pub through : {A : Type 0} → FlashDbCache → Store × Reply A → FlashDbCache × CacheReply A
through c (s, r) = (record c { store = s }, passed r)

-- The opening of every method on one key: the context, the request, the key.
unfoldable pub opened :
    {P R : Type 0}
    → Bool
    → Option (Request P)
    → (String → P → FlashDbCache → FlashDbCache × CacheReply R)
    → FlashDbCache
    → FlashDbCache × CacheReply R
opened true req act c = (c, refuse cancelled_context)
opened false none act c = (c, refuse nil_request)
opened false (some req) act c = elim (compose_key req.namespace req.collection req.key) [
  | refuse e ↦ (c, refuse e)
  | answer k ↦ act k req.payload c
]

-- `Exists`
unfoldable pub exists :
    Env
    → ℕ
    → (Cell → Cell)
    → Bool
    → Option (Request (Unit {0}))
    → FlashDbCache
    → FlashDbCache × CacheReply Bool
exists env now between cancelled req c =
    opened cancelled req (λ k _ c. through c (Store.exists env now k between c.store)) c

-- The fields of a record that a request asks for; all of them when it asks for none.
unfoldable pub picked : List String → Fields → Fields → Fields
picked [] m out = out
picked (f ∷ fs) m out = elim (Dict.get string_discrete f m) [
  | none ↦ picked fs m out
  | some v ↦ picked fs m (Dict.put string_discrete f v out)
]

abbrev pub selected : List String → Fields → Fields
selected [] m = m
selected (f ∷ fs) m = picked (f ∷ fs) m []

-- A reply of `Get`, with the fields that were asked for.
abbrev pub narrowed : List String → CacheReply Fields → CacheReply Fields
narrowed fields (answer m) = answer (selected fields m)
narrowed fields (refuse e) = refuse e

-- `Get`
unfoldable pub get :
    Env
    → ℕ
    → Bool
    → Option (Request (List String))
    → FlashDbCache
    → FlashDbCache × CacheReply Fields
get env now cancelled req c =
    opened cancelled req
      (λ k fields c.
        let (c', r) = through c (Store.get env now k c.store) in (c', narrowed fields r))
      c

-- The fields that `Set` stores.
abbrev pub payload_of : SetPayload → Fields
payload_of p = elim p.fields [
  | some fields ↦ fields
  | none ↦ elim p.value [
    | nil_value ↦ []
    | map_value fields ↦ fields
    | plain_value v ↦ ("bin", v) ∷ []
  ]
]

-- `Set`
unfoldable pub set :
    Env → ℕ → Bool → Option (Request SetPayload) → FlashDbCache → FlashDbCache × CacheReply Bool
set env now cancelled req c =
    opened cancelled req
      (λ k p c. through c (Store.set env now k (payload_of p) (ttl_or p.ttl c.default_ttl) c.store))
      c

-- `Delete`
unfoldable pub delete :
    Env → Bool → Option (Request (Unit {0})) → FlashDbCache → FlashDbCache × CacheReply Bool
delete env cancelled req c =
    opened cancelled req (λ k _ c. through c (Store.delete env k c.store)) c

-- The three-way switch of Increment, Decrement and Append.
unfoldable pub changed :
    {A : Type 0}
    → (A → Bool)
    → (String → List (String × A) → Store → Store × Reply (Unit {0}))
    → String
    → Change A
    → FlashDbCache
    → FlashDbCache × CacheReply (Unit {0})
changed is_empty act k p c = elim p.fields [
  | some fields ↦ through c (act k fields c.store)
  | none ↦
      if is_empty p.value then (c, answer tt) else through c (act k (("bin", p.value) ∷ []) c.store)
]

-- `Increment`
unfoldable pub increment :
    Env
    → ℕ
    → Bool
    → Option (Request (Change ℤ))
    → FlashDbCache
    → FlashDbCache × CacheReply (Unit {0})
unfolding changed
increment env now cancelled req c =
    opened cancelled req (changed is_zero (Store.increment env now)) c

-- `Decrement`
unfoldable pub decrement :
    Env
    → ℕ
    → Bool
    → Option (Request (Change ℤ))
    → FlashDbCache
    → FlashDbCache × CacheReply (Unit {0})
unfolding changed
decrement env now cancelled req c =
    opened cancelled req (changed is_zero (Store.decrement env now)) c

abbrev pub no_bytes : List ℕ → Bool
no_bytes [] = true
no_bytes (b ∷ bs) = false

-- `Append`
unfoldable pub append :
    Env
    → ℕ
    → Bool
    → Option (Request (Change (List ℕ)))
    → FlashDbCache
    → FlashDbCache × CacheReply (Unit {0})
unfolding changed
append env now cancelled req c = opened cancelled req (changed no_bytes (Store.append env now)) c

-- `GetTTL`
unfoldable pub get_ttl :
    Env
    → (ℕ → ℤ)
    → ℕ
    → Bool
    → Option (Request (Unit {0}))
    → FlashDbCache
    → FlashDbCache × CacheReply ℤ
get_ttl env remaining now cancelled req c =
    opened cancelled req (λ k _ c. through c (Store.get_ttl env remaining now k c.store)) c

-- `SetTTL`; the payload is the TTL in seconds.
unfoldable pub set_ttl :
    Env → ℕ → Bool → Option (Request ℤ) → FlashDbCache → FlashDbCache × CacheReply (Unit {0})
set_ttl env now cancelled req c =
    opened cancelled req
      (λ k ttl c. through c (Store.set_ttl env now k (ttl_or ttl c.default_ttl) c.store)) c
