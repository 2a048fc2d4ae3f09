-- ===== src/Caching/Flash/Batches.antt =====
-- caching/flash.go: the methods on many keys. The result of a walk over a Go map is folded from the
-- entries in the order of the walk.
use photon.Base.{
  ℕ, Option, none, some, List, [], ◌∷◌, Bool, true, false, String, string_discrete, ite,
}
use photon.Base.Dict
use photon.Base.Dict.{Dict}
use photon.Base.Int.{ℤ}
use photon.Flashdb.Value.{other, Env, Fields, Reply, ok, fail}
use photon.Flashdb.Store
use photon.Flashdb.Store.{Store}
use photon.Caching.Flash.{
  CacheError, cancelled_context, nil_request, of_store, CacheReply, answer, refuse, MultiRequest,
  CacheValue, nil_value, map_value, plain_value, FlashDbCache, compose_key, ttl_or,
}

-- The loop over the keys of a request: the keys of the store in order, and the way back from them.
-- Empty keys are skipped.
unfoldable pub full_keys :
    String → String → List String → Dict String String → List String × Dict String String
full_keys ns coll [] back = ([], back)
full_keys ns coll (k ∷ ks) back = elim (compose_key ns coll k) [
  | refuse e ↦ full_keys ns coll ks back
  | answer fk ↦
      let (fulls, back') = full_keys ns coll ks (Dict.put string_discrete fk k back) in
      (fk ∷ fulls, back')
]

-- The walk over the result of the store, back to the keys of the request.
unfoldable pub mapped_back :
    {A : Type 0} → Dict String String → Dict String A → Dict String A → Dict String A
mapped_back back [] out = out
mapped_back back ((fk, v) ∷ rest) out = elim (Dict.get string_discrete fk back) [
  | none ↦ mapped_back back rest out
  | some k ↦ mapped_back back rest (Dict.put string_discrete k v out)
]

-- The opening of the methods on many keys.
abbrev pub opened_multi :
    {P R : Type 0}
    → Bool
    → Option (MultiRequest P)
    → (MultiRequest P → FlashDbCache → FlashDbCache × CacheReply R)
    → FlashDbCache
    → FlashDbCache × CacheReply R
opened_multi true req act c = (c, refuse cancelled_context)
opened_multi false none act c = (c, refuse nil_request)
opened_multi false (some req) act c = act req c

-- A store's operation on its keys, if there are any, and the way back.
unfoldable pub with_keys :
    {A : Type 0}
    → (List String → Store → Store × Dict String A)
    → List String
    → Dict String String
    → FlashDbCache
    → FlashDbCache × CacheReply (Dict String A)
with_keys act [] back c = (c, answer [])
with_keys act (fk ∷ fks) back c =
    let (s, values) = act (fk ∷ fks) c.store in
    (record c { store = s }, answer (mapped_back back values []))

unfoldable pub on_full_keys :
    {A : Type 0}
    → (List String → Store → Store × Dict String A)
    → MultiRequest (List String)
    → FlashDbCache
    → FlashDbCache × CacheReply (Dict String A)
on_full_keys act req c =
    let (fulls, back) = full_keys req.namespace req.collection req.payload [] in
    with_keys act fulls back c

-- `MultiGet`
unfoldable pub multi_get :
    Env
    → ℕ
    → Bool
    → Option (MultiRequest (List String))
    → FlashDbCache
    → FlashDbCache × CacheReply (Dict String Fields)
unfolding on_full_keys
multi_get env now cancelled req c =
    opened_multi cancelled req (on_full_keys (λ keys s. Store.multi_get env now keys [] s)) c

-- `MultiDelete`
unfoldable pub multi_delete :
    Env
    → Bool
    → Option (MultiRequest (List String))
    → FlashDbCache
    → FlashDbCache × CacheReply (Dict String Bool)
unfolding on_full_keys
multi_delete env cancelled req c =
    opened_multi cancelled req (on_full_keys (λ keys s. Store.multi_delete env keys [] s)) c

-- The results of a `MultiSet` so far, and its first error.
pub record Progress : Type 0 where
  pub store : Store
  pub result : Dict String Bool
  pub first_error : Option CacheError

abbrev pub first : Option CacheError → CacheError → Option CacheError
first (some e) e' = some e
first none e' = some e'

-- The store's answer to a write of `MultiSet`.
abbrev pub put_answered : String → Progress → Store × Reply Bool → Progress
put_answered key p (s, ok b) = record p {
  store = s;
  result = Dict.put string_discrete key b p.result;
}
put_answered key p (s, fail e) = record {
  store = s;
  result = Dict.put string_discrete key false p.result;
  first_error = first p.first_error (of_store e);
}

-- A write of `MultiSet` under a composed key.
abbrev pub put_under : Env → ℕ → ℤ → String → Fields → CacheReply String → Progress → Progress
put_under env now ttl key payload (refuse e) p = record p {
  result = Dict.put string_discrete key false p.result;
  first_error = first p.first_error e;
}
put_under env now ttl key payload (answer fk) p =
    put_answered key p (Store.set env now fk payload ttl p.store)

-- One write of `MultiSet`.
unfoldable pub put_one : Env → ℕ → ℤ → String → String → String → Fields → Progress → Progress
put_one env now ttl ns coll key payload p =
    ite (string_discrete key "") (record p { result = Dict.put string_discrete key false p.result })
      (put_under env now ttl key payload (compose_key ns coll key) p)

-- The walk over `FieldsMap`; nil fields are an empty map.
unfoldable pub put_fields :
    Env → ℕ → ℤ → String → String → List (String × Option Fields) → Progress → Progress
put_fields env now ttl ns coll [] p = p
put_fields env now ttl ns coll ((key, fields) ∷ rest) p =
    put_fields env now ttl ns coll rest
      (put_one env now ttl ns coll key (elim fields [ none ↦ [] | some m ↦ m ]) p)

-- nil is one of the opaque values of a record.
abbrev pub as_field : CacheValue → Fields
as_field nil_value = ("bin", other 0) ∷ []
as_field (map_value m) = m
as_field (plain_value v) = ("bin", v) ∷ []

-- The walk over `ValueMap`, without the keys that have a result already.
unfoldable pub put_values :
    Env → ℕ → ℤ → String → String → List (String × CacheValue) → Progress → Progress
put_values env now ttl ns coll [] p = p
put_values env now ttl ns coll ((key, v) ∷ rest) p =
    put_values env now ttl ns coll rest (elim (Dict.get string_discrete key p.result) [
      | some _ ↦ p
      | none ↦ put_one env now ttl ns coll key (as_field v) p
    ])

pub record MultiSetPayload : Type 0 where
  pub fields_map : List (String × Option Fields)
  pub value_map : List (String × CacheValue)
  pub ttl : ℤ

-- `MultiSet`: the results, and the first error beside them.
unfoldable pub multi_set :
    Env
    → ℕ
    → Bool
    → Option (MultiRequest MultiSetPayload)
    → FlashDbCache
    → FlashDbCache × CacheReply (Dict String Bool × Option CacheError)
multi_set env now cancelled req c =
    opened_multi cancelled req
      (λ req c.
        let p = req.payload in
        let ttl = ttl_or p.ttl c.default_ttl in
        let start : Progress = record { store = c.store; result = []; first_error = none } in
        let done =
          put_values env now ttl req.namespace req.collection p.value_map
            (put_fields env now ttl req.namespace req.collection p.fields_map start) in
        (record c { store = done.store }, answer (done.result, done.first_error)))
      c
