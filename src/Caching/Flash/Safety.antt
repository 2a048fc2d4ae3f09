-- ===== src/Caching/Flash/Safety.antt =====
-- caching/flash.go: sequences of requests to a cache, against the invariant of the shards.
use photon.Base.{
  ℕ, ◌≡◌, arith, Option, none, some, List, [], ◌∷◌, Bool, true, false, String, string_discrete, All,
  Option-cases, inl, inr, Bool-cases, subst, sym,
}
use photon.Base.Dict
use photon.Base.Int.{ℤ}
use photon.Flashdb.Value.{Env, Fields, Reply, ok, fail}
use photon.Flashdb.Shard.Room.{IsValid}
use photon.Flashdb.Cell.Operations.{SizesFit}
use photon.Flashdb.Cell.Safety as Calls
use photon.Flashdb.Cell.Safety.{Call, run-IsValid}
use photon.Flashdb.Store
use photon.Flashdb.Store.{Store}
use photon.Flashdb.Store.Operations
use photon.Flashdb.Store.Operations.{Keeps}
use photon.Flashdb.Store.Shards.{new_store-IsValid}
use photon.Caching.Flash
use photon.Caching.Flash.{
  CacheReply, CacheReply-cases, answer, refuse, Request, MultiRequest, CacheValue, SetPayload,
  Change, FlashDbCache, compose_key, opened, changed, new_flash_db_cache, store_options,
  seconds_to_duration,
}
use photon.Caching.Flash.Batches
use photon.Caching.Flash.Batches.{
  Progress, put_answered, put_under, put_one, put_fields, put_values, MultiSetPayload, with_keys,
  on_full_keys, opened_multi,
}

-- A request to the cache, at a time, with whether its context has an error. `Exists` takes two locks
-- one after the other; its calls are those that others make on the key's shard in between.
pub data CacheCall : Type 0 where
  gets : ℕ → Bool → Option (Request (List String)) → CacheCall
  sets : ℕ → Bool → Option (Request SetPayload) → CacheCall
  checks : ℕ → List Call → Bool → Option (Request (Unit {0})) → CacheCall
  deletes : Bool → Option (Request (Unit {0})) → CacheCall
  increments decrements : ℕ → Bool → Option (Request (Change ℤ)) → CacheCall
  appends : ℕ → Bool → Option (Request (Change (List ℕ))) → CacheCall
  gets_ttl : ℕ → Bool → Option (Request (Unit {0})) → CacheCall
  sets_ttl : ℕ → Bool → Option (Request ℤ) → CacheCall
  multi_gets : ℕ → Bool → Option (MultiRequest (List String)) → CacheCall
  multi_sets : ℕ → Bool → Option (MultiRequest MultiSetPayload) → CacheCall
  multi_deletes : Bool → Option (MultiRequest (List String)) → CacheCall

module _ (env : Env) (remaining : ℕ → ℤ) where
  unfoldable pub step : FlashDbCache → CacheCall → FlashDbCache
  step c (gets now x req) = (Flash.get env now x req c).0
  step c (sets now x req) = (Flash.set env now x req c).0
  step c (checks now others x req) =
      (Flash.exists env now (λ d. Calls.run env c.store.default_ttl remaining d others) x req c).0
  step c (deletes x req) = (Flash.delete env x req c).0
  step c (increments now x req) = (Flash.increment env now x req c).0
  step c (decrements now x req) = (Flash.decrement env now x req c).0
  step c (appends now x req) = (Flash.append env now x req c).0
  step c (gets_ttl now x req) = (Flash.get_ttl env remaining now x req c).0
  step c (sets_ttl now x req) = (Flash.set_ttl env now x req c).0
  step c (multi_gets now x req) = (Batches.multi_get env now x req c).0
  step c (multi_sets now x req) = (Batches.multi_set env now x req c).0
  step c (multi_deletes x req) = (Batches.multi_delete env x req c).0

  unfoldable pub run : FlashDbCache → List CacheCall → FlashDbCache
  run c [] = c
  run c (call ∷ calls) = run (step c call) calls

  abbrev Sound : FlashDbCache → Type 0
  Sound c = All IsValid c.store.parts

  -- What keeps the shards through an act of the store keeps them through the opening of a method.
  opened-Sound :
      {P R : Type 0} (x : Bool) (req : Option (Request P))
      (act : String → P → FlashDbCache → FlashDbCache × CacheReply R) (c : FlashDbCache)
      → ((k : String) (p : P) → Sound (act k p c).0)
      → Sound c
      → Sound (opened x req act c).0
  unfolding opened
  opened-Sound true req act c keeps v = v
  opened-Sound false none act c keeps v = v
  opened-Sound false (some req) act c keeps v =
      elim (CacheReply-cases (compose_key req.namespace req.collection req.key)) [
        | inl (k, e) ↦ rw (e, opened) (keeps k req.payload)
        | inr (x, e) ↦ rw (e, opened) v
      ]

  with_keys-Sound :
      {A : Type 0} (act : List String → Store → Store × Dict.Dict String A) (fulls : List String)
      (back : Dict.Dict String String) (c : FlashDbCache)
      → ((ks : List String) → Keeps (act ks))
      → Sound c
      → Sound (with_keys act fulls back c).0
  unfolding with_keys
  with_keys-Sound act [] back c keeps v = v
  with_keys-Sound act (f ∷ fs) back c keeps v = keeps (f ∷ fs) c.store v

  opened_multi-Sound :
      {P R : Type 0} (x : Bool) (req : Option (MultiRequest P))
      (act : MultiRequest P → FlashDbCache → FlashDbCache × CacheReply R) (c : FlashDbCache)
      → ((r : MultiRequest P) → Sound (act r c).0)
      → Sound c
      → Sound (opened_multi x req act c).0
  opened_multi-Sound true req act c keeps v = v
  opened_multi-Sound false none act c keeps v = v
  opened_multi-Sound false (some req) act c keeps v = keeps req

  changed-Sound :
      {A : Type 0} (is_empty : A → Bool)
      (act : String → List (String × A) → Store → Store × Reply (Unit {0})) (k : String)
      (p : Change A) (c : FlashDbCache)
      → ((k : String) (fields : List (String × A)) → Keeps (act k fields))
      → Sound c
      → Sound (changed is_empty act k p c).0
  unfolding changed
  changed-Sound is_empty act k p c keeps v = elim (Option-cases p.fields) [
    | inr (fields, e) ↦ rw (e, changed) (keeps k fields c.store v)
    | inl e ↦ elim (Bool-cases (is_empty p.value)) [
      | inl skip ↦ rw (e, changed) (rw skip v)
      | inr go ↦ rw (e, changed) (rw go (keeps k (("bin", p.value) ∷ []) c.store v))
    ]
  ]

  put_answered-Sound :
      (key : String) (p : Progress) (sr : Store × Reply Bool)
      → All IsValid sr.0.parts
      → All IsValid (put_answered key p sr).store.parts
  put_answered-Sound key p (s, ok b) v = v
  put_answered-Sound key p (s, fail e) v = v

  put_under-Sound :
      SizesFit env
      → (now : ℕ) (ttl : ℤ) (key : String) (payload : Fields) (r : CacheReply String) (p : Progress)
      → All IsValid p.store.parts
      → All IsValid (put_under env now ttl key payload r p).store.parts
  put_under-Sound fit now ttl key payload (refuse e) p v = v
  put_under-Sound fit now ttl key payload (answer fk) p v =
      put_answered-Sound key p _
        (Operations.set-Keeps env remaining fit now fk payload ttl p.store v)

  put_one-Sound :
      SizesFit env
      → (now : ℕ) (ttl : ℤ) (ns coll key : String) (payload : Fields) (p : Progress)
      → All IsValid p.store.parts
      → All IsValid (put_one env now ttl ns coll key payload p).store.parts
  unfolding put_one
  put_one-Sound fit now ttl ns coll key payload p v =
      let w = put_under-Sound fit now ttl key payload (compose_key ns coll key) p v in
      ground (arith, v, w)

  put_fields-Sound :
      SizesFit env
      → (now : ℕ) (ttl : ℤ) (ns coll : String) (xs : List (String × Option Fields)) (p : Progress)
      → All IsValid p.store.parts
      → All IsValid (put_fields env now ttl ns coll xs p).store.parts
  unfolding put_fields
  put_fields-Sound fit now ttl ns coll [] p v = v
  put_fields-Sound fit now ttl ns coll ((key, fields) ∷ rest) p v =
      put_fields-Sound fit now ttl ns coll rest _ (put_one-Sound fit now ttl ns coll key _ p v)

  put_values-Sound :
      SizesFit env
      → (now : ℕ) (ttl : ℤ) (ns coll : String) (xs : List (String × CacheValue)) (p : Progress)
      → All IsValid p.store.parts
      → All IsValid (put_values env now ttl ns coll xs p).store.parts
  unfolding put_values
  put_values-Sound fit now ttl ns coll [] p v = v
  put_values-Sound fit now ttl ns coll ((key, x) ∷ rest) p v =
      elim (Option-cases (Dict.get string_discrete key p.result)) [
        | inl e ↦
            rw (e, put_values)
              (put_values-Sound fit now ttl ns coll rest _
                (put_one-Sound fit now ttl ns coll key _ p v))
        | inr (b, e) ↦ rw (e, put_values) (put_values-Sound fit now ttl ns coll rest p v)
      ]

  step-Sound : SizesFit env → (c : FlashDbCache) (call : CacheCall) → Sound c → Sound (step c call)
  unfolding step Flash.get Flash.set Flash.exists Flash.delete Flash.increment Flash.decrement
      Flash.append Flash.get_ttl Flash.set_ttl Batches.multi_get Batches.multi_set
      Batches.multi_delete Batches.on_full_keys
  step-Sound fit c (gets now x req) v =
      opened-Sound x req _ c (λ k p. Operations.get-Keeps env remaining now k c.store v) v
  step-Sound fit c (sets now x req) v =
      opened-Sound x req _ c (λ k p. Operations.set-Keeps env remaining fit now k _ _ c.store v) v
  step-Sound fit c (checks now others x req) v =
      opened-Sound x req _ c
        (λ k p.
          Operations.exists-Keeps env remaining now k _
            (λ d w. run-IsValid env c.store.default_ttl remaining d others fit w) c.store v)
        v
  step-Sound fit c (deletes x req) v =
      opened-Sound x req _ c (λ k p. Operations.delete-Keeps env remaining k c.store v) v
  step-Sound fit c (increments now x req) v =
      opened-Sound x req _ c
        (λ k p.
          changed-Sound Flash.is_zero (Store.increment env now) k p c
            (Operations.increment-Keeps env remaining now) v)
        v
  step-Sound fit c (decrements now x req) v =
      opened-Sound x req _ c
        (λ k p.
          changed-Sound Flash.is_zero (Store.decrement env now) k p c
            (Operations.decrement-Keeps env remaining now) v)
        v
  step-Sound fit c (appends now x req) v =
      opened-Sound x req _ c
        (λ k p.
          changed-Sound Flash.no_bytes (Store.append env now) k p c
            (Operations.append-Keeps env remaining fit now) v)
        v
  step-Sound fit c (gets_ttl now x req) v =
      opened-Sound x req _ c (λ k p. Operations.get_ttl-Keeps env remaining now k c.store v) v
  step-Sound fit c (sets_ttl now x req) v =
      opened-Sound x req _ c (λ k p. Operations.set_ttl-Keeps env remaining now k _ c.store v) v
  step-Sound fit c (multi_gets now x req) v =
      opened_multi-Sound x req _ c
        (λ r. with_keys-Sound _ _ _ c (λ ks. Operations.multi_get-Keeps env remaining now ks []) v)
        v
  step-Sound fit c (multi_sets now x req) v =
      opened_multi-Sound x req _ c
        (λ r.
          put_values-Sound fit now _ r.namespace r.collection r.payload.value_map _
            (put_fields-Sound fit now _ r.namespace r.collection r.payload.fields_map _ v))
        v
  step-Sound fit c (multi_deletes x req) v =
      opened_multi-Sound x req _ c
        (λ r. with_keys-Sound _ _ _ c (λ ks. Operations.multi_delete-Keeps env remaining ks []) v) v

  run-Sound :
      SizesFit env → (calls : List CacheCall) (c : FlashDbCache) → Sound c → Sound (run c calls)
  unfolding run
  run-Sound fit [] c v = v
  run-Sound fit (call ∷ calls) c v = run-Sound fit calls (step c call) (step-Sound fit c call v)

  new_cache-Sound :
      (default_ttl : ℤ) (c : FlashDbCache) → new_flash_db_cache env default_ttl ≡ some c → Sound c
  unfolding new_flash_db_cache
  new_cache-Sound default_ttl c made =
      elim (Option-cases (Store.new_store env (store_options default_ttl))) [
        | inl e ↦ ground (arith, e, made)
        | inr (s, e) ↦
            let (v, _, _) = new_store-IsValid env _ s (omega arith) e in
            let same : c ≡ record { store = s; default_ttl = seconds_to_duration default_ttl } =
              ground (arith, e, made) in
            subst Sound (sym same) v
      ]

  -- After any sequence of requests to a new cache, of every kind, every shard of its store is
  -- well formed: its map, its LRU and its byte count describe the same records, and the bytes
  -- are within the budget of the shard. Between the two locks of an `Exists` others may make
  -- any calls on the shard of its key. The estimated sizes fit an int64.
  pub cache_run_is_within_budget :
      (default_ttl : ℤ) (c : FlashDbCache) (calls : List CacheCall)
      → SizesFit env
      → new_flash_db_cache env default_ttl ≡ some c
      → All IsValid (run c calls).store.parts
  cache_run_is_within_budget default_ttl c calls fit made =
      run-Sound fit calls c (new_cache-Sound default_ttl c made)
