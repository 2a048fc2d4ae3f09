-- ===== src/Caching/Flash/Replies.antt =====
-- caching/flash.go: the replies of the methods on many keys, key by key.
use photon.Base.{
  ℕ, zero, suc, get_elem?, ◌≡◌, refl, sym, ap, ◌∙◌, Option, none, some, List, [], ◌∷◌, false,
  String, string_discrete, arith, inl, inr, Option-cases,
}
use photon.Base.Dict
use photon.Base.Dict.{Dict, Distinct}
use photon.Flashdb.Value.{Env, Fields, Reply, ok, fail}
use photon.Flashdb.Store
use photon.Flashdb.Store.{Store}
use photon.Caching.Flash.{CacheReply-cases, answer, MultiRequest, FlashDbCache, compose_key}
use photon.Caching.Flash.Keys.{compose_key-inj, answer-inj}
use photon.Caching.Flash.Batches.{full_keys, mapped_back, with_keys, on_full_keys, multi_get}

-- The way back leads from each key of the store to the key that it was composed of.
Leads : String → String → Dict String String → Type 0
Leads ns coll back =
    (fk k : String) → Dict.get string_discrete fk back ≡ some k → compose_key ns coll k ≡ answer fk

module _ (ns coll : String) where
  not_same :
      (j k q fk : String)
      → compose_key ns coll j ≡ answer q
      → compose_key ns coll k ≡ answer fk
      → j ≡ k
      → q ≡ fk
  not_same j k q fk e h same = answer-inj q fk (sym e ∙ ap (compose_key ns coll) same ∙ h)

  put-Leads :
      (fk k : String) (back : Dict String String)
      → compose_key ns coll k ≡ answer fk
      → Leads ns coll back
      → Leads ns coll (Dict.put string_discrete fk k back)
  unfolding Leads
  put-Leads fk k back e l q j h = ground (arith, Dict.get-put string_discrete fk q k back, e, l q j)

  full_keys-Leads :
      (ks : List String) (back : Dict String String)
      → Leads ns coll back
      → Leads ns coll (full_keys ns coll ks back).1
  unfolding full_keys
  full_keys-Leads [] back l = l
  full_keys-Leads (k ∷ ks) back l = elim (CacheReply-cases (compose_key ns coll k)) [
    | inl (fk, e) ↦
        rw (e, full_keys)
          (full_keys-Leads ks (Dict.put string_discrete fk k back) (put-Leads fk k back e l))
    | inr (x, e) ↦ rw (e, full_keys) (full_keys-Leads ks back l)
  ]

  -- What is in the way back stays in it.
  full_keys-keeps :
      (ks : List String) (back : Dict String String) (fk k : String)
      → compose_key ns coll k ≡ answer fk
      → Dict.get string_discrete fk back ≡ some k
      → Dict.get string_discrete fk (full_keys ns coll ks back).1 ≡ some k
  unfolding full_keys
  full_keys-keeps [] back fk k e h = h
  full_keys-keeps (j ∷ ks) back fk k e h = elim (CacheReply-cases (compose_key ns coll j)) [
    | inl (fj, e') ↦
        rw (e', full_keys)
          (full_keys-keeps ks (Dict.put string_discrete fj j back) fk k e
            (elim (string_discrete fj fk) [
              | yes same ↦
                  let j_is_k : j ≡ k = compose_key-inj ns coll j k fk (e' ∙ ap answer same) e in
                  ground (arith, Dict.get-put string_discrete fj fk j back, same, j_is_k)
              | no apart ↦ ground (arith, Dict.get-put string_discrete fj fk j back, apart, h)
            ]))
    | inr (x, e') ↦ rw (e', full_keys) (full_keys-keeps ks back fk k e h)
  ]

  -- The reply to a key of the request is the value of the store's reply under its composed key.
  mapped_back_lem :
      {A : Type 0} (back : Dict String String) (fk k : String) (values out : Dict String A)
      → Leads ns coll back
      → Dict.get string_discrete fk back ≡ some k
      → Distinct string_discrete values
      → Dict.get string_discrete k (mapped_back back values out)
        ≡ elim (Dict.get string_discrete fk values) [
          | none ↦ Dict.get string_discrete k out
          | some v ↦ some v
        ]
  unfolding mapped_back Dict.get Leads
  mapped_back_lem back fk k [] out l h d = unfold Dict.get in refl
  mapped_back_lem back fk k ((q, v) ∷ values) out l h d =
      elim (Option-cases (Dict.get string_discrete q back)) [
        | inl e ↦
            rw (e, mapped_back)
              (mapped_back_lem back fk k values out l h d.1 ∙ ground (arith, h, e))
        | inr (j, e) ↦
            rw (e, mapped_back)
              (mapped_back_lem back fk k values (Dict.put string_discrete j v out) l h d.1
                ∙ elim (string_discrete q fk) [
                  | yes same ↦
                      ground (arith, same, e, h, d.0, Dict.get-put string_discrete j k v out)
                  | no apart ↦ ground (
                    arith,
                    apart,
                    not_same j k q fk (l q j e) (l fk k h),
                    Dict.get-put string_discrete j k v out,
                  )
                ])
      ]

  nothing-Leads : Leads ns coll []
  unfolding Leads Dict.get
  nothing-Leads fk k h = absurd (cc)

  -- A key of the request is on the way back, under its composed key.
  full_keys_there :
      (ks : List String) (back : Dict String String) (i : ℕ) (k fk : String)
      → get_elem? ks i ≡ some k
      → compose_key ns coll k ≡ answer fk
      → Dict.get string_discrete fk (full_keys ns coll ks back).1 ≡ some k
  unfolding full_keys
  full_keys_there [] back i k fk h e = absurd (cc)
  full_keys_there (j ∷ ks) back zero k fk h e =
      let same : j ≡ k = ground (arith, h) in
      rw (ap (compose_key ns coll) same ∙ e, full_keys)
        (full_keys-keeps ks (Dict.put string_discrete fk j back) fk k e
          (ground (arith, same, Dict.get-put string_discrete fk fk j back)))
  full_keys_there (j ∷ ks) back (suc i) k fk h e = elim (CacheReply-cases (compose_key ns coll j)) [
    | inl (fj, e') ↦
        rw (e', full_keys) (full_keys_there ks (Dict.put string_discrete fj j back) i k fk h e)
    | inr (x, e') ↦ rw (e', full_keys) (full_keys_there ks back i k fk h e)
  ]

found-Distinct :
    (k : String) (r : Reply Fields) (out : Dict String Fields)
    → Distinct string_discrete out
    → Distinct string_discrete (elim r [ ok v ↦ Dict.put string_discrete k v out | fail e ↦ out ])
found-Distinct k (ok v) out d = Dict.put-Distinct string_discrete k v out d
found-Distinct k (fail e) out d = d

-- What the store's `MultiGet` builds has each key once.
store_multi_get-Distinct :
    (env : Env) (now : ℕ) (ks : List String) (out : Dict String Fields) (s : Store)
    → Distinct string_discrete out
    → Distinct string_discrete (Store.multi_get env now ks out s).1
unfolding Store.multi_get
store_multi_get-Distinct env now [] out s d = d
store_multi_get-Distinct env now (k ∷ ks) out s d =
    store_multi_get-Distinct env now ks _ (Store.get env now k s).0
      (found-Distinct k (Store.get env now k s).1 out d)

ends : {A : Type 0} (o : Option A) → elim o as (λ _. Option A) [ none ↦ none | some v ↦ some v ] ≡ o
ends none = refl
ends (some v) = refl

with_keys_lem :
    (env : Env) (now : ℕ) (ns coll k fk : String) (fulls : List String) (back : Dict String String)
    (c : FlashDbCache)
    → Leads ns coll back
    → Dict.get string_discrete fk back ≡ some k
    → (out : Dict String Fields) × ((with_keys
          (λ keys s. Store.multi_get env now keys [] s)
          fulls
          back
          c).1
        ≡ answer out)
      × (Dict.get string_discrete k out
          ≡ Dict.get string_discrete fk (Store.multi_get env now fulls [] c.store).1)
unfolding with_keys Dict.get
with_keys_lem env now ns coll k fk [] back c l h =
    ([], refl, unfold Dict.get Store.multi_get in refl)
with_keys_lem env now ns coll k fk (f ∷ fs) back c l h =
    let values = (Store.multi_get env now (f ∷ fs) [] c.store).1 in
    (
      mapped_back back values [],
      refl,
      mapped_back_lem ns coll back fk k values [] l h
            (store_multi_get-Distinct env now (f ∷ fs) [] c.store tt)
          ∙ ends (Dict.get string_discrete fk values),
    )

-- `MultiGet` answers each key of the request that makes a key of the store with what the store's
-- `MultiGet` finds under that one, and with nothing when that finds nothing.
pub multi_get_lem :
    (env : Env) (now i : ℕ) (k fk : String) (req : MultiRequest (List String)) (c : FlashDbCache)
    → get_elem? req.payload i ≡ some k
    → compose_key req.namespace req.collection k ≡ answer fk
    → let fulls = (full_keys req.namespace req.collection req.payload []).0 in
      (out : Dict String Fields) × ((multi_get env now false (some req) c).1 ≡ answer out)
      × (Dict.get string_discrete k out
          ≡ Dict.get string_discrete fk (Store.multi_get env now fulls [] c.store).1)
unfolding multi_get on_full_keys
multi_get_lem env now i k fk req c h e =
    let ns = req.namespace in
    let coll = req.collection in
    let (fulls, back) = full_keys ns coll req.payload [] in
    with_keys_lem env now ns coll k fk fulls back c
      (full_keys-Leads ns coll req.payload [] (nothing-Leads ns coll))
      (full_keys_there ns coll req.payload [] i k fk h e)
