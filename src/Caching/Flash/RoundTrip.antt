-- ===== src/Caching/Flash/RoundTrip.antt =====
-- caching/flash.go: a `Get` after a `Set` of the same key, through the composed key and the store.
use photon.Base.{ℕ, ◌≤◌, ◌≡◌, refl, ap, sym, ◌∙◌, some, List, [], Bool, true, false, String, All}
use photon.Base.Int.{pos, ◌≤ℤ◌}
use photon.Flashdb.Value.{Env, Record, Reply, ok, fail, is_expired}
use photon.Flashdb.Shard.Tracked.{cost}
use photon.Flashdb.Shard.Room.{IsValid}
use photon.Flashdb.Store
use photon.Flashdb.Store.{Store}
use photon.Flashdb.Store.RoundTrip.{written, store_set-get}
use photon.Caching.Flash
use photon.Caching.Flash.{
  CacheReply, answer, Request, SetPayload, FlashDbCache, compose_key, opened, passed, through,
  payload_of, ttl_or,
}

opened_at :
    {P R : Type 0} (req : Request P) (act : String → P → FlashDbCache → FlashDbCache × CacheReply R)
    (k : String) (c : FlashDbCache)
    → compose_key req.namespace req.collection req.key ≡ answer k
    → opened false (some req) act c ≡ act k req.payload c
unfolding opened
opened_at req act k c e = rw (e, opened) refl

passed-true : (r : Reply Bool) → passed r ≡ answer true → r ≡ ok true
passed-true (ok b) h = cc
passed-true (fail e) h = cc

module _ (env : Env) (now later : ℕ) (r : Request SetPayload) (k : String) (c : FlashDbCache) where
  -- The record that `Set` writes for a request, under the key of the store.
  abbrev pub requested : Record
  requested =
      written env now later k (payload_of r.payload) (ttl_or r.payload.ttl c.default_ttl) c.store

  -- The request for all fields of the key of `r`.
  abbrev pub reread : Request (List String)
  reread = record { namespace = r.namespace; collection = r.collection; key = r.key; payload = [] }

  -- When the shards of a cache are well formed and a `Set` answers true, a `Get` of the same
  -- key that asks for all fields answers with the fields that were set, until they expire,
  -- whether the key was there before or not. The estimated size of the record is not negative
  -- and within the budgets of the shards; the key of the store is composed of namespace,
  -- collection and key.
  pub cache_set-get :
      compose_key r.namespace r.collection r.key ≡ answer k
      → All IsValid c.store.parts
      → All (λ sh. cost requested ≤ sh.capacity) c.store.parts
      → pos 0 ≤ℤ requested.size
      → is_expired requested later ≡ false
      → let q = Flash.set env now false (some r) c in
        q.1 ≡ answer true
        → (Flash.get env later false (some reread) q.0).1 ≡ answer (payload_of r.payload)
  unfolding Flash.set Flash.get
  cache_set-get e v fits nonneg fresh done =
      let value = payload_of r.payload in
      let ttl = ttl_or r.payload.ttl c.default_ttl in
      let act = λ (k : String) (p : SetPayload) (c : FlashDbCache).
        through c (Store.set env now k (payload_of p) (ttl_or p.ttl c.default_ttl) c.store) in
      let there = opened_at r act k c e in
      let stored =
        passed-true (Store.set env now k value ttl c.store).1 (ap (λ x. x.1) (sym there) ∙ done) in
      let read = store_set-get env now later k value ttl c.store v fits nonneg fresh stored in
      rw (there, opened_at reread _ k _ e) (rw read refl)
