-- ===== src/Flashdb/Store/RoundTrip.antt =====
-- storage/flashdb/store.go: what `Get` reads of the store after a `Set`, through the key's shard.
use photon.Base.{
  ℕ, zero, suc, ◌≤◌, ◌≡◌, refl, ap, Bool, ◌∙◌, inl, inr, sym, none, some, List, [], ◌∷◌, true,
  false, String, string_discrete, get_elem?, set, All, Option-cases, length-set,
}
use photon.Base.Int.{ℤ, pos, ◌≤ℤ◌}
use photon.Flashdb.Value.{
  Env, Fields, Record, Reply, ok, fail, invalid_key, compute_size, is_expired,
}
use photon.Flashdb.Shard.{Shard}
use photon.Flashdb.Shard.Tracked.{cost}
use photon.Flashdb.Shard.Room.{IsValid}
use photon.Flashdb.Cell
use photon.Flashdb.Cell.{Cell, expiry_of}
use photon.Flashdb.Cell.Effects.{stored-get}
use photon.Flashdb.Store
use photon.Flashdb.Store.{Store, at_shard, shard_for}
use photon.Flashdb.Store.Shards.{at_shard_lem, on_key_invalid, on_key_valid, get_elem?-All}

not_stored : ¬ (ok false ≡ ok true)
not_stored h = cc

abbrev invalid : Reply Bool
invalid = fail invalid_key

not_refused : ¬ (invalid ≡ ok true)
not_refused h = cc

ok_inj : (a b : Bool) → ok a ≡ ok b → a ≡ b
ok_inj a b h = cc

get_elem?-set_self :
    (xs : List Shard) (i : ℕ) (sh new : Shard)
    → get_elem? xs i ≡ some sh
    → get_elem? (set xs i new) i ≡ some new
get_elem?-set_self [] i sh new h = absurd (cc)
get_elem?-set_self (x ∷ xs) zero sh new h = refl
get_elem?-set_self (x ∷ xs) (suc i) sh new h = get_elem?-set_self xs i sh new h

module _ {R T : Type 0} (i : ℕ) (f : Cell → Cell × R) (g : Cell → Cell × T) (d : R) (d' : T)
    (s : Store) (sh : Shard) (there : get_elem? s.parts i ≡ some sh) where
  abbrev cell : Cell
  cell = record { shard = sh; lfu = s.lfu }

  at_shard_reply : (at_shard i f d s).1 ≡ (f cell).1
  at_shard_reply = rw (at_shard_lem i d f s (some sh) there) refl

  -- A second operation at the same shard works on what the first left.
  at_shard_twice : (at_shard i g d' (at_shard i f d s).0).1 ≡ (g (f cell).0).1
  at_shard_twice = rw (at_shard_lem i d f s (some sh) there) (
      rw
        (at_shard_lem i d' g
          (record s { parts = set s.parts i (f cell).0.shard; lfu = (f cell).0.lfu })
          (some (f cell).0.shard) (get_elem?-set_self s.parts i sh (f cell).0.shard there))
        refl)

-- An operation at a shard leaves every key with its shard.
shard_for-at_shard :
    {R : Type 0} (env : Env) (k : String) (i : ℕ) (f : Cell → Cell × R) (d : R) (s : Store)
    → shard_for env (at_shard i f d s).0.parts k ≡ shard_for env s.parts k
unfolding shard_for
shard_for-at_shard env k i f d s = elim (Option-cases (get_elem? s.parts i)) [
  | inl e ↦ rw (at_shard_lem i d f s none e) refl
  | inr (sh, e) ↦
      rw (at_shard_lem i d f s (some sh) e)
        (rw (length-set s.parts i (f (record { shard = sh; lfu = s.lfu })).0.shard) refl)
]

module _ (env : Env) (now later : ℕ) (k : String) (value : Fields) (ttl : ℤ) (s : Store) where
  -- The record that the store writes.
  abbrev pub written : Record
  written = record {
    value = value;
    size = compute_size env k value;
    expiry = expiry_of now s.default_ttl ttl;
  }

  abbrev puts : Cell → Cell × Reply Bool
  puts = Store.answered (Cell.set env s.default_ttl now k value ttl)

  module _ (v : All IsValid s.parts) (fits : All (λ sh. cost written ≤ sh.capacity) s.parts)
      (nonneg : pos 0 ≤ℤ compute_size env k value) (fresh : is_expired written later ≡ false) where
    shard_set-get :
        (i : ℕ)
        → (at_shard i puts (ok false) s).1 ≡ ok true
        → (at_shard i (Cell.get later k) (ok []) (at_shard i puts (ok false) s).0).1 ≡ ok value
    shard_set-get i done = elim (Option-cases (get_elem? s.parts i)) [
      | inl e ↦
          absurd (not_stored (ap (λ x. x.1) (sym (at_shard_lem i (ok false) puts s none e)) ∙ done))
      | inr (sh, e) ↦
          at_shard_twice i puts (Cell.get later k) (ok false) (ok []) s sh e
          ∙ stored-get env s.default_ttl now later k value ttl _
              (get_elem?-All IsValid s.parts i sh v e) nonneg
              (get_elem?-All (λ sh. cost written ≤ sh.capacity) s.parts i sh fits e) fresh
              (ok_inj _ _
                (sym (at_shard_reply i puts (Cell.get later k) (ok false) (ok []) s sh e) ∙ done))
    ]

    pub store_set-get :
        (Store.set env now k value ttl s).1 ≡ ok true
        → (Store.get env later k (Store.set env now k value ttl s).0).1 ≡ ok value
    unfolding Store.set Store.get
    store_set-get done = elim (string_discrete k "") [
      | yes e ↦
          absurd (not_refused (ap (λ x. x.1) (sym (on_key_invalid env k false puts s e)) ∙ done))
      | no ne ↦
          let i = shard_for env s.parts k in
          rw
            (
              on_key_valid env k false puts s ne,
              on_key_valid env k [] (Cell.get later k) (at_shard i puts (ok false) s).0 ne,
              shard_for-at_shard env k i puts (ok false) s,
            )
            (shard_set-get i (ap (λ x. x.1) (sym (on_key_valid env k false puts s ne)) ∙ done))
    ]
