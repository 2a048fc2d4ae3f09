-- ===== src/Flashdb/Cell/Effects.antt =====
-- storage/flashdb/store.go: what the operations answer, and what they leave alone.
use photon.Base.{
  Option-cases, inl, inr, ℕ, ◌≤◌, ◌≡◌, ◌≢◌, ◌∙◌, arith, Option, none, some, [], ◌∷◌, true, false,
  String, string_discrete, ite, ◌==◌,
}
use photon.Base.Dict
use photon.Base.Int.{ℤ, pos, negsuc, ltb_ℤ, ◌≤ℤ◌}
use photon.Flashdb.Value.{
  Env, Fields, Any, Record, ok, fail, not_found, illegal_field, is_expired, add_int, compute_size,
}
use photon.Flashdb.Shard
use photon.Flashdb.Shard.{Shard}
use photon.Flashdb.Shard.Tracked.{get-remove, cost}
use photon.Flashdb.Shard.Room.{IsValid}
use photon.Flashdb.Cell
use photon.Flashdb.Cell.{Cell, find, exists, exists_again, increment_fields, increment}
use photon.Flashdb.Cell.Writes.{set_new, incoming, set_there}

-- The record that a reader at a time may see.
unfoldable pub visible : ℕ → String → Cell → Option Record
visible now k c = elim (find k c.shard) [
  | none ↦ none
  | some r ↦ elim (is_expired r now) [ true ↦ none | false ↦ some r ]
]

-- `Get` answers with the value of the record of the key when there is one that is not expired,
-- else not found; no entry changes but that an expired record of the key is removed.
get-visible :
    (now : ℕ) (k : String) (c : Cell)
    → ((Cell.get now k c).1
        ≡ elim (visible now k c) [ none ↦ fail not_found | some r ↦ ok r.value ])
      × ((q : String)
          → find q (Cell.get now k c).0.shard
            ≡ ite (string_discrete k q) (visible now k c) (find q c.shard))
unfolding Cell.get visible Shard.bump
get-visible now k c = (ground arith, λ q. ground (arith, get-remove k q c.shard))

-- Without interference between its two lock sections, `Exists` answers whether there is a record
-- that is not expired; no entry changes but that an expired record of the key is removed.
exists_alone :
    (now : ℕ) (k : String) (c : Cell)
    → ((exists now k (λ d. d) c).1 ≡ elim (visible now k c) [ none ↦ false | some _ ↦ true ])
      × ((q : String)
          → find q (exists now k (λ d. d) c).0.shard
            ≡ ite (string_discrete k q) (visible now k c) (find q c.shard))
unfolding exists exists_again visible
exists_alone now k c = (ground arith, λ q. ground (arith, get-remove k q c.shard))

-- What `Set` wrote over a record of a well-formed shard is what `Get` reads, until it expires,
-- when the estimated size of the new record is not negative and within the budget of the shard.
pub get-set :
    (env : Env) (default_ttl : ℤ) (now later : ℕ) (k : String) (value : Fields) (ttl : ℤ) (c : Cell)
    (r : Record)
    → IsValid c.shard
    → find k c.shard ≡ some r
    → pos 0 ≤ℤ compute_size env k value
    → cost (incoming env default_ttl now k value ttl c) ≤ c.shard.capacity
    → is_expired (incoming env default_ttl now k value ttl c) later ≡ false
    → (Cell.get later k (Cell.set env default_ttl now k value ttl c).0).1 ≡ ok value
unfolding visible
get-set env default_ttl now later k value ttl c r v there nonneg fits fresh =
    let stored = (set_there env default_ttl now k value ttl c r v there nonneg).1 in
    let c' = (Cell.set env default_ttl now k value ttl c).0 in
    (get-visible later k c').0 ∙ ground (arith, stored, fits)

-- The same for every `Set` that answers true, of a key that is there or not.
pub stored-get :
    (env : Env) (default_ttl : ℤ) (now later : ℕ) (k : String) (value : Fields) (ttl : ℤ) (c : Cell)
    → IsValid c.shard
    → pos 0 ≤ℤ compute_size env k value
    → cost (incoming env default_ttl now k value ttl c) ≤ c.shard.capacity
    → is_expired (incoming env default_ttl now k value ttl c) later ≡ false
    → (Cell.set env default_ttl now k value ttl c).1 ≡ true
    → (Cell.get later k (Cell.set env default_ttl now k value ttl c).0).1 ≡ ok value
unfolding visible
stored-get env default_ttl now later k value ttl c v nonneg fits fresh done =
    let c' = (Cell.set env default_ttl now k value ttl c).0 in
    elim (Option-cases (find k c.shard)) [
      | inr (r, there) ↦ get-set env default_ttl now later k value ttl c r v there nonneg fits fresh
      | inl new ↦ elim (set_new env default_ttl now k value ttl c v new).answer [
        | inl (_, stored) ↦ (get-visible later k c').0 ∙ ground (arith, stored)
        | inr (refused, _, _) ↦ absurd (cc)
      ]
    ]

-- `GetTTL` answers, for a record that is not expired, minus one when it has no expiry, and else
-- the remaining seconds while they are not negative; in every other case not found.
get_ttl-visible :
    (remaining : ℕ → ℤ) (now : ℕ) (k : String) (c : Cell)
    → (Cell.get_ttl remaining now k c).1 ≡ elim (visible now k c) [
      | none ↦ fail not_found
      | some r ↦ elim (r.expiry == 0) [
        | true ↦ ok (negsuc 0)
        | false ↦ elim (ltb_ℤ (remaining r.expiry) (pos 0)) [
          | true ↦ fail not_found
          | false ↦ ok (remaining r.expiry)
        ]
      ]
    ]
unfolding Cell.get_ttl visible
get_ttl-visible remaining now k c = ground arith

-- `Increment` is not atomic: when the walk meets a field that it can raise and then a field that
-- the record does not have, it answers with illegal field and the record keeps the raised value.
pub increment_partly :
    (env : Env) (now : ℕ) (k first bad : String) (delta other : ℤ) (c : Cell) (r : Record)
    (cur next : Any)
    → find k c.shard ≡ some r
    → is_expired r now ≡ false
    → Dict.get string_discrete first r.value ≡ some cur
    → add_int env cur delta ≡ some next
    → Dict.get string_discrete bad r.value ≡ none
    → bad ≢ first
    → let q = increment env now k ((first, delta) ∷ (bad, other) ∷ []) c in
      (q.1 ≡ fail illegal_field)
      × (find k q.0.shard ≡ some (record r { value = Dict.put string_discrete first next r.value }))
unfolding increment increment_fields
increment_partly env now k first bad delta other c r cur next there fresh held sum missing apart = (
  ground (arith, Dict.get-put string_discrete first bad next r.value),
  ground (
    arith,
    Dict.get-put string_discrete first bad next r.value,
    Dict.get-put string_discrete k k
        (record r { value = Dict.put string_discrete first next r.value }) c.shard.entries,
  ),
)
