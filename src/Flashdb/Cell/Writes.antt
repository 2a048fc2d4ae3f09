-- ===== src/Flashdb/Cell/Writes.antt =====
-- storage/flashdb/store.go: what `Set` leaves behind, and what its answer is worth.
use photon.Base.{
  ℕ, ◌≤◌, ◌<◌, ◌≡◌, refl, ◌∙◌, leb, if◌then◌else◌, ◌⊎◌, inl, inr, arith, none, some, ◌∷◌, Bool,
  true, false, String, string_discrete, Bool-cases, if_pos, if_neg, sym, ◌≢◌,
}
use photon.Base.Dict
use photon.Base.Int.{ℤ, pos, ◌≤ℤ◌}
use photon.Stdlib.Lru
use photon.Stdlib.Lru.Reads.{get-touch}
use photon.Stdlib.Lru.Recency.{touch}
use photon.Flashdb.Value.{Env, Fields, Record, compute_size}
use photon.Flashdb.Shard
use photon.Flashdb.Shard.{Shard, tail_key, admits, trim_all}
use photon.Flashdb.Shard.Tracked.{Tracked, cost, has, recent, bump-Tracked}
use photon.Flashdb.Shard.Room.{IsValid}
use photon.Flashdb.Shard.Trim.{trim_lem, get-trim}
use photon.Flashdb.Shard.Front.{trim_keeps_front}
use photon.Flashdb.Cell
use photon.Flashdb.Cell.{Cell, find, note, expiry_of, update, insert}
use photon.Flashdb.Cell.Accounting.{two63, compute_size-lt, cost-le-current}
use photon.Flashdb.Cell.Invariant.{resized, resized-Tracked, update-resized, insert_cases}

bump_front :
    (k : String) (sh : Shard)
    → Tracked sh
    → has k sh.entries ≡ true
    → recent (Shard.bump k sh) ≡ (k, tt) ∷ Dict.del string_discrete k (recent sh)
unfolding Shard.bump touch
bump_front k sh t there = (get-touch string_discrete k t.linked).1 ∙ ground (arith, t.same k)

module _ (k : String) (r r' : Record) (sh : Shard) where
  find-resized : find k (resized k r r' sh) ≡ some r'
  unfolding resized
  find-resized =
      Dict.get-put string_discrete k k r' sh.entries ∙ if_pos (string_discrete k k) refl _ _

  before_trim : Shard
  before_trim = Shard.bump k (resized k r r' sh)

  before_trim-capacity : before_trim.capacity ≡ sh.capacity
  unfolding before_trim Shard.bump resized
  before_trim-capacity = refl

  find-before_trim : find k before_trim ≡ some r'
  unfolding before_trim Shard.bump
  find-before_trim = find-resized

  module _ (v : IsValid sh) (there : find k sh ≡ some r) (nonneg : pos 0 ≤ℤ r'.size)
      (small : cost r' < two63) where
    resized_kept : Tracked (resized k r r' sh)
    unfolding resized
    resized_kept = resized-Tracked k r r' v there nonneg small

    before_trim-Tracked : Tracked before_trim
    unfolding before_trim
    before_trim-Tracked = bump-Tracked k resized_kept

    updated : update k r r' sh ≡ trim_all before_trim
    unfolding before_trim
    updated = update-resized k r r' sh nonneg

    front_before :
        recent before_trim ≡ (k, tt) ∷ Dict.del string_discrete k (recent (resized k r r' sh))
    unfolding before_trim
    front_before = bump_front k (resized k r r' sh) resized_kept (ground (arith, find-resized))

    -- An updated record that fits the budget is kept.
    pub update_keeps : cost r' ≤ sh.capacity → find k (update k r r' sh) ≡ some r'
    unfolding trim_all
    update_keeps fits =
        rw updated
          (trim_keeps_front k r' (Lru.len before_trim.lru) before_trim (record {
            tracked = before_trim-Tracked;
            there = find-before_trim;
            fits = omega (arith, before_trim-capacity, fits);
            rest = Dict.del string_discrete k (recent (resized k r r' sh));
            front = front_before;
          })).there

    -- One that does not fit is gone after the update.
    pub update_drops : sh.capacity < cost r' → find k (update k r r' sh) ≡ none
    unfolding trim_all Shard.is_full
    update_drops big =
        let (t, done, same) =
          trim_lem (Lru.len before_trim.lru) before_trim before_trim-Tracked (omega arith) in
        let sh' = Shard.trim (Lru.len before_trim.lru) before_trim in
        rw updated (elim (get-trim (Lru.len before_trim.lru) before_trim k) [
          | inr gone ↦ gone
          | inl kept ↦
              let counted = cost-le-current k r' sh' t (kept ∙ find-before_trim) in
              absurd (ground (arith, counted, done, same, before_trim-capacity))
        ])

find-set :
    (env : Env) (default_ttl : ℤ) (now : ℕ) (k : String) (value : Fields) (ttl : ℤ) (c : Cell)
    → (r : Record) → find k c.shard ≡ some r
    → Cell.set env default_ttl now k value ttl c ≡ (
      record {
        shard =
            update k r
              (record {
                value = value;
                size = compute_size env k value;
                expiry = expiry_of now default_ttl ttl;
              })
              c.shard;
        lfu = note k c.lfu;
      },
      true,
    )
unfolding Cell.set
find-set env default_ttl now k value ttl c r there = rw (there, Cell.set)

-- The outcome of `Set` of a new key, of a cell `c`: the access is noted in the TinyLFU; then the
-- record is stored, and readable; or refused, because it is larger than the whole budget or because
-- the TinyLFU prefers the record at the tail. Other keys read as before or were evicted, and they
-- read as before unless the TinyLFU, the access noted, admits the new key against them.
pub record SetNew (k : String) (r : Record) (c : Cell) (q : Cell × Bool) : Type 0 where
  pub noted : q.0.lfu ≡ note k c.lfu
  pub answer :
      ((q.1 ≡ true) × (find k q.0.shard ≡ some r))
      ⊎ ((q.1 ≡ false)
          × (find k q.0.shard ≡ none)
          × ((c.shard.capacity < cost r)
              ⊎ ((vk : String) × (tail_key q.0.shard ≡ some vk)
                  × (admits (note k c.lfu) k vk ≡ false))))
  pub others :
      (p : String) → (p ≡ k) ⊎ (find p q.0.shard ≡ find p c.shard) ⊎ (find p q.0.shard ≡ none)
  pub preferred :
      (p : String)
      → (p ≡ k) ⊎ (find p q.0.shard ≡ find p c.shard) ⊎ (admits (note k c.lfu) k p ≡ true)

insert-SetNew :
    (k : String) (r : Record) (c : Cell)
    → IsValid c.shard
    → find k c.shard ≡ none
    → SetNew k r c (insert k r (record c { lfu = note k c.lfu }))
insert-SetNew k r c v new =
    insert_cases (SetNew k r c) k r (record c { lfu = note k c.lfu }) v
      (λ big. record {
        noted = refl;
        answer = inr (refl, new, inl big);
        others = λ p. inr (inl refl);
        preferred = λ p. inr (inl refl);
      })
      (λ _ sh m. record {
        noted = refl;
        answer = inr (
          refl,
          ground (arith, m.kept k),
          inr (elim m.outcome [ inl (bad, _) ↦ absurd (cc) | inr (_, w) ↦ w ]),
        );
        others = λ p. inr (m.kept p);
        preferred = λ p. inr (m.preferred p);
      })
      λ _ sh m.
        let other = λ (p : String) (ne : p ≢ k).
          Dict.get-put string_discrete k p r sh.entries
          ∙ if_neg (string_discrete k p) (λ e. ne (sym e)) _ _ in
        record {
          noted = refl;
          answer = inl (
            refl,
            Dict.get-put string_discrete k k r sh.entries ∙ if_pos (string_discrete k k) refl _ _,
          );
          others = λ p. elim (string_discrete p k) [
            | yes same ↦ inl same
            | no ne ↦ inr (ground (arith, other p ne, m.kept p))
          ];
          preferred = λ p. elim (string_discrete p k) [
            | yes same ↦ inl same
            | no ne ↦ inr (ground (arith, other p ne, m.preferred p))
          ];
        }

find-set_new :
    (env : Env) (default_ttl : ℤ) (now : ℕ) (k : String) (value : Fields) (ttl : ℤ) (c : Cell)
    → find k c.shard ≡ none
    → Cell.set env default_ttl now k value ttl c
      ≡ insert k
          (record {
            value = value;
            size = compute_size env k value;
            expiry = expiry_of now default_ttl ttl;
          })
          (record c { lfu = note k c.lfu })
unfolding Cell.set
find-set_new env default_ttl now k value ttl c new = rw (new, Cell.set)

module _ (env : Env) (default_ttl : ℤ) (now : ℕ) (k : String) (value : Fields) (ttl : ℤ)
    (c : Cell) where
  -- The record that `Set` would store.
  abbrev pub incoming : Record
  incoming = record {
    value = value;
    size = compute_size env k value;
    expiry = expiry_of now default_ttl ttl;
  }

  set_there_cases :
      (r : Record)
      → IsValid c.shard
      → find k c.shard ≡ some r
      → pos 0 ≤ℤ compute_size env k value
      → let q = Cell.set env default_ttl now k value ttl c in
        (q.1 ≡ true)
        × (cost incoming ≤ c.shard.capacity → find k q.0.shard ≡ some incoming)
        × (c.shard.capacity < cost incoming → find k q.0.shard ≡ none)
  set_there_cases r v there nonneg =
      let small = compute_size-lt env k value in
      rw (find-set env default_ttl now k value ttl c r there) (
        refl,
        update_keeps k r incoming c.shard v there nonneg small,
        update_drops k r incoming c.shard v there nonneg small,
      )

  -- `Set` of a key that is in a well-formed shard always answers true. The new record is stored
  -- exactly when its size is within the budget of the shard; otherwise the key is gone. The
  -- estimated size has to be an int64 that is not negative.
  pub set_there :
      (r : Record)
      → IsValid c.shard
      → find k c.shard ≡ some r
      → pos 0 ≤ℤ compute_size env k value
      → let q = Cell.set env default_ttl now k value ttl c in
        (q.1 ≡ true)
        × (find k q.0.shard
            ≡ (if leb (cost incoming) c.shard.capacity then some incoming else none))
  set_there r v there nonneg =
      let (answer, keeps, drops) = set_there_cases r v there nonneg in
      (
        answer,
        elim (Bool-cases (leb (cost incoming) c.shard.capacity)) [
          | inl e ↦ rw e (keeps (ground arith))
          | inr e ↦ rw e (drops (ground arith))
        ],
      )

  -- `Set` of a key that a well-formed shard does not hold leaves the TinyLFU with this access
  -- noted, and stores or refuses as `SetNew` says: stored, it is readable; refused, it is not
  -- there, and the record is larger than the whole budget or the TinyLFU prefers the record at
  -- the tail. Every other key reads as before or was evicted, and it reads as before unless the
  -- TinyLFU, the access noted, admits the new key against it.
  pub set_new :
      IsValid c.shard
      → find k c.shard ≡ none
      → SetNew k incoming c (Cell.set env default_ttl now k value ttl c)
  set_new v new =
      rw (find-set_new env default_ttl now k value ttl c new) (insert-SetNew k incoming c v new)
