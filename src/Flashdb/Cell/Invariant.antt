-- ===== src/Flashdb/Cell/Invariant.antt =====
-- storage/flashdb/store.go: the building blocks of the operations, against the invariant of a shard.
use photon.Base.{
  ℕ, suc, ◌+◌, ◌%◌, ◌≤◌, ◌<◌, ◌≡◌, refl, subst, ltb→lt, inl, inr, arith, Option, none, some, List,
  [], ◌∷◌, Bool, true, false, ltb, String, string_discrete, Option-cases, Bool-cases,
}
use photon.Base.Dict
use photon.Base.Int.{pos, ◌≤ℤ◌, leb_ℤ}
use photon.Stdlib.Lru
use photon.Stdlib.TinyLfu.{TinyLfu}
use photon.Flashdb.Value.{Record, is_expired}
use photon.Flashdb.Shard
use photon.Flashdb.Shard.{Shard, two64}
use photon.Flashdb.Shard.Tracked.{Tracked, cost, bump-Tracked, replace-Tracked, insert-Tracked}
use photon.Flashdb.Shard.Room.{IsValid, Made, remove-IsValid, trim_all-IsValid, make_room_lem}
use photon.Flashdb.Cell.{Cell, find, store, live, update, insert, resize, sweep}
use photon.Flashdb.Cell.Accounting.{two63, resize_exact, cost-le-current}

pub bump-IsValid : (k : String) {sh : Shard} → IsValid sh → IsValid (Shard.bump k sh)
unfolding Shard.bump
bump-IsValid k {sh} v = record {
  tracked = unfold Shard.bump in bump-Tracked k v.tracked;
  within = v.within;
  in_memory = v.in_memory;
}

-- Looking up a key removes it if it has expired, and does nothing else.
pub live-IsValid :
    (now : ℕ) (k : String) (c : Cell) → IsValid c.shard → IsValid (live now k c).0.shard
unfolding live
live-IsValid now k c v = elim (Option-cases (find k c.shard)) [
  | inl missing ↦ rw (missing, live) v
  | inr (r, there) ↦ elim (Bool-cases (is_expired r now)) [
    | inl gone ↦ rw (there, live) (rw gone (remove-IsValid k v))
    | inr fresh ↦ rw (there, live) (rw fresh v)
  ]
]

pub live_found :
    (now : ℕ) (k : String) (c : Cell) (r : Record)
    → (live now k c).1 ≡ some r
    → (find k c.shard ≡ some r) × (is_expired r now ≡ false) × ((live now k c).0 ≡ c)
unfolding live
live_found now k c r h = ground arith

-- A change of a record that keeps its size.
pub store-IsValid :
    (k : String) (r r' : Record) {sh : Shard}
    → IsValid sh
    → find k sh ≡ some r
    → r'.size ≡ r.size
    → IsValid (store k r' sh)
store-IsValid k r r' {sh} v there same = record {
  tracked =
      replace-Tracked k r r' sh.current_size v.tracked there (rw same (v.tracked.sized k r there))
        (ground arith) v.tracked.small;
  within = v.within;
  in_memory = v.in_memory;
}

-- A change of a record with its size.
pub resized-Tracked :
    (k : String) (r r' : Record) {sh : Shard}
    → IsValid sh
    → find k sh ≡ some r
    → pos 0 ≤ℤ r'.size
    → cost r' < two63
    → Tracked (record sh {
      entries = Dict.put string_discrete k r' sh.entries;
      current_size = resize r.size r'.size sh.current_size;
    })
resized-Tracked k r r' {sh} v there nonneg small =
    let le = cost-le-current k r sh v.tracked there in
    let exact =
      resize_exact r.size r'.size sh.current_size (v.tracked.sized k r there) nonneg le small
        (omega (arith, v.within, v.in_memory)) in
    replace-Tracked k r r' _ v.tracked there nonneg exact (omega (arith, v.within, v.in_memory))

unfoldable pub resized : String → Record → Record → Shard → Shard
resized k r r' sh = record sh {
  entries = Dict.put string_discrete k r' sh.entries;
  current_size = resize r.size r'.size sh.current_size;
}

pub update-resized :
    (k : String) (r r' : Record) (sh : Shard)
    → pos 0 ≤ℤ r'.size
    → update k r r' sh ≡ Shard.trim_all (Shard.bump k (resized k r r' sh))
unfolding update resized
update-resized k r r' sh nonneg =
    let test : leb_ℤ (pos 0) r'.size ≡ true = ground arith in rw test refl

pub update-IsValid :
    (k : String) (r r' : Record) {sh : Shard}
    → IsValid sh
    → find k sh ≡ some r
    → pos 0 ≤ℤ r'.size
    → cost r' < two63
    → IsValid (update k r r' sh)
unfolding resized
update-IsValid k r r' {sh} v there nonneg small =
    let t = bump-Tracked k (resized-Tracked k r r' v there nonneg small) in
    rw (update-resized k r r' sh nonneg) (trim_all-IsValid _ t (unfold Shard.bump in v.in_memory))

-- How the insertion of a new record ends.
pub insert_cases {ℓ} :
    (P : Cell × Bool → Type ℓ) (k : String) (r : Record) (c : Cell)
    → IsValid c.shard
    → (c.shard.capacity < cost r → P (c, false))
    → (cost r ≤ c.shard.capacity
        → (sh : Shard) → Made c.lfu k (cost r) c.shard (sh, false)
        → P (record c { shard = sh }, false))
    → (cost r ≤ c.shard.capacity
        → (sh : Shard) → Made c.lfu k (cost r) c.shard (sh, true)
        → P (
          record c {
            shard = record sh {
              entries = Dict.put string_discrete k r sh.entries;
              current_size = (sh.current_size + cost r) % two64;
              lru = (Lru.set string_discrete k tt sh.lru).0;
            };
          },
          true,
        ))
    → P (insert k r c)
unfolding insert
insert_cases P k r c v large no_room stored =
    let made = Shard.make_room (suc (Lru.len c.shard.lru)) c.lfu k (cost r) c.shard in
    let m = λ (fits : cost r ≤ c.shard.capacity).
      make_room_lem c.lfu k (cost r) (suc (Lru.len c.shard.lru)) c.shard v fits (omega arith) in
    elim (Bool-cases (ltb c.shard.capacity (cost r))) [
      | inl big ↦ rw big (large (ltb→lt _ _ big))
      | inr small ↦
          let fits : cost r ≤ c.shard.capacity = ground arith in
          elim (Bool-cases made.1) [
            | inl room ↦
                rw (small, room)
                  (stored fits made.0
                    (subst (λ b. Made c.lfu k (cost r) c.shard (made.0, b)) room (m fits)))
            | inr full ↦
                rw (small, full)
                  (no_room fits made.0
                    (subst (λ b. Made c.lfu k (cost r) c.shard (made.0, b)) full (m fits)))
          ]
    ]

-- The shard with the new record in it.
unfoldable pub stored : String → Record → Shard → Shard
stored k r sh = record sh {
  entries = Dict.put string_discrete k r sh.entries;
  current_size = (sh.current_size + cost r) % two64;
  lru = (Lru.set string_discrete k tt sh.lru).0;
}

stored-IsValid :
    (lfu : Option (TinyLfu String)) (k : String) (r : Record) (sh sh' : Shard)
    → find k sh ≡ none
    → pos 0 ≤ℤ r.size
    → Made lfu k (cost r) sh (sh', true)
    → IsValid (stored k r sh')
unfolding stored
stored-IsValid lfu k r sh sh' new nonneg m =
    let v = m.valid in
    let absent : find k sh' ≡ none = ground (arith, m.kept k) in
    let fits : sh'.current_size + cost r ≤ sh'.capacity = ground (arith, m.outcome, m.budget) in
    record {
      tracked = insert-Tracked k r v.tracked absent nonneg (omega (arith, fits, v.in_memory));
      within = omega (arith, fits, v.in_memory);
      in_memory = v.in_memory;
    }

pub insert-IsValid :
    (k : String) (r : Record) (c : Cell)
    → IsValid c.shard
    → find k c.shard ≡ none
    → pos 0 ≤ℤ r.size
    → IsValid (insert k r c).0.shard
insert-IsValid k r c v new nonneg =
    insert_cases (λ q. IsValid q.0.shard) k r c v (λ _. v) (λ _ sh m. m.valid)
      λ fits sh m. unfold stored in stored-IsValid c.lfu k r c.shard sh new nonneg m

pub sweep-IsValid :
    (now max_delete deleted : ℕ) (order : List String) {sh : Shard}
    → IsValid sh
    → IsValid (sweep now max_delete deleted order sh)
unfolding sweep
sweep-IsValid now max_delete deleted [] v = v
sweep-IsValid now max_delete deleted (k ∷ order) {sh} v = ground (
  arith,
  v,
  remove-IsValid k v,
  sweep-IsValid now max_delete deleted order v,
  sweep-IsValid now max_delete (deleted + 1) order (remove-IsValid k v),
)
