-- ===== src/Flashdb/Shard/Tracked.antt =====
-- storage/flashdb/shard.go: the invariant that ties the map, the LRU and the byte count of a shard,
-- and the elementary changes of a shard.
use photon.Base.{
  ℕ, ◌+◌, ◌-◌, ◌%◌, ◌≤◌, ◌<◌, ◌≡◌, sym, ap, ◌∙◌, inl, inr, ite, arith, none, some, ◌∷◌, Bool, true,
  false, String, string_discrete, Option-cases,
}
use photon.Base.Dict
use photon.Base.Dict.{Dict, Distinct}
use photon.Base.Int.{pos, ◌≤ℤ◌}
use photon.Stdlib.Lru
use photon.Stdlib.Lru.{Lru}
use photon.Stdlib.Lru.Entries
use photon.Stdlib.Lru.Entries.{Inv}
use photon.Stdlib.Lru.Recency.{touch, write}
use photon.Stdlib.Lru.Reads.{get-touch, get-cap}
use photon.Stdlib.Lru.Removal.{delete-del, delete-cap}
use photon.Stdlib.Lru.Writes.{set-write, set-cap}
use photon.Flashdb.Value.{Record, non_negative}
use photon.Flashdb.Shard
use photon.Flashdb.Shard.{Shard, two64}

abbrev pub cost : Record → ℕ
cost r = non_negative r.size

abbrev pub has : {V : Type 0} → String → Dict String V → Bool
has k m = elim (Dict.get string_discrete k m) [ none ↦ false | some _ ↦ true ]

abbrev pub recent : Shard → Dict String (Unit {0})
recent sh = Entries.entries sh.lru

pub record Tracked (sh : Shard) : Type 0 where
  pub linked : Inv string_discrete sh.lru
  pub unlimited : sh.lru.cap ≡ 0
  pub distinct : Distinct string_discrete sh.entries
  pub same : (k : String) → has k sh.entries ≡ has k (recent sh)
  pub sized :
      (k : String) (r : Record) → Dict.get string_discrete k sh.entries ≡ some r → pos 0 ≤ℤ r.size
  pub counted : sh.current_size ≡ Dict.total string_discrete cost sh.entries
  pub small : sh.current_size < two64

has-del :
    {V : Type 0} (k q : String) (m : Dict String V)
    → has q (Dict.del string_discrete k m) ≡ ite (string_discrete k q) false (has q m)
has-del k q m = ground (arith, Dict.get-del string_discrete k q m)

-- The LRU's part after a deletion.
delete-recent :
    (k : String) {sh : Shard}
    → Tracked sh
    → Inv string_discrete (Lru.delete string_discrete k sh.lru).0
      × ((Lru.delete string_discrete k sh.lru).0.cap ≡ 0)
      × (Entries.entries (Lru.delete string_discrete k sh.lru).0
          ≡ Dict.del string_discrete k (recent sh))
delete-recent k {sh} t =
    let d = delete-del string_discrete k t.linked in
    (d.0, delete-cap string_discrete k sh.lru ∙ t.unlimited, d.1)

get-del-some :
    (k q : String) (r : Record) (m : Dict String Record)
    → Dict.get string_discrete q (Dict.del string_discrete k m) ≡ some r
    → Dict.get string_discrete q m ≡ some r
get-del-some k q r m h = ground (arith, Dict.get-del string_discrete k q m)

remove_there :
    (k : String) (r : Record) (sh : Shard)
    → Dict.get string_discrete k sh.entries ≡ some r
    → Shard.remove k sh ≡ record sh {
      entries = Dict.del string_discrete k sh.entries;
      lru = (Lru.delete string_discrete k sh.lru).0;
      current_size = (sh.current_size + two64 - cost r) % two64;
    }
unfolding Shard.remove
remove_there k r sh h = rw (h, Shard.remove)

remove_missing :
    (k : String) (sh : Shard)
    → Dict.get string_discrete k sh.entries ≡ none
    → Shard.remove k sh ≡ record sh { lru = (Lru.delete string_discrete k sh.lru).0 }
unfolding Shard.remove
remove_missing k sh h = rw (h, Shard.remove)

-- Removing a key, there or not, keeps the three descriptions together.
pub remove-Tracked : (k : String) {sh : Shard} → Tracked sh → Tracked (Shard.remove k sh)
remove-Tracked k {sh} t =
    let (linked, unlimited, left) = delete-recent k t in
    elim (Option-cases (Dict.get string_discrete k sh.entries)) [
      | inl missing ↦ rw (remove_missing k sh missing) (record {
        linked = linked;
        unlimited = unlimited;
        distinct = t.distinct;
        same = λ q. ground (arith, left, Dict.get-del string_discrete k q (recent sh), t.same q);
        sized = t.sized;
        counted = t.counted;
        small = t.small;
      })
      | inr (r, there) ↦ rw (remove_there k r sh there) (record {
        linked = linked;
        unlimited = unlimited;
        distinct = Dict.del-Distinct string_discrete k sh.entries t.distinct;
        same = λ q. ground (
          arith,
          left,
          Dict.get-del string_discrete k q (recent sh),
          Dict.get-del string_discrete k q sh.entries,
          t.same q,
        );
        sized = λ q s h. t.sized q s (get-del-some k q s sh.entries h);
        counted = omega (
          arith,
          t.counted,
          t.small,
          Dict.total-del string_discrete cost k r sh.entries t.distinct there,
        );
        small = omega arith;
      })
    ]

-- Nor does a removal change the budget.
pub remove-capacity : (k : String) (sh : Shard) → (Shard.remove k sh).capacity ≡ sh.capacity
unfolding Shard.remove
remove-capacity k sh = ground arith

-- After it the key is gone, and every other key reads as before.
pub get-remove :
    (k q : String) (sh : Shard)
    → Dict.get string_discrete q (Shard.remove k sh).entries
      ≡ ite (string_discrete k q) none (Dict.get string_discrete q sh.entries)
unfolding Shard.remove
get-remove k q sh = ground (arith, Dict.get-del string_discrete k q sh.entries)

get-touch-has :
    (k q : String) (m : Dict String (Unit {0})) → has q (touch string_discrete k m) ≡ has q m
unfolding touch Dict.get
get-touch-has k q m = ground (arith, Dict.get-del string_discrete k q m)

-- A use changes the recency alone.
pub bump-Tracked : (k : String) {sh : Shard} → Tracked sh → Tracked (Shard.bump k sh)
unfolding Shard.bump
bump-Tracked k {sh} t =
    let (linked, touched, _) = get-touch string_discrete k t.linked in
    record {
      linked = linked;
      unlimited = get-cap string_discrete k sh.lru ∙ t.unlimited;
      distinct = t.distinct;
      same = λ q. t.same q ∙ sym (ap (has q) touched ∙ get-touch-has k q (recent sh));
      sized = t.sized;
      counted = t.counted;
      small = t.small;
    }

put_sized :
    (k q : String) (r s : Record) (m : Dict String Record)
    → pos 0 ≤ℤ r.size
    → (Dict.get string_discrete q m ≡ some s → pos 0 ≤ℤ s.size)
    → Dict.get string_discrete q (Dict.put string_discrete k r m) ≡ some s
    → pos 0 ≤ℤ s.size
put_sized k q r s m nonneg old h = elim (string_discrete k q) [
  | yes e ↦ ground (arith, Dict.get-put string_discrete k q r m)
  | no n ↦ old (ground (arith, Dict.get-put string_discrete k q r m))
]

write_unlimited :
    (k : String) (m : Dict String (Unit {0}))
    → write string_discrete 0 k tt m ≡ (k, tt) ∷ Dict.del string_discrete k m
unfolding write
write_unlimited k m = ground arith

has-write :
    (k q : String) (m : Dict String (Unit {0}))
    → has q (write string_discrete 0 k tt m) ≡ ite (string_discrete k q) true (has q m)
unfolding Dict.get
has-write k q m = rw (write_unlimited k m) (ground (arith, Dict.get-del string_discrete k q m))

-- A record that is there is replaced, with the count of its size in step.
pub replace-Tracked :
    (k : String) (r r' : Record) (n : ℕ) {sh : Shard}
    → Tracked sh
    → Dict.get string_discrete k sh.entries ≡ some r
    → pos 0 ≤ℤ r'.size
    → n + cost r ≡ sh.current_size + cost r'
    → n < two64
    → Tracked (record sh { entries = Dict.put string_discrete k r' sh.entries; current_size = n })
replace-Tracked k r r' n {sh} t there nonneg change fits = record {
  linked = t.linked;
  unlimited = t.unlimited;
  distinct = Dict.put-Distinct string_discrete k r' sh.entries t.distinct;
  same = λ q. ground (arith, Dict.get-put string_discrete k q r' sh.entries, t.same q);
  sized = λ q s h. put_sized k q r' s sh.entries nonneg (t.sized q s) h;
  counted =
      omega (arith, t.counted, Dict.total-put_old string_discrete cost k r' r sh.entries there);
  small = fits;
}

-- A new record, at the front of the recency list.
pub insert-Tracked :
    (k : String) (r : Record) {sh : Shard}
    → Tracked sh
    → Dict.get string_discrete k sh.entries ≡ none
    → pos 0 ≤ℤ r.size
    → sh.current_size + cost r < two64
    → Tracked (record sh {
      entries = Dict.put string_discrete k r sh.entries;
      current_size = (sh.current_size + cost r) % two64;
      lru = (Lru.set string_discrete k tt sh.lru).0;
    })
insert-Tracked k r {sh} t new nonneg fits =
    let w = set-write string_discrete k tt t.linked in
    record {
      linked = w.valid;
      unlimited = set-cap string_discrete k tt sh.lru ∙ t.unlimited;
      distinct = Dict.put-Distinct string_discrete k r sh.entries t.distinct;
      same = λ q.
          let front : has q (Entries.entries (Lru.set string_discrete k tt sh.lru).0)
              ≡ ite (string_discrete k q) true (has q (recent sh)) =
            ap (has q) w.contents
            ∙ ap (λ n. has q (write string_discrete n k tt (recent sh))) t.unlimited
            ∙ has-write k q (recent sh) in
          ground (arith, front, Dict.get-put string_discrete k q r sh.entries, t.same q);
      sized = λ q s h. put_sized k q r s sh.entries nonneg (t.sized q s) h;
      counted =
          omega (arith, t.counted, Dict.total-put_new string_discrete cost k r sh.entries new);
      small = omega arith;
    }

-- The byte count never grows by a removal.
pub remove-current-le :
    (k : String) (sh : Shard) → Tracked sh → (Shard.remove k sh).current_size ≤ sh.current_size
remove-current-le k sh t = elim (Option-cases (Dict.get string_discrete k sh.entries)) [
  | inl missing ↦ rw (remove_missing k sh missing) (omega arith)
  | inr (r, there) ↦ rw (remove_there k r sh there) (
      omega (
        arith,
        t.counted,
        t.small,
        Dict.total-del string_discrete cost k r sh.entries t.distinct there,
      ))
]
