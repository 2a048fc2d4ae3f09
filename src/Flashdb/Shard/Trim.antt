-- ===== src/Flashdb/Shard/Trim.antt =====
-- storage/flashdb/store.go: the loop that trims a shard that is over its budget.
use photon.Base.{
  ℕ, zero, suc, ◌≤◌, ◌<◌, ◌≡◌, refl, ap, ◌∙◌, ◌⊎◌, inl, inr, arith, none, some, [], ◌∷◌, true,
  false, String, string_discrete, Option-cases, Bool-cases, length, length-map,
}
use photon.Base.Dict
use photon.Base.Dict.{Dict}
use photon.Stdlib.Lru
use photon.Stdlib.Lru.Entries
use photon.Stdlib.Lru.Recency.{last}
use photon.Stdlib.Lru.Removal.{delete-del}
use photon.Stdlib.Lru.Bound.{tail_key-last, length-del-lt}
use photon.Flashdb.Shard
use photon.Flashdb.Shard.{Shard, trim, is_full, tail_key}
use photon.Flashdb.Shard.Tracked.{
  Tracked, has, cost, recent, remove-Tracked, remove-capacity, get-remove,
}

pub last-has :
    {V : Type 0} (m : Dict String V) (e : String × V) → last m ≡ some e → has e.0 m ≡ true
unfolding last Dict.get
last-has [] e h = ground arith
last-has (x ∷ []) e h = ground arith
last-has (x ∷ y ∷ m) e h = ground (arith, last-has (y ∷ m) e h)

last-none : {V : Type 0} (m : Dict String V) → last m ≡ none → m ≡ []
unfolding last
last-none [] h = refl
last-none (x ∷ []) h = ground arith
last-none (x ∷ y ∷ m) h = ground (arith, last-none (y ∷ m) h)

pub nothing : {V : Type 0} (m : Dict String V) → ((q : String) → has q m ≡ false) → m ≡ []
unfolding Dict.get
nothing [] h = refl
nothing ((k, v) ∷ m) h = ground (arith, h k)

has_nil : (q : String) → has {V = Unit {0}} q [] ≡ false
unfolding Dict.get
has_nil q = refl

-- The tail key is a key of the shard.
tail_has : (vk : String) (sh : Shard) → tail_key sh ≡ some vk → has vk (recent sh) ≡ true
unfolding tail_key
tail_has vk sh h = elim (Option-cases (last (recent sh))) [
  | inl empty ↦ ground (arith, tail_key-last string_discrete sh.lru)
  | inr (e, some_last) ↦
      ground (arith, tail_key-last string_discrete sh.lru, last-has (recent sh) e some_last)
]

-- Without a tail key the shard is empty, so it is not over its budget.
pub no_tail :
    (sh : Shard) → Tracked sh → tail_key sh ≡ none → (sh.entries ≡ []) × (sh.current_size ≡ 0)
unfolding tail_key
no_tail sh t h =
    let bare : recent sh ≡ [] =
      last-none (recent sh) (ground (arith, tail_key-last string_discrete sh.lru)) in
    let empty : sh.entries ≡ [] =
      nothing sh.entries (λ q. t.same q ∙ ap (has q) bare ∙ has_nil q) in
    (empty, t.counted ∙ ap (Dict.total string_discrete cost) empty ∙ unfold Dict.total in refl)

pub remove-lru :
    (k : String) (sh : Shard) → (Shard.remove k sh).lru ≡ (Lru.delete string_discrete k sh.lru).0
unfolding Shard.remove
remove-lru k sh = ground arith

-- Removing the tail shortens the recency list.
pub len-remove-lt :
    (vk : String) (sh : Shard)
    → Tracked sh
    → tail_key sh ≡ some vk
    → Lru.len (Shard.remove vk sh).lru < Lru.len sh.lru
unfolding Lru.len
len-remove-lt vk sh t h = elim (Option-cases (Dict.get string_discrete vk (recent sh))) [
  | inl missing ↦ absurd (ground (arith, tail_has vk sh h))
  | inr (u, there) ↦
      let shorter = length-del-lt string_discrete vk u (recent sh) there in
      let left = ap length (delete-del string_discrete vk t.linked).1 in
      rw (remove-lru vk sh) (
        omega (
          arith,
          shorter,
          left,
          length-map Entries.entry sh.lru.ll,
          length-map Entries.entry (Lru.delete string_discrete vk sh.lru).0.ll,
        ))
]

-- A shard over its budget has a tail.
pub full_tail :
    (sh : Shard) → Tracked sh → is_full sh ≡ true → (vk : String) × (tail_key sh ≡ some vk)
unfolding is_full
full_tail sh t full = elim (Option-cases (tail_key sh)) [
  | inl none_left ↦ absurd (ground (arith, no_tail sh t none_left))
  | inr found ↦ found
]

pub trim_zero : (sh : Shard) → trim 0 sh ≡ sh
unfolding trim
trim_zero sh = refl

pub trim_fits : (fuel : ℕ) (sh : Shard) → is_full sh ≡ false → trim fuel sh ≡ sh
unfolding trim
trim_fits zero sh e = refl
trim_fits (suc fuel) sh e = rw (e, trim)

pub trim_full :
    (fuel : ℕ) (sh : Shard) (vk : String)
    → is_full sh ≡ true
    → tail_key sh ≡ some vk
    → trim (suc fuel) sh ≡ trim fuel (Shard.remove vk sh)
unfolding trim
trim_full fuel sh vk e h = ground arith

-- The trim of a shard whose parts describe the same records ends within a round for each entry:
-- it is not over its budget then, its parts still agree, and the budget is the same.
pub trim_lem :
    (fuel : ℕ) (sh : Shard)
    → Tracked sh
    → Lru.len sh.lru ≤ fuel
    → Tracked (trim fuel sh)
      × (is_full (trim fuel sh) ≡ false)
      × ((trim fuel sh).capacity ≡ sh.capacity)
trim_lem zero sh t enough = elim (Bool-cases (is_full sh)) [
  | inl full ↦ let (vk, h) = full_tail sh t full in absurd (omega (arith, len-remove-lt vk sh t h))
  | inr fits ↦ rw (trim_fits zero sh fits) (t, fits, refl)
]
trim_lem (suc fuel) sh t enough = elim (Bool-cases (is_full sh)) [
  | inl full ↦
      let (vk, h) = full_tail sh t full in
      let (t', done, same) =
        trim_lem fuel (Shard.remove vk sh) (remove-Tracked vk t)
          (omega (arith, len-remove-lt vk sh t h)) in
      rw (trim_full fuel sh vk full h) (t', done, same ∙ remove-capacity vk sh)
  | inr fits ↦ rw (trim_fits (suc fuel) sh fits) (t, fits, refl)
]

-- It takes records away and changes none.
pub get-trim :
    (fuel : ℕ) (sh : Shard) (q : String)
    → (Dict.get string_discrete q (trim fuel sh).entries ≡ Dict.get string_discrete q sh.entries)
      ⊎ (Dict.get string_discrete q (trim fuel sh).entries ≡ none)
unfolding trim
get-trim zero sh q = inl refl
get-trim (suc fuel) sh q = elim (Bool-cases (is_full sh)) [
  | inr fits ↦ inl (ground arith)
  | inl full ↦ elim (Option-cases (tail_key sh)) [
    | inl none_left ↦ inl (ground arith)
    | inr (vk, h) ↦ ground (arith, get-trim fuel (Shard.remove vk sh) q, get-remove vk q sh)
  ]
]
