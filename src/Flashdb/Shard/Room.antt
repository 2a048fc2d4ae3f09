-- ===== src/Flashdb/Shard/Room.antt =====
-- storage/flashdb/store.go: the loop that makes room for a new record, and the invariant of a shard.
use photon.Base.{
  ℕ, zero, suc, ◌+◌, ◌≤◌, ◌<◌, ◌≡◌, refl, ◌∙◌, ◌⊎◌, inl, inr, arith, Option, none, some, Bool, true,
  false, subst, String, string_discrete, Option-cases, Bool-cases,
}
use photon.Base.Dict
use photon.Stdlib.Lru
use photon.Stdlib.TinyLfu.{TinyLfu}
use photon.Flashdb.Shard
use photon.Flashdb.Shard.{Shard, trim_all, is_full, is_full_after, tail_key, make_room, admits}
use photon.Flashdb.Shard.Tracked.{
  Tracked, remove-Tracked, remove-capacity, get-remove, remove-current-le,
}
use photon.Flashdb.Shard.Trim.{trim_lem, no_tail, len-remove-lt}

-- The shard between operations: described by its three parts alike, and within its budget. A
-- budget of 2 ^ 63 bytes or more is out of scope.
pub record IsValid (sh : Shard) : Type 0 where
  pub tracked : Tracked sh
  pub within : sh.current_size ≤ sh.capacity
  pub in_memory : sh.capacity < 9_223_372_036_854_775_808

pub remove-IsValid : (k : String) {sh : Shard} → IsValid sh → IsValid (Shard.remove k sh)
remove-IsValid k {sh} v = record {
  tracked = remove-Tracked k v.tracked;
  within = omega (arith, remove-capacity k sh, remove-current-le k sh v.tracked, v.within);
  in_memory = omega (arith, remove-capacity k sh, v.in_memory);
}

-- A trimmed shard is within its budget.
pub trim_all-IsValid :
    (sh : Shard) → Tracked sh → sh.capacity < 9_223_372_036_854_775_808 → IsValid (trim_all sh)
unfolding trim_all is_full
trim_all-IsValid sh t room =
    let (t', done, same) = trim_lem (Lru.len sh.lru) sh t (omega arith) in
    record { tracked = t'; within = ground arith; in_memory = omega arith }

-- How the loop that makes room can end, from a shard that the record fits alone: with room for the
-- record, or with a tail key that the admission policy prefers to it. Only keys against which the
-- policy admits the new one are gone.
pub record Made (lfu : Option (TinyLfu String)) (key : String) (cost : ℕ) (sh : Shard)
    (r : Shard × Bool) : Type 0 where
  pub valid : IsValid r.0
  pub budget : r.0.capacity ≡ sh.capacity
  pub kept :
      (q : String)
      → (Dict.get string_discrete q r.0.entries ≡ Dict.get string_discrete q sh.entries)
        ⊎ (Dict.get string_discrete q r.0.entries ≡ none)
  pub preferred :
      (q : String)
      → (Dict.get string_discrete q r.0.entries ≡ Dict.get string_discrete q sh.entries)
        ⊎ (admits lfu key q ≡ true)
  pub outcome :
      ((r.1 ≡ true) × (r.0.current_size + cost ≤ sh.capacity))
      ⊎ ((r.1 ≡ false) × ((vk : String) × (tail_key r.0 ≡ some vk) × (admits lfu key vk ≡ false)))

module _ (lfu : Option (TinyLfu String)) (key : String) (cost : ℕ) where
  room_left :
      (fuel : ℕ) (sh : Shard)
      → is_full_after cost sh ≡ false
      → make_room (suc fuel) lfu key cost sh ≡ (sh, true)
  unfolding make_room
  room_left fuel sh e = rw (e, make_room)

  refused :
      (fuel : ℕ) (sh : Shard) (vk : String)
      → is_full_after cost sh ≡ true
      → tail_key sh ≡ some vk
      → admits lfu key vk ≡ false
      → make_room (suc fuel) lfu key cost sh ≡ (sh, false)
  unfolding make_room
  refused fuel sh vk e h n = ground arith

  evicts :
      (fuel : ℕ) (sh : Shard) (vk : String)
      → is_full_after cost sh ≡ true
      → tail_key sh ≡ some vk
      → admits lfu key vk ≡ true
      → make_room (suc fuel) lfu key cost sh ≡ make_room fuel lfu key cost (Shard.remove vk sh)
  unfolding make_room
  evicts fuel sh vk e h n = ground arith

  -- A shard without room for a record that fits it alone has a tail.
  crowded_tail :
      (sh : Shard)
      → IsValid sh
      → cost ≤ sh.capacity
      → is_full_after cost sh ≡ true
      → (vk : String) × (tail_key sh ≡ some vk)
  unfolding is_full_after
  crowded_tail sh v fits full = elim (Option-cases (tail_key sh)) [
    | inl none_left ↦ absurd (ground (arith, no_tail sh v.tracked none_left, v.in_memory))
    | inr found ↦ found
  ]

  room_for :
      (sh : Shard)
      → IsValid sh
      → cost ≤ sh.capacity
      → is_full_after cost sh ≡ false
      → sh.current_size + cost ≤ sh.capacity
  unfolding is_full_after
  room_for sh v fits e = ground (arith, v.in_memory, v.within)

  after_eviction :
      (vk : String) (sh : Shard) (r : Shard × Bool)
      → admits lfu key vk ≡ true
      → Made lfu key cost (Shard.remove vk sh) r
      → Made lfu key cost sh r
  after_eviction vk sh r admitted m = record {
    valid = m.valid;
    budget = m.budget ∙ remove-capacity vk sh;
    kept = λ q. ground (arith, m.kept q, get-remove vk q sh);
    preferred = λ q. elim (string_discrete vk q) [
      | yes same ↦ inr (subst (λ x. admits lfu key x ≡ true) same admitted)
      | no other ↦ ground (arith, m.preferred q, get-remove vk q sh)
    ];
    outcome = rw (← remove-capacity vk sh) m.outcome;
  }

  -- From a well-formed shard whose budget the record fits alone, the loop that makes room ends
  -- within a round for each entry and one more: with room for the record, or at a tail key that
  -- the TinyLFU prefers to it. The shard stays well formed; every key reads as before or was
  -- evicted, and it reads as before unless the TinyLFU admits the new key against it.
  pub make_room_lem :
      (fuel : ℕ) (sh : Shard)
      → IsValid sh
      → cost ≤ sh.capacity
      → Lru.len sh.lru < fuel
      → Made lfu key cost sh (make_room fuel lfu key cost sh)
  make_room_lem zero sh v fits enough = absurd (omega arith)
  make_room_lem (suc fuel) sh v fits enough = elim (Bool-cases (is_full_after cost sh)) [
    | inr room ↦ rw (room_left fuel sh room) (record {
      valid = v;
      budget = refl;
      kept = λ q. inl refl;
      preferred = λ q. inl refl;
      outcome = inl (refl, room_for sh v fits room);
    })
    | inl full ↦
        let (vk, h) = crowded_tail sh v fits full in
        elim (Bool-cases (admits lfu key vk)) [
          | inr colder ↦ rw (refused fuel sh vk full h colder) (record {
            valid = v;
            budget = refl;
            kept = λ q. inl refl;
            preferred = λ q. inl refl;
            outcome = inr (refl, (vk, h, colder));
          })
          | inl admitted ↦ rw (evicts fuel sh vk full h admitted) (
              after_eviction vk sh _ admitted (
                make_room_lem fuel (Shard.remove vk sh) (remove-IsValid vk v)
                  (omega (arith, remove-capacity vk sh))
                  (omega (arith, len-remove-lt vk sh v.tracked h))))
        ]
  ]
