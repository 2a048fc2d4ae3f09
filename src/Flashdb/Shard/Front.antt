-- ===== src/Flashdb/Shard/Front.antt =====
-- storage/flashdb/store.go: the trim, and the record at the front of the LRU.
use photon.Base.{
  ℕ, zero, suc, ◌≤◌, ◌≡◌, ◌≢◌, sym, ap, subst, ◌∙◌, inl, inr, arith, none, some, [], ◌∷◌, true,
  String, string_discrete, Option-cases, Bool-cases, if_neg,
}
use photon.Base.Dict
use photon.Base.Dict.{Dict, Distinct}
use photon.Stdlib.Lru.Entries
use photon.Stdlib.Lru.Entries.{entries-Distinct}
use photon.Stdlib.Lru.Recency.{last}
use photon.Stdlib.Lru.Removal.{delete-del}
use photon.Stdlib.Lru.Bound.{tail_key-last}
use photon.Flashdb.Value.{Record}
use photon.Flashdb.Shard
use photon.Flashdb.Shard.{Shard, trim, is_full, tail_key}
use photon.Flashdb.Shard.Tracked.{
  Tracked, has, cost, recent, remove-Tracked, remove-capacity, get-remove,
}
use photon.Flashdb.Shard.Trim.{
  last-has, nothing, full_tail, remove-lru, trim_fits, trim_full, trim_zero,
}

module _ (k : String) (r : Record) where
  -- `k` is the most recent key, and its record fits the budget.
  pub record AtFront (sh : Shard) : Type 0 where
    pub tracked : Tracked sh
    pub there : Dict.get string_discrete k sh.entries ≡ some r
    pub fits : cost r ≤ sh.capacity
    pub rest : Dict String (Unit {0})
    pub front : recent sh ≡ (k, tt) ∷ rest

  only_it : (sh : Shard) → AtFront sh → recent sh ≡ (k, tt) ∷ [] → sh.current_size ≡ cost r
  unfolding Dict.get Dict.total
  only_it sh a alone =
      let bare : Dict.del string_discrete k sh.entries ≡ [] =
        nothing _ λ q.
          ground (arith, Dict.get-del string_discrete k q sh.entries, a.tracked.same q, alone) in
      omega (
        arith,
        a.tracked.counted,
        Dict.total-del string_discrete cost k r sh.entries a.tracked.distinct a.there,
        ap (Dict.total string_discrete cost) bare,
      )

  last_other :
      (e : String × Unit {0}) (m : Dict String (Unit {0})) (x : String × Unit {0})
      → Dict.get string_discrete k (e ∷ m) ≡ none
      → last (e ∷ m) ≡ some x
      → x.0 ≢ k
  last_other e m x absent h same =
      let present = last-has (e ∷ m) x h in ground (arith, ap (λ q. has q (e ∷ m)) same, present)

  tail_of :
      (sh : Shard) (vk : String)
      → tail_key sh ≡ some vk
      → (x : String × Unit {0}) × (last (recent sh) ≡ some x) × (x.0 ≡ vk)
  unfolding tail_key
  tail_of sh vk h = elim (Option-cases (last (recent sh))) [
    | inl empty ↦ absurd (ground (arith, tail_key-last string_discrete sh.lru))
    | inr (x, found) ↦ (x, found, ground (arith, tail_key-last string_discrete sh.lru))
  ]

  -- Over the budget, the tail is another key.
  tail_other_rest :
      (sh : Shard) (vk : String) (rest : Dict String (Unit {0}))
      → AtFront sh
      → recent sh ≡ (k, tt) ∷ rest
      → is_full sh ≡ true
      → tail_key sh ≡ some vk
      → vk ≢ k
  unfolding is_full last
  tail_other_rest sh vk [] a front full h same =
      let alone = only_it sh a front in let fits = a.fits in ground arith
  tail_other_rest sh vk (e ∷ m) a front full h same =
      let (x, found, own) = tail_of sh vk h in
      let distinct =
        entries-Distinct string_discrete sh.lru.next sh.lru.ll a.tracked.linked.apart in
      let absent : Dict.get string_discrete k (e ∷ m) ≡ none =
        (subst (Distinct string_discrete) front distinct).0 in
      last_other e m x absent (sym (ap last front) ∙ found) (own ∙ same)

  remove_other : (sh : Shard) (vk : String) → AtFront sh → vk ≢ k → AtFront (Shard.remove vk sh)
  unfolding Dict.del
  remove_other sh vk a other = record {
    tracked = remove-Tracked vk a.tracked;
    there = get-remove vk k sh ∙ if_neg (string_discrete vk k) other _ _ ∙ a.there;
    fits = omega (arith, remove-capacity vk sh, a.fits);
    rest = Dict.del string_discrete vk a.rest;
    front =
        ap Entries.entries (remove-lru vk sh)
        ∙ (delete-del string_discrete vk a.tracked.linked).1
        ∙ ap (Dict.del string_discrete vk) a.front
        ∙ if_neg (string_discrete k vk) (λ e. other (sym e)) _ _;
  }

  -- The record at the front survives the trim, whatever else goes.
  pub trim_keeps_front : (fuel : ℕ) (sh : Shard) → AtFront sh → AtFront (trim fuel sh)
  trim_keeps_front zero sh a = rw trim_zero a
  trim_keeps_front (suc fuel) sh a = elim (Bool-cases (is_full sh)) [
    | inr fits ↦ rw (trim_fits (suc fuel) sh fits) a
    | inl full ↦
        let (vk, h) = full_tail sh a.tracked full in
        rw (trim_full fuel sh vk full h) (
          trim_keeps_front fuel (Shard.remove vk sh)
            (remove_other sh vk a (tail_other_rest sh vk a.rest a a.front full h)))
  ]
