-- ===== src/Stdlib/Lru/Removal.antt =====
-- utils/stdlib/lru.go: `Delete` and the eviction of the tail against the recency list.
use photon.Base.{
  ℕ, ◌≡◌, refl, sym, ap, ◌∙◌, none, some, List, [], ◌∷◌, map, arith, Option-cases, inl, inr,
  if◌then◌else◌, true, false,
}
use mathlib.Core.Option
use photon.Base.Dict
use photon.Base.Dict.{Dict}
use photon.Stdlib.Lru
use photon.Stdlib.Lru.{Element, Lru, back, remove_element, evict_tail, call_evict}
use photon.Stdlib.Lru.Links.{
  find_key, without, Apart, find_id-find_key, find_key-without, without-Apart, find_key-back,
}
use photon.Stdlib.Lru.Recency.{drop_last, last}
use photon.Stdlib.Lru.Entries.{
  Inv, entry, entries, get-entries, del-entries, index_of, index_of_none,
}

module _ {K V : Type 0} (dec : Discrete K) where
  pub removed : Element K V → Lru K V → Lru K V
  removed x c = record c {
    ll = without dec x.key c.ll;
    items = Dict.del dec x.key c.items;
    evicted = if c.hook then entry x ∷ c.evicted else c.evicted;
  }

  pub remove_element-removed :
      {c : Lru K V} (k : K) (x : Element K V)
      → Inv dec c
      → find_key dec k c.ll ≡ some x
      → remove_element dec x.id true c ≡ removed x c
  unfolding remove_element removed call_evict
  remove_element-removed {c} k x i h =
      let found = find_id-find_key dec c.next k c.ll x i.apart h in ground arith

  -- What is removed leaves the list and the index.
  pub removed-Inv : {c : Lru K V} (x : Element K V) → Inv dec c → Inv dec (removed x c)
  unfolding removed
  removed-Inv {c} x i = record {
    apart = without-Apart dec c.next x.key c.ll i.apart;
    index = λ q. ground (
      arith,
      i.index q,
      Dict.get-del dec x.key q c.items,
      find_key-without dec c.next x.key q c.ll i.apart,
    );
  }

  pub entries-removed :
      {c : Lru K V} (x : Element K V)
      → Inv dec c
      → entries (removed x c) ≡ Dict.del dec x.key (entries c)
  unfolding removed
  entries-removed {c} x i = del-entries dec c.next x.key c.ll i.apart

  delete_miss :
      {c : Lru K V} (k : K)
      → Inv dec c
      → find_key dec k c.ll ≡ none
      → Lru.delete dec k c ≡ (c, false)
  unfolding Lru.delete
  delete_miss {c} k i h = rw (index_of_none dec k i h, Lru.delete)

  delete_hit :
      {c : Lru K V} (k : K) (x : Element K V)
      → Inv dec c
      → find_key dec k c.ll ≡ some x
      → Lru.delete dec k c ≡ (removed x c, true)
  unfolding Lru.delete
  delete_hit {c} k x i h = ground (arith, index_of dec k x i h, remove_element-removed k x i h)

  -- `Delete` on a well-formed cache keeps it well formed, removes the entry of the key and no
  -- other, reports whether there was one, and calls the hook with it.
  pub delete-del :
      {c : Lru K V} (k : K)
      → Inv dec c
      → Inv dec (Lru.delete dec k c).0
        × (entries (Lru.delete dec k c).0 ≡ Dict.del dec k (entries c))
        × ((Lru.delete dec k c).1
            ≡ elim (Dict.get dec k (entries c)) [ none ↦ false | some _ ↦ true ])
        × ((Lru.delete dec k c).0.evicted ≡ (
            if c.hook
            then elim (Dict.get dec k (entries c)) [
              | none ↦ c.evicted
              | some v ↦ (k, v) ∷ c.evicted
            ]
            else c.evicted))
  delete-del {c} k i = elim (Option-cases (find_key dec k c.ll)) [
    | inl miss ↦
        rw (delete_miss k i miss, get-entries dec k c.ll, miss)
          (
            i,
            sym (Dict.del_absent dec k (entries c) (ground (arith, get-entries dec k c.ll))),
            refl,
            ground arith,
          )
    | inr (x, hit) ↦
        let found = find_id-find_key dec c.next k c.ll x i.apart hit in
        rw (delete_hit k x i hit, get-entries dec k c.ll, hit)
          (
            removed-Inv x i,
            entries-removed x i ∙ ap (λ q. Dict.del dec q (entries c)) found.1,
            refl,
            unfold removed in ground arith,
          )
  ]

  pub back_cons :
      (x : Element K V) (xs : List (Element K V)) → (y : Element K V) × (back (x ∷ xs) ≡ some y)
  unfolding back
  back_cons x [] = (x, refl)
  back_cons x (y ∷ ys) = back_cons y ys

  without-back :
      (n : ℕ) (xs : List (Element K V)) (x : Element K V)
      → Apart dec n xs
      → back xs ≡ some x
      → map entry (without dec x.key xs) ≡ drop_last (map entry xs)
  unfolding without back drop_last find_key
  without-back n [] x a h = refl
  without-back n (y ∷ []) x a h = ground arith
  without-back n (y ∷ z ∷ zs) x a h =
      ground (arith, without-back n (z ∷ zs) x a.3 h, find_key-back dec n (z ∷ zs) x a.3 h)

  pub last-back : (xs : List (Element K V)) → last (map entry xs) ≡ Option.map entry (back xs)
  unfolding back last
  last-back [] = refl
  last-back (y ∷ []) = refl
  last-back (y ∷ z ∷ zs) = last-back (z ∷ zs)

  evict_tail-removed :
      {c : Lru K V} (x : Element K V)
      → Inv dec c
      → back c.ll ≡ some x
      → evict_tail dec c ≡ removed x c
  unfolding evict_tail
  evict_tail-removed {c} x i h =
      ground (arith, remove_element-removed x.key x i (find_key-back dec c.next c.ll x i.apart h))

  -- Dropping the least recent entry.
  pub evict_tail-drop_last :
      {c : Lru K V} (x : Element K V)
      → Inv dec c
      → back c.ll ≡ some x
      → Inv dec (evict_tail dec c)
        × (entries (evict_tail dec c) ≡ drop_last (entries c))
        × ((evict_tail dec c).evicted ≡ (if c.hook then entry x ∷ c.evicted else c.evicted))
  evict_tail-drop_last {c} x i h = rw (evict_tail-removed x i h) (
    removed-Inv x i,
    unfold removed in without-back c.next c.ll x i.apart h,
    unfold removed in refl,
  )

  -- No removal changes the capacity.
  remove_element-cap : (i : ℕ) (c : Lru K V) → (remove_element dec i true c).cap ≡ c.cap
  unfolding remove_element
  remove_element-cap i c = ground arith

  pub delete-cap : (k : K) (c : Lru K V) → (Lru.delete dec k c).0.cap ≡ c.cap
  unfolding Lru.delete
  delete-cap k c = elim (Option-cases (Dict.get dec k c.items)) [
    | inl miss ↦ ground arith
    | inr (e, hit) ↦ ground (arith, remove_element-cap e c)
  ]

  pub evict_tail-cap : (c : Lru K V) → (evict_tail dec c).cap ≡ c.cap
  unfolding evict_tail
  evict_tail-cap c = elim (Option-cases (back c.ll)) [
    | inl empty ↦ ground arith
    | inr (e, at_back) ↦ ground (arith, remove_element-cap e.id c)
  ]
