-- ===== src/Stdlib/Lru/Writes.antt =====
-- utils/stdlib/lru.go: `Set` against the recency list.
use photon.Base.{
  length-map, ◌+◌, ◌≡◌, refl, ap, ◌∙◌, none, some, List, ◌∷◌, arith, Option-cases, inl, inr, ◌&&◌,
  ltb, if◌then◌else◌, length, Bool, true, false, Bool-cases,
}
use photon.Base.Dict
use photon.Base.Dict.{Dict}
use photon.Stdlib.Lru
use photon.Stdlib.Lru.{Element, Lru, move_to_front, back, len, evict_tail, insert_front}
use photon.Stdlib.Lru.Links.{
  find_key, without, find_id-find_key, find_id-set_value, unlink-set_value, find_id_fresh,
  Apart-mono,
}
use photon.Stdlib.Lru.Recency.{drop_last, last, overflows, write}
use photon.Stdlib.Lru.Entries.{
  Inv, entry, entries, get-entries, del-entries, front-Inv, index_of, index_of_none,
}
use photon.Stdlib.Lru.Removal.{back_cons, last-back, evict_tail-drop_last, evict_tail-cap}

module _ {K V : Type 0} (dec : Discrete K) where
  set_hit :
      {c : Lru K V} (k : K) (v : V) (x : Element K V)
      → Inv dec c
      → find_key dec k c.ll ≡ some x
      → Lru.set dec k v c
        ≡ (record c { ll = record x { key = k; val = v } ∷ without dec k c.ll }, false)
  unfolding Lru.set move_to_front
  set_hit {c} k v x i h =
      let found = find_id-find_key dec c.next k c.ll x i.apart h in
      ground (
        arith,
        index_of dec k x i h,
        find_id-set_value x.id k v c.ll x found.0,
        unlink-set_value x.id k v c.ll,
      )

  -- A new key in front.
  insert-Inv :
      {c : Lru K V} (k : K) (v : V)
      → Inv dec c
      → find_key dec k c.ll ≡ none
      → Inv dec (insert_front dec k v c)
  unfolding insert_front find_key
  insert-Inv {c} k v i h = record {
    apart = (
      omega arith,
      h,
      find_id_fresh dec c.next c.next c.ll i.apart (omega arith),
      Apart-mono dec c.next (c.next + 1) c.ll (omega arith) i.apart,
    );
    index = λ q. ground (arith, i.index q, Dict.get-put dec k q c.next c.items);
  }

  -- The calls of the hook when the last of some entries is evicted.
  unfoldable pub evict_last : Bool → Bool → Dict K V → List (K × V) → List (K × V)
  evict_last over hook m log =
      if over && hook then elim (last m) [ none ↦ log | some e ↦ e ∷ log ] else log

  length-entries : (c : Lru K V) → length (entries c) ≡ Lru.len c
  unfolding Lru.len
  length-entries c = length-map entry c.ll

  overflows_new :
      (c : Lru K V) (k : K) (v : V)
      → find_key dec k c.ll ≡ none
      → (let c' = insert_front dec k v c in ltb 0 c'.cap && ltb c'.cap (Lru.len c'))
        ≡ overflows dec c.cap k (entries c)
  unfolding overflows insert_front Lru.len
  overflows_new c k v h = ground (arith, get-entries dec k c.ll, length-map entry c.ll)

  set_new :
      {c : Lru K V} (k : K) (v : V)
      → Inv dec c
      → find_key dec k c.ll ≡ none
      → Lru.set dec k v c ≡ (
          if overflows dec c.cap k (entries c)
          then (evict_tail dec (insert_front dec k v c), true)
          else (insert_front dec k v c, false))
  unfolding Lru.set
  set_new {c} k v i h = rw (← overflows_new c k v h) (rw (index_of_none dec k i h, Lru.set))

  write_new :
      (c : Lru K V) (k : K) (v : V)
      → find_key dec k c.ll ≡ none
      → entries (insert_front dec k v c) ≡ (k, v) ∷ Dict.del dec k (entries c)
  unfolding insert_front
  write_new c k v h =
      let absent : Dict.get dec k (entries c) ≡ none = ground (arith, get-entries dec k c.ll) in
      rw (Dict.del_absent dec k (entries c) absent)

  -- What the conjunction of the theorem says of one outcome.
  pub record Written (c : Lru K V) (k : K) (v : V) (r : Lru K V × Bool) : Type 0 where
    pub valid : Inv dec r.0
    pub contents : entries r.0 ≡ write dec c.cap k v (entries c)
    pub reported : r.1 ≡ overflows dec c.cap k (entries c)
    pub hooked :
        r.0.evicted
        ≡ evict_last
            (overflows dec c.cap k (entries c))
            c.hook
            ((k, v) ∷ Dict.del dec k (entries c))
            c.evicted

  evicted_entry :
      (c : Lru K V) (k : K) (v : V) (y : Element K V)
      → find_key dec k c.ll ≡ none
      → back (insert_front dec k v c).ll ≡ some y
      → (let c' = insert_front dec k v c in if c'.hook then entry y ∷ c'.evicted else c'.evicted)
        ≡ evict_last true c.hook ((k, v) ∷ Dict.del dec k (entries c)) c.evicted
  unfolding evict_last insert_front
  evicted_entry c k v y h there =
      ground (arith, ap last (write_new c k v h), last-back dec (insert_front dec k v c).ll)

  Written-new :
      {c : Lru K V} (k : K) (v : V)
      → Inv dec c
      → find_key dec k c.ll ≡ none
      → Written c k v (Lru.set dec k v c)
  unfolding write evict_last
  Written-new {c} k v i h = elim (Bool-cases (overflows dec c.cap k (entries c))) [
    | inl over ↦
        let (y, at_back) = back_cons dec (record { id = c.next; key = k; val = v }) c.ll in
        let there : back (insert_front dec k v c).ll ≡ some y = unfold insert_front in at_back in
        let (valid, dropped, called) =
          evict_tail-drop_last dec {c = insert_front dec k v c} y (insert-Inv k v i h) there in
        rw (set_new k v i h, over)
          (record {
            valid = valid;
            contents = rw over (dropped ∙ ap drop_last (write_new c k v h));
            reported = rw over refl;
            hooked = rw over (called ∙ evicted_entry c k v y h there);
          })
    | inr fits ↦
        rw (set_new k v i h, fits)
          (record {
            valid = insert-Inv k v i h;
            contents = rw fits (write_new c k v h);
            reported = rw fits refl;
            hooked = rw fits (unfold insert_front in refl);
          })
  ]

  Written-old :
      {c : Lru K V} (k : K) (v : V) (x : Element K V)
      → Inv dec c
      → find_key dec k c.ll ≡ some x
      → Written c k v (Lru.set dec k v c)
  unfolding write evict_last overflows
  Written-old {c} k v x i h = rw (set_hit k v x i h) (record {
    valid = front-Inv dec k x (record x { key = k; val = v }) i h refl refl;
    contents = ground (arith, get-entries dec k c.ll, del-entries dec c.next k c.ll i.apart);
    reported = ground (arith, get-entries dec k c.ll);
    hooked = ground (arith, get-entries dec k c.ll);
  })

  -- `Set` on a well-formed cache keeps it well formed, writes the entry in front, and evicts
  -- the least recent entry exactly when a new key goes over a positive capacity; it reports
  -- that, and the hook is called with what was evicted.
  pub set-write : {c : Lru K V} (k : K) (v : V) → Inv dec c → Written c k v (Lru.set dec k v c)
  set-write {c} k v i = elim (Option-cases (find_key dec k c.ll)) [
    | inl miss ↦ Written-new k v i miss
    | inr (x, hit) ↦ Written-old k v x i hit
  ]

  pub set-cap : (k : K) (v : V) (c : Lru K V) → (Lru.set dec k v c).0.cap ≡ c.cap
  unfolding Lru.set insert_front
  set-cap k v c = ground (arith, evict_tail-cap dec (insert_front dec k v c))
