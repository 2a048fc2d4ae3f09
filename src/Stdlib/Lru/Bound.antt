-- ===== src/Stdlib/Lru/Bound.antt =====
-- utils/stdlib/lru.go: the bound of the capacity, and the operations on the whole cache.
use photon.Base.{
  ℕ, ◌<◌, ◌≤◌, ◌≡◌, refl, ap, ◌∙◌, some, [], ◌∷◌, ◌++◌, arith, if_pos, Option-cases, inl, inr,
  if◌then◌else◌, length, length-map, Bool, Bool-cases,
}
use mathlib.Core.Option
use photon.Base.Dict
use photon.Base.Dict.{Dict}
use photon.Stdlib.Lru
use photon.Stdlib.Lru.{Lru}
use photon.Stdlib.Lru.Entries.{Inv, entry, entries}
use photon.Stdlib.Lru.Reads.{peek-get}
use photon.Stdlib.Lru.Removal.{last-back}
use photon.Stdlib.Lru.Recency.{drop_last, last, overflows, write, length-drop_last}
use photon.Stdlib.Lru.Writes.{set-write}

module _ {K V : Type 0} (dec : Discrete K) where
  -- A fresh cache is empty and well formed.
  pub new_lru-Inv : (n : ℕ) (h : Bool) → Inv {V = V} dec (Lru.new_lru n h)
  unfolding Lru.new_lru
  new_lru-Inv n h = record { apart = tt; index = λ k. unfold Dict.get Lru.Links.find_key in refl }

  -- `Purge` empties the cache and leaves it well formed; the hook hears of the entries from the
  -- least recent one to the most recent one.
  purge_lem :
      (c : Lru K V)
      → Inv dec (Lru.purge c)
        × (entries (Lru.purge c) ≡ [])
        × ((Lru.purge c).evicted ≡ (if c.hook then entries c ++ c.evicted else c.evicted))
  unfolding Lru.purge
  purge_lem c =
      (record { apart = tt; index = λ k. unfold Dict.get Lru.Links.find_key in refl }, refl, refl)

  -- `TailKey` is the key of the least recent entry, and none of an empty cache.
  pub tail_key-last : (c : Lru K V) → Lru.tail_key c ≡ Option.map (λ e. e.0) (last (entries c))
  unfolding Lru.tail_key
  tail_key-last c = ground (arith, last-back dec c.ll)

  length-del-le : (k : K) (m : Dict K V) → length (Dict.del dec k m) ≤ length m
  unfolding Dict.del
  length-del-le k [] = omega arith
  length-del-le k ((j, w) ∷ m) = ground (arith, length-del-le k m)

  pub length-del-lt :
      (k : K) (v : V) (m : Dict K V)
      → Dict.get dec k m ≡ some v
      → length (Dict.del dec k m) < length m
  unfolding Dict.del Dict.get
  length-del-lt k v [] h = ground arith
  length-del-lt k v ((j, w) ∷ m) h = ground (arith, length-del-le k m, length-del-lt k v m)

  length-write-le :
      (cap : ℕ) (k : K) (v : V) (m : Dict K V)
      → 0 < cap
      → length m ≤ cap
      → length (write dec cap k v m) ≤ cap
  unfolding write
  length-write-le cap k v m pos h = elim (Option-cases (Dict.get dec k m)) [
    | inl new ↦ ground (arith, Dict.del_absent dec k m new, length-drop_last (k, v) m)
    | inr (w, old) ↦ ground (arith, length-del-lt k w m old)
  ]

  -- `Set` on a well-formed cache with a positive capacity never takes it from within its
  -- capacity to more entries than that.
  set-len-le :
      {c : Lru K V} (k : K) (v : V)
      → Inv dec c
      → 0 < c.cap
      → Lru.len c ≤ c.cap
      → Lru.len (Lru.set dec k v c).0 ≤ c.cap
  unfolding Lru.len
  set-len-le {c} k v i pos h = omega (
    arith,
    length-write-le c.cap k v (entries c) pos,
    length-map entry c.ll,
    length-map entry (Lru.set dec k v c).0.ll,
    ap length (set-write dec k v i).contents,
  )

  get-drop_last :
      (k : K) (v : V) (e : K × V) (m : Dict K V)
      → Dict.get dec k (drop_last ((k, v) ∷ e ∷ m)) ≡ some v
  unfolding Dict.get drop_last
  get-drop_last k v e m = if_pos (dec k k) refl _ _

  get-write_self :
      (cap : ℕ) (k : K) (v : V) (m : Dict K V) → Dict.get dec k (write dec cap k v m) ≡ some v
  unfolding write Dict.get
  get-write_self cap k v [] = ground arith
  get-write_self cap k v (e ∷ m) = elim (Bool-cases (overflows dec cap k (e ∷ m))) [
    | inl over ↦ ground (arith, get-drop_last k v e m, Dict.del_absent dec k (e ∷ m))
    | inr fits ↦ ground arith
  ]

  -- What was written is read back at once: an eviction never takes the entry just written.
  pub peek-set :
      {c : Lru K V} (k : K) (v : V) → Inv dec c → Lru.peek dec k (Lru.set dec k v c).0 ≡ some v
  peek-set {c} k v i =
      let w = set-write dec k v i in
      peek-get dec k w.valid ∙ ap (Dict.get dec k) w.contents ∙ get-write_self c.cap k v (entries c)
