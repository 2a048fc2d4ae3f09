-- ===== src/Stdlib/Lru/Reads.antt =====
-- utils/stdlib/lru.go: `Get` and `Peek` against the recency list.
use photon.Base.{◌≡◌, refl, none, some, ◌∷◌, arith, Option-cases, inl, inr}
use photon.Base.Dict
use photon.Base.Dict.{Dict}
use photon.Stdlib.Lru
use photon.Stdlib.Lru.{Element, Lru}
use photon.Stdlib.Lru.Links.{find_key, without, find_id-find_key}
use photon.Stdlib.Lru.Recency.{touch}
use photon.Stdlib.Lru.Entries.{
  Inv, entries, get-entries, del-entries, move_front, front-Inv, index_of, index_of_none,
}

module _ {K V : Type 0} (dec : Discrete K) where
  get_miss :
      {c : Lru K V} (k : K) → Inv dec c → find_key dec k c.ll ≡ none → Lru.get dec k c ≡ (c, none)
  unfolding Lru.get
  get_miss {c} k i h = rw (index_of_none dec k i h, Lru.get)

  get_hit :
      {c : Lru K V} (k : K) (x : Element K V)
      → Inv dec c
      → find_key dec k c.ll ≡ some x
      → Lru.get dec k c ≡ (record c { ll = x ∷ without dec k c.ll }, some x.val)
  unfolding Lru.get
  get_hit {c} k x i h = ground (
    arith,
    index_of dec k x i h,
    move_front dec k x i h,
    find_id-find_key dec c.next k c.ll x i.apart h,
  )

  -- `Get` on a well-formed cache keeps it well formed, answers with the entry of the key, and
  -- makes that entry the most recent one.
  pub get-touch :
      {c : Lru K V} (k : K)
      → Inv dec c
      → Inv dec (Lru.get dec k c).0
        × (entries (Lru.get dec k c).0 ≡ touch dec k (entries c))
        × ((Lru.get dec k c).1 ≡ Dict.get dec k (entries c))
  unfolding touch
  get-touch {c} k i = elim (Option-cases (find_key dec k c.ll)) [
    | inl miss ↦
        rw (get_miss k i miss, get-entries dec k c.ll, miss)
          (i, ground (arith, get-entries dec k c.ll), refl)
    | inr (x, hit) ↦
        let found = find_id-find_key dec c.next k c.ll x i.apart hit in
        rw (get_hit k x i hit) (
          front-Inv dec k x x i hit refl found.1,
          ground (arith, get-entries dec k c.ll, del-entries dec c.next k c.ll i.apart),
          ground (arith, get-entries dec k c.ll),
        )
  ]

  -- `Peek` on a well-formed cache answers with the entry of the key.
  pub peek-get : {c : Lru K V} (k : K) → Inv dec c → Lru.peek dec k c ≡ Dict.get dec k (entries c)
  unfolding Lru.peek
  peek-get {c} k i = elim (Option-cases (find_key dec k c.ll)) [
    | inl miss ↦ ground (arith, index_of_none dec k i miss, get-entries dec k c.ll)
    | inr (x, hit) ↦ ground (
      arith,
      index_of dec k x i hit,
      get-entries dec k c.ll,
      find_id-find_key dec c.next k c.ll x i.apart hit,
    )
  ]

  pub get-cap : (k : K) (c : Lru K V) → (Lru.get dec k c).0.cap ≡ c.cap
  unfolding Lru.get
  get-cap k c = ground arith
