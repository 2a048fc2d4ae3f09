-- ===== src/Stdlib/Lru/Entries.antt =====
-- utils/stdlib/lru.go: the invariant of the cache, its entries most recently used first, and what
-- moving an element to the front does to both.
use photon.Base.{ℕ, ◌≡◌, refl, none, some, List, [], ◌∷◌, map, arith, if_pos}
use mathlib.Core.Option
use photon.Base.Dict
use photon.Base.Dict.{Dict}
use photon.Stdlib.Lru.{Element, Lru, move_to_front}
use photon.Stdlib.Lru.Links.{
  find_key, without, Apart, find_id-find_key, find_key-without, without-Apart, find_key-id-lt,
  find_id-without_self,
}

module _ {K V : Type 0} where
  abbrev pub entry : Element K V → K × V
  entry e = (e.key, e.val)

  abbrev pub entries : Lru K V → Dict K V
  entries c = map entry c.ll

module _ {K V : Type 0} (dec : Discrete K) where
  -- The index leads to exactly the elements of the list.
  pub record Inv (c : Lru K V) : Type 0 where
    pub apart : Apart dec c.next c.ll
    pub index : (k : K) → Dict.get dec k c.items ≡ Option.map (λ x. x.id) (find_key dec k c.ll)

  pub get-entries :
      (k : K) (xs : List (Element K V))
      → Dict.get dec k (map entry xs) ≡ Option.map (λ x. x.val) (find_key dec k xs)
  unfolding Dict.get find_key
  get-entries k [] = refl
  get-entries k (x ∷ xs) = ground (arith, get-entries k xs)

  -- Each key has one entry.
  pub entries-Distinct :
      (n : ℕ) (xs : List (Element K V)) → Apart dec n xs → Dict.Distinct dec (map entry xs)
  entries-Distinct n [] a = tt
  entries-Distinct n (x ∷ xs) a = (ground (arith, get-entries x.key xs), entries-Distinct n xs a.3)

  pub del-entries :
      (n : ℕ) (k : K) (xs : List (Element K V))
      → Apart dec n xs
      → map entry (without dec k xs) ≡ Dict.del dec k (map entry xs)
  unfolding Dict.del without
  del-entries n k [] a = refl
  del-entries n k (x ∷ xs) a =
      ground (arith, del-entries n k xs a.3, Dict.del_absent dec k (map entry xs), get-entries k xs)

  pub move_front :
      {c : Lru K V} (k : K) (x : Element K V)
      → Inv c
      → find_key dec k c.ll ≡ some x
      → move_to_front x.id c.ll ≡ x ∷ without dec k c.ll
  unfolding move_to_front
  move_front {c} k x i h = ground (arith, find_id-find_key dec c.next k c.ll x i.apart h)

  -- Moving a found element to the front, with any value, keeps the index right.
  pub front-Inv :
      {c : Lru K V} (k : K) (x e : Element K V)
      → Inv c
      → find_key dec k c.ll ≡ some x
      → e.id ≡ x.id
      → e.key ≡ k
      → Inv (record c { ll = e ∷ without dec k c.ll })
  unfolding find_key
  front-Inv {c} k x e i h same own = record {
    apart = (
      rw same (find_key-id-lt dec c.next k c.ll x i.apart h),
      rw own (rw (find_key-without dec c.next k k c.ll i.apart) (if_pos (dec k k) refl _ _)),
      rw same (find_id-without_self dec c.next k c.ll x i.apart h),
      without-Apart dec c.next k c.ll i.apart,
    );
    index = λ q. ground (arith, i.index q, find_key-without dec c.next k q c.ll i.apart);
  }

  pub index_of :
      {c : Lru K V} (k : K) (x : Element K V)
      → Inv c
      → find_key dec k c.ll ≡ some x
      → Dict.get dec k c.items ≡ some x.id
  index_of k x i h = rw (i.index k, h) refl

  pub index_of_none :
      {c : Lru K V} (k : K) → Inv c → find_key dec k c.ll ≡ none → Dict.get dec k c.items ≡ none
  index_of_none k i h = rw (i.index k, h) refl
