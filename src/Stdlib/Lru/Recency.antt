-- ===== src/Stdlib/Lru/Recency.antt =====
-- The specification of utils/stdlib/lru.go: a list of entries, most recently used first.
use photon.Base.{
  ℕ, suc, ◌≡◌, refl, Option, none, some, List, [], ◌∷◌, arith, ◌&&◌, ltb, if◌then◌else◌, length,
  Bool, false,
}
use photon.Base.Dict
use photon.Base.Dict.{Dict}

module _ {A : Type 0} where
  unfoldable pub drop_last : List A → List A
  drop_last [] = []
  drop_last (x ∷ []) = []
  drop_last (x ∷ y ∷ xs) = x ∷ drop_last (y ∷ xs)

  pub length-drop_last : (x : A) (xs : List A) → length (drop_last (x ∷ xs)) ≡ length xs
  unfolding drop_last
  length-drop_last x [] = refl
  length-drop_last x (y ∷ xs) = omega (arith, length-drop_last y xs)

  unfoldable pub last : List A → Option A
  last [] = none
  last (x ∷ []) = some x
  last (x ∷ y ∷ xs) = last (y ∷ xs)

module _ {K V : Type 0} (dec : Discrete K) where
  -- An entry that is there is used: it moves to the front.
  unfoldable pub touch : K → Dict K V → Dict K V
  touch k m = elim (Dict.get dec k m) [ none ↦ m | some v ↦ (k, v) ∷ Dict.del dec k m ]

  -- Does a new key go over the capacity? Capacity 0 is no limit.
  unfoldable pub overflows : ℕ → K → Dict K V → Bool
  overflows cap k m = elim (Dict.get dec k m) [
    | none ↦ ltb 0 cap && ltb cap (suc (length m))
    | some _ ↦ false
  ]

  -- A written entry is the most recent one; over the capacity the least recent one goes.
  unfoldable pub write : ℕ → K → V → Dict K V → Dict K V
  unfolding overflows
  write cap k v m =
      let m' = (k, v) ∷ Dict.del dec k m in if overflows cap k m then drop_last m' else m'
