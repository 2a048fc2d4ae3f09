-- ===== src/Stdlib/Sketch/Cells.antt =====
-- utils/stdlib/sketch.go: what one increment does to the cells of a row.
use photon.Base.{
  ℕ, zero, suc, ◌+◌, ◌≤◌, ◌<◌, ◌≡◌, List, [], ◌∷◌, map, arith, get_or, set, get_or-set_self,
  get_or-set_ne, length, length-set, ◌==◌, Bool-cases, inl, inr, min, ℕ_discrete, All,
}
use photon.Stdlib.Sketch.{max_uint32, bump, halve}

-- Counters stay in the range of a uint32.
abbrev pub InRange : List ℕ → Type 0
InRange = All (λ v. v ≤ max_uint32)

pub get_or-le : (row : List ℕ) (i : ℕ) → InRange row → get_or row i 0 ≤ max_uint32
get_or-le [] i r = omega arith
get_or-le (v ∷ row) zero r = omega arith
get_or-le (v ∷ row) (suc i) r = get_or-le row i r.1

set-InRange : (row : List ℕ) (i v : ℕ) → InRange row → v ≤ max_uint32 → InRange (set row i v)
set-InRange [] i v r h = tt
set-InRange (w ∷ row) zero v r h = (h, r.1)
set-InRange (w ∷ row) (suc i) v r h = (r.0, set-InRange row i v r.1 h)

pub bump-InRange : (i : ℕ) (row : List ℕ) → InRange row → InRange (bump i row)
unfolding bump
bump-InRange i row r = elim (Bool-cases (get_or row i 0 == max_uint32)) [
  | inl full ↦ rw full r
  | inr room ↦
      rw room (set-InRange row i (get_or row i 0 + 1) r (ground (arith, get_or-le row i r)))
]

pub length-bump : (i : ℕ) (row : List ℕ) → length (bump i row) ≡ length row
unfolding bump
length-bump i row = ground (arith, length-set row i (get_or row i 0 + 1))

-- The bumped cell counts one more, up to the largest uint32.
pub bump_self :
    (i : ℕ) (row : List ℕ)
    → i < length row
    → InRange row
    → get_or (bump i row) i 0 ≡ min (get_or row i 0 + 1) max_uint32
unfolding bump
bump_self i row h r =
    ground (arith, get_or-le row i r, get_or-set_self row i (get_or row i 0 + 1) 0 h)

-- No cell shrinks.
pub bump-le : (i j : ℕ) (row : List ℕ) → i < length row → get_or row j 0 ≤ get_or (bump i row) j 0
unfolding bump
bump-le i j row h = elim (ℕ_discrete i j) [
  | yes e ↦ rw (← e) (ground (arith, get_or-set_self row i (get_or row i 0 + 1) 0 h))
  | no n ↦ ground (arith, get_or-set_ne row i j (get_or row i 0 + 1) 0 n)
]

-- And none grows by more than one.
pub bump-le-add :
    (i j : ℕ) (row : List ℕ) → i < length row → get_or (bump i row) j 0 ≤ get_or row j 0 + 1
unfolding bump
bump-le-add i j row h = elim (ℕ_discrete i j) [
  | yes e ↦ rw (← e) (ground (arith, get_or-set_self row i (get_or row i 0 + 1) 0 h))
  | no n ↦ ground (arith, get_or-set_ne row i j (get_or row i 0 + 1) 0 n)
]

pub halve-InRange : (row : List ℕ) → InRange row → InRange (map halve row)
halve-InRange [] r = tt
halve-InRange (v ∷ row) r = (omega arith, halve-InRange row r.1)

pub zero-InRange : (row : List ℕ) → InRange (map (λ _. 0) row)
zero-InRange [] = tt
zero-InRange (v ∷ row) = (omega arith, zero-InRange row)
