-- ===== src/Stdlib/Sketch/Rows.antt =====
-- utils/stdlib/sketch.go: the well-formed sketches, the buckets of a hash, and the rows that an
-- increment or an aging leaves.
use Prim.Native.Nat.{bit_xor}
use photon.Base.{
  ℕ, suc, ◌+◌, ◌-◌, ◌/◌, ◌%◌, ◌≤◌, ◌<◌, ◌≡◌, refl, ap, ◌∙◌, List, [], ◌∷◌, map, arith, get_or,
  length, ◌==◌, if◌then◌else◌, false, Bool-cases, inl, inr, ltb, min, All, get_or-map, ◌^◌,
}
use native.Mathlib.Nat.{pow-suc, one-le-pow}
use photon.Base.Bits.{bit_and-le, bit_and_mask}
use photon.Stdlib.Sketch.{Sketch, max_uint32, bump, bump_rows, index, halve, least}
use photon.Stdlib.Sketch.Hashes.{mix64}
use photon.Stdlib.Sketch.Cells.{
  InRange, bump-InRange, length-bump, bump_self, bump-le, bump-le-add, get_or-le,
}

abbrev pub IsRow : ℕ → List ℕ → Type 0
IsRow w row = (length row ≡ w) × InRange row

pub record IsValid (c : Sketch) : Type 0 where
  pub deep : 0 < c.depth
  pub rowed : length c.rows ≡ c.depth
  pub wide : 0 < c.width
  pub masked : c.mask < c.width
  pub cells : All (IsRow c.width) c.rows

-- A bucket is a column of its row, on both paths of `index`.
pub index-lt : (c : Sketch) (r h : ℕ) → 0 < c.width → c.mask < c.width → index c r h < c.width
unfolding index
index-lt c r h w m =
    let h2 = mix64 (bit_xor h (get_or c.salt r 0)) in
    elim (Bool-cases (c.mask == 0)) [
      | inl slow ↦ rw slow (grind arith)
      | inr fast ↦ rw fast (omega (arith, bit_and-le h2 c.mask))
    ]

-- For a width that is a power of two the fast path is the remainder by the width.
pub index_power_of_two :
    (c : Sketch) (k r h : ℕ)
    → c.width ≡ 2 ^ suc k
    → c.mask ≡ c.width - 1
    → index c r h ≡ mix64 (bit_xor h (get_or c.salt r 0)) % c.width
unfolding index
index_power_of_two c k r h w m =
    let h2 = mix64 (bit_xor h (get_or c.salt r 0)) in
    let two_at_least : 2 ≤ 2 ^ suc k = rw (pow-suc 2 k) (omega (arith, one-le-pow k 2)) in
    let fast : (c.mask == 0) ≡ false = ground arith in rw fast (rw (m, w) (bit_and_mask (suc k) h2))

pub length-bump_rows :
    (c : Sketch) (h r : ℕ) (rows : List (List ℕ)) → length (bump_rows c h r rows) ≡ length rows
unfolding bump_rows
length-bump_rows c h r [] = refl
length-bump_rows c h r (row ∷ rows) = ap suc (length-bump_rows c h (suc r) rows)

pub least-agree :
    (c d : Sketch) (h r m : ℕ) (rows : List (List ℕ))
    → ((s q : ℕ) → index d s q ≡ index c s q)
    → least d h r m rows ≡ least c h r m rows
unfolding least
least-agree c d h r m [] same = refl
least-agree c d h r m (row ∷ rows) same = rw (same r h) (least-agree c d h (suc r) _ rows same)

module _ (c : Sketch) (wide : 0 < c.width) (masked : c.mask < c.width) where
  pub bump_rows-IsRow :
      (h r : ℕ) (rows : List (List ℕ))
      → All (IsRow c.width) rows
      → All (IsRow c.width) (bump_rows c h r rows)
  unfolding bump_rows
  bump_rows-IsRow h r [] a = tt
  bump_rows-IsRow h r (row ∷ rows) a = (
    (length-bump (index c r h) row ∙ a.0.0, bump-InRange (index c r h) row a.0.1),
    bump_rows-IsRow h (suc r) rows a.1,
  )

  -- The own counter of every row is counted up, so their least is.
  pub least_self :
      (h r m : ℕ) (rows : List (List ℕ))
      → All (IsRow c.width) rows
      → least c h r (min (m + 1) max_uint32) (bump_rows c h r rows)
        ≡ min (least c h r m rows + 1) max_uint32
  unfolding least bump_rows
  least_self h r m [] a = refl
  least_self h r m (row ∷ rows) a =
      let i = index c r h in
      let v = get_or row i 0 in
      let own : get_or (bump i row) i 0 ≡ min (v + 1) max_uint32 =
        bump_self i row (omega (arith, a.0.0, index-lt c r h wide masked)) a.0.1 in
      let step : (if ltb (get_or (bump i row) i 0) (min (m + 1) max_uint32)
            then get_or (bump i row) i 0
            else min (m + 1) max_uint32)
          ≡ min ((if ltb v m then v else m) + 1) max_uint32 =
        ground (arith, own) in
      ap (λ x. least c h (suc r) x (bump_rows c h (suc r) rows)) step
      ∙ least_self h (suc r) (if ltb v m then v else m) rows a.1

  pub least-le :
      (h q r m m' : ℕ) (rows : List (List ℕ))
      → All (IsRow c.width) rows
      → m ≤ m'
      → least c q r m rows ≤ least c q r m' (bump_rows c h r rows)
  unfolding least bump_rows
  least-le h q r m m' [] a le = le
  least-le h q r m m' (row ∷ rows) a le =
      least-le h q (suc r) _ _ rows a.1
        (ground (arith, bump-le (index c r h) (index c r q) row, a.0.0, index-lt c r h wide masked))

  pub least-le-add :
      (h q r m m' : ℕ) (rows : List (List ℕ))
      → All (IsRow c.width) rows
      → m' ≤ m + 1
      → least c q r m' (bump_rows c h r rows) ≤ least c q r m rows + 1
  unfolding least bump_rows
  least-le-add h q r m m' [] a le = le
  least-le-add h q r m m' (row ∷ rows) a le = least-le-add h q (suc r) _ _ rows a.1 (
      ground
        (arith, bump-le-add (index c r h) (index c r q) row, a.0.0, index-lt c r h wide masked))

  pub least-halve :
      (h r m : ℕ) (rows : List (List ℕ))
      → least c h r (m / 2) (map (map halve) rows) ≡ least c h r m rows / 2
  unfolding least
  least-halve h r m [] = refl
  least-halve h r m (row ∷ rows) =
      let i = index c r h in
      let v = get_or row i 0 in
      let step : (if ltb (get_or (map halve row) i 0) (m / 2)
            then get_or (map halve row) i 0
            else m / 2)
          ≡ (if ltb v m then v else m) / 2 =
        ground (arith, get_or-map halve row i 0) in
      ap (λ x. least c h (suc r) x (map (map halve) rows)) step
      ∙ least-halve h (suc r) (if ltb v m then v else m) rows

  -- From the start value of `Estimate`, given one row at least.
  pub least-halve_start :
      (h : ℕ) (rows : List (List ℕ))
      → 0 < length rows
      → All (IsRow c.width) rows
      → least c h 0 max_uint32 (map (map halve) rows) ≡ least c h 0 max_uint32 rows / 2
  unfolding least
  least-halve_start h [] pos a = absurd (omega arith)
  least-halve_start h (row ∷ rows) pos a =
      let i = index c 0 h in
      let v = get_or row i 0 in
      let step : (if ltb (get_or (map halve row) i 0) max_uint32
            then get_or (map halve row) i 0
            else max_uint32)
          ≡ (if ltb v max_uint32 then v else max_uint32) / 2 =
        ground (arith, get_or-map halve row i 0, get_or-le row i a.0.1) in
      ap (λ x. least c h 1 x (map (map halve) rows)) step
      ∙ least-halve h 1 (if ltb v max_uint32 then v else max_uint32) rows

  pub least-le_start : (h r m : ℕ) (rows : List (List ℕ)) → least c h r m rows ≤ m
  unfolding least
  least-le_start h r m [] = omega arith
  least-le_start h r m (row ∷ rows) =
      let v = get_or row (index c r h) 0 in
      let rest = least-le_start h (suc r) (if ltb v m then v else m) rows in ground (arith, rest)
