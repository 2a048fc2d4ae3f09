-- ===== src/Stdlib/Sketch/Estimates.antt =====
-- utils/stdlib/sketch.go: how an estimate moves with each operation.
use photon.Base.{
  ℕ, ◌+◌, ◌/◌, ◌%◌, ◌≤◌, ◌≡◌, refl, ◌∙◌, List, [], ◌∷◌, map, arith, length-map, ◌==◌, if◌then◌else◌,
  Bool, Bool-cases, inl, inr, min, All, not, ◌&&◌,
}
use photon.Stdlib.Sketch.{
  Sketch, max_uint32, two64, bump_rows, index, halve, age, increment, least, estimate,
}
use photon.Stdlib.Sketch.Cells.{halve-InRange}
use photon.Stdlib.Sketch.Rows.{
  IsRow, IsValid, length-bump_rows, least-agree, bump_rows-IsRow, least_self, least-le,
  least-le-add, least-halve_start,
}

-- Does this increment trigger the automatic aging?
unfoldable pub ages : Sketch → Bool
ages c = not (c.aging_every == 0) && ((c.n + 1) % two64 % c.aging_every == 0)

bumped : Sketch → ℕ → Sketch
bumped c h = record c { rows = bump_rows c h 0 c.rows; n = (c.n + 1) % two64 }

increment_cases :
    (c : Sketch) (h : ℕ) → increment c h ≡ (if ages c then age (bumped c h) else bumped c h)
unfolding increment ages bumped
increment_cases c h = refl

estimate-bumped :
    (c : Sketch) (h q : ℕ)
    → estimate (bumped c h) q ≡ least c q 0 max_uint32 (bump_rows c h 0 c.rows)
unfolding estimate bumped index
estimate-bumped c h q =
    least-agree c (bumped c h) q 0 max_uint32 (bump_rows c h 0 c.rows) (λ s p. refl)

-- Aging halves every estimate of a well-formed sketch, rounding down.
estimate-age : (c : Sketch) (q : ℕ) → IsValid c → estimate (age c) q ≡ estimate c q / 2
unfolding estimate age index
estimate-age c q v =
    least-agree c (age c) q 0 max_uint32 (map (map halve) c.rows) (λ s p. refl)
    ∙ least-halve_start c v.wide v.masked q c.rows (omega arith) v.cells

bumped-IsValid : (c : Sketch) (h : ℕ) → IsValid c → IsValid (bumped c h)
unfolding bumped
bumped-IsValid c h v = record {
  deep = v.deep;
  rowed = length-bump_rows c h 0 c.rows ∙ v.rowed;
  wide = v.wide;
  masked = v.masked;
  cells = bump_rows-IsRow c v.wide v.masked h 0 c.rows v.cells;
}

halve-IsRow :
    (w : ℕ) (rows : List (List ℕ)) → All (IsRow w) rows → All (IsRow w) (map (map halve) rows)
halve-IsRow w [] a = tt
halve-IsRow w (row ∷ rows) a =
    ((length-map halve row ∙ a.0.0, halve-InRange row a.0.1), halve-IsRow w rows a.1)

pub age-IsValid : (c : Sketch) → IsValid c → IsValid (age c)
unfolding age
age-IsValid c v = record {
  deep = v.deep;
  rowed = length-map (map halve) c.rows ∙ v.rowed;
  wide = v.wide;
  masked = v.masked;
  cells = halve-IsRow c.width c.rows v.cells;
}

-- The shape of a sketch and the range of its counters survive every observation.
pub increment-IsValid : (c : Sketch) (h : ℕ) → IsValid c → IsValid (increment c h)
increment-IsValid c h v = rw (increment_cases c h) (elim (Bool-cases (ages c)) [
  | inl due ↦ rw due (age-IsValid (bumped c h) (bumped-IsValid c h v))
  | inr not_due ↦ rw not_due (bumped-IsValid c h v)
])

-- An increment is the bump of one counter in each row, followed by the aging when it is due.
estimate-increment :
    (c : Sketch) (h q : ℕ)
    → IsValid c
    → estimate (increment c h) q ≡ (let v = estimate (bumped c h) q in if ages c then v / 2 else v)
estimate-increment c h q v = rw (increment_cases c h) (elim (Bool-cases (ages c)) [
  | inl due ↦ rw due (estimate-age (bumped c h) q (bumped-IsValid c h v))
  | inr not_due ↦ rw not_due refl
])

-- One observation raises the estimate of its key in a well-formed sketch by one, up to the
-- largest uint32; when the automatic aging is due the raised estimate is halved.
pub estimate-increment_self :
    (c : Sketch) (h : ℕ)
    → IsValid c
    → estimate (increment c h) h
      ≡ (let v = min (estimate c h + 1) max_uint32 in if ages c then v / 2 else v)
unfolding estimate
estimate-increment_self c h v =
    let own : estimate (bumped c h) h ≡ min (estimate c h + 1) max_uint32 =
      estimate-bumped c h h ∙ least_self c v.wide v.masked h 0 max_uint32 c.rows v.cells in
    estimate-increment c h h v ∙ rw own refl

-- One observation never lowers the estimate of another key of a well-formed sketch, and raises it
-- by one at most; when the automatic aging is due, the result is halved.
pub estimate-increment_other :
    (c : Sketch) (h q : ℕ)
    → IsValid c
    → (v : ℕ) × (estimate c q ≤ v)
      × (v ≤ estimate c q + 1)
      × (estimate (increment c h) q ≡ (if ages c then v / 2 else v))
unfolding estimate
estimate-increment_other c h q v = (
  estimate (bumped c h) q,
  rw (estimate-bumped c h q)
      (least-le c v.wide v.masked h q 0 max_uint32 max_uint32 c.rows v.cells (omega arith)),
  rw (estimate-bumped c h q)
      (least-le-add c v.wide v.masked h q 0 max_uint32 max_uint32 c.rows v.cells (omega arith)),
  estimate-increment c h q v,
)
