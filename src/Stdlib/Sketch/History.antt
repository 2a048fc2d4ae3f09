-- ===== src/Stdlib/Sketch/History.antt =====
-- utils/stdlib/sketch.go: fresh sketches, and the estimates after a history of observations.
use Prim.Native.Nat.{bit_and}
use photon.Base.{
  ℕ, zero, suc, ◌+◌, ◌-◌, ◌≤◌, ◌<◌, ◌≡◌, refl, ◌∙◌, List, [], ◌∷◌, arith, get_or, length, ◌==◌,
  if◌then◌else◌, false, inl, inr, ltb, min, All, ◌⊎◌, length-replicate, get_or-replicate, replicate,
  not,
}
use photon.Base.Int.{ℤ, pos, ◌≤ℤ◌, pos_part}
use photon.Stdlib.Sketch.Hashes.{derive_salts}
use photon.Stdlib.Sketch.{
  Sketch, max_uint32, index, age, increment, least, estimate, new_sketch, built, refused, bad_depth,
  bad_width, minimum_width, maximum_depth,
}
use photon.Stdlib.Sketch.Cells.{InRange}
use photon.Stdlib.Sketch.Rows.{IsRow, IsValid}
use photon.Stdlib.Sketch.Estimates.{
  ages, increment-IsValid, estimate-increment_self, estimate-increment_other,
}

-- A history of observations, oldest first.
unfoldable pub run : Sketch → List ℕ → Sketch
run c [] = c
run c (h ∷ hs) = run (increment c h) hs

unfoldable pub count : ℕ → List ℕ → ℕ
count h [] = 0
count h (q ∷ qs) = (if q == h then 1 else 0) + count h qs

aging_every-increment : (c : Sketch) (h : ℕ) → (increment c h).aging_every ≡ c.aging_every
unfolding increment age
aging_every-increment c h = ground arith

never_ages : (c : Sketch) → c.aging_every ≡ 0 → ages c ≡ false
unfolding ages
never_ages c e = ground arith

-- One observation, aging off: the estimate of any key grows by at least its own count.
step_lower :
    (c : Sketch) (h q : ℕ)
    → IsValid c
    → c.aging_every ≡ 0
    → (n : ℕ)
    → min ((if q == h then 1 else 0) + n + estimate c h) max_uint32
      ≤ min (n + estimate (increment c q) h) max_uint32
step_lower c h q v off n =
    ground
      (arith, never_ages c off, estimate-increment_self c h v, estimate-increment_other c q h v)

-- With aging off, a well-formed sketch never underestimates: after any observations the estimate
-- of a key is at least its estimate before plus the number of its observations, up to the largest
-- uint32.
pub count-le-estimate :
    (c : Sketch) (h : ℕ) (hs : List ℕ)
    → IsValid c
    → c.aging_every ≡ 0
    → min (count h hs + estimate c h) max_uint32 ≤ estimate (run c hs) h
unfolding run count
count-le-estimate c h [] v off = omega arith
count-le-estimate c h (q ∷ hs) v off = omega (
  arith,
  step_lower c h q v off (count h hs),
  count-le-estimate (increment c q) h hs (increment-IsValid c q v)
      (aging_every-increment c q ∙ off),
)

-- Whatever the aging, the estimate of a key in a well-formed sketch grows by no more than the
-- number of the observations of all keys.
estimate-le-length :
    (c : Sketch) (h : ℕ) (hs : List ℕ)
    → IsValid c
    → estimate (run c hs) h ≤ estimate c h + length hs
unfolding run
estimate-le-length c h [] v = omega arith
estimate-le-length c h (q ∷ hs) v = ground (
  arith,
  estimate-le-length (increment c q) h hs (increment-IsValid c q v),
  estimate-increment_other c q h v,
)

zero_row : (n : ℕ) → InRange (replicate n 0)
zero_row zero = tt
zero_row (suc n) = (omega arith, zero_row n)

zero_rows : (d w : ℕ) → All (IsRow w) (replicate d (replicate w 0))
zero_rows zero w = tt
zero_rows (suc d) w = ((length-replicate w 0, zero_row w), zero_rows d w)

least_zero :
    (c : Sketch) (h r m d w : ℕ)
    → (0 < d) ⊎ (m ≡ 0)
    → least c h r m (replicate d (replicate w 0)) ≡ 0
unfolding least
least_zero c h r m zero w p = omega arith
least_zero c h r m (suc d) w p =
    let i = index c r h in
    let zeros : List ℕ = replicate w 0 in
    let cell : get_or zeros i 0 ≡ 0 = get_or-replicate w i 0 in
    let start : (if ltb (get_or zeros i 0) m then get_or zeros i 0 else m) ≡ 0 =
      ground (arith, cell) in
    least_zero c h (suc r) _ d w (inr start)

-- A depth from 1 to 8 and a width from 16 up.
abbrev pub Accepted : ℤ → ℕ → Type 0
Accepted depth width = (pos 1 ≤ℤ depth) × (depth ≤ℤ pos maximum_depth) × (minimum_width ≤ width)

-- For a depth from 1 to 8 and a width of at least 16 the constructor builds a sketch; it is well
-- formed, keeps the aging interval and estimates 0 for every key.
pub new_sketch_accepts :
    (depth : ℤ) (width aging_every : ℕ)
    → Accepted depth width
    → (c : Sketch) × (new_sketch depth width aging_every ≡ built c)
      × IsValid c
      × (c.aging_every ≡ aging_every)
      × ((h : ℕ) → estimate c h ≡ 0)
unfolding new_sketch estimate
new_sketch_accepts depth width aging_every ok = (
  record {
    depth = pos_part depth;
    width = width;
    mask = if not (bit_and width (width - 1) == 0) then 0 else width - 1;
    rows = replicate (pos_part depth) (replicate width 0);
    salt = derive_salts;
    n = 0;
    aging_every = aging_every;
  },
  ground arith,
  record {
    deep = omega arith;
    rowed = length-replicate (pos_part depth) (replicate width 0);
    wide = omega arith;
    masked = ground arith;
    cells = zero_rows (pos_part depth) width;
  },
  refl,
  λ h. least_zero _ h 0 max_uint32 (pos_part depth) width (inl (omega arith)),
)

pub new_sketch_refuses :
    (depth : ℤ) (width aging_every : ℕ)
    → ¬ Accepted depth width
    → (new_sketch depth width aging_every ≡ refused bad_depth)
      ⊎ (new_sketch depth width aging_every ≡ refused bad_width)
unfolding new_sketch
new_sketch_refuses depth width aging_every no_good = ground arith
