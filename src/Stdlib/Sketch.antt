-- ===== src/Stdlib/Sketch.antt =====
-- utils/stdlib/sketch.go: the Count-Min sketch. A key is its 64-bit hash. Counters are uint32, and
-- `n` is a uint64; the models write out where they saturate or wrap.
pub mod Hashes
pub mod Cells
pub mod Rows
pub mod Estimates
pub mod History
use Prim.Native.Nat.{bit_and, bit_xor}
use photon.Base.{
  ℕ, suc, ◌+◌, ◌-◌, ◌/◌, ◌%◌, List, [], ◌∷◌, map, ◌||◌, ltb, ◌==◌, not, ◌&&◌, if◌then◌else◌, get_or,
  set, replicate,
}
use photon.Base.Int.{ℤ, pos, leb_ℤ, ltb_ℤ, pos_part}
use Hashes.{mix64, derive_salts}

pub record Sketch : Type 0 where
  pub depth : ℕ
  pub width : ℕ
  pub mask : ℕ
  pub rows : List (List ℕ)
  pub salt : List ℕ
  pub n : ℕ
  pub aging_every : ℕ

abbrev pub max_uint32 : ℕ
max_uint32 = 4_294_967_295

abbrev pub two64 : ℕ
two64 = 18_446_744_073_709_551_616

abbrev pub minimum_width : ℕ
minimum_width = 16

abbrev pub maximum_depth : ℕ
maximum_depth = 8

pub data SketchError : Type 0 where
  bad_depth bad_width : SketchError

pub data Built (A : Type 0) : Type 0 where
  built : A → Built A
  refused : SketchError → Built A

-- `NewCountMinSketch`; the depth is an int and may be negative.
unfoldable pub new_sketch : ℤ → ℕ → ℕ → Built Sketch
new_sketch depth width aging_every =
    if leb_ℤ depth (pos 0) || ltb_ℤ (pos maximum_depth) depth
    then refused bad_depth
    else if ltb width minimum_width
    then refused bad_width
    else built (record {
      depth = pos_part depth;
      width = width;
      mask = if not (bit_and width (width - 1) == 0) then 0 else width - 1;
      rows = replicate (pos_part depth) (replicate width 0);
      salt = derive_salts;
      n = 0;
      aging_every = aging_every;
    })

-- `index(r, h)`: the bucket of a hash in row `r`.
unfoldable pub index : Sketch → ℕ → ℕ → ℕ
index c r h =
    let h2 = mix64 (bit_xor h (get_or c.salt r 0)) in
    if not (c.mask == 0) then bit_and h2 c.mask else h2 % c.width

-- One row of `Increment`: a saturating addition to one cell.
unfoldable pub bump : ℕ → List ℕ → List ℕ
bump i row = let v = get_or row i 0 in if v == max_uint32 then row else set row i (v + 1)

-- The loop of `Increment` over the rows from `r` on.
unfoldable pub bump_rows : Sketch → ℕ → ℕ → List (List ℕ) → List (List ℕ)
bump_rows c h r [] = []
bump_rows c h r (row ∷ rows) = bump (index c r h) row ∷ bump_rows c h (suc r) rows

abbrev pub halve : ℕ → ℕ
halve v = v / 2

-- `Age`
unfoldable pub age : Sketch → Sketch
age c = record c { rows = map (map halve) c.rows }

-- `Increment`
unfoldable pub increment : Sketch → ℕ → Sketch
increment c h =
    let c' = record c { rows = bump_rows c h 0 c.rows; n = (c.n + 1) % two64 } in
    if not (c'.aging_every == 0) && (c'.n % c'.aging_every == 0) then age c' else c'

-- The loop of `Estimate` over the rows from `r` on, with the least counter so far.
unfoldable pub least : Sketch → ℕ → ℕ → ℕ → List (List ℕ) → ℕ
least c h r min [] = min
least c h r min (row ∷ rows) =
    let v = get_or row (index c r h) 0 in least c h (suc r) (if ltb v min then v else min) rows

-- `Estimate`
unfoldable pub estimate : Sketch → ℕ → ℕ
estimate c h = least c h 0 max_uint32 c.rows

-- `Reset`
unfoldable pub reset : Sketch → Sketch
reset c = record c { rows = map (map (λ _. 0)) c.rows; n = 0 }
