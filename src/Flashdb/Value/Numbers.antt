-- ===== src/Flashdb/Value/Numbers.antt =====
-- storage/flashdb/utils.go: `addInt` against exact integer addition.
use photon.Base.{not, ◌&&◌, if◌then◌else◌, ◌≡◌, arith, Bool, true, none, some}
use photon.Base.Int.{ℤ, ◌+ℤ◌, leb_ℤ, +ℤ_parts, -ℤ_parts}
use photon.Flashdb.Value.{
  int, int32, Env, add_int, leaves, int64_to_int32, min_int64, max_int64, min_int32, max_int32,
}

-- A number between two bounds.
abbrev pub within : ℤ → ℤ → ℤ → Bool
within lo hi a = leb_ℤ lo a && leb_ℤ a hi

-- For a number within the bounds, the two pre-checks of `addInt` refuse exactly the sums that
-- leave them.
pub leaves_exact :
    (lo hi x delta : ℤ)
    → within lo hi x ≡ true
    → leaves lo hi x delta ≡ not (within lo hi (x +ℤ delta))
unfolding leaves
leaves_exact lo hi x delta w =
    ground (arith, +ℤ_parts x delta, -ℤ_parts hi delta, -ℤ_parts lo delta)

-- On an int within the range of an int64, `addInt` gives the exact sum, or refuses when that is
-- no int64.
add_int-int :
    (env : Env) (x delta : ℤ)
    → within min_int64 max_int64 x ≡ true
    → add_int env (int x) delta
      ≡ (if within min_int64 max_int64 (x +ℤ delta) then some (int (x +ℤ delta)) else none)
unfolding add_int
add_int-int env x delta w = ground (arith, leaves_exact min_int64 max_int64 x delta w)

-- On an int32 within its range, `addInt` gives the exact sum, or refuses when that is no int32.
add_int-int32 :
    (env : Env) (x delta : ℤ)
    → within min_int32 max_int32 x ≡ true
    → add_int env (int32 x) delta
      ≡ (if within min_int32 max_int32 (x +ℤ delta) then some (int32 (x +ℤ delta)) else none)
unfolding add_int int64_to_int32
add_int-int32 env x delta w = ground (arith, leaves_exact min_int32 max_int32 x delta w)
