-- ===== src/Flashdb/Value.antt =====
-- storage/flashdb/utils.go, record.go and errors.go: the stored values, their sizes and their
-- numeric updates. Maps are values here: `clone` copies a map at each boundary of the store, so no
-- caller shares one with it, and what is shared below the first level is opaque. Times are
-- nanoseconds, 0 the zero time. A float64 is its bit pattern.
pub mod Numbers
use photon.Base.{
  ℕ, ◌+◌, Option, none, some, List, Bool, true, not, ◌&&◌, ltb, ◌==◌, if◌then◌else◌, length, String,
}
use photon.Base.Dict.{Dict}
use photon.Base.Int.{ℤ, pos, negsuc, ◌+ℤ◌, ◌-ℤ◌, ltb_ℤ, wrap_int64}

-- The dynamic types that the store tells apart.
pub data Any : Type 0 where
  int int32 int64 : ℤ → Any
  float64 : ℕ → Any
  str : List ℕ → Any
  other : ℕ → Any

abbrev pub Fields : Type 0
Fields = Dict String Any

-- What the store takes from outside its package: the bytes of a string, the size estimator (`none`
-- is an error or a panic of it, which reflects over the memory of the value), and the float64 sum
-- `x + float64(delta)`.
pub record Env : Type 0 where
  pub bytes : String → List ℕ
  pub deep_size : Fields → Option ℤ
  pub float_add : ℕ → ℤ → ℕ

pub data StoreError : Type 0 where
  not_found bad_type illegal_field invalid_key : StoreError

pub data Reply (A : Type 0) : Type 0 where
  ok : A → Reply A
  fail : StoreError → Reply A

-- The source's `record`.
pub record Record : Type 0 where
  pub value : Fields
  pub size : ℤ
  pub expiry : ℕ

-- `isExpired`
unfoldable pub is_expired : Record → ℕ → Bool
is_expired r now = not (r.expiry == 0) && ltb r.expiry now

abbrev pub max_int64 : ℤ
max_int64 = pos 9_223_372_036_854_775_807

abbrev pub min_int64 : ℤ
min_int64 = negsuc 9_223_372_036_854_775_807

abbrev pub max_int32 : ℤ
max_int32 = pos 2_147_483_647

abbrev pub min_int32 : ℤ
min_int32 = negsuc 2_147_483_647

-- `int64ToInt32`
unfoldable pub int64_to_int32 : ℤ → Option ℤ
int64_to_int32 v = if ltb_ℤ v min_int32 then none else if ltb_ℤ max_int32 v then none else some v

-- The two checks before an addition within the bounds `lo` and `hi`. The differences they form
-- stay in the range of an int64.
unfoldable pub leaves : ℤ → ℤ → ℤ → ℤ → Bool
leaves lo hi x delta =
    if ltb_ℤ (pos 0) delta && ltb_ℤ (hi -ℤ delta) x
    then true
    else ltb_ℤ delta (pos 0) && ltb_ℤ x (lo -ℤ delta)

-- `addInt`, on a 64-bit architecture.
unfoldable pub add_int : Env → Any → ℤ → Option Any
unfolding leaves int64_to_int32
add_int env (int x) delta =
    if leaves min_int64 max_int64 x delta then none else some (int (x +ℤ delta))
add_int env (int32 x) delta =
    if leaves min_int32 max_int32 x delta
    then none
    else elim (int64_to_int32 (x +ℤ delta)) [ none ↦ none | some y ↦ some (int32 y) ]
add_int env (int64 x) delta = some (int64 (wrap_int64 (x +ℤ delta)))
add_int env (float64 x) delta = some (float64 (env.float_add x delta))
add_int env (str s) delta = none
add_int env (other v) delta = none

-- `safeDeepSize`
unfoldable pub safe_deep_size : Env → Fields → ℤ
safe_deep_size env v = elim (env.deep_size v) [
  | none ↦ pos 0
  | some size ↦ if ltb_ℤ size (pos 0) then pos 0 else size
]

abbrev pub record_overhead : ℕ
record_overhead = 96

-- `computeSize`, in int64 arithmetic.
unfoldable pub compute_size : Env → String → Fields → ℤ
unfolding safe_deep_size
compute_size env key value =
    wrap_int64 (pos (length (env.bytes key) + record_overhead) +ℤ safe_deep_size env value)

-- `nonNegativeInt64ToUint64`
unfoldable pub non_negative : ℤ → ℕ
non_negative (pos n) = n
non_negative (negsuc n) = 0
