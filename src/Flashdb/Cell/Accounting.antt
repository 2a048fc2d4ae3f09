-- ===== src/Flashdb/Cell/Accounting.antt =====
-- storage/flashdb/store.go: the uint64 and int64 arithmetic of the byte count.
use photon.Base.{ℕ, ◌+◌, ◌≤◌, ◌<◌, ◌≡◌, arith, String, string_discrete, some}
use photon.Base.Int.{ℤ, pos, negsuc, ◌-ℤ◌, ◌≤ℤ◌, wrap_int64}
use photon.Base.Dict
use photon.Flashdb.Value.{Env, Fields, Record, compute_size, non_negative}
use photon.Flashdb.Cell.{resize}
use photon.Flashdb.Shard.{Shard}
use photon.Flashdb.Shard.Tracked.{Tracked, cost}

abbrev pub two63 : ℕ
two63 = 9_223_372_036_854_775_808

-- For sizes that are not negative, the old one at most the byte count and the new one and the
-- count below 2^63, the uint64 arithmetic of an update takes the old size out of the count and
-- puts the new one in, exactly.
pub resize_exact :
    (old new : ℤ) (current : ℕ)
    → pos 0 ≤ℤ old
    → pos 0 ≤ℤ new
    → non_negative old ≤ current
    → non_negative new < two63
    → current < two63
    → resize old new current + non_negative old ≡ current + non_negative new
unfolding resize wrap_int64 ◌-ℤ◌ non_negative
resize_exact (pos b) (pos a) current p q le small room = ground arith
resize_exact (pos b) (negsuc a) current p q le small room = absurd (omega arith)
resize_exact (negsuc b) new current p q le small room = absurd (omega arith)

non_negative_wrap-lt : (z : ℤ) → non_negative (wrap_int64 z) < two63
unfolding wrap_int64 non_negative
non_negative_wrap-lt (pos n) = ground arith
non_negative_wrap-lt (negsuc n) = ground arith

-- A computed size is an int64.
pub compute_size-lt :
    (env : Env) (key : String) (value : Fields) → non_negative (compute_size env key value) < two63
unfolding compute_size
compute_size-lt env key value = non_negative_wrap-lt _

-- The size of a record is part of the count.
pub cost-le-current :
    (k : String) (r : Record) (sh : Shard)
    → Tracked sh
    → Dict.get string_discrete k sh.entries ≡ some r
    → cost r ≤ sh.current_size
cost-le-current k r sh t there =
    omega (arith, t.counted, Dict.total-del string_discrete cost k r sh.entries t.distinct there)
