-- ===== src/Stdlib/Tests.antt =====
-- utils/stdlib: runs of the data structures at concrete inputs.
use photon.Base.{ℕ, ◌+◌, ◌≤◌, ◌<◌, ◌≡◌, arith, some, [], ◌∷◌, true, false, min, ℕ_discrete}
use photon.Base.Dict
use photon.Base.Int.{pos}
use photon.Stdlib.Lru
use photon.Stdlib.Lru.{Lru}
use photon.Stdlib.Lru.Entries.{Inv}
use photon.Stdlib.Lru.Writes.{Written, set-write}
use photon.Stdlib.Lru.Bound.{new_lru-Inv}
use photon.Stdlib.Sketch.{Sketch, built, new_sketch, estimate, max_uint32}
use photon.Stdlib.Sketch.Rows.{IsValid}
use photon.Stdlib.Sketch.History.{run, count, count-le-estimate, new_sketch_accepts}
use photon.Stdlib.TinyLfu.{TinyLfu}
use photon.Stdlib.Bloom.{BloomFilter, new_bloom_filter, add, exists}
use photon.Stdlib.Bloom.Membership
use photon.Stdlib.Bloom.Membership.{new_bloom_filter-IsValid, add_lem, empty_filter_forgets}

-- A cache of two entries, the second written more recent.
abbrev fresh : Lru ℕ ℕ
fresh = Lru.new_lru 2 true

abbrev one_entry : Lru ℕ ℕ
one_entry = (Lru.set ℕ_discrete 1 10 fresh).0

abbrev two_entries : Lru ℕ ℕ
two_entries = (Lru.set ℕ_discrete 2 20 one_entry).0

two_entries-Inv : Inv ℕ_discrete two_entries
two_entries-Inv =
    (set-write ℕ_discrete 2 20
      (set-write ℕ_discrete 1 10 (new_lru-Inv ℕ_discrete 2 true)).valid).valid

set-write_example : Written ℕ_discrete two_entries 3 30 (Lru.set ℕ_discrete 3 30 two_entries)
set-write_example = set-write ℕ_discrete 3 30 two_entries-Inv

two_entries-cap : 0 < two_entries.cap
unfolding Lru.new_lru Lru.set Lru.find_id Lru.insert_front Lru.len Dict.get Dict.put ℕ_discrete
two_entries-cap = omega arith

two_entries-len : Lru.len two_entries ≤ two_entries.cap
unfolding Lru.new_lru Lru.set Lru.find_id Lru.insert_front Lru.len Dict.get Dict.put ℕ_discrete
two_entries-len = omega arith

-- The sketch of two rows of sixteen counters that the constructor builds, without aging.
abbrev new_cells :
    (c : Sketch) × (new_sketch (pos 2) 16 0 ≡ built c)
    × IsValid c
    × (c.aging_every ≡ 0)
    × ((h : ℕ) → estimate c h ≡ 0)
new_cells = new_sketch_accepts (pos 2) 16 0 (omega arith, omega arith, omega arith)

abbrev cells : Sketch
cells = new_cells.0

count-le-estimate_example :
    min (count 7 (7 ∷ 9 ∷ 7 ∷ []) + estimate cells 7) max_uint32
    ≤ estimate (run cells (7 ∷ 9 ∷ 7 ∷ [])) 7
count-le-estimate_example = count-le-estimate cells 7 (7 ∷ 9 ∷ 7 ∷ []) new_cells.2 new_cells.3

-- Keys that hash to themselves.
abbrev policy : TinyLfu ℕ
policy = record { cms = cells; hash = λ k. k; admit_on_eq = true }

-- A filter of 64 positions and three hashes, and the byte strings of two keys.
abbrev filter : BloomFilter
filter = new_bloom_filter 64 3

add_lem_example :
    (bf' : BloomFilter) × (add (104 ∷ 105 ∷ []) filter ≡ some bf')
    × Membership.IsValid bf'
    × (exists (104 ∷ 105 ∷ []) bf' ≡ some true)
add_lem_example =
    add_lem filter (104 ∷ 105 ∷ []) (new_bloom_filter-IsValid 64 3 (omega arith) (omega arith))

abbrev with_hi :
    (bf' : BloomFilter) × (add (104 ∷ 105 ∷ []) filter ≡ some bf')
    × Membership.IsValid bf'
    × (exists (104 ∷ 105 ∷ []) bf' ≡ some true)
with_hi =
    add_lem filter (104 ∷ 105 ∷ []) (new_bloom_filter-IsValid 64 3 (omega arith) (omega arith))

empty_filter_forgets_example :
    (add (104 ∷ []) (new_bloom_filter 0 3) ≡ some (new_bloom_filter 0 3))
    × (exists (104 ∷ []) (new_bloom_filter 0 3) ≡ some false)
empty_filter_forgets_example = empty_filter_forgets (104 ∷ []) 3
