-- ===== src/Stdlib/Bloom.antt =====
-- utils/stdlib/bloom.go and utils/encoding/murmur.go: a Bloom filter over a bit set.
-- A key is the list of its bytes. A sum of shifted bytes is folded from the last byte, the order in
-- which the source's `fallthrough` cases take them.
pub mod Membership
use Prim.Native.Nat.{bit_or, bit_xor, max}
use photon.Base.{
  Bool, true, false, ℕ, zero, suc, ◌+◌, ◌-◌, ◌*◌, ◌/◌, ◌%◌, ◌^◌, List, [], ◌∷◌, ◌==◌, not, leb,
  ◌||◌, if◌then◌else◌, length, Option, none, some,
}
use photon.Stdlib.BitSet
use photon.Stdlib.BitSet.{BitSet, Checked, done, out_of_bounds, new_bit_set}

-- Arithmetic on uint64.
abbrev mul64 : ℕ → ℕ → ℕ
mul64 a b = a * b % 18_446_744_073_709_551_616

abbrev rotl64 : ℕ → ℕ → ℕ
rotl64 x r = bit_or (mul64 x (2 ^ r)) (x / 2 ^ (64 - r))

abbrev fold_shift : ℕ → ℕ
fold_shift k = bit_xor k (k / 2 ^ 33)

unfoldable pub fmix64 : ℕ → ℕ
fmix64 k =
    fold_shift (mul64 (fold_shift (mul64 (fold_shift k) 0xff51afd7ed558ccd)) 0xc4ceb9fe1a85ec53)

-- Bytes in little-endian order; the bytes after the eighth do not count.
unfoldable pub little_endian : ℕ → List ℕ → ℕ
little_endian zero bs = 0
little_endian (suc n) [] = 0
little_endian (suc n) (b ∷ bs) = bit_xor (little_endian n bs * 256) b

abbrev drop : ℕ → List ℕ → List ℕ
drop zero bs = bs
drop (suc n) [] = []
drop (suc n) (b ∷ bs) = drop n bs

abbrev scramble1 : ℕ → ℕ
scramble1 k = mul64 (rotl64 (mul64 k 0x87c37b91114253d5) 31) 0x4cf5ad432745937f

abbrev scramble2 : ℕ → ℕ
scramble2 k = mul64 (rotl64 (mul64 k 0x4cf5ad432745937f) 33) 0x87c37b91114253d5

-- The state after a block of 16 bytes.
unfoldable pub block : ℕ → List ℕ → ℕ
block h1 bytes =
    let h2 = rotl64 (bit_xor h1 (scramble1 (little_endian 8 bytes))) 27 in
    bit_xor ((h2 * 5 + 0x52dce729) % 18_446_744_073_709_551_616)
      (scramble2 (little_endian 8 (drop 8 bytes)))

unfoldable pub blocks : ℕ → ℕ → List ℕ → ℕ
blocks zero h1 bytes = h1
blocks (suc n) h1 bytes = blocks n (block h1 bytes) (drop 16 bytes)

-- The `switch` on the bytes that are left: from nine on they enter `k2` too.
unfoldable pub tail_hash : ℕ → List ℕ → ℕ
tail_hash h1 tail =
    let h2 =
      if leb 9 (length tail) then bit_xor h1 (scramble2 (little_endian 7 (drop 8 tail))) else h1 in
    if leb 1 (length tail) then bit_xor h2 (scramble1 (little_endian 8 tail)) else h2

unfoldable pub murmur_hash64 : List ℕ → ℕ → ℕ
murmur_hash64 bytes seed =
    let nblocks = length bytes / 16 in
    fmix64
      (bit_xor (tail_hash (blocks nblocks seed bytes) (drop (nblocks * 16) bytes)) (length bytes))

abbrev prime_seeds : List ℕ
prime_seeds =
    2 ∷ 3 ∷ 5 ∷ 7 ∷ 11 ∷ 13 ∷ 17 ∷ 19 ∷ 23 ∷ 29 ∷ 31 ∷ 37 ∷ 41 ∷ 43 ∷ 47 ∷ 53 ∷ 59 ∷ 61 ∷ 67 ∷ 71
    ∷ 73 ∷ 79 ∷ 83 ∷ 89 ∷ 97 ∷ 101 ∷ 103 ∷ 107 ∷ 109 ∷ 113 ∷ 127 ∷ 131 ∷ 137 ∷ 139 ∷ 149 ∷ 151 ∷ 157
    ∷ 163 ∷ 167 ∷ 173 ∷ 179 ∷ 181 ∷ 191 ∷ 193 ∷ 197 ∷ 199 ∷ 211 ∷ 223 ∷ 227 ∷ 229 ∷ 233 ∷ 239 ∷ 241
    ∷ 251 ∷ 257 ∷ 263 ∷ 269 ∷ 271 ∷ 277 ∷ 281 ∷ 283 ∷ 293 ∷ 307 ∷ 311 ∷ 313 ∷ 317 ∷ 331 ∷ 337 ∷ 347
    ∷ 349 ∷ 353 ∷ 359 ∷ 367 ∷ 373 ∷ 379 ∷ 383 ∷ 389 ∷ 397 ∷ 401 ∷ 409 ∷ 419 ∷ 421 ∷ 431 ∷ 433 ∷ 439
    ∷ 443 ∷ 449 ∷ 457 ∷ 461 ∷ 463 ∷ 467 ∷ 479 ∷ 487 ∷ 491 ∷ 499 ∷ 503 ∷ 509 ∷ 521 ∷ 523 ∷ 541 ∷ 547
    ∷ 557 ∷ 563 ∷ 569 ∷ 571 ∷ 577 ∷ 587 ∷ 593 ∷ 599 ∷ 601 ∷ 607 ∷ []

pub record BloomFilter : Type 0 where
  pub size : ℕ
  pub hash_count : ℕ
  pub bitset : BitSet

-- A hash count is a uint8, at most 255.
unfoldable pub new_bloom_filter : ℕ → ℕ → BloomFilter
new_bloom_filter size hash_count = record {
  size = max size 1;
  hash_count = max hash_count 1;
  bitset = new_bit_set size;
}

unfoldable pub hash : BloomFilter → List ℕ → ℕ → ℕ
hash bf key seed = murmur_hash64 key seed % bf.size

-- The positions of a key. The index into the seeds is `i % HashCount`, so `i` itself: past the end
-- of the seeds the source panics, and `none` stands for that.
abbrev seed_at : List ℕ → ℕ → Option ℕ
seed_at [] i = none
seed_at (s ∷ seeds) zero = some s
seed_at (s ∷ seeds) (suc i) = seed_at seeds i

-- The loop of `Add` with `n` rounds left, at round `i`; an error of the bit set ends it.
unfoldable pub add_from : ℕ → ℕ → List ℕ → BloomFilter → Option BloomFilter
add_from zero i key bf = some bf
add_from (suc n) i key bf = elim (seed_at prime_seeds (i % bf.hash_count)) [
  | none ↦ none
  | some seed ↦ elim (BitSet.set (hash bf key seed) bf.bitset) [
    | out_of_bounds ↦ some bf
    | done bs ↦ add_from n (suc i) key (record bf { bitset = bs })
  ]
]

unfoldable pub add : List ℕ → BloomFilter → Option BloomFilter
add key bf = add_from bf.hash_count 0 key bf

-- The loop of `Exists`.
unfoldable pub exists_from : ℕ → ℕ → List ℕ → BloomFilter → Option Bool
exists_from zero i key bf = some true
exists_from (suc n) i key bf =
    let rest = exists_from n (suc i) key bf in
    elim (seed_at prime_seeds (i % bf.hash_count)) [
      | none ↦ none
      | some seed ↦ elim (BitSet.is_set (hash bf key seed) bf.bitset) [
        | out_of_bounds ↦ some false
        | done b ↦ if b then rest else some false
      ]
    ]

unfoldable pub exists : List ℕ → BloomFilter → Option Bool
exists key bf = exists_from bf.hash_count 0 key bf

unfoldable pub clear_all : BloomFilter → BloomFilter
clear_all bf = record bf { bitset = BitSet.clear_all bf.bitset }

unfoldable pub memory_usage : BloomFilter → ℕ
memory_usage bf = bf.size / 8

-- `Merge` walks the positions below the size; an error of `IsSet` counts as not set.
abbrev was_set : Checked Bool → Bool
was_set (done b) = b
was_set out_of_bounds = false

unfoldable pub merge_from : ℕ → ℕ → BitSet → BitSet → Checked BitSet
merge_from zero i other bs = done bs
merge_from (suc n) i other bs =
    if was_set (BitSet.is_set i other)
    then elim (BitSet.set i bs) [
      | out_of_bounds ↦ out_of_bounds
      | done bs' ↦ merge_from n (suc i) other bs'
    ]
    else merge_from n (suc i) other bs

-- `none` is the error of filters of different shape, or of a position out of bounds.
unfoldable pub merge : BloomFilter → BloomFilter → Option BloomFilter
merge other bf =
    if not (bf.size == other.size) || not (bf.hash_count == other.hash_count)
    then none
    else elim (merge_from bf.size 0 other.bitset bf.bitset) [
      | out_of_bounds ↦ none
      | done bs ↦ some (record bf { bitset = bs })
    ]
