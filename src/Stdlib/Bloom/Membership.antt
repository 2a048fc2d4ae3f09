-- ===== src/Stdlib/Bloom/Membership.antt =====
-- utils/stdlib/bloom.go: the keys that `Exists` finds after `Add`.
use photon.Base.{
  true, false, ℕ, zero, suc, ◌+◌, ◌-◌, ◌/◌, ◌%◌, ◌≤◌, ◌<◌, ◌≡◌, refl, ap, ◌∙◌, List, [], ◌∷◌,
  length, length-replicate, some, arith, ℕ_discrete,
}
use photon.Stdlib.BitSet
use photon.Stdlib.BitSet.{BitSet, done, is_set, new_bit_set}
use photon.Stdlib.BitSet.Laws.{Covers, set_lem}
use photon.Stdlib.Bloom.{
  BloomFilter, new_bloom_filter, hash, prime_seeds, seed_at, add_from, add, exists_from, exists,
}

-- A filter whose bit set has a word for every position that a key can hash to, and which has no
-- more rounds than there are seeds.
pub record IsValid (bf : BloomFilter) : Type 0 where
  pub covers : Covers bf.bitset
  pub whole : bf.bitset.size ≡ bf.size
  pub filled : 0 < bf.size
  pub seeded : bf.hash_count ≤ length prime_seeds

seed_at_lt : (seeds : List ℕ) (i : ℕ) → i < length seeds → (s : ℕ) × (seed_at seeds i ≡ some s)
seed_at_lt [] i h = elim h [ ]
seed_at_lt (s ∷ seeds) zero h = (s, refl)
seed_at_lt (s ∷ seeds) (suc i) h = seed_at_lt seeds i (omega arith)

seed_of :
    (bf : BloomFilter) (i : ℕ)
    → IsValid bf
    → i < bf.hash_count
    → (s : ℕ) × (seed_at prime_seeds (i % bf.hash_count) ≡ some s)
seed_of bf i v h = seed_at_lt prime_seeds (i % bf.hash_count) (omega (arith, v.seeded))

hash-lt : (bf : BloomFilter) (key : List ℕ) (s : ℕ) → IsValid bf → hash bf key s < bf.bitset.size
unfolding hash
hash-lt bf key s v = grind (arith, v.filled, v.whole)

-- Of the same shape, and with all the bits of the other.
record Grown (bf bf' : BloomFilter) : Type 0 where
  size : bf'.size ≡ bf.size
  hash_count : bf'.hash_count ≡ bf.hash_count
  valid : IsValid bf'
  kept : (q : ℕ) → is_set q bf.bitset ≡ done true → is_set q bf'.bitset ≡ done true

-- Round `j` finds the key.
abbrev Hit : BloomFilter → List ℕ → ℕ → Type 0
Hit bf key j =
    (s : ℕ) × (seed_at prime_seeds (j % bf.hash_count) ≡ some s)
    × (is_set (hash bf key s) bf.bitset ≡ done true)

hash-Grown :
    (bf bf' : BloomFilter) (key : List ℕ) (s : ℕ) → Grown bf bf' → hash bf' key s ≡ hash bf key s
unfolding hash
hash-Grown bf bf' key s g = rw g.size refl

Hit-Grown :
    (bf bf' : BloomFilter) (key : List ℕ) (j : ℕ) → Grown bf bf' → Hit bf key j → Hit bf' key j
Hit-Grown bf bf' key j g (s, e, h) =
    (s, rw g.hash_count e, rw (hash-Grown bf bf' key s g) (g.kept _ h))

exists_from_hits :
    (n i : ℕ) (key : List ℕ) (bf : BloomFilter)
    → ((j : ℕ) → i ≤ j → j < i + n → Hit bf key j)
    → exists_from n i key bf ≡ some true
unfolding exists_from
exists_from_hits zero i key bf hits = refl
exists_from_hits (suc n) i key bf hits =
    let (s, e, h) = hits i (omega arith) (omega arith) in
    let rest = exists_from_hits n (suc i) key bf (λ j a b. hits j (omega arith) (omega arith)) in
    ground (arith, e, h, rest)

-- One round of `Add`.
add_round :
    (key : List ℕ) (bf : BloomFilter) (s p : ℕ)
    → IsValid bf
    → hash bf key s ≡ p
    → (bs : BitSet) × (BitSet.set p bf.bitset ≡ done bs)
      × Grown bf (record bf { bitset = bs })
      × (is_set p bs ≡ done true)
add_round key bf s p v e =
    let below : p < bf.bitset.size = rw (← e) (hash-lt bf key s v) in
    let (bs, set, covers, size, reads) = set_lem bf.bitset p v.covers below in
    (
      bs,
      set,
      record {
        size = refl;
        hash_count = refl;
        valid = record {
          covers = covers;
          whole = size ∙ v.whole;
          filled = v.filled;
          seeded = v.seeded;
        };
        kept = λ q h. ground (arith, reads q, h);
      },
      ground (arith, reads p),
    )

Grown-refl : (bf : BloomFilter) → IsValid bf → Grown bf bf
Grown-refl bf v = record { size = refl; hash_count = refl; valid = v; kept = λ q h. h }

Grown-trans : (a b c : BloomFilter) → Grown a b → Grown b c → Grown a c
Grown-trans a b c g h = record {
  size = h.size ∙ g.size;
  hash_count = h.hash_count ∙ g.hash_count;
  valid = h.valid;
  kept = λ q e. h.kept q (g.kept q e);
}

add_from_lem :
    (n i : ℕ) (key : List ℕ) (bf : BloomFilter)
    → IsValid bf
    → i + n ≤ bf.hash_count
    → (bf' : BloomFilter) × (add_from n i key bf ≡ some bf')
      × Grown bf bf'
      × ((j : ℕ) → i ≤ j → j < i + n → Hit bf' key j)
unfolding add_from
add_from_lem zero i key bf v h = (bf, refl, Grown-refl bf v, λ j a b. absurd (omega arith))
add_from_lem (suc n) i key bf v h =
    let (s, seed) = seed_of bf i v (omega arith) in
    let (bs, set, g, there) = add_round key bf s (hash bf key s) v refl in
    let bf1 : BloomFilter = record bf { bitset = bs } in
    let (bf', rest, g', hits) = add_from_lem n (suc i) key bf1 g.valid (omega arith) in
    let here : Hit bf1 key i = (s, seed, rw (hash-Grown bf bf1 key s g) there) in
    (
      bf',
      ground (arith, seed, set, rest),
      Grown-trans bf bf1 bf' g g',
      λ j a b. elim (ℕ_discrete i j) [
        | yes e ↦ rw (← e) (Hit-Grown bf1 bf' key i g' here)
        | no ne ↦ hits j (omega arith) (omega arith)
      ],
    )

hits_of :
    (n i : ℕ) (key : List ℕ) (bf : BloomFilter)
    → IsValid bf
    → i + n ≤ bf.hash_count
    → exists_from n i key bf ≡ some true
    → (j : ℕ) → i ≤ j
    → j < i + n
    → Hit bf key j
unfolding exists_from
hits_of zero i key bf v h e j a b = absurd (omega arith)
hits_of (suc n) i key bf v h e j a b =
    let (s, seed) = seed_of bf i v (omega arith) in
    elim (ℕ_discrete i j) [
      | yes same ↦ rw (← same) (s, seed, ground (arith, seed, e))
      | no ne ↦
          hits_of n (suc i) key bf v (omega arith) (ground (arith, seed, e)) j (omega arith)
            (omega arith)
    ]

-- `Add` on a valid filter succeeds and keeps it valid, and the key is found afterwards.
pub add_lem :
    (bf : BloomFilter) (key : List ℕ)
    → IsValid bf
    → (bf' : BloomFilter) × (add key bf ≡ some bf') × IsValid bf' × (exists key bf' ≡ some true)
unfolding add exists
add_lem bf key v =
    let (bf', added, g, hits) = add_from_lem bf.hash_count 0 key bf v (omega arith) in
    (
      bf',
      added,
      g.valid,
      exists_from_hits bf'.hash_count 0 key bf' (λ j a b. hits j a (omega (arith, g.hash_count))),
    )

-- A key that is found in a valid filter is still found after an `Add` of any key.
add_keeps :
    (bf : BloomFilter) (key other : List ℕ)
    → IsValid bf
    → exists other bf ≡ some true
    → (bf' : BloomFilter) × (add key bf ≡ some bf') × (exists other bf' ≡ some true)
unfolding add exists
add_keeps bf key other v e =
    let (bf', added, g, hits) = add_from_lem bf.hash_count 0 key bf v (omega arith) in
    (
      bf',
      added,
      exists_from_hits bf'.hash_count 0 other bf' (λ j a b.
          Hit-Grown bf bf' other j g
            (hits_of bf.hash_count 0 other bf v (omega arith) e j a (omega (arith, g.hash_count)))),
    )

-- A filter that is made with a size above 0, and no more hashes than seeds, is valid.
pub new_bloom_filter-IsValid :
    (size hash_count : ℕ)
    → 0 < size
    → hash_count ≤ length prime_seeds
    → IsValid (new_bloom_filter size hash_count)
unfolding new_bloom_filter new_bit_set
new_bloom_filter-IsValid size hash_count h seeded = record {
  covers = length-replicate ((size + 63) / 64) 0;
  whole = omega arith;
  filled = omega arith;
  seeded = omega arith;
}

first_seed : (hc : ℕ) → 0 < hc → seed_at prime_seeds (0 % hc) ≡ some 2
first_seed hc h = let z : 0 % hc ≡ 0 = omega arith in rw z refl

add_from_empty :
    (n : ℕ) (key : List ℕ) (bf : BloomFilter)
    → 0 < bf.hash_count
    → bf.bitset.size ≡ 0
    → add_from (suc n) 0 key bf ≡ some bf
unfolding add_from BitSet.set
add_from_empty n key bf h e = ground (arith, first_seed bf.hash_count h)

exists_from_empty :
    (n : ℕ) (key : List ℕ) (bf : BloomFilter)
    → 0 < bf.hash_count
    → bf.bitset.size ≡ 0
    → exists_from (suc n) 0 key bf ≡ some false
unfolding exists_from is_set
exists_from_empty n key bf h e = ground (arith, first_seed bf.hash_count h)

-- A filter that is made with size 0 loses every key: its bit set has no positions, so `Add`
-- stores nothing, and `Exists` of the key that was added answers false.
pub empty_filter_forgets :
    (key : List ℕ) (hash_count : ℕ)
    → let bf = new_bloom_filter 0 hash_count in
      (add key bf ≡ some bf) × (exists key bf ≡ some false)
unfolding new_bloom_filter new_bit_set add exists
empty_filter_forgets key hash_count =
    let bf = new_bloom_filter 0 hash_count in
    let e : bf.hash_count ≡ suc (bf.hash_count - 1) = omega arith in
    (
      ap (λ n. add_from n 0 key bf) e
          ∙ add_from_empty (bf.hash_count - 1) key bf (omega arith) refl,
      ap (λ n. exists_from n 0 key bf) e
          ∙ exists_from_empty (bf.hash_count - 1) key bf (omega arith) refl,
    )
