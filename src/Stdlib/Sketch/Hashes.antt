-- ===== src/Stdlib/Sketch/Hashes.antt =====
-- utils/stdlib/sketch.go: the hash functions, on uint64 values.
use Prim.Native.Nat.{bit_xor}
use photon.Base.{ℕ, ◌*◌, ◌/◌, ◌%◌, ◌^◌, List, [], ◌∷◌}

abbrev word : ℕ
word = 18_446_744_073_709_551_616

-- `Hash64String` and `Hash64Bytes`: FNV-1a over the bytes, from a running hash.
unfoldable pub fnv1a : ℕ → List ℕ → ℕ
fnv1a h [] = h
fnv1a h (b ∷ bs) = fnv1a (bit_xor h b * 1_099_511_628_211 % word) bs

unfoldable pub hash64 : List ℕ → ℕ
unfolding fnv1a
hash64 = fnv1a 1_469_598_103_934_665_603

-- `mix64`, the finalizer of SplitMix64.
unfoldable pub mix64 : ℕ → ℕ
mix64 z =
    let a = bit_xor z (z / 2 ^ 30) * 0xbf58476d1ce4e5b9 % word in
    let b = bit_xor a (a / 2 ^ 27) * 0x94d049bb133111eb % word in bit_xor b (b / 2 ^ 31)

-- `deriveSalts`
unfoldable pub derive_salts : List ℕ
derive_salts =
    0x9e3779b97f4a7c15 ∷ 0xc2b2ae3d27d4eb4f ∷ 0x165667b19e3779f9 ∷ 0x85ebca77c2b2ae63
    ∷ 0x27d4eb2f165667c5 ∷ 0x94d049bb133111eb ∷ 0xbf58476d1ce4e5b9 ∷ 0x2545f4914f6cdd1d ∷ []
