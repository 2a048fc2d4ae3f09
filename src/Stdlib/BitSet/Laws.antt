-- ===== src/Stdlib/BitSet/Laws.antt =====
-- utils/stdlib/bitset.go: the bits that a write changes, and those that it does not.
use Prim.Native.Nat.{bit_and, bit_or, bit_xor}
use native.Mathlib.Nat.{one-le-pow}
use photon.Base.{
  Bool, true, false, ℕ, ◌+◌, ◌/◌, ◌%◌, ◌^◌, ◌<◌, ◌≡◌, ◌≢◌, refl, ap, ◌∙◌, ◌==◌, not, if◌then◌else◌,
  set as set_elem, get_or, get_or-set_self, get_or-set_ne, get_or-replicate, length-set,
  length-replicate, length, arith, ℕ_discrete,
}
use photon.Base.Digits.{or_self, or_other, single, xor_self, xor_other, bit_zero-and}
use photon.Stdlib.BitSet
use photon.Stdlib.BitSet.{
  BitSet, Checked, done, out_of_bounds, new_bit_set, at_word, is_set, toggle,
}

-- There is a word for each position below the size.
abbrev pub Covers : BitSet → Type 0
Covers bs = length bs.bits ≡ (bs.size + 63) / 64

-- A new set is covered and empty at every position.
pub new_bit_set_lem :
    (n p : ℕ) → p < n → Covers (new_bit_set n) × (is_set p (new_bit_set n) ≡ done false)
unfolding new_bit_set is_set
new_bit_set_lem n p h = (
  length-replicate ((n + 63) / 64) 0,
  ground (arith, get_or-replicate {A = ℕ} ((n + 63) / 64) (p / 64) 0, bit_zero-and (2 ^ (p % 64))),
)

-- The word of a position, and what a write leaves in the words.
abbrev word_at : BitSet → ℕ → ℕ
word_at bs p = get_or bs.bits (p / 64) 0

abbrev written : (ℕ → ℕ → ℕ) → ℕ → BitSet → BitSet
written f p bs = record bs { bits = set_elem bs.bits (p / 64) (f (word_at bs p) (2 ^ (p % 64))) }

at_word_done :
    (f : ℕ → ℕ → ℕ) (p : ℕ) (bs : BitSet) → p < bs.size → at_word f p bs ≡ done (written f p bs)
at_word_done f p bs h = ground arith

written_same :
    (f : ℕ → ℕ → ℕ) (p q : ℕ) (bs : BitSet)
    → Covers bs
    → p < bs.size
    → p / 64 ≡ q / 64
    → word_at (written f p bs) q ≡ f (word_at bs q) (2 ^ (p % 64))
written_same f p q bs c h e =
    rw (← e) (get_or-set_self bs.bits (p / 64) (f (word_at bs p) (2 ^ (p % 64))) 0 (omega arith))

written_apart :
    (f : ℕ → ℕ → ℕ) (p q : ℕ) (bs : BitSet)
    → p / 64 ≢ q / 64
    → word_at (written f p bs) q ≡ word_at bs q
written_apart f p q bs e =
    get_or-set_ne bs.bits (p / 64) (q / 64) (f (word_at bs p) (2 ^ (p % 64))) 0 e

-- The bit at `q` of the word of `q`.
abbrev mask_at : BitSet → ℕ → ℕ
mask_at bs q = bit_and (word_at bs q) (2 ^ (q % 64))

-- An operation on one bit leaves the masks of the other positions.
written_other :
    (f : ℕ → ℕ → ℕ) (p q : ℕ) (bs : BitSet)
    → Covers bs
    → p < bs.size
    → ((a k j : ℕ) → j ≢ k → bit_and (f a (2 ^ k)) (2 ^ j) ≡ bit_and a (2 ^ j))
    → p ≢ q
    → mask_at (written f p bs) q ≡ mask_at bs q
written_other f p q bs c h other ne = elim (ℕ_discrete (p / 64) (q / 64)) [
  | yes e ↦
      ap (λ w. bit_and w (2 ^ (q % 64))) (written_same f p q bs c h e)
      ∙ other (word_at bs q) (p % 64) (q % 64) (λ r. ne (omega arith))
  | no n ↦ ap (λ w. bit_and w (2 ^ (q % 64))) (written_apart f p q bs n)
]

-- `Set` at a position below the size succeeds on a set with a word for every position; then the
-- bit of the position is set, those of all others are as before, the size stays, and every
-- position keeps its word.
pub set_lem :
    (bs : BitSet) (p : ℕ)
    → Covers bs
    → p < bs.size
    → (bs' : BitSet) × (BitSet.set p bs ≡ done bs')
      × Covers bs'
      × (bs'.size ≡ bs.size)
      × ((q : ℕ) → is_set q bs' ≡ (if p == q then done true else is_set q bs))
unfolding BitSet.set is_set
set_lem bs p c h = (
  written bit_or p bs,
  at_word_done bit_or p bs h,
  length-set bs.bits (p / 64) (bit_or (word_at bs p) (2 ^ (p % 64))) ∙ c,
  refl,
  λ q. elim (ℕ_discrete p q) [
    | yes e ↦ ground (
      arith,
      e,
      or_self (word_at bs p) (p % 64),
      one-le-pow (p % 64) 2 (omega arith),
      ap (λ w. bit_and w (2 ^ (p % 64))) (written_same bit_or p p bs c h refl),
    )
    | no n ↦ ground (arith, written_other bit_or p q bs c h or_other n)
  ],
)

-- The other answer.
abbrev pub flipped : Checked Bool → Checked Bool
flipped (done b) = done (not b)
flipped out_of_bounds = out_of_bounds

-- `Toggle` at a position below the size succeeds on a set with a word for every position; then
-- the bit of the position is flipped, those of all others are as before, and every position keeps
-- its word.
toggle_lem :
    (bs : BitSet) (p : ℕ)
    → Covers bs
    → p < bs.size
    → (bs' : BitSet) × (toggle p bs ≡ done bs')
      × Covers bs'
      × ((q : ℕ) → is_set q bs' ≡ (if p == q then flipped (is_set q bs) else is_set q bs))
unfolding toggle is_set
toggle_lem bs p c h = (
  written bit_xor p bs,
  at_word_done bit_xor p bs h,
  length-set bs.bits (p / 64) (bit_xor (word_at bs p) (2 ^ (p % 64))) ∙ c,
  λ q. elim (ℕ_discrete p q) [
    | yes e ↦ ground (
      arith,
      e,
      xor_self (word_at bs p) (p % 64),
      one-le-pow (p % 64) 2 (omega arith),
      single (word_at bs p) (p % 64),
      ap (λ w. bit_and w (2 ^ (p % 64))) (written_same bit_xor p p bs c h refl),
    )
    | no n ↦ ground (arith, written_other bit_xor p q bs c h xor_other n)
  ],
)
