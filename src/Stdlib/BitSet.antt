-- ===== src/Stdlib/BitSet.antt =====
-- utils/stdlib/bitset.go: a set of bits in words of 64. A word is a number below 2^64; the machine's
-- `1 << bit`, `|`, `&` and `^` are the native operations on it.
pub mod Laws
use Prim.Native.Nat.{bit_and, bit_or, bit_xor}
use photon.Base.{
  Bool, true, false, ℕ, zero, suc, ◌+◌, ◌-◌, ◌*◌, ◌/◌, ◌%◌, ◌^◌, List, [], ◌∷◌, ◌==◌, not, leb, ltb,
  ◌&&◌, if◌then◌else◌, set as set_elem, get_or, length, replicate,
}

pub record BitSet : Type 0 where
  pub bits : List ℕ
  pub size : ℕ

-- A result, or `position out of bounds`, the only error.
pub data Checked (A : Type 0) : Type 0 where
  done : A → Checked A
  out_of_bounds : Checked A

unfoldable pub new_bit_set : ℕ → BitSet
new_bit_set size = record { bits = replicate ((size + 63) / 64) 0; size = size }

-- The write that `Set`, `Clear` and `Toggle` share: the word of a position, under their guard.
abbrev pub at_word : (ℕ → ℕ → ℕ) → ℕ → BitSet → Checked BitSet
at_word f p bs =
    if leb bs.size p
    then out_of_bounds
    else done (record bs {
      bits = set_elem bs.bits (p / 64) (f (get_or bs.bits (p / 64) 0) (2 ^ (p % 64)));
    })

unfoldable pub set : ℕ → BitSet → Checked BitSet
set p bs = at_word bit_or p bs

-- `&^=` keeps the bits of the word that are not in the mask.
unfoldable pub clear : ℕ → BitSet → Checked BitSet
clear p bs = at_word (λ w m. bit_and w (18_446_744_073_709_551_615 - m)) p bs

unfoldable pub toggle : ℕ → BitSet → Checked BitSet
toggle p bs = at_word bit_xor p bs

unfoldable pub clear_all : BitSet → BitSet
clear_all bs = record bs { bits = replicate (length bs.bits) 0 }

unfoldable pub is_set : ℕ → BitSet → Checked Bool
is_set p bs =
    if leb bs.size p
    then out_of_bounds
    else done (not (bit_and (get_or bs.bits (p / 64) 0) (2 ^ (p % 64)) == 0))

unfoldable pub get_size : BitSet → ℕ
get_size bs = bs.size

-- Kernighan's loop, on fuel: a word of 64 bits is cleared in at most 64 rounds.
unfoldable pub pop_count : ℕ → ℕ → ℕ
pop_count zero x = 0
pop_count (suc n) x = let rest = pop_count n (bit_and x (x - 1)) in if x == 0 then 0 else suc rest

unfoldable pub count_set_bits : List ℕ → ℕ
count_set_bits [] = 0
count_set_bits (w ∷ ws) = pop_count 64 w + count_set_bits ws

-- The loop of `AllSet` from word `i` on.
unfoldable pub all_set_from : ℕ → ℕ → List ℕ → Bool
all_set_from size i [] = true
all_set_from size i (w ∷ ws) =
    let rest = all_set_from size (suc i) ws in
    if not (w == 18_446_744_073_709_551_615) && ltb (i * 64) size then false else rest

unfoldable pub all_set : BitSet → Bool
all_set bs = all_set_from bs.size 0 bs.bits

unfoldable pub any_word : List ℕ → Bool
any_word [] = false
any_word (w ∷ ws) = let rest = any_word ws in if not (w == 0) then true else rest

unfoldable pub any_set : BitSet → Bool
any_set bs = any_word bs.bits

unfoldable pub no_word : List ℕ → Bool
no_word [] = true
no_word (w ∷ ws) = let rest = no_word ws in if not (w == 0) then false else rest

unfoldable pub none_set : BitSet → Bool
none_set bs = no_word bs.bits
