-- ===== src/Stdlib/LinkedList.antt =====
-- utils/stdlib/linkedlist.go: a singly linked list. The chain of nodes from `Head` is the list of
-- their values; `length` is the counter that the methods keep beside it. A method that returns
-- a value and false on failure returns `none` here; `panic` is a step from or to a nil node.
pub mod Contents
use photon.Base.{
  Bool, false, ℕ, zero, suc, ◌-◌, List, [], ◌∷◌, ◌++◌, ◌==◌, if◌then◌else◌, Option, none, some,
}
use photon.Base.Int.{ℤ, pos, negsuc, ◌-ℤ◌, ltb_ℤ}

pub record LinkedList (A : Type 0) : Type 0 where
  pub head : List A
  pub length : ℕ

-- The outcome of a method that may panic.
pub data Outcome (A : Type 0) : Type 0 where
  returned : A → Outcome A
  panic : Outcome A

-- The errors of `CheckRangeFromIndex`.
pub data RangeError : Type 0 where
  left_above_right : RangeError
  left_below_one : RangeError
  right_above_length : RangeError

-- Equality of two ints.
abbrev eq_int : ℤ → ℤ → Bool
eq_int (pos a) (pos b) = a == b
eq_int (negsuc a) (negsuc b) = a == b
eq_int _ _ = false

-- The loop `for count < pos-1` makes no step when `pos-1` is not above 0.
abbrev steps : ℤ → ℕ
steps (pos n) = n
steps (negsuc n) = 0

module _ {A : Type 0} where
  unfoldable pub new_linked_list : LinkedList A
  new_linked_list = record { head = []; length = 0 }

  unfoldable pub add_at_beg : A → LinkedList A → LinkedList A
  add_at_beg v ll = record { head = v ∷ ll.head; length = suc ll.length }

  -- The walk to the last node.
  unfoldable pub add_last : A → List A → List A
  add_last v [] = v ∷ []
  add_last v (x ∷ xs) = x ∷ add_last v xs

  unfoldable pub add_at_end : A → LinkedList A → LinkedList A
  add_at_end v ll = record { head = add_last v ll.head; length = suc ll.length }

  unfoldable pub del_at_beg : LinkedList A → LinkedList A × Option A
  del_at_beg ll = elim ll.head [
    | [] ↦ (ll, none)
    | x ∷ xs ↦ (record { head = xs; length = ll.length - 1 }, some x)
  ]

  -- The walk to the last node but one, from a node with a successor: what is left of the chain,
  -- and the value of its last node.
  unfoldable pub cut_last : A → A → List A → List A × A
  cut_last x y [] = (x ∷ [], y)
  cut_last x y (z ∷ zs) = let (rest, v) = cut_last y z zs in (x ∷ rest, v)

  unfoldable pub del_at_end : LinkedList A → LinkedList A × Option A
  unfolding del_at_beg
  del_at_end ll = elim ll.head [
    | [] ↦ (ll, none)
    | x ∷ rest ↦ elim rest [
      | [] ↦ del_at_beg ll
      | y ∷ ys ↦
          let (xs, v) = cut_last x y ys in (record { head = xs; length = ll.length - 1 }, some v)
    ]
  ]

  -- The walk of `DelByPos`: `n` steps from the head, with a previous node after the first of them.
  unfoldable pub cut_at : ℕ → List A → Outcome (List A × A)
  cut_at n [] = panic
  cut_at zero (x ∷ xs) = returned (xs, x)
  cut_at (suc n) (x ∷ xs) = elim (cut_at n xs) [
    | panic ↦ panic
    | returned (rest, v) ↦ returned (x ∷ rest, v)
  ]

  -- The end of `DelByPos`. Without a step there is no previous node, and the method panics.
  unfoldable pub del_after : ℕ → LinkedList A → Outcome (LinkedList A × Option A)
  del_after zero ll = panic
  del_after (suc n) ll = elim (cut_at (suc n) ll.head) [
    | panic ↦ panic
    | returned (xs, v) ↦ returned (record { head = xs; length = ll.length - 1 }, some v)
  ]

  unfoldable pub del_by_pos : ℤ → LinkedList A → Outcome (LinkedList A × Option A)
  del_by_pos p ll = elim ll.head [
    | [] ↦ returned (ll, none)
    | x ∷ xs ↦
        if ltb_ℤ (pos ll.length) (p -ℤ pos 1)
        then returned (ll, none)
        else if eq_int (p -ℤ pos 1) (pos 0)
        then returned (del_at_beg ll)
        else if eq_int (p -ℤ pos 1) (pos ll.length)
        then returned (del_at_end ll)
        else del_after (steps (p -ℤ pos 1)) ll
  ]

  -- The loop of `Reverse`, with the part that is turned already.
  unfoldable pub reverse_onto : List A → List A → List A
  reverse_onto prev [] = prev
  reverse_onto prev (x ∷ xs) = reverse_onto (x ∷ prev) xs

  unfoldable pub reverse : LinkedList A → LinkedList A
  reverse ll = record ll { head = reverse_onto [] ll.head }

  unfoldable pub check_range_from_index : ℤ → ℤ → LinkedList A → Option RangeError
  check_range_from_index left right ll =
      if ltb_ℤ right left
      then some left_above_right
      else if ltb_ℤ left (pos 1)
      then some left_below_one
      else if ltb_ℤ (pos ll.length) right
      then some right_above_length
      else none

  -- The second loop of `ReversePartition`: `n` times, the node after `cur` moves to just after
  -- `pre`. The nodes moved so far stand between the two.
  unfoldable pub move_after : ℕ → List A → A → List A → Outcome (List A)
  move_after zero moved cur rest = returned (moved ++ (cur ∷ rest))
  move_after (suc n) moved cur [] = panic
  move_after (suc n) moved cur (next ∷ rest) = move_after n (next ∷ moved) cur rest

  -- The first loop: `k` steps of `pre` from the dummy node before the head.
  unfoldable pub reverse_after : ℕ → ℕ → List A → Outcome (List A)
  reverse_after zero zero [] = returned []
  reverse_after zero (suc n) [] = panic
  reverse_after zero n (cur ∷ rest) = move_after n [] cur rest
  reverse_after (suc k) n [] = panic
  reverse_after (suc k) n (x ∷ xs) = elim (reverse_after k n xs) [
    | panic ↦ panic
    | returned ys ↦ returned (x ∷ ys)
  ]

  -- The list after it, and the error if there is one.
  unfoldable pub reverse_partition :
      ℤ → ℤ → LinkedList A → Outcome (LinkedList A × Option RangeError)
  reverse_partition left right ll = elim (check_range_from_index left right ll) [
    | some e ↦ returned (ll, some e)
    | none ↦ elim (reverse_after (steps (left -ℤ pos 1)) (steps (right -ℤ left)) ll.head) [
      | panic ↦ panic
      | returned xs ↦ returned (record ll { head = xs }, none)
    ]
  ]
