-- ===== src/Stdlib/LinkedList/Contents.antt =====
-- utils/stdlib/linkedlist.go: the methods as functions on the contents of the list.
use mathlib.Core.List.{append-nil, reverse-reverse, reverse_aux-eq}
use photon.Base.{
  ℕ, zero, suc, ◌+◌, ◌-◌, ◌<◌, ◌≡◌, refl, sym, ap, ◌∙◌, List, [], ◌∷◌, ◌++◌, none, some, length,
  length-append, reverse, arith,
}
use photon.Base.Int.{pos, ◌-ℤ◌}
use photon.Stdlib.LinkedList
use photon.Stdlib.LinkedList.{
  LinkedList, returned, add_last, add_at_end, cut_last, del_at_beg, del_at_end, cut_at, del_after,
  del_by_pos, reverse_onto, check_range_from_index, move_after, reverse_after, reverse_partition,
}

-- The counter is the number of nodes.
abbrev pub Counted : {A : Type 0} → LinkedList A → Type 0
Counted ll = length ll.head ≡ ll.length

-- The position before a positive one.
pred_pos : (n : ℕ) → pos (suc n) -ℤ pos 1 ≡ pos n
unfolding ◌-ℤ◌
pred_pos n = ground arith

-- The width of a range.
span_pos : (a b : ℕ) → pos (suc (a + b)) -ℤ pos (suc a) ≡ pos b
unfolding ◌-ℤ◌
span_pos a b = ground arith

module _ {A : Type 0} where
  add_last_lem : (v : A) (xs : List A) → add_last v xs ≡ xs ++ (v ∷ [])
  unfolding add_last
  add_last_lem v [] = refl
  add_last_lem v (x ∷ xs) = ap (◌∷◌ x) (add_last_lem v xs)

  cut_last-add_last :
      (v x : A) (xs : List A)
      → (y : A) × (ys : List A) × (add_last v xs ≡ y ∷ ys) × (cut_last x y ys ≡ (x ∷ xs, v))
  unfolding add_last cut_last
  cut_last-add_last v x [] = (v, [], refl, refl)
  cut_last-add_last v x (z ∷ zs) =
      let (y, ys, e, h) = cut_last-add_last v z zs in (z, add_last v zs, refl, rw e (rw h refl))

  end_round :
      (v : A) (xs : List A) (n : ℕ)
      → del_at_end (add_at_end v (record { head = xs; length = n }))
        ≡ (record { head = xs; length = n }, some v)
  unfolding del_at_end add_at_end del_at_beg add_last
  end_round v [] n = ground arith
  end_round v (x ∷ xs) n = let (y, ys, e, h) = cut_last-add_last v x xs in ground (arith, e, h)

  -- A value added at the end is the one that is deleted at the end, and the list is as before.
  pub del_at_end-add_at_end :
      (v : A) (ll : LinkedList A) → del_at_end (add_at_end v ll) ≡ (ll, some v)
  del_at_end-add_at_end v ll = end_round v ll.head ll.length

  cut_at_lem :
      (xs ys : List A) (v : A) → cut_at (length xs) (xs ++ (v ∷ ys)) ≡ returned (xs ++ ys, v)
  unfolding cut_at
  cut_at_lem [] ys v = refl
  cut_at_lem (x ∷ xs) ys v = rw (cut_at_lem xs ys v) refl

  -- `DelByPos` at a position from 1 to the length removes the node there, returns its value and
  -- keeps the counter exact; the counter was exact before.
  del_by_pos_lem :
      (xs ys : List A) (v : A) (n : ℕ)
      → n ≡ suc (length xs + length ys)
      → (ll : LinkedList A) × del_by_pos
            (pos (suc (length xs)))
            (record { head = xs ++ (v ∷ ys); length = n })
          ≡ returned (ll, some v)
        × (ll.head ≡ xs ++ ys)
        × Counted ll
  unfolding del_by_pos del_at_beg del_after
  del_by_pos_lem [] ys v n h =
      (record { head = ys; length = n - 1 }, ground (arith, pred_pos 0), refl, omega arith)
  del_by_pos_lem (x ∷ xs) ys v n h = (
    record { head = x ∷ xs ++ ys; length = n - 1 },
    ground (arith, pred_pos (suc (length xs)), cut_at_lem (x ∷ xs) ys v),
    refl,
    omega (arith, length-append xs ys),
  )

  -- One past the length it deletes the last node.
  pub del_by_pos_past :
      (x : A) (xs : List A)
      → let ll : LinkedList A = record { head = x ∷ xs; length = suc (length xs) } in
        del_by_pos (pos (suc (suc (length xs)))) ll ≡ returned (del_at_end ll)
  unfolding del_by_pos
  del_by_pos_past x xs = ground (arith, pred_pos (suc (length xs)))

  reverse_onto_cons :
      (xs : List A) (x : A) (prev : List A) → reverse xs ++ (x ∷ prev) ≡ reverse (x ∷ xs) ++ prev
  reverse_onto_cons xs x prev = sym (reverse_aux-eq xs (x ∷ prev)) ∙ reverse_aux-eq (x ∷ xs) prev

  reverse_onto_lem : (prev xs : List A) → reverse_onto prev xs ≡ reverse xs ++ prev
  unfolding reverse_onto
  reverse_onto_lem prev [] = refl
  reverse_onto_lem prev (x ∷ xs) = reverse_onto_lem (x ∷ prev) xs ∙ reverse_onto_cons xs x prev

  reverse_onto_nil : (xs : List A) → reverse_onto [] xs ≡ reverse xs
  reverse_onto_nil xs = reverse_onto_lem [] xs ∙ append-nil (reverse xs)

  -- `Reverse` reverses the contents, so that doing it twice changes nothing.
  pub reverse-reverse_list :
      (ll : LinkedList A)
      → ((LinkedList.reverse ll).head ≡ reverse ll.head)
        × (LinkedList.reverse (LinkedList.reverse ll) ≡ ll)
  unfolding LinkedList.reverse
  reverse-reverse_list ll = (
    reverse_onto_nil ll.head,
    ap (λ xs. record { head = xs; length = ll.length })
        (reverse_onto_nil (reverse_onto [] ll.head)
          ∙ ap reverse (reverse_onto_nil ll.head)
          ∙ reverse-reverse ll.head),
  )

  move_after_lem :
      (n : ℕ) (moved : List A) (cur : A) (ys zs : List A)
      → n ≡ length ys
      → move_after n moved cur (ys ++ zs) ≡ returned (reverse_onto moved ys ++ (cur ∷ zs))
  unfolding move_after reverse_onto
  move_after_lem zero moved cur [] zs h = refl
  move_after_lem zero moved cur (y ∷ ys) zs h = absurd (omega arith)
  move_after_lem (suc n) moved cur [] zs h = absurd (omega arith)
  move_after_lem (suc n) moved cur (y ∷ ys) zs h =
      move_after_lem n (y ∷ moved) cur ys zs (omega arith)

  reverse_after_lem :
      (xs ys zs : List A) (y : A)
      → reverse_after (length xs) (length ys) (xs ++ (y ∷ ys ++ zs))
        ≡ returned (xs ++ reverse_onto [] (y ∷ ys) ++ zs)
  unfolding reverse_after reverse_onto
  reverse_after_lem [] ys zs y =
      move_after_lem (length ys) [] y ys zs refl
      ∙ ap returned (
          ap (λ l. l ++ (y ∷ zs)) (reverse_onto_nil ys)
          ∙ reverse_onto_cons ys y zs
          ∙ ap (λ l. l ++ zs) (sym (reverse_onto_nil (y ∷ ys))))
  reverse_after_lem (x ∷ xs) ys zs y = rw (reverse_after_lem xs ys zs y) refl

  in_range :
      (a b : ℕ) (ll : LinkedList A)
      → a + b < ll.length
      → check_range_from_index (pos (suc a)) (pos (suc (a + b))) ll ≡ none
  unfolding check_range_from_index
  in_range a b ll h = ground arith

  -- `ReversePartition` of a range of positions of a list with an exact counter, the left end
  -- not above the right one, turns the nodes in it around and leaves those before and after.
  pub reverse_partition_lem :
      (xs ys zs : List A) (y : A) (n : ℕ)
      → n ≡ length (xs ++ (y ∷ ys ++ zs))
      → reverse_partition
          (pos (suc (length xs)))
          (pos (suc (length xs + length ys)))
          (record { head = xs ++ (y ∷ ys ++ zs); length = n })
        ≡ returned (record { head = xs ++ reverse (y ∷ ys) ++ zs; length = n }, none)
  unfolding reverse_partition
  reverse_partition_lem xs ys zs y n h =
      let ll : LinkedList A = record { head = xs ++ (y ∷ ys ++ zs); length = n } in
      ground (
        arith,
        in_range (length xs) (length ys) ll
            (omega (arith, length-append xs (y ∷ ys ++ zs), length-append ys zs)),
        pred_pos (length xs),
        span_pos (length xs) (length ys),
        reverse_after_lem xs ys zs y,
        reverse_onto_nil (y ∷ ys),
      )
