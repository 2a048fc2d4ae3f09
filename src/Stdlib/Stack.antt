-- ===== src/Stdlib/Stack.antt =====
-- utils/stdlib/stack.go: the stack, whose zero value is a parameter.
use photon.Base.{ℕ, ◌≡◌, refl, ap, Bool, true, false, List, [], ◌∷◌, ◌++◌, if◌then◌else◌, length}

-- The elements, the bottom first.
pub record Array (A : Type 0) : Type 0 where
  pub elements : List A

module _ {A : Type 0} where
  -- `NewStack`
  abbrev pub new_stack : Array A
  new_stack = record { elements = [] }

  -- `Push`
  unfoldable pub push : A → Array A → Array A
  push a s = record { elements = s.elements ++ (a ∷ []) }

  -- `Length`
  abbrev pub len : Array A → ℕ
  len s = length s.elements

  -- `IsEmpty`
  abbrev pub is_empty : Array A → Bool
  is_empty s = elim s.elements [ [] ↦ true | x ∷ xs ↦ false ]

  -- The element at the last index.
  unfoldable pub last : A → List A → A
  last z [] = z
  last z (x ∷ xs) = last x xs

  -- The slice up to the last index.
  unfoldable pub front : List A → List A
  front [] = []
  front (x ∷ xs) = let rest = front xs in elim xs [ [] ↦ [] | y ∷ ys ↦ x ∷ rest ]

  -- `Peek`
  unfoldable pub peek : A → Array A → A
  peek zero_value s = last zero_value s.elements

  -- `Pop`
  unfoldable pub pop : A → Array A → Array A × A
  pop zero_value s =
      if is_empty s
      then (s, zero_value)
      else (record { elements = front s.elements }, last zero_value s.elements)

  last-append : (z a : A) (xs : List A) → last z (xs ++ (a ∷ [])) ≡ a
  unfolding last
  last-append z a [] = refl
  last-append z a (x ∷ xs) = last-append x a xs

  front-append : (a : A) (xs : List A) → front (xs ++ (a ∷ [])) ≡ xs
  unfolding front
  front-append a [] = refl
  front-append a (x ∷ []) = refl
  front-append a (x ∷ y ∷ xs) = ap (λ l. x ∷ l) (front-append a (y ∷ xs))

  push_fills : (a : A) (s : Array A) → is_empty (push a s) ≡ false
  unfolding push
  push_fills a s = go s.elements
    where
      go :
          (xs : List A)
          → elim (xs ++ (a ∷ [])) as (λ _. Bool) [ [] ↦ true | x ∷ ys ↦ false ] ≡ false
      go [] = refl
      go (x ∷ xs) = refl

  -- What is pushed is on top, and comes off again.
  pop-push :
      (zero_value a : A) (s : Array A)
      → (pop zero_value (push a s) ≡ (s, a)) × (peek zero_value (push a s) ≡ a)
  unfolding pop peek
  pop-push zero_value a s = (
    rw (push_fills a s, pop)
        (unfold push in
          rw (front-append a s.elements) (rw (last-append zero_value a s.elements) refl)),
    unfold push in last-append zero_value a s.elements,
  )
