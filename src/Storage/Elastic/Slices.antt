-- ===== src/Storage/Elastic/Slices.antt =====
-- Lemmas on slices of lists, for the loops that page.
use photon.Base.{
  ℕ, zero, suc, ◌+◌, ◌-◌, ◌≤◌, ◌≡◌, refl, ap, sym, min, List, [], ◌∷◌, ◌++◌, some, length,
  get_elem?, arith,
}
use photon.Storage.Elastic.{take, drop, last_of}

module _ {D : Type 0} where
  pub last-take :
      (docs : List D) (n : ℕ)
      → suc n ≤ length docs
      → (d : D) × (last_of (take (suc n) docs) ≡ some d) × (get_elem? docs n ≡ some d)
  last-take [] n h = absurd (omega arith)
  last-take (d ∷ docs) zero h = (d, refl, refl)
  last-take (d ∷ []) (suc n) h = absurd (omega arith)
  last-take (d ∷ e ∷ docs) (suc n) h = last-take (e ∷ docs) n (omega arith)

  pub get_elem?-drop :
      (docs : List D) (p n k : ℕ) → k ≡ p + n → get_elem? (drop p docs) n ≡ get_elem? docs k
  get_elem?-drop docs zero n k e = ap (get_elem? docs) (omega arith)
  get_elem?-drop [] (suc p) n k e = refl
  get_elem?-drop (d ∷ docs) (suc p) n zero e = absurd (omega arith)
  get_elem?-drop (d ∷ docs) (suc p) n (suc k) e = get_elem?-drop docs p n k (omega arith)

  pub length-drop : (docs : List D) (p : ℕ) → length (drop p docs) ≡ length docs - p
  length-drop docs zero = omega arith
  length-drop [] (suc p) = omega arith
  length-drop (d ∷ docs) (suc p) = omega (arith, length-drop docs p)

  pub length-take : (docs : List D) (n : ℕ) → length (take n docs) ≡ min n (length docs)
  length-take docs zero = omega arith
  length-take [] (suc n) = omega arith
  length-take (d ∷ docs) (suc n) = omega (arith, length-take docs n)

  pub take_all : (docs : List D) (n : ℕ) → length docs ≤ n → take n docs ≡ docs
  take_all [] zero h = refl
  take_all [] (suc n) h = refl
  take_all (d ∷ docs) zero h = absurd (omega arith)
  take_all (d ∷ docs) (suc n) h = ap (λ l. d ∷ l) (take_all docs n (omega arith))

  pub drop_all : (docs : List D) (n : ℕ) → length docs ≤ n → drop n docs ≡ []
  drop_all [] zero h = refl
  drop_all [] (suc n) h = refl
  drop_all (d ∷ docs) zero h = absurd (omega arith)
  drop_all (d ∷ docs) (suc n) h = drop_all docs n (omega arith)

  pub drop-drop : (docs : List D) (m n k : ℕ) → k ≡ m + n → drop m (drop n docs) ≡ drop k docs
  drop-drop docs m zero k e = ap (λ i. drop i docs) (omega arith)
  drop-drop [] zero (suc n) k e = sym (drop_all [] k (omega arith))
  drop-drop [] (suc m) (suc n) k e = sym (drop_all [] k (omega arith))
  drop-drop (d ∷ docs) m (suc n) zero e = absurd (omega arith)
  drop-drop (d ∷ docs) m (suc n) (suc k) e = drop-drop docs m n k (omega arith)

  -- Two pages in a row are one page.
  pub take-split :
      (docs : List D) (m n k : ℕ) → k ≡ m + n → take k docs ≡ take m docs ++ take n (drop m docs)
  take-split docs zero n k e = ap (λ i. take i docs) (omega arith)
  take-split docs (suc m) n zero e = absurd (omega arith)
  take-split [] (suc m) zero (suc k) e = refl
  take-split [] (suc m) (suc n) (suc k) e = refl
  take-split (d ∷ docs) (suc m) n (suc k) e = ap (λ l. d ∷ l) (take-split docs m n k (omega arith))

  pub drop-append : (xs ys : List D) (n : ℕ) → n ≤ length xs → drop n (xs ++ ys) ≡ drop n xs ++ ys
  drop-append xs ys zero h = refl
  drop-append [] ys (suc n) h = absurd (omega arith)
  drop-append (x ∷ xs) ys (suc n) h = drop-append xs ys n (omega arith)

  pub drop-take :
      (docs : List D) (m n k : ℕ) → k ≡ m + n → drop m (take k docs) ≡ take n (drop m docs)
  drop-take docs zero n k e = ap (λ i. take i docs) (omega arith)
  drop-take [] (suc m) zero zero e = refl
  drop-take [] (suc m) zero (suc k) e = refl
  drop-take [] (suc m) (suc n) zero e = refl
  drop-take [] (suc m) (suc n) (suc k) e = refl
  drop-take (d ∷ docs) (suc m) n zero e = absurd (omega arith)
  drop-take (d ∷ docs) (suc m) n (suc k) e = drop-take docs m n k (omega arith)

  pub take-append-drop : (docs : List D) (n : ℕ) → take n docs ++ drop n docs ≡ docs
  take-append-drop docs zero = refl
  take-append-drop [] (suc n) = refl
  take-append-drop (d ∷ docs) (suc n) = ap (λ l. d ∷ l) (take-append-drop docs n)
