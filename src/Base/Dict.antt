-- ===== src/Base/Dict.antt =====
-- Go maps, as association lists over keys with decidable equality.
-- A missing key reads as `none`; `del` of a missing key changes nothing.
use photon.Base.{ℕ, ◌+◌, ◌≡◌, refl, ite, Option, none, some, List, [], ◌∷◌, arith, if_pos, if_neg}

abbrev pub Dict {ℓ} : Type ℓ → Type ℓ → Type ℓ
Dict K V = List (K × V)

module _ {ℓ} {K V : Type ℓ} (dec : Discrete K) where
  unfoldable pub get : K → Dict K V → Option V
  get k [] = none
  get k ((j, v) ∷ m) = ite (dec j k) (some v) (get k m)

  unfoldable pub put : K → V → Dict K V → Dict K V
  put k v [] = (k, v) ∷ []
  put k v ((j, w) ∷ m) = ite (dec j k) ((k, v) ∷ m) ((j, w) ∷ put k v m)

  unfoldable pub del : K → Dict K V → Dict K V
  del k [] = []
  del k ((j, w) ∷ m) = ite (dec j k) (del k m) ((j, w) ∷ del k m)

  pub get-put :
      (k q : K) (v : V) (m : Dict K V) → get q (put k v m) ≡ ite (dec k q) (some v) (get q m)
  unfolding get put
  get-put k q v [] = refl
  get-put k q v ((j, w) ∷ m) = ground (arith, get-put k q v m)

  pub get-del : (k q : K) (m : Dict K V) → get q (del k m) ≡ ite (dec k q) none (get q m)
  unfolding get del
  get-del k q [] = ground arith
  get-del k q ((j, w) ∷ m) = ground (arith, get-del k q m)

  -- Each key stands once, as in a Go map.
  abbrev pub Distinct : Dict K V → Type ℓ
  Distinct [] = Unit
  Distinct ((k, v) ∷ m) = (get k m ≡ none) × Distinct m

  pub put-Distinct : (k : K) (v : V) (m : Dict K V) → Distinct m → Distinct (put k v m)
  unfolding put
  put-Distinct k v [] d = (unfold get in refl, tt)
  put-Distinct k v ((j, w) ∷ m) d = elim (dec j k) [
    | yes e ↦ rw (if_pos _ e) (rw (← e) d.0, d.1)
    | no n ↦ rw (if_neg _ n) (rw (get-put k j v m) (ground (arith)), put-Distinct k v m d.1)
  ]

  pub del-Distinct : (k : K) (m : Dict K V) → Distinct m → Distinct (del k m)
  unfolding del
  del-Distinct k [] d = tt
  del-Distinct k ((j, w) ∷ m) d = elim (dec j k) [
    | yes e ↦ rw (if_pos _ e) (del-Distinct k m d.1)
    | no n ↦ rw (if_neg _ n) (rw (get-del k j m) (ground arith), del-Distinct k m d.1)
  ]

  -- Deleting a missing key changes nothing.
  pub del_absent : (k : K) (m : Dict K V) → get k m ≡ none → del k m ≡ m
  unfolding get del
  del_absent k [] h = refl
  del_absent k ((j, w) ∷ m) h = ground (arith, del_absent k m)

  -- The sum of a measure over the values.
  module _ (size : V → ℕ) where
    unfoldable pub total : Dict K V → ℕ
    total [] = 0
    total ((k, v) ∷ m) = size v + total m

    pub total-put_new :
        (k : K) (v : V) (m : Dict K V) → get k m ≡ none → total (put k v m) ≡ total m + size v
    unfolding get put total
    total-put_new k v [] h = omega arith
    total-put_new k v ((j, w) ∷ m) h = ground (arith, total-put_new k v m)

    pub total-put_old :
        (k : K) (v w : V) (m : Dict K V)
        → get k m ≡ some w
        → total (put k v m) + size w ≡ total m + size v
    unfolding get put total
    total-put_old k v w [] h = ground arith
    total-put_old k v w ((j, u) ∷ m) h = ground (arith, total-put_old k v w m)

    pub total-del :
        (k : K) (w : V) (m : Dict K V)
        → Distinct m
        → get k m ≡ some w
        → total (del k m) + size w ≡ total m
    unfolding get del total
    total-del k w [] d h = ground arith
    total-del k w ((j, u) ∷ m) d h = elim (dec j k) [
      | yes e ↦ ground (arith, del_absent k m (rw (← e) d.0))
      | no n ↦ ground (arith, total-del k w m d.1)
    ]
