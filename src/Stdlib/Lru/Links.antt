-- ===== src/Stdlib/Lru/Links.antt =====
-- utils/stdlib/lru.go: the invariant that ties the index to the list, and what the pointer
-- operations do on a list that meets it.
use photon.Base.{ℕ, ◌<◌, ◌≤◌, ◌≡◌, refl, Option, none, some, List, [], ◌∷◌, arith, ite}
use photon.Stdlib.Lru.{Element, find_id, unlink, set_value, back}

module _ {K V : Type 0} (dec : Discrete K) where
  -- The element that holds a key.
  unfoldable pub find_key : K → List (Element K V) → Option (Element K V)
  find_key k [] = none
  find_key k (x ∷ xs) = ite (dec x.key k) (some x) (find_key k xs)

  -- The list without the key.
  unfoldable pub without : K → List (Element K V) → List (Element K V)
  without k [] = []
  without k (x ∷ xs) = ite (dec x.key k) xs (x ∷ without k xs)

  -- No two elements share a key or an address, and addresses are below the next one.
  abbrev pub Apart : ℕ → List (Element K V) → Type 0
  Apart n [] = Unit {0}
  Apart n (x ∷ xs) = (x.id < n) × (find_key x.key xs ≡ none) × (find_id x.id xs ≡ none) × Apart n xs

  -- A key leads to an element, and the element's address leads to it too.
  pub find_id-find_key :
      (n : ℕ) (k : K) (xs : List (Element K V)) (x : Element K V)
      → Apart n xs
      → find_key k xs ≡ some x
      → (find_id x.id xs ≡ some x) × (x.key ≡ k) × (unlink x.id xs ≡ without k xs)
  unfolding find_key find_id without unlink
  find_id-find_key n k [] x a h = ground arith
  find_id-find_key n k (y ∷ ys) x a h = ground (arith, find_id-find_key n k ys x a.3)

  pub find_key-without :
      (n : ℕ) (k q : K) (xs : List (Element K V))
      → Apart n xs
      → find_key q (without k xs) ≡ ite (dec k q) none (find_key q xs)
  unfolding find_key without
  find_key-without n k q [] a = ground arith
  find_key-without n k q (y ∷ ys) a = ground (arith, find_key-without n k q ys a.3)

  pub find_id-without :
      (k : K) (i : ℕ) (xs : List (Element K V))
      → find_id i xs ≡ none
      → find_id i (without k xs) ≡ none
  unfolding find_id without
  find_id-without k i [] h = refl
  find_id-without k i (y ∷ ys) h = ground (arith, find_id-without k i ys)

  pub without-Apart :
      (n : ℕ) (k : K) (xs : List (Element K V)) → Apart n xs → Apart n (without k xs)
  unfolding without
  without-Apart n k [] a = tt
  without-Apart n k (y ∷ ys) a = ground (
    arith,
    without-Apart n k ys a.3,
    find_key-without n k y.key ys a.3,
    find_id-without k y.id ys a.2,
  )

module _ {K V : Type 0} where
  pub find_id-set_value :
      (i : ℕ) (k : K) (v : V) (xs : List (Element K V)) (x : Element K V)
      → find_id i xs ≡ some x
      → find_id i (set_value i k v xs) ≡ some (record x { key = k; val = v })
  unfolding find_id set_value
  find_id-set_value i k v [] x h = ground arith
  find_id-set_value i k v (y ∷ ys) x h = ground (arith, find_id-set_value i k v ys x)

  pub unlink-set_value :
      (i : ℕ) (k : K) (v : V) (xs : List (Element K V))
      → unlink i (set_value i k v xs) ≡ unlink i xs
  unfolding unlink set_value
  unlink-set_value i k v [] = refl
  unlink-set_value i k v (y ∷ ys) = ground (arith, unlink-set_value i k v ys)

  -- An address that is still to be allocated is on no element.
  pub find_id_fresh :
      (dec : Discrete K) (i n : ℕ) (xs : List (Element K V))
      → Apart dec n xs
      → n ≤ i
      → find_id i xs ≡ none
  unfolding find_id
  find_id_fresh dec i n [] a h = refl
  find_id_fresh dec i n (y ∷ ys) a h = ground (arith, find_id_fresh dec i n ys a.3 h)

  pub Apart-mono :
      (dec : Discrete K) (n m : ℕ) (xs : List (Element K V))
      → n ≤ m
      → Apart dec n xs
      → Apart dec m xs
  Apart-mono dec n m [] h a = tt
  Apart-mono dec n m (y ∷ ys) h a = (omega arith, a.1, a.2, Apart-mono dec n m ys h a.3)

module _ {K V : Type 0} (dec : Discrete K) where
  pub find_key-id-lt :
      (n : ℕ) (k : K) (xs : List (Element K V)) (x : Element K V)
      → Apart dec n xs
      → find_key dec k xs ≡ some x
      → x.id < n
  unfolding find_key
  find_key-id-lt n k [] x a h = ground arith
  find_key-id-lt n k (y ∷ ys) x a h = ground (arith, find_key-id-lt n k ys x a.3)

  pub find_id-without_self :
      (n : ℕ) (k : K) (xs : List (Element K V)) (x : Element K V)
      → Apart dec n xs
      → find_key dec k xs ≡ some x
      → find_id x.id (without dec k xs) ≡ none
  unfolding find_key find_id without
  find_id-without_self n k [] x a h = ground arith
  find_id-without_self n k (y ∷ ys) x a h =
      ground (arith, find_id-without_self n k ys x a.3, find_id-find_key dec n k ys x a.3)

  -- The element at the back is found by its key.
  pub find_key-back :
      (n : ℕ) (xs : List (Element K V)) (x : Element K V)
      → Apart dec n xs
      → back xs ≡ some x
      → find_key dec x.key xs ≡ some x
  unfolding find_key back
  find_key-back n [] x a h = ground arith
  find_key-back n (y ∷ []) x a h = ground arith
  find_key-back n (y ∷ z ∷ zs) x a h = ground (arith, find_key-back n (z ∷ zs) x a.3 h)
