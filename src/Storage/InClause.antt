-- ===== src/Storage/InClause.antt =====
-- GetParameterizedInClause, which storage/postgres/pghelper.go and storage/mysql/helper.go share.
use photon.Base.{
  ℕ, zero, suc, ◌+◌, ◌*◌, ◌-◌, ◌/◌, ◌%◌, ◌<◌, ◌≡◌, ◌≢◌, refl, ap, sym, ◌∙◌, Bool-cases, ◌==◌, ltb,
  if◌then◌else◌, List, [], ◌∷◌, ◌++◌, some, arith, get_elem?, inl, inr, if_pos, if_neg,
}
use mathlib.Core.List.{append_assoc, append-nil, append_cancel_left, tail-eq_of_cons-eq, cons≢nil}
use photon.Base.Dict.{Dict, get, put, get-put}
use photon.Storage.Text.{Text, codes, join, itoa, digits_of, text_discrete}

abbrev pub key_at : Text → ℕ → Text
key_at column index = codes ":" ++ (column ++ itoa (index + 1))

-- `strings.TrimSuffix` of one character
unfoldable pub trim_last : ℕ → Text → Text
trim_last d [] = []
trim_last d (c ∷ []) = if c == d then [] else c ∷ []
trim_last d (c ∷ e ∷ s) = c ∷ trim_last d (e ∷ s)

module _ {V : Type 0} where
  -- The builder and the map after the loop from an index on
  unfoldable pub in_clause_from : Text → ℕ → List V → Text × Dict Text V → Text × Dict Text V
  in_clause_from column i [] acc = acc
  in_clause_from column i (v ∷ vs) (b, params) =
      in_clause_from column (suc i) vs
        (b ++ (key_at column i ++ codes ","), put text_discrete (key_at column i) v params)

  unfoldable pub get_parameterized_in_clause : Text → List V → Text × Dict Text V
  get_parameterized_in_clause column values =
      let built : Text × Dict Text V = in_clause_from column 0 values ([], []) in
      (trim_last b',' built.0, built.1)

digits_value : ℕ → Text → ℕ
digits_value acc [] = acc
digits_value acc (c ∷ s) = digits_value (acc * 10 + (c - 48)) s

digits_value-append :
    (acc c : ℕ) (s : Text) → digits_value acc (s ++ c ∷ []) ≡ digits_value acc s * 10 + (c - 48)
unfolding digits_value
digits_value-append acc c [] = refl
digits_value-append acc c (d ∷ s) = digits_value-append (acc * 10 + (d - 48)) c s

digits_value-digits_of : (f n : ℕ) → n < f → digits_value 0 (digits_of f n) ≡ n
unfolding digits_of digits_value
digits_value-digits_of zero n h = absurd (omega arith)
digits_value-digits_of (suc f) n h = elim (Bool-cases (ltb n 10)) [
  | inl e ↦ rw e (omega arith)
  | inr e ↦
      rw (e, digits_value-append 0 (48 + n % 10) (digits_of f (n / 10)))
        (omega (arith, digits_value-digits_of f (n / 10) (ground arith)))
]

pub itoa-inj : (m n : ℕ) → itoa m ≡ itoa n → m ≡ n
unfolding itoa
itoa-inj m n e =
    sym (digits_value-digits_of (suc m) m (omega arith))
    ∙ (ap (digits_value 0) e ∙ digits_value-digits_of (suc n) n (omega arith))

key_at-inj : (column : Text) (i j : ℕ) → key_at column i ≡ key_at column j → i ≡ j
key_at-inj column i j e =
    omega (arith, itoa-inj (i + 1) (j + 1) (append_cancel_left column _ _ (tail-eq_of_cons-eq e)))

abbrev pub keys_from : {V : Type 0} → Text → ℕ → List V → List Text
keys_from column i [] = []
keys_from column i (v ∷ vs) = key_at column i ∷ keys_from column (suc i) vs

abbrev with_commas : List Text → Text
with_commas [] = []
with_commas (k ∷ ks) = (k ++ codes ",") ++ with_commas ks

trim_last-append : (d : ℕ) (s t : Text) → t ≢ [] → trim_last d (s ++ t) ≡ s ++ trim_last d t
unfolding trim_last
trim_last-append d [] t h = refl
trim_last-append d (c ∷ []) [] h = absurd (h refl)
trim_last-append d (c ∷ []) (e ∷ t) h = refl
trim_last-append d (c ∷ e ∷ s) t h = ap (λ x. c ∷ x) (trim_last-append d (e ∷ s) t h)

ne_nil_append : (s : Text) (c : ℕ) (t : Text) → (s ++ c ∷ []) ++ t ≢ []
ne_nil_append [] c t e = cons≢nil e
ne_nil_append (d ∷ s) c t e = cons≢nil e

trim_last-with_commas :
    (k : Text) (ks : List Text) → trim_last b',' (with_commas (k ∷ ks)) ≡ join (codes ",") (k ∷ ks)
unfolding join
trim_last-with_commas k [] =
    rw (append-nil (k ++ codes ","), trim_last-append b',' k (codes ",") (λ e. cons≢nil e))
      (unfold trim_last in append-nil k)
trim_last-with_commas k (q ∷ ks) =
    rw
      (
        trim_last-append b',' (k ++ codes ",") (with_commas (q ∷ ks))
            (ne_nil_append q b',' (with_commas ks)),
        trim_last-with_commas q ks,
      )
      (append_assoc k (codes ",") (join (codes ",") (q ∷ ks)))

module _ {V : Type 0} where
  in_clause_from-with_commas :
      (column : Text) (i : ℕ) (vs : List V) (b : Text) (m : Dict Text V)
      → (in_clause_from column i vs (b, m)).0 ≡ b ++ with_commas (keys_from column i vs)
  unfolding in_clause_from
  in_clause_from-with_commas column i [] b m = sym (append-nil b)
  in_clause_from-with_commas column i (v ∷ vs) b m =
      rw (in_clause_from-with_commas column (suc i) vs)
        (append_assoc b (key_at column i ++ codes ",") (with_commas (keys_from column (suc i) vs)))

  in_clause_from-before :
      (column : Text) (i j : ℕ) (vs : List V) (b : Text) (m : Dict Text V)
      → j < i
      → get text_discrete (key_at column j) (in_clause_from column i vs (b, m)).1
        ≡ get text_discrete (key_at column j) m
  unfolding in_clause_from
  in_clause_from-before column i j [] b m h = refl
  in_clause_from-before column i j (v ∷ vs) b m h =
      in_clause_from-before column (suc i) j vs _ _ (omega arith)
      ∙ (get-put text_discrete (key_at column i) (key_at column j) v m
          ∙ if_neg (text_discrete (key_at column i) (key_at column j))
              (λ e. absurd (omega (arith, key_at-inj column i j e))) _ _)

  in_clause_from-get :
      (column : Text) (i j k : ℕ) (vs : List V) (b : Text) (m : Dict Text V) {v : V}
      → k ≡ i + j
      → get_elem? vs j ≡ some v
      → get text_discrete (key_at column k) (in_clause_from column i vs (b, m)).1 ≡ some v
  unfolding in_clause_from
  in_clause_from-get column i j k [] b m e h = absurd (cc h)
  in_clause_from-get column i zero k (w ∷ vs) b m e h =
      let same : k ≡ i = omega arith in
      rw same (
        in_clause_from-before column (suc i) i vs _ _ (omega arith)
        ∙ (get-put text_discrete (key_at column i) (key_at column i) w m
            ∙ (if_pos (text_discrete (key_at column i) (key_at column i)) refl _ _ ∙ h)))
  in_clause_from-get column i (suc j) k (w ∷ vs) b m e h =
      in_clause_from-get column (suc i) j k vs _ _ (omega arith) h

  trimmed :
      (column : Text) (values : List V)
      → trim_last b',' (with_commas (keys_from column 0 values))
        ≡ join (codes ",") (keys_from column 0 values)
  trimmed column [] = unfold trim_last join in refl
  trimmed column (v ∷ values) = trim_last-with_commas (key_at column 0) (keys_from column 1 values)

  -- `GetParameterizedInClause` makes the keys of a colon, the column and a number from 1, one
  -- for each value, joined by commas, and the map has at each key the value at its place.
  pub get_parameterized_in_clause-keys_from :
      (column : Text) (values : List V)
      → ((get_parameterized_in_clause column values).0
          ≡ join (codes ",") (keys_from column 0 values))
        × ((j : ℕ) (v : V)
            → get_elem? values j ≡ some v
            → get text_discrete (key_at column j) (get_parameterized_in_clause column values).1
              ≡ some v)
  unfolding get_parameterized_in_clause
  get_parameterized_in_clause-keys_from column values = (
    rw (in_clause_from-with_commas column 0 values [] []) (trimmed column values),
    λ j v h. in_clause_from-get column 0 j j values [] [] (omega arith) h,
  )
