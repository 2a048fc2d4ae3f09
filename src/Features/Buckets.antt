-- ===== src/Features/Buckets.antt =====
-- core/features/evaluation.go and validator.go: the variant of a bucket key, for weights that
-- passed the validation.
use photon.Base.{
  ℕ, ◌<◌, ◌%◌, ◌≡◌, ◌≢◌, refl, true, false, Option, none, some, List, [], ◌∷◌, String,
  string_discrete, if_neg, arith, Bool-cases, inl, inr, get_elem?, suc,
}
use photon.Base.Int.{pos}
use photon.Features.{Floats, text, Feature, Variant}
use photon.Features.Evaluation.{pick, roll_of, select_variant}
use photon.Features.Validator.{weigh, validate_variants}

-- What the code relies on of float64: `at_most` is transitive, a quotient by 100 keeps the order of
-- numbers below 10000, and a number, not NaN, within a thousandth of 100 is at least 99.99.
pub record IsDouble {F : Type 0} (fs : Floats F) : Type 0 where
  pub trans : (a b c : F) → fs.at_most a b ≡ true → fs.at_most b c ≡ true → fs.at_most a c ≡ true
  pub quotient :
      (h : ℕ)
      → h < 10_000
      → fs.at_most
          (fs.div (fs.of_int (pos h)) (fs.of_int (pos 100)))
          (fs.div (fs.of_int (pos 9_999)) (fs.of_int (pos 100)))
        ≡ true
  pub near :
      (s : F)
      → fs.at_most s s ≡ true
      → fs.less
          (fs.div (fs.of_int (pos 1)) (fs.of_int (pos 1_000)))
          (fs.absolute (fs.sub s (fs.of_int (pos 100))))
        ≡ false
      → fs.at_most (fs.div (fs.of_int (pos 9_999)) (fs.of_int (pos 100))) s ≡ true

module _ {F : Type 0} (fs : Floats F) where
  abbrev Picked : F → F → List (Variant F) → Type 0
  Picked roll sum vs =
      (i : ℕ) × (x : Variant F) × (get_elem? vs i ≡ some x) × (pick fs roll sum vs ≡ some x.name)

  -- A roll within the sum of the weights picks a variant.
  pick_within :
      (roll sum : F) (v : Variant F) (vs : List (Variant F))
      → (weigh fs sum (v ∷ vs)).0 ≡ none
      → fs.at_most roll (weigh fs sum (v ∷ vs)).1 ≡ true
      → Picked roll sum (v ∷ vs)
  unfolding weigh pick
  pick_within roll sum v [] ok h = (0, v, refl, ground (arith, ok, h))
  pick_within roll sum v (w ∷ ws) ok h = elim (Bool-cases (fs.at_most roll (fs.add sum v.weight))) [
    | inl e ↦ (0, v, refl, ground (arith, e))
    | inr e ↦
        let (i, x, here, is) =
          pick_within roll (fs.add sum v.weight) w ws (ground (arith, ok))
            (ground (arith, ok, h)) in
        (suc i, x, here, ground (arith, e, is))
  ]

  -- What the validation of weights finds out.
  validated :
      (vs : List (Variant F))
      → validate_variants fs vs ≡ none
      → let (e, sum) = weigh fs (fs.of_int (pos 0)) vs in
        (e ≡ none)
        × (fs.less
              (fs.div (fs.of_int (pos 1)) (fs.of_int (pos 1_000)))
              (fs.absolute (fs.sub sum (fs.of_int (pos 100))))
            ≡ false)
  unfolding validate_variants
  validated vs ok = ground (arith, ok)

  roll_of_key :
      (sum64 : String → ℕ) (draw : Option ℕ) (bucket_key : String)
      → bucket_key ≢ ""
      → roll_of fs sum64 draw bucket_key
        ≡ fs.div (fs.of_int (pos (sum64 bucket_key % 10_000))) (fs.of_int (pos 100))
  unfolding roll_of
  roll_of_key sum64 draw bucket_key h = if_neg (string_discrete bucket_key "") h _ _

  -- A bucket key gets one of the variants of the feature, never the default, whatever the
  -- random source, when the weights passed the validation and their sum is a number; the floats
  -- keep the order of quotients as doubles do.
  pub bucket_gets_variant :
      (sum64 : String → ℕ) (draw : Option ℕ) (f : Feature F) (v : Variant F) (vs : List (Variant F))
      (bucket_key : String)
      → IsDouble fs
      → f.variants ≡ v ∷ vs
      → validate_variants fs (v ∷ vs) ≡ none
      → (let sum = (weigh fs (fs.of_int (pos 0)) (v ∷ vs)).1 in fs.at_most sum sum ≡ true)
      → bucket_key ≢ ""
      → (i : ℕ) × (x : Variant F) × (get_elem? f.variants i ≡ some x)
        × (select_variant fs sum64 draw f bucket_key ≡ text x.name)
  unfolding select_variant
  bucket_gets_variant sum64 draw f v vs bucket_key double is ok number h =
      let (fine, close) = validated (v ∷ vs) ok in
      let rolled = double.quotient (sum64 bucket_key % 10_000) (omega arith) in
      let enough = double.trans _ _ _ rolled (double.near _ number close) in
      let (i, x, here, picked) = pick_within _ (fs.of_int (pos 0)) v vs fine enough in
      (i, x, rw is here, ground (arith, is, roll_of_key sum64 draw bucket_key h, picked))
