-- ===== src/Features/Conditions.antt =====
-- core/features/evaluation.go: the conditions of a feature's rules. Go panics when == meets two values
-- of one type that cannot be compared; a panic is `none`.
use photon.Base.{
  Bool, true, false, not, ◌&&◌, Option, none, some, List, [], ◌∷◌, String, string_discrete, ite,
  if◌then◌else◌, ◌==◌,
}
use photon.Base.Dict
use photon.Base.Int.{ℤ, pos, negsuc}
use photon.Features.{
  Floats, Value, nothing, truth, int, int64, float, text, other, opaque, list, Values, end, cons,
  Context, Condition,
}

abbrev eq_bool : Bool → Bool → Bool
eq_bool true b = b
eq_bool false b = not b

abbrev eq_ℤ : ℤ → ℤ → Bool
eq_ℤ (pos a) (pos b) = a == b
eq_ℤ (negsuc a) (negsuc b) = a == b
eq_ℤ _ _ = false

abbrev pub eq_string : String → String → Bool
eq_string a b = ite (string_discrete a b) true false

abbrev pub negated : Option Bool → Option Bool
negated none = none
negated (some b) = some (not b)

-- `ruleCtx[key]`: nil for a key that is not there.
abbrev pub lookup : {F : Type 0} → Context F → String → Value F
lookup ctx k = elim (Dict.get string_discrete k ctx) [ none ↦ nothing | some v ↦ v ]

module _ {F : Type 0} (fs : Floats F) where
  -- `==` of two interfaces: the dynamic types, then the values.
  unfoldable pub equal : Value F → Value F → Option Bool
  equal nothing nothing = some true
  equal (truth a) (truth b) = some (eq_bool a b)
  equal (int a) (int b) = some (eq_ℤ a b)
  equal (int64 a) (int64 b) = some (eq_ℤ a b)
  equal (float a) (float b) = some (fs.same a b)
  equal (text a) (text b) = some (eq_string a b)
  equal (other t a) (other u b) = some ((t == u) && (a == b))
  equal (opaque t) (opaque u) = if t == u then none else some false
  equal (list a) (list b) = none
  equal _ _ = some false

  -- `toFloat64`
  unfoldable pub to_float64 : Value F → Option F
  to_float64 (int n) = some (fs.of_int n)
  to_float64 (int64 n) = some (fs.of_int n)
  to_float64 (float x) = some x
  to_float64 _ = none

  -- `compareFloats`
  unfoldable pub compare_floats : Value F → Value F → F
  compare_floats a b = elim (to_float64 a) [
    | none ↦ fs.of_int (pos 0)
    | some x ↦ elim (to_float64 b) [ none ↦ fs.of_int (pos 0) | some y ↦ fs.sub x y ]
  ]

  -- The loops over a list of values: whether an item equals the value.
  unfoldable pub among : Value F → Values F → Option Bool
  among v end = some false
  among v (cons x xs) = elim (equal x v) [
    | none ↦ none
    | some true ↦ some true
    | some false ↦ among v xs
  ]

  unfoldable pub is_in : Value F → Value F → Option Bool
  is_in v (list xs) = among v xs
  is_in v _ = some false

  unfoldable pub is_not_in : Value F → Value F → Option Bool
  is_not_in v (list xs) = negated (among v xs)
  is_not_in v _ = some false

  -- `matchCondition`
  unfoldable pub match_condition : Condition F → Value F → Option Bool
  match_condition c v =
      let zero = fs.of_int (pos 0) in
      let difference = compare_floats v c.value in
      ite (string_discrete c.operator "EQUALS") (equal v c.value) (
        ite (string_discrete c.operator "NOT_EQUALS") (negated (equal v c.value)) (
          ite (string_discrete c.operator "IN") (is_in v c.value) (
            ite (string_discrete c.operator "NOT_IN") (is_not_in v c.value) (
              ite (string_discrete c.operator "GREATER_THAN") (some (fs.less zero difference)) (
                ite (string_discrete c.operator "LESS_THAN") (some (fs.less difference zero)) (
                  ite (string_discrete c.operator "GREATER_THAN_OR_EQUAL")
                    (some (fs.at_most zero difference))
                    (ite (string_discrete c.operator "LESS_THAN_OR_EQUAL")
                      (some (fs.at_most difference zero)) (some false))))))))

  -- The loop of OR.
  unfoldable pub any_match : List (Condition F) → Context F → Option Bool
  any_match [] ctx = some false
  any_match (c ∷ cs) ctx = elim (match_condition c (lookup ctx c.key)) [
    | none ↦ none
    | some true ↦ some true
    | some false ↦ any_match cs ctx
  ]

  -- The loop of AND.
  unfoldable pub all_match : List (Condition F) → Context F → Option Bool
  all_match [] ctx = some true
  all_match (c ∷ cs) ctx = elim (match_condition c (lookup ctx c.key)) [
    | none ↦ none
    | some true ↦ all_match cs ctx
    | some false ↦ some false
  ]

  -- `evaluateConditions`
  unfoldable pub evaluate_conditions :
      (String → String) → List (Condition F) → String → Context F → Option Bool
  evaluate_conditions upper conditions conjunction ctx =
      ite (string_discrete (upper conjunction) "OR") (any_match conditions ctx)
        (ite (string_discrete (upper conjunction) "AND") (all_match conditions ctx) (some false))
