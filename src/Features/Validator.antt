-- ===== src/Features/Validator.antt =====
-- core/features/validator.go: the checks of the content of a configuration. `none` is a nil error. A
-- nil pointer to the attributes makes the source panic.
use photon.Base.{
  Bool, true, false, ◌&&◌, ◌||◌, not, Option, none, some, List, [], ◌∷◌, String, if◌then◌else◌,
}
use photon.Base.Int.{ℤ, pos, ltb_ℤ}
use photon.Features.{
  Floats, Value, nothing, list, Condition, Rules, Feature, Variant, Rollout, Schedule, Attributes,
}
use photon.Features.Conditions.{eq_string}
use photon.Features.Evaluation.{Parser, parse_time}

pub data Invalid : Type 0 where
  invalid_datatype invalid_start invalid_end start_after_end : Invalid
  negative_weight large_weight wrong_sum : Invalid
  empty_conjunction unknown_conjunction : Invalid
  empty_condition_key nil_condition_value unknown_operator array_expected : Invalid
  environment_not_allowed region_not_allowed platform_not_allowed percentage_out_of_range : Invalid
  nil_attributes : Invalid

-- `ExistsInList` of strings.
unfoldable pub exists_in_list : String → List String → Bool
exists_in_list s [] = false
exists_in_list s (x ∷ xs) = let rest = exists_in_list s xs in if eq_string s x then true else rest

abbrev pub valid_operators : List String
valid_operators =
    "EQUALS" ∷ "NOT_EQUALS" ∷ "GREATER_THAN" ∷ "LESS_THAN" ∷ "GREATER_THAN_OR_EQUAL"
    ∷ "LESS_THAN_OR_EQUAL" ∷ "IN" ∷ "NOT_IN" ∷ []

abbrev pub valid_conjunctions : List String
valid_conjunctions = "AND" ∷ "OR" ∷ []

abbrev pub valid_datatypes : List String
valid_datatypes = "STRING" ∷ "INTEGER" ∷ "FLOAT" ∷ "BOOLEAN" ∷ []

-- `validateDatatype`
unfoldable pub validate_datatype : (String → String) → String → Option Invalid
validate_datatype upper datatype =
    if exists_in_list (upper datatype) valid_datatypes then none else some invalid_datatype

-- Whether two times are there, the first after the second.
abbrev pub crossed : Option ℤ → Option ℤ → Bool
crossed (some a) (some b) = ltb_ℤ b a
crossed _ _ = false

-- `validateSchedule`; `parseTime` gives no time for an empty string.
unfoldable pub validate_schedule : Parser → Schedule → Option Invalid
validate_schedule parser sch = elim (parse_time parser sch.start) [
  | none ↦ some invalid_start
  | some start ↦ elim (parse_time parser sch.end) [
    | none ↦ some invalid_end
    | some end ↦ if crossed start end then some start_after_end else none
  ]
]

abbrev pub is_nil : {F : Type 0} → Value F → Bool
is_nil nothing = true
is_nil _ = false

abbrev pub is_list : {F : Type 0} → Value F → Bool
is_list (list _) = true
is_list _ = false

-- `validateConditions`
unfoldable pub validate_conditions : {F : Type 0} → List (Condition F) → Option Invalid
validate_conditions [] = none
validate_conditions (c ∷ cs) =
    let rest = validate_conditions cs in
    if eq_string c.key ""
    then some empty_condition_key
    else if is_nil c.value
    then some nil_condition_value
    else if not (exists_in_list c.operator valid_operators)
    then some unknown_operator
    else if (eq_string c.operator "IN" || eq_string c.operator "NOT_IN") && not (is_list c.value)
    then some array_expected
    else rest

-- `validateRules`
unfoldable pub validate_rules : {F : Type 0} → Rules F → Option Invalid
validate_rules r = elim r.conditions [
  | [] ↦
      if exists_in_list r.conjunction ("AND" ∷ "OR" ∷ "" ∷ [])
      then none
      else some unknown_conjunction
  | c ∷ cs ↦
      if eq_string r.conjunction ""
      then some empty_conjunction
      else if exists_in_list r.conjunction ("AND" ∷ "OR" ∷ "" ∷ [])
      then validate_conditions (c ∷ cs)
      else some unknown_conjunction
]

-- A name is one of those allowed, or the wildcard; all are when none is listed.
unfoldable pub allowed : String → List String → Bool
allowed name [] = true
allowed name (x ∷ xs) = exists_in_list name (x ∷ xs) || eq_string name "*"

abbrev pub or_else : Option Invalid → Option Invalid → Option Invalid
or_else (some e) other = some e
or_else none other = other

module _ {F : Type 0} (fs : Floats F) where
  -- The loop of `validateVariants`: an error, or the sum of the weights.
  unfoldable pub weigh : F → List (Variant F) → Option Invalid × F
  weigh sum [] = (none, sum)
  weigh sum (v ∷ vs) =
      let rest = weigh (fs.add sum v.weight) vs in
      if fs.less v.weight (fs.of_int (pos 0))
      then (some negative_weight, sum)
      else if fs.less (fs.of_int (pos 100)) v.weight
      then (some large_weight, sum)
      else rest

  -- `validateVariants`
  unfoldable pub validate_variants : List (Variant F) → Option Invalid
  validate_variants vs =
      let (e, sum) = weigh (fs.of_int (pos 0)) vs in
      elim e [
        | some x ↦ some x
        | none ↦
            if fs.less (fs.div (fs.of_int (pos 1)) (fs.of_int (pos 1_000)))
              (fs.absolute (fs.sub sum (fs.of_int (pos 100))))
            then some wrong_sum
            else none
      ]

  -- `validateRollout`, of attributes that are there.
  unfoldable pub validate_rollouts : Attributes → List (Rollout F) → Option Invalid
  validate_rollouts a [] = none
  validate_rollouts a (r ∷ rs) =
      let rest = validate_rollouts a rs in
      if not (allowed r.environment a.environments)
      then some environment_not_allowed
      else if not (allowed r.region a.regions)
      then some region_not_allowed
      else if not (allowed r.platform a.platforms)
      then some platform_not_allowed
      else if fs.less r.percentage (fs.of_int (pos 0)) || fs.less (fs.of_int (pos 100)) r.percentage
      then some percentage_out_of_range
      else rest

  -- The checks of one feature.
  unfoldable pub validate_feature :
      (String → String) → Parser → Option Attributes → Feature F → Option Invalid
  validate_feature upper parser attributes f = or_else (validate_datatype upper f.datatype) (
      or_else (elim f.schedule [ none ↦ none | some s ↦ validate_schedule parser s ])
        (or_else (elim f.variants [ [] ↦ none | v ∷ vs ↦ validate_variants (v ∷ vs) ])
          (or_else (elim f.rules [ none ↦ none | some r ↦ validate_rules r ])
            (elim f.rollouts [
              | [] ↦ none
              | r ∷ rs ↦ elim attributes [
                | none ↦ some nil_attributes
                | some a ↦ validate_rollouts a (r ∷ rs)
              ]
            ]))))

  -- `applyContentValidations`, over the features in the order of the walk.
  unfoldable pub apply_content_validations :
      (String → String) → Parser → Option Attributes → List (String × Feature F) → Option Invalid
  apply_content_validations upper parser attributes [] = none
  apply_content_validations upper parser attributes ((_, f) ∷ rest) =
      or_else (validate_feature upper parser attributes f)
        (apply_content_validations upper parser attributes rest)
