-- ===== src/Features/Evaluation.antt =====
-- core/features/evaluation.go: the gates of a feature and the choice of a variant. The clock, the
-- bytes of the system's random source (`none` when the read fails) and the hash of the bucket key
-- are arguments.
use photon.Base.{
  ℕ, ◌%◌, Bool, true, false, ◌&&◌, ◌||◌, not, Option, none, some, List, [], ◌∷◌, String,
  string_discrete, ite, if◌then◌else◌,
}
use photon.Base.Dict
use photon.Base.Dict.{Dict}
use photon.Base.Int.{ℤ, pos, ltb_ℤ}
use photon.Features.{
  Floats, Value, text, Feature, Variant, Rollout, Schedule, EvaluationOptions, FeatureConfig,
}
use photon.Features.Conditions.{eq_string, evaluate_conditions}

-- A time in nanoseconds, of the zone UTC, or an error, from a string that is not empty.
abbrev pub Parser : Type 0
Parser = String → Option ℤ

-- `parseTime`: an error, or a time that may be nil.
unfoldable pub parse_time : Parser → String → Option (Option ℤ)
parse_time parser s =
    ite (string_discrete s "") (some none)
      (elim (parser s) [ none ↦ none | some t ↦ some (some t) ])

abbrev pub before_start : ℤ → Option ℤ → Bool
before_start now none = false
before_start now (some t) = ltb_ℤ now t

abbrev pub after_end : ℤ → Option ℤ → Bool
after_end now none = false
after_end now (some t) = ltb_ℤ t now

-- `isScheduleValid`
unfoldable pub is_schedule_valid : Parser → ℤ → Option Schedule → Bool
is_schedule_valid parser now none = true
is_schedule_valid parser now (some sch) = elim (parse_time parser sch.start) [
  | none ↦ false
  | some start ↦ elim (parse_time parser sch.end) [
    | none ↦ false
    | some end ↦ not (before_start now start || after_end now end)
  ]
]

-- What the code of other packages gives to an evaluation, and its two random draws.
pub record World : Type 0 where
  pub parser : Parser
  pub upper : String → String
  pub sum64 : String → ℕ
  pub now : ℤ
  pub rollout_draw : Option ℕ
  pub variant_draw : Option ℕ

pub data FeatureError : Type 0 where
  uninitialized unknown_feature panicked : FeatureError

pub data Evaluated (F : Type 0) : Type 0 where
  value : Value F → Evaluated F
  failed : FeatureError → Evaluated F

module _ {F : Type 0} (fs : Floats F) where
  -- `randomPercentage`, with `cryptoUint64ToFloat64`
  unfoldable pub random_percentage : Option ℕ → F
  random_percentage none = fs.of_int (pos 100)
  random_percentage (some n) =
      fs.mul (fs.div (fs.of_int (pos n)) (fs.of_int (pos 18_446_744_073_709_551_615)))
        (fs.of_int (pos 100))

  -- A rollout is for everything, or for the options' platform, environment and region.
  unfoldable pub covers : EvaluationOptions F → Rollout F → Bool
  covers o r =
      (eq_string o.platform r.platform || eq_string r.platform "*")
      && ((eq_string o.environment r.environment || eq_string r.environment "*")
          && (eq_string o.region r.region || eq_string r.region "*"))

  -- The loop of `isRolloutEligible`.
  unfoldable pub first_rollout : Option ℕ → EvaluationOptions F → List (Rollout F) → Bool
  first_rollout draw o [] = false
  first_rollout draw o (r ∷ rs) =
      let rest = first_rollout draw o rs in
      if covers o r then fs.at_most (random_percentage draw) r.percentage else rest

  -- `isRolloutEligible`
  unfoldable pub is_rollout_eligible : Option ℕ → EvaluationOptions F → List (Rollout F) → Bool
  is_rollout_eligible draw o [] = true
  is_rollout_eligible draw o (r ∷ rs) = first_rollout draw o (r ∷ rs)

  -- The roll of `selectVariant`.
  unfoldable pub roll_of : (String → ℕ) → Option ℕ → String → F
  roll_of sum64 draw bucket_key =
      ite (string_discrete bucket_key "") (random_percentage draw)
        (fs.div (fs.of_int (pos (sum64 bucket_key % 10_000))) (fs.of_int (pos 100)))

  -- The loop of `selectVariant`, with the sum of the weights before.
  unfoldable pub pick : F → F → List (Variant F) → Option String
  pick roll sum [] = none
  pick roll sum (v ∷ vs) =
      let sum' = fs.add sum v.weight in
      let rest = pick roll sum' vs in if fs.at_most roll sum' then some v.name else rest

  -- `selectVariant`
  unfoldable pub select_variant : (String → ℕ) → Option ℕ → Feature F → String → Value F
  select_variant sum64 draw f bucket_key =
      elim (pick (roll_of sum64 draw bucket_key) (fs.of_int (pos 0)) f.variants) [
        | none ↦ f.default_value
        | some name ↦ text name
      ]

  -- The answer of the rules: true without conditions.
  unfoldable pub rules_hold : (String → String) → Feature F → EvaluationOptions F → Option Bool
  rules_hold upper f o = elim f.rules [
    | none ↦ some true
    | some r ↦ elim r.conditions [
      | [] ↦ some true
      | c ∷ cs ↦ evaluate_conditions fs upper (c ∷ cs) r.conjunction o.rule_context
    ]
  ]

  -- `GetFeatureValue` of a feature that is there.
  unfoldable pub feature_value : World → Feature F → EvaluationOptions F → Evaluated F
  feature_value w f o =
      if not f.enabled
      then value f.default_value
      else if not (is_schedule_valid w.parser w.now f.schedule)
      then value f.default_value
      else if not (is_rollout_eligible w.rollout_draw o f.rollouts)
      then value f.default_value
      else elim (rules_hold w.upper f o) [
        | none ↦ failed panicked
        | some false ↦ value f.default_value
        | some true ↦ value (select_variant w.sum64 w.variant_draw f o.evaluation_bucket_key)
      ]

  -- `GetFeatureValue`, of the stored configuration.
  unfoldable pub get_feature_value :
      World → Option (FeatureConfig F) → String → EvaluationOptions F → Evaluated F
  get_feature_value w none key o = failed uninitialized
  get_feature_value w (some config) key o = elim (Dict.get string_discrete key config.features) [
    | none ↦ failed unknown_feature
    | some f ↦ feature_value w f o
  ]
