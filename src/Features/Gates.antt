-- ===== src/Features/Gates.antt =====
-- core/features/evaluation.go: the gates of `GetFeatureValue`.
use photon.Base.{
  ℕ, ◌≡◌, refl, ◌⊎◌, inl, inr, true, false, Option, none, some, List, [], ◌∷◌, ◌++◌, All, arith,
  Option-cases,
}
use photon.Base.Int.{ℤ, pos}
use photon.Features.{Floats, Value, Feature, Rollout, Schedule, EvaluationOptions}
use photon.Features.Evaluation.{
  Parser, parse_time, before_start, after_end, is_schedule_valid, covers, first_rollout,
  is_rollout_eligible, random_percentage, select_variant, rules_hold, World, feature_value, value,
}
use photon.Features.Validator.{validate_schedule, crossed}

module _ {F : Type 0} (fs : Floats F) where
  -- The first rollout that covers the platform, the environment and the region decides alone:
  -- the draw has to be at most its percentage, whatever rollouts follow.
  pub first_rollout_decides :
      (draw : Option ℕ) (o : EvaluationOptions F) (before after : List (Rollout F)) (r : Rollout F)
      → All (λ q. covers fs o q ≡ false) before
      → covers fs o r ≡ true
      → is_rollout_eligible fs draw o (before ++ r ∷ after)
        ≡ fs.at_most (random_percentage fs draw) r.percentage
  unfolding is_rollout_eligible first_rollout
  first_rollout_decides draw o [] after r hs h = ground (arith, h)
  first_rollout_decides draw o (q ∷ []) after r (n, _) h = ground (arith, n, h)
  first_rollout_decides draw o (q ∷ p ∷ before) after r (n, hs) h =
      let rest = first_rollout_decides draw o (p ∷ before) after r hs h in ground (arith, n, rest)

  -- A value of a feature other than its default is that of `selectVariant`, and only when the
  -- feature is enabled, its schedule is valid, a rollout lets it through and its rules hold.
  pub feature_value_lem :
      (w : World) (f : Feature F) (o : EvaluationOptions F) (v : Value F)
      → feature_value fs w f o ≡ value v
      → (v ≡ f.default_value)
        ⊎ ((f.enabled ≡ true)
            × (is_schedule_valid w.parser w.now f.schedule ≡ true)
            × (is_rollout_eligible fs w.rollout_draw o f.rollouts ≡ true)
            × (rules_hold fs w.upper f o ≡ some true)
            × (v ≡ select_variant fs w.sum64 w.variant_draw f o.evaluation_bucket_key))
  unfolding feature_value
  feature_value_lem w f o v h = ground (arith, h)

-- A time between two that may be missing, the first not after the second.
between :
    (start end : Option ℤ)
    → crossed start end ≡ false
    → (now : ℤ) × (before_start now start ≡ false) × (after_end now end ≡ false)
between none none h = (pos 0, refl, refl)
between none (some b) h = (b, refl, ground arith)
between (some a) none h = (a, ground arith, refl)
between (some a) (some b) h = (a, ground arith, h)

-- A schedule that passed the validation is valid at some time.
pub schedule_is_active :
    (parser : Parser) (sch : Schedule)
    → validate_schedule parser sch ≡ none
    → (now : ℤ) × (is_schedule_valid parser now (some sch) ≡ true)
unfolding validate_schedule is_schedule_valid
schedule_is_active parser sch h = elim (Option-cases (parse_time parser sch.start)) [
  | inl e ↦ absurd (ground (arith, e, h))
  | inr (start, e) ↦ elim (Option-cases (parse_time parser sch.end)) [
    | inl e' ↦ absurd (ground (arith, e, e', h))
    | inr (end, e') ↦
        let (now, b, a) = between start end (ground (arith, e, e', h)) in
        (now, ground (arith, e, e', b, a))
  ]
]
