-- ===== src/Features/Tests.antt =====
-- core/features: runs of the evaluation at concrete inputs. Floats are thousandths here.
use photon.Base.{
  ℕ, ◌+◌, ◌*◌, ◌/◌, ◌≡◌, refl, arith, true, none, some, [], ◌∷◌, map, String, string_discrete,
  get_elem?, ◌⊎◌,
}
use photon.Base.Int.{ℤ, pos, negsuc, ◌+ℤ◌, ◌-ℤ◌, ltb_ℤ, leb_ℤ}
use photon.Features.{
  Floats, Value, text, truth, Feature, Variant, Rollout, Schedule, Condition, EvaluationOptions,
  Context,
}
use photon.Features.Conditions.{negated, evaluate_conditions}
use photon.Features.Evaluation.{
  World, feature_value, is_schedule_valid, is_rollout_eligible, covers, random_percentage,
  rules_hold, select_variant, pick, roll_of,
}
use photon.Features.Validator.{validate_variants, weigh}
use photon.Features.Matching.{opposite, equals, evaluate-opposite}
use photon.Features.Gates.{first_rollout_decides, feature_value_lem}
use photon.Features.Buckets.{IsDouble, bucket_gets_variant}

abbrev scaled : ℤ → ℤ
scaled (pos n) = pos (n * 1_000)
scaled (negsuc n) = pos 0

abbrev quotient : ℤ → ℤ → ℤ
quotient (pos a) (pos b) = pos (a * 1_000 / b)
quotient _ _ = pos 0

abbrev magnitude : ℤ → ℤ
magnitude (pos n) = pos n
magnitude (negsuc n) = pos (n + 1)

abbrev thousandths : Floats ℤ
thousandths = record {
  of_int = scaled;
  add = λ a b. a +ℤ b;
  sub = λ a b. a -ℤ b;
  mul = λ a b. a;
  div = quotient;
  absolute = magnitude;
  less = ltb_ℤ;
  at_most = leb_ℤ;
  same = λ a b. leb_ℤ a b;
}

thousandths-IsDouble : IsDouble thousandths
unfolding ◌-ℤ◌
thousandths-IsDouble = record {
  trans = λ a b c h h'. ground (arith, h, h');
  quotient = λ h l. ground (arith, l);
  near = λ s h l. ground (arith, h, l);
}

abbrev half : String → Variant ℤ
half name = record { name = name; weight = pos 50_000 }

abbrev feature : Feature ℤ
feature = record {
  enabled = true;
  schedule = none;
  datatype = "STRING";
  default_value = text "off";
  variants = half "a" ∷ half "b" ∷ [];
  rules = none;
  rollouts = [];
}

bucket_gets_variant_example :
    (i : ℕ) × (x : Variant ℤ) × (get_elem? feature.variants i ≡ some x)
    × (select_variant thousandths (λ s. 7_500) none feature "user" ≡ text x.name)
unfolding validate_variants weigh ◌+ℤ◌ ◌-ℤ◌
bucket_gets_variant_example =
    bucket_gets_variant thousandths (λ s. 7_500) none feature (half "a") (half "b" ∷ []) "user"
      thousandths-IsDouble refl refl refl (λ e. absurd (cc))

abbrev vip : Condition ℤ
vip = record { key = "vip"; operator = "EQUALS"; value = truth true }

abbrev ctx : Context ℤ
ctx = ("vip", truth true) ∷ []

evaluate-opposite_example :
    evaluate_conditions thousandths (λ s. s) (map opposite (vip ∷ [])) "OR" ctx
    ≡ negated (evaluate_conditions thousandths (λ s. s) (vip ∷ []) "AND" ctx)
evaluate-opposite_example =
    evaluate-opposite thousandths (λ s. s) (vip ∷ []) ctx refl refl (equals refl, tt)

abbrev everywhere : Rollout ℤ
everywhere = record { platform = "*"; environment = "*"; region = "*"; percentage = pos 20_000 }

abbrev on_web : Rollout ℤ
on_web = record { platform = "web"; environment = "*"; region = "*"; percentage = pos 100_000 }

abbrev ios : EvaluationOptions ℤ
ios = record {
  platform = "ios";
  environment = "prod";
  region = "in";
  evaluation_bucket_key = "user";
  rule_context = ctx;
}

first_rollout_decides_example :
    is_rollout_eligible thousandths none ios (on_web ∷ everywhere ∷ on_web ∷ [])
    ≡ leb_ℤ (random_percentage thousandths none) (pos 20_000)
unfolding covers string_discrete
first_rollout_decides_example =
    first_rollout_decides thousandths none ios (on_web ∷ []) (on_web ∷ []) everywhere (refl, tt)
      refl

abbrev world : World
world = record {
  parser = λ s. some (pos 5);
  upper = λ s. s;
  sum64 = λ s. 7_500;
  now = pos 3;
  rollout_draw = none;
  variant_draw = none;
}

abbrev chosen : Value ℤ
chosen = text "b"

feature_value_lem_example :
    (chosen ≡ feature.default_value)
    ⊎ ((feature.enabled ≡ true)
        × (is_schedule_valid world.parser world.now feature.schedule ≡ true)
        × (is_rollout_eligible thousandths world.rollout_draw ios feature.rollouts ≡ true)
        × (rules_hold thousandths world.upper feature ios ≡ some true)
        × (chosen
            ≡ select_variant thousandths world.sum64 world.variant_draw feature
                ios.evaluation_bucket_key))
unfolding feature_value is_schedule_valid is_rollout_eligible rules_hold select_variant pick roll_of
    string_discrete ◌+ℤ◌
feature_value_lem_example = feature_value_lem thousandths world feature ios chosen refl

abbrev schedule : Schedule
schedule = record { start = ""; end = "2026-01-01T00:00:00Z" }
