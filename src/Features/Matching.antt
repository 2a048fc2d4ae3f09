-- ===== src/Features/Matching.antt =====
-- core/features/evaluation.go: what AND and OR say together, and of opposite operators.
use photon.Base.{
  ◌≡◌, refl, sym, inl, inr, ◌↔◌, Bool, true, false, Option, none, some, List, [], ◌∷◌, map, All,
  String, string_discrete, ite, arith, Option-cases,
}
use photon.Features.{Floats, Value, Values, list, Condition, Context}
use photon.Features.Conditions.{
  match_condition, lookup, any_match, all_match, evaluate_conditions, negated, equal, is_in,
  is_not_in, among,
}

-- The operator that says the opposite, for the four that have one.
unfoldable pub opposite_operator : String → String
opposite_operator op = ite (string_discrete op "EQUALS") "NOT_EQUALS" (
    ite (string_discrete op "NOT_EQUALS") "EQUALS"
      (ite (string_discrete op "IN") "NOT_IN" (ite (string_discrete op "NOT_IN") "IN" op)))

unfoldable pub opposite : {F : Type 0} → Condition F → Condition F
opposite c = record c { operator = opposite_operator c.operator }

pub data HasOpposite {F : Type 0} (c : Condition F) : Type 0 where
  equals : c.operator ≡ "EQUALS" → HasOpposite c
  not_equals : c.operator ≡ "NOT_EQUALS" → HasOpposite c
  member : (xs : Values F) → c.operator ≡ "IN" → c.value ≡ list xs → HasOpposite c
  not_member : (xs : Values F) → c.operator ≡ "NOT_IN" → c.value ≡ list xs → HasOpposite c

negated_twice : (o : Option Bool) → negated (negated o) ≡ o
negated_twice none = refl
negated_twice (some true) = refl
negated_twice (some false) = refl

module _ {F : Type 0} (fs : Floats F) where
  match-opposite :
      (c : Condition F) (v : Value F)
      → HasOpposite c
      → match_condition fs (opposite c) v ≡ negated (match_condition fs c v)
  unfolding match_condition opposite opposite_operator string_discrete is_in is_not_in
  match-opposite c v (equals e) = rw e refl
  match-opposite c v (not_equals e) = rw e (sym (negated_twice (equal fs v c.value)))
  match-opposite c v (member xs e e') = rw e (rw e' refl)
  match-opposite c v (not_member xs e e') = rw e (rw e' (sym (negated_twice (among fs v xs))))

  -- OR of the opposite conditions denies AND of the conditions.
  any-opposite :
      (cs : List (Condition F)) (ctx : Context F)
      → All HasOpposite cs
      → any_match fs (map opposite cs) ctx ≡ negated (all_match fs cs ctx)
  unfolding any_match all_match opposite
  any-opposite [] ctx h = refl
  any-opposite (c ∷ cs) ctx (h, hs) =
      let rest = any-opposite cs ctx hs in
      let here = match-opposite c (lookup ctx c.key) h in ground (arith, here, rest)

  -- For conditions that test equality or membership in a list, OR of the opposite conditions is
  -- the denial of AND of the conditions, panics included. Upper case leaves the two
  -- conjunctions as they are.
  pub evaluate-opposite :
      (upper : String → String) (cs : List (Condition F)) (ctx : Context F)
      → upper "AND" ≡ "AND"
      → upper "OR" ≡ "OR"
      → All HasOpposite cs
      → evaluate_conditions fs upper (map opposite cs) "OR" ctx
        ≡ negated (evaluate_conditions fs upper cs "AND" ctx)
  unfolding evaluate_conditions string_discrete
  evaluate-opposite upper cs ctx a o h = rw a (rw o (any-opposite cs ctx h))

  -- AND answers true exactly when every condition matches the value of its key in the rule
  -- context.
  all_match_iff :
      (cs : List (Condition F)) (ctx : Context F)
      → (all_match fs cs ctx ≡ some true)
        ↔ All (λ c. match_condition fs c (lookup ctx c.key) ≡ some true) cs
  unfolding all_match
  all_match_iff [] ctx = (λ _. tt, λ _. refl)
  all_match_iff (c ∷ cs) ctx =
      let (f, g) = all_match_iff cs ctx in
      (
        (λ h. elim (Option-cases (match_condition fs c (lookup ctx c.key))) [
          | inl e ↦ absurd (ground (arith, e, h))
          | inr (true, e) ↦ (e, f (ground (arith, e, h)))
          | inr (false, e) ↦ absurd (ground (arith, e, h))
        ]),
        (λ (h, hs). rw (h, all_match) (g hs)),
      )
