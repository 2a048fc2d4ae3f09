-- ===== src/Storage/Postgres/Where.antt =====
-- convertWhereParamsToPg of storage/postgres/pghelper.go.
use photon.Base.{
  ℕ, zero, suc, ◌≤◌, ◌<◌, ◌∙◌, ◌≡◌, refl, ap, sym, Bool-cases, true, false, not, ◌||◌, ◌==◌,
  if◌then◌else◌, List, [], ◌∷◌, ◌++◌, length, arith, inl, inr,
}
use photon.Storage.Text.{Text, itoa, count, contains, itoa-contains}
use photon.Storage.Result.{Result, ok, err, placeholder_mismatch}

-- `strings.Replace(s, old, new, 1)` for an `old` of one character
unfoldable pub replace_first : ℕ → Text → Text → Text
replace_first d new [] = []
replace_first d new (c ∷ s) =
    let rest = replace_first d new s in if c == d then new ++ s else c ∷ rest

abbrev pub placeholder : ℕ → Text
placeholder pos = b'$' ∷ itoa pos

-- The loop, on fuel.
unfoldable pub replace_marks : ℕ → ℕ → Text → Text
replace_marks zero pos out = out
replace_marks (suc f) pos out =
    let rest = replace_marks f (suc pos) (replace_first b'?' (placeholder pos) out) in
    if contains b'?' out then rest else out

-- Each round of the loop takes a question mark away.
unfoldable pub convert_where {ℓ} : {V : Type ℓ} → Text → ℕ → List V → Result (Text × List V)
convert_where where_clause start params =
    let marks : ℕ = count b'?' where_clause in
    if not (contains b'?' where_clause)
    then ok (where_clause, params)
    else if not (marks == length params)
    then err (placeholder_mismatch marks (length params))
    else ok (replace_marks marks start where_clause, params)

-- One pass over the text: the question marks are numbered from left to right.
unfoldable pub number_marks : ℕ → Text → Text
number_marks pos [] = []
number_marks pos (c ∷ s) =
    let next = number_marks (suc pos) s in
    let same = number_marks pos s in if c == b'?' then placeholder pos ++ next else c ∷ same

abbrev NoMark : Text → Type 0
NoMark s = contains b'?' s ≡ false

placeholder-NoMark : (pos : ℕ) → NoMark (placeholder pos)
unfolding contains
placeholder-NoMark pos = rw (itoa-contains pos b'?' (omega arith)) refl

number_marks-NoMark :
    (pos : ℕ) (s t : Text) → NoMark s → number_marks pos (s ++ t) ≡ s ++ number_marks pos t
unfolding number_marks contains
number_marks-NoMark pos [] t h = refl
number_marks-NoMark pos (c ∷ s) t h = ground (arith, number_marks-NoMark pos s t)

number_marks_plain : (pos : ℕ) (s : Text) → NoMark s → number_marks pos s ≡ s
unfolding number_marks contains
number_marks_plain pos [] h = refl
number_marks_plain pos (c ∷ s) h = ground (arith, number_marks_plain pos s)

count-NoMark : (s t : Text) → NoMark s → count b'?' (s ++ t) ≡ count b'?' t
unfolding count contains
count-NoMark [] t h = refl
count-NoMark (c ∷ s) t h = ground (arith, count-NoMark s t)

count-replace_first :
    (new s : Text)
    → NoMark new
    → contains b'?' s ≡ true
    → suc (count b'?' (replace_first b'?' new s)) ≡ count b'?' s
unfolding count contains replace_first
count-replace_first new [] n h = ground arith
count-replace_first new (c ∷ s) n h =
    ground (arith, count-replace_first new s n, count-NoMark new s n)

number_marks_mark :
    (pos c : ℕ) (s : Text)
    → (c == b'?') ≡ true
    → number_marks pos (c ∷ s) ≡ placeholder pos ++ number_marks (suc pos) s
unfolding number_marks
number_marks_mark pos c s h = rw h refl

number_marks_other :
    (pos c : ℕ) (s : Text) → (c == b'?') ≡ false → number_marks pos (c ∷ s) ≡ c ∷ number_marks pos s
unfolding number_marks
number_marks_other pos c s h = rw h refl

number_marks-replace_first :
    (pos : ℕ) (s : Text)
    → contains b'?' s ≡ true
    → number_marks (suc pos) (replace_first b'?' (placeholder pos) s) ≡ number_marks pos s
unfolding contains replace_first
number_marks-replace_first pos [] h = ground arith
number_marks-replace_first pos (c ∷ s) h = elim (Bool-cases (c == b'?')) [
  | inl e ↦
      rw (e, number_marks_mark pos c s e)
        (number_marks-NoMark (suc pos) (placeholder pos) s (placeholder-NoMark pos))
  | inr e ↦
      rw (e, number_marks_other pos c s e, number_marks_other (suc pos) c _ e)
        (ap (λ x. c ∷ x) (number_marks-replace_first pos s (ground arith)))
]

no_marks : (s : Text) → count b'?' s ≡ 0 → NoMark s
unfolding count contains
no_marks [] h = refl
no_marks (c ∷ s) h = ground (arith, no_marks s)

some_mark : (s : Text) → contains b'?' s ≡ true → 0 < count b'?' s
unfolding count contains
some_mark [] h = ground arith
some_mark (c ∷ s) h = ground (arith, some_mark s)

no_count : (s : Text) → NoMark s → count b'?' s ≡ 0
unfolding count contains
no_count [] h = refl
no_count (c ∷ s) h = ground (arith, no_count s)

replace_marks-number_marks :
    (f pos : ℕ) (s : Text) → count b'?' s ≤ f → replace_marks f pos s ≡ number_marks pos s
unfolding replace_marks
replace_marks-number_marks zero pos s h = sym (number_marks_plain pos s (no_marks s (omega arith)))
replace_marks-number_marks (suc f) pos s h = elim (Bool-cases (contains b'?' s)) [
  | inl e ↦ rw e (
      replace_marks-number_marks f (suc pos) (replace_first b'?' (placeholder pos) s)
        (omega (arith, count-replace_first (placeholder pos) s (placeholder-NoMark pos) e))
      ∙ number_marks-replace_first pos s e)
  | inr e ↦ rw e (sym (number_marks_plain pos s e))
]

-- `convertWhereParamsToPg` ends, and gives what one pass over the clause gives that numbers the
-- question marks from left to right, starting at `start`, when there are none of them or as many
-- as parameters; the parameters are passed on in their order. With any other number of question
-- marks it is refused.
pub convert_where-number_marks :
    {V : Type 0} (s : Text) (start : ℕ) (params : List V)
    → convert_where s start params ≡ (
        if count b'?' s == 0 || count b'?' s == length params
        then ok (number_marks start s, params)
        else err (placeholder_mismatch (count b'?' s) (length params)))
unfolding convert_where
convert_where-number_marks s start params = ground (
  arith,
  no_count s,
  some_mark s,
  number_marks_plain start s,
  replace_marks-number_marks (count b'?' s) start s (omega arith),
)
