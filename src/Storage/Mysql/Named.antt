-- ===== src/Storage/Mysql/Named.antt =====
-- ConvertQueryAndNamedParams of storage/mysql/helper.go.
use photon.Base.{
  ℕ, zero, suc, ◌≤◌, ◌≡◌, ◌≢◌, refl, ap, sym, subst, ◌∙◌, Bool, Bool-cases, true, false, ◌&&◌,
  ==_iff, if◌then◌else◌, List, [], ◌∷◌, ◌++◌, length, map, arith, All, inl, inr,
}
use photon.Storage.Text.{Text, codes, is_word_char, all, has_prefix, drop}
use photon.Storage.Identifiers.{is_empty}
use photon.Storage.Postgres.Named.{
  Params, param_value, merge_named_params, take_name, after_name, starts_param,
}
use photon.Storage.Postgres.Named.Pieces.{name-all}

-- The matches of `:[a-zA-Z0-9_]+`, from left to right. A match begins at a colon and has no other,
-- so the search may go on right behind the colon.
unfoldable pub find_params : Text → List Text
find_params [] = []
find_params (c ∷ s) =
    let rest = find_params s in if starts_param (c ∷ s) then (c ∷ take_name s) ∷ rest else rest

-- `strings.Replace(s, old, new, 1)` for an `old` that is not empty
unfoldable pub replace_once : Text → Text → Text → Text
replace_once old new [] = []
replace_once old new (c ∷ s) =
    let rest = replace_once old new s in
    if has_prefix (c ∷ s) old then new ++ drop (length old) (c ∷ s) else c ∷ rest

unfoldable pub replace_params : List Text → Text → Text
replace_params [] query = query
replace_params (m ∷ ms) query = replace_params ms (replace_once m (codes "?") query)

unfoldable pub convert_mysql_params : {V : Type 0} → V → Text → List (Params V) → Text × List V
convert_mysql_params nil query maps =
    let matches : List Text = find_params query in
    (replace_params matches query, map (param_value nil (merge_named_params maps)) matches)

-- One pass over the text: a question mark for each parameter.
unfoldable pub one_pass : Bool → Text → Text
one_pass in_name [] = []
one_pass in_name (c ∷ s) =
    let after = one_pass true s in
    let other = one_pass false s in
    if in_name && is_word_char c
    then after
    else if starts_param (c ∷ s)
    then b'?' ∷ after
    else c ∷ other

-- A parameter: a colon and a name that is not empty
record IsParam (m : Text) : Type 0 where
  name : Text
  starts : m ≡ b':' ∷ name
  not_empty : name ≢ []
  chars : all is_word_char name ≡ true

prefix_name :
    (s name : Text)
    → has_prefix s name ≡ true
    → name ≢ []
    → all is_word_char name ≡ true
    → is_empty (take_name s) ≡ false
unfolding has_prefix all take_name
prefix_name s [] h n a = absurd (n refl)
prefix_name [] (x ∷ name) h n a = ground arith
prefix_name (d ∷ s) (x ∷ name) h n a =
    let same : d ≡ x = (==_iff d x).0 (ground arith) in
    let word : is_word_char x ≡ true = ground arith in rw (same, word) refl

question_not_word : is_word_char b'?' ≡ false
unfolding is_word_char
question_not_word = refl

inert-prefix :
    (c : ℕ) (s m : Text) → IsParam m → starts_param (c ∷ s) ≡ false → has_prefix (c ∷ s) m ≡ false
unfolding has_prefix starts_param
inert-prefix c s m p h = elim (Bool-cases (has_prefix s p.name)) [
  | inl e ↦ rw p.starts (ground (arith, prefix_name s p.name e p.not_empty p.chars))
  | inr e ↦ rw (p.starts, e) (ground arith)
]

replace_once-inert :
    (c : ℕ) (s m : Text)
    → IsParam m
    → starts_param (c ∷ s) ≡ false
    → replace_once m (codes "?") (c ∷ s) ≡ c ∷ replace_once m (codes "?") s
unfolding replace_once
replace_once-inert c s m p h = rw (inert-prefix c s m p h) refl

inert-replace_once :
    (c : ℕ) (s m : Text)
    → IsParam m
    → starts_param (c ∷ s) ≡ false
    → starts_param (c ∷ replace_once m (codes "?") s) ≡ false
unfolding replace_once starts_param take_name
inert-replace_once c [] m p h = h
inert-replace_once c (d ∷ s) m p h = ground (arith, question_not_word)

replace_params-inert :
    (c : ℕ) (s : Text) (ms : List Text)
    → All IsParam ms
    → starts_param (c ∷ s) ≡ false
    → replace_params ms (c ∷ s) ≡ c ∷ replace_params ms s
unfolding replace_params
replace_params-inert c s [] a h = refl
replace_params-inert c s (m ∷ ms) a h =
    rw (replace_once-inert c s m a.0 h) (
      replace_params-inert c (replace_once m (codes "?") s) ms a.1 (inert-replace_once c s m a.0 h))

take_prefix : (s : Text) → has_prefix s (take_name s) ≡ true
unfolding has_prefix take_name
take_prefix [] = refl
take_prefix (c ∷ s) = ground (arith, take_prefix s)

drop_name : (s : Text) → drop (length (take_name s)) s ≡ after_name s
unfolding drop take_name after_name
drop_name [] = refl
drop_name (c ∷ s) = ground (arith, drop_name s)

colon_not_word : is_word_char b':' ≡ false
unfolding is_word_char
colon_not_word = refl

word_not_start : (c : ℕ) (s : Text) → is_word_char c ≡ true → starts_param (c ∷ s) ≡ false
unfolding starts_param
word_not_start c s h = ground (arith, colon_not_word)

param_colon : (c : ℕ) (s : Text) → starts_param (c ∷ s) ≡ true → c ≡ b':'
unfolding starts_param
param_colon c s h = ground arith

-- At a match, the question mark takes its place.
replace_once-match :
    (s : Text) → replace_once (b':' ∷ take_name s) (codes "?") (b':' ∷ s) ≡ b'?' ∷ after_name s
unfolding replace_once has_prefix drop
replace_once-match s = rw (take_prefix s) (ap (λ x. b'?' ∷ x) (drop_name s))

find_params-after_name : (s : Text) → find_params (after_name s) ≡ find_params s
unfolding find_params after_name
find_params-after_name [] = refl
find_params-after_name (c ∷ s) = elim (Bool-cases (is_word_char c)) [
  | inl e ↦ rw (e, word_not_start c s e) (find_params-after_name s)
  | inr e ↦ rw e refl
]

one_pass-after_name : (s : Text) → one_pass true s ≡ one_pass false (after_name s)
unfolding one_pass after_name
one_pass-after_name [] = refl
one_pass-after_name (c ∷ s) = elim (Bool-cases (is_word_char c)) [
  | inl e ↦ rw e (one_pass-after_name s)
  | inr e ↦ rw e refl
]

find_params-IsParam : (s : Text) → All IsParam (find_params s)
unfolding find_params
find_params-IsParam [] = tt
find_params-IsParam (c ∷ s) = elim (Bool-cases (starts_param (c ∷ s))) [
  | inl e ↦ rw e (
    record {
      name = take_name s;
      starts = ap (λ x. x ∷ take_name s) (param_colon c s e);
      not_empty = λ f. absurd (unfold starts_param in ground (arith, rw f at e));
      chars = name-all s;
    },
    find_params-IsParam s,
  )
  | inr e ↦ rw e (find_params-IsParam s)
]

first_match :
    (s : Text) (ms : List Text)
    → All IsParam ms
    → replace_params ((b':' ∷ take_name s) ∷ ms) (b':' ∷ s)
      ≡ b'?' ∷ replace_params ms (after_name s)
unfolding replace_params
first_match s ms a =
    ap (replace_params ms) (replace_once-match s)
    ∙ replace_params-inert b'?' (after_name s) ms a (unfold starts_param in refl)

length-after_name-le : (s : Text) → length (after_name s) ≤ length s
unfolding after_name
length-after_name-le [] = omega arith
length-after_name-le (c ∷ s) = ground (arith, length-after_name-le s)

replace_params-one_pass :
    (f : ℕ) (s : Text) → length s ≤ f → replace_params (find_params s) s ≡ one_pass false s
unfolding find_params one_pass
replace_params-one_pass f [] h = unfold replace_params in refl
replace_params-one_pass zero (c ∷ s) h = absurd (omega arith)
replace_params-one_pass (suc f) (c ∷ s) h = elim (Bool-cases (starts_param (c ∷ s))) [
  | inl e ↦
      let rest : replace_params (find_params s) (after_name s) ≡ one_pass false (after_name s) =
        subst (λ ms. replace_params ms (after_name s) ≡ one_pass false (after_name s))
          (find_params-after_name s)
          (replace_params-one_pass f (after_name s) (omega (arith, length-after_name-le s))) in
      rw (e, param_colon c s e)
        (first_match s (find_params s) (find_params-IsParam s)
          ∙ ap (λ x. b'?' ∷ x) (rest ∙ sym (one_pass-after_name s)))
  | inr e ↦
      rw (e, replace_params-inert c s (find_params s) (find_params-IsParam s) e)
        (ap (λ x. c ∷ x) (replace_params-one_pass f s (omega arith)))
]

-- The conversion of named parameters for MySQL, which replaces the matches one after the other
-- wherever they are found first, gives what one pass over the query gives: a question mark for
-- each parameter, and the values in the order of the parameters.
pub convert_mysql_params-one_pass :
    {V : Type 0} (nil : V) (query : Text) (maps : List (Params V))
    → convert_mysql_params nil query maps
      ≡ (one_pass false query, map (param_value nil (merge_named_params maps)) (find_params query))
unfolding convert_mysql_params
convert_mysql_params-one_pass nil query maps =
    rw (replace_params-one_pass (length query) query (omega arith)) refl
