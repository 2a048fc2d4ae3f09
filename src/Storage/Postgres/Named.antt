-- ===== src/Storage/Postgres/Named.antt =====
-- ConvertQueryAndNamedParams of storage/postgres/pghelper.go: the converter as a record, one
-- handler per method. `rest` is `query[index:]`, so `index` is the length of what is gone.
pub mod Pieces
pub mod Binding
pub mod Rounds
pub mod Run
use photon.Base.{
  ℕ, zero, suc, ◌+◌, ◌≡◌, ap, Bool, true, false, not, ◌&&◌, ◌||◌, ◌==◌, if◌then◌else◌, List, [],
  ◌∷◌, ◌++◌, Option, none, some, length,
}
use photon.Base.Dict.{Dict, get, put}
use photon.Storage.Text.{Text, itoa, is_word_char, has_prefix, drop, text_discrete}
use photon.Storage.Identifiers.{is_empty}

pub record Converter (V : Type 0) : Type 0 where
  pub rest : Text
  pub out : Text
  pub ordered : List V
  pub seen : Dict Text ℕ
  pub arg_pos : ℕ
  pub in_single_quote : Bool
  pub in_dollar_quote : Bool
  pub dollar_tag : Text

abbrev pub or_else : {A : Type 0} → Option A → A → A
or_else (some a) d = a
or_else none d = d

-- A map of the parameters, with the value nil of a missing key.
abbrev pub Params : Type 0 → Type 0
Params V = Dict Text V

-- mergeNamedParams: a later map wins.
unfoldable pub add_params : {V : Type 0} → Params V → Params V → Params V
add_params all [] = all
add_params all ((k, v) ∷ m) = add_params (put text_discrete k v all) m

unfoldable pub merge_from : {V : Type 0} → Params V → List (Params V) → Params V
merge_from all [] = all
merge_from all (m ∷ ms) = merge_from (add_params all m) ms

abbrev pub merge_named_params : {V : Type 0} → List (Params V) → Params V
merge_named_params ms = merge_from [] ms

abbrev prepend : ℕ → Option Text → Option Text
prepend c none = none
prepend c (some t) = some (c ∷ t)

unfoldable pub tag_body : Text → Option Text
tag_body [] = none
tag_body (c ∷ s) =
    let rest = tag_body s in
    if c == b'$' then some (b'$' ∷ []) else if is_word_char c then prepend c rest else none

-- parseDollarTag
unfoldable pub parse_dollar_tag : Text → Option Text
unfolding tag_body
parse_dollar_tag [] = none
parse_dollar_tag (c ∷ s) = if c == b'$' then prepend b'$' (tag_body s) else none

-- The parameter at the start of a text, and what follows it: namedParamEnd and isNamedParamChar.
unfoldable pub take_name : Text → Text
take_name [] = []
take_name (c ∷ s) = let rest = take_name s in if is_word_char c then c ∷ rest else []

unfoldable pub after_name : Text → Text
after_name [] = []
after_name (c ∷ s) = let rest = after_name s in if is_word_char c then rest else c ∷ s

unfoldable pub starts_with : ℕ → Text → Bool
starts_with d [] = false
starts_with d (c ∷ s) = c == d

-- Whether a text begins with a parameter
unfoldable pub starts_param : Text → Bool
starts_param [] = false
starts_param (c ∷ s) = c == b':' && not (is_empty (take_name s))

-- `params[token]`
abbrev pub param_value : {V : Type 0} → V → Params V → Text → V
param_value nil params token = elim (get text_discrete token params) [ some v ↦ v | none ↦ nil ]

pub param_value_same :
    {V : Type 0} (nil : V) (a b : Params V) (k : Text)
    → get text_discrete k a ≡ get text_discrete k b
    → param_value nil a k ≡ param_value nil b k
param_value_same {V} nil a b k h =
    ap (λ (o : Option V). elim o as (λ _. V) [ some v ↦ v | none ↦ nil ]) h

module _ {V : Type 0} where
  abbrev pub new_converter : Text → Converter V
  new_converter query = record {
    rest = query;
    out = [];
    ordered = [];
    seen = [];
    arg_pos = 1;
    in_single_quote = false;
    in_dollar_quote = false;
    dollar_tag = [];
  }

  -- Writes a text and goes past it.
  abbrev pub copy : Text → Text → Converter V → Converter V
  copy t left c = record c { out = c.out ++ t; rest = left }

  unfoldable pub open_dollar_quote : Text → Option Text → Converter V → Option (Converter V)
  open_dollar_quote text none c = none
  open_dollar_quote text (some tag) c =
      some
        (record (copy tag (drop (length tag) text) c) { in_dollar_quote = true; dollar_tag = tag })

  -- The handlers answer `none` for false. `b` is `query[index]` and `s` what follows it.
  unfoldable pub handle_dollar_quote : ℕ → Text → Converter V → Option (Converter V)
  unfolding open_dollar_quote
  handle_dollar_quote b s c =
      if c.in_single_quote || not (b == b'$')
      then none
      else if c.in_dollar_quote && not (is_empty c.dollar_tag) && has_prefix (b ∷ s) c.dollar_tag
      then some (record (copy c.dollar_tag (drop (length c.dollar_tag) (b ∷ s)) c) {
        in_dollar_quote = false;
        dollar_tag = [];
      })
      else if c.in_dollar_quote
      then none
      else open_dollar_quote (b ∷ s) (parse_dollar_tag (b ∷ s)) c

  unfoldable pub handle_single_quote : ℕ → Text → Converter V → Option (Converter V)
  unfolding starts_with
  handle_single_quote b s c =
      if c.in_dollar_quote || not (b == b'\'')
      then none
      else if c.in_single_quote && starts_with b'\'' s
      then some (copy (b ∷ b'\'' ∷ []) (drop 1 s) c)
      else some (record (copy (b ∷ []) s c) { in_single_quote = not c.in_single_quote })

  unfoldable pub copy_quoted_byte : ℕ → Text → Converter V → Option (Converter V)
  copy_quoted_byte b s c =
      if not c.in_single_quote && not c.in_dollar_quote then none else some (copy (b ∷ []) s c)

  unfoldable pub copy_postgres_cast : Text → Converter V → Option (Converter V)
  unfolding starts_with
  copy_postgres_cast s c =
      if not (starts_with b':' s) then none else some (copy (b':' ∷ b':' ∷ []) (drop 1 s) c)

  unfoldable pub write_at : Option ℕ → V → Text → Text → Converter V → Converter V
  write_at (some pos) v token left c = record c { out = c.out ++ b'$' ∷ itoa pos; rest = left }
  write_at none v token left c = record c {
    out = c.out ++ b'$' ∷ itoa c.arg_pos;
    rest = left;
    ordered = c.ordered ++ v ∷ [];
    seen = put text_discrete token c.arg_pos c.seen;
    arg_pos = c.arg_pos + 1;
  }

  module _ (nil : V) (params : Params V) where
    unfoldable pub write_named_param : Text → Text → Converter V → Converter V
    unfolding write_at
    write_named_param token left c =
        write_at (get text_discrete token c.seen) (param_value nil params token) token left c

    abbrev pub named_or_colon : Text → Converter V → Converter V
    named_or_colon s c =
        if is_empty (take_name s)
        then copy (b':' ∷ []) s c
        else write_named_param (b':' ∷ take_name s) (after_name s) c

    unfoldable pub handle_named_param : ℕ → Text → Converter V → Option (Converter V)
    handle_named_param b s c =
        if not (b == b':')
        then none
        else some (or_else (copy_postgres_cast s c) (named_or_colon s c))

    -- One round of the loop of convert.
    unfoldable pub convert_byte : ℕ → Text → Converter V → Converter V
    convert_byte b s c = or_else (handle_dollar_quote b s c) (
        or_else (handle_single_quote b s c) (
          or_else (copy_quoted_byte b s c)
            (or_else (handle_named_param b s c) (copy (b ∷ []) s c))))

    -- Each round goes past at least one byte: the length of the query is fuel enough.
    unfoldable pub convert : ℕ → Text → Converter V → Converter V
    convert zero text c = c
    convert (suc f) [] c = c
    convert (suc f) (b ∷ s) c = let d : Converter V = convert_byte b s c in convert f d.rest d

  unfoldable pub convert_query_and_named_params : V → Text → List (Params V) → Text × List V
  convert_query_and_named_params nil query maps =
      let c : Converter V =
        convert nil (merge_named_params maps) (length query) query (new_converter query) in
      (c.out, c.ordered)
