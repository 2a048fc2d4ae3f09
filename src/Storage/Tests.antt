-- ===== src/Storage/Tests.antt =====
-- Runs of the helpers of storage/ on concrete inputs.
use photon.Storage.Elastic.{
  take, last_of, drop as drop_hits, Reply, page, done, panic, absent, invalid,
  get_documents_with_search_after,
}
use photon.Storage.Elastic.Pages.{Pages, jump_beyond_panics}
use photon.Storage.Elastic.Slices.{last-take}
use photon.Storage.Elastic.Ties.{ties_are_skipped}
use photon.Storage.Elastic.Ranked.{behind, Ranked, Answers}
use photon.Storage.Elastic.Scroll.{ScrollReply, scrolled, scroll_loop}
use photon.Storage.Elastic.Wanted.{Scrolls, Returns, at_page, scroll_loop-slice}
use photon.Storage.Elastic.Fetch.{get_documents-slice}
use photon.Base.{
  Bool, arith, ap, ◌∙◌, All, true, ◌/◌, get_elem?, ltb, ◌+◌, ◌≢◌, Option, none, ℕ, zero, suc, ◌≡◌,
  refl, false, List, [], ◌∷◌, ◌++◌, some, map, length, ℕ_discrete, if◌then◌else◌, ◌==◌, ◌||◌,
}
use photon.Base.Dict.{get, put}
use photon.Storage.Text.{
  Text, codes, itoa, split, join, trim_space, trim_left, is_space, all, is_word_char, contains,
  count, has_prefix, drop, text_discrete, sort_texts, insert_text, text_leb,
}
use photon.Storage.Result.{ok, err, placeholder_mismatch, invalid_identifier, ◌>>=◌}
use photon.Storage.Identifiers.{quote_parts, QuotedName, without}
use photon.Storage.Fields.{Field, Reflection, other, is_empty_value, has_part, db_tag_name}
use photon.Storage.Postgres.Ident.{
  safe_ident, safe_trimmed, quote_identifiers, IsSegment, safe_ident-QuotedName, unquote-safe_ident,
}
use photon.Storage.Postgres.Where.{
  convert_where, replace_marks, replace_first, number_marks, convert_where-number_marks,
}
use photon.Storage.Postgres.Named.{
  Params, param_value, merge_named_params, convert_query_and_named_params, convert, convert_byte,
  handle_dollar_quote, handle_single_quote, copy_quoted_byte, handle_named_param,
  copy_postgres_cast, take_name, write_named_param, after_name, merge_from, add_params,
  parse_dollar_tag, starts_param,
}
use photon.Storage.Postgres.Statements.{
  insert_statement, update_statement, insert_text_of, listed, keys_of,
}
use photon.Storage.Postgres.Statements.Laws.{
  placeholders, settings, insert_statement-quote_identifiers, update_statement-quote_identifiers,
}
use photon.Storage.Postgres.Structs.{
  generate_multi_insert, multi_rows, row_values, tuple_of, db_fields,
}
use photon.Storage.Postgres.Structs.Positions.{IsMultiInsert, generate_multi_insert-IsMultiInsert}
use photon.Storage.HashKey.{hash_key, hashed_args}
use photon.Storage.Mysql.{safe_mysql_ident, mysql_trimmed, is_mysql_identifier}
use photon.Storage.Mysql.Ident.{IsMysqlSegment, safe_mysql_ident-QuotedName}
use photon.Storage.Mysql.Named.{
  convert_mysql_params, find_params, replace_params, replace_once, one_pass,
  convert_mysql_params-one_pass,
}
use photon.Storage.Mysql.Structs.{mysql_struct_columns}

abbrev users : Text
users = codes "public.users"

abbrev quoted_users : Text
quoted_users = codes "\"public\".\"users\""

abbrev filter : Text
filter = codes "a = ? AND b > ?"

abbrev search : Text
search = codes "a = :id AND b::int = :x"

abbrev bounds : List ℕ
bounds = 7 ∷ 8 ∷ []

abbrev maps : List (Params ℕ)
maps = ((codes ":x", 7) ∷ (codes ":id", 5) ∷ []) ∷ []

abbrev account : Params ℕ
account = (codes "name", 3) ∷ (codes "age", 4) ∷ []

-- Zero is the empty value, and nothing is marshalled.
abbrev numbers : Reflection ℕ
numbers = record { shape = λ n. other (n == 0); marshal = λ n. ok n; nil = 0 }

abbrev person : ℕ → ℕ → List (Field ℕ)
person name age =
    (record { tag = codes "name"; value = name; is_struct = false })
    ∷ (record { tag = codes "age,omitempty"; value = age; is_struct = false })
    ∷ []

test_itoa : itoa 1205 ≡ codes "1205"
unfolding itoa
test_itoa = refl

test_split : join (codes ".") (split b'.' (codes "a.b..c")) ≡ codes "a.b..c"
unfolding split join
test_split = refl

test_quote : safe_ident (codes " public.users ") ≡ ok (codes "\"public\".\"users\"")
unfolding safe_ident trim_space trim_left is_space all is_word_char quote_parts split join
test_quote = refl

test_where :
    convert_where {V = ℕ} (codes "a = ? AND b > ?") 3 (7 ∷ 8 ∷ [])
    ≡ ok (codes "a = $3 AND b > $4", 7 ∷ 8 ∷ [])
unfolding convert_where contains count replace_marks replace_first itoa
test_where = refl

test_mismatch : convert_where {V = ℕ} (codes "a = ?") 3 [] ≡ err (placeholder_mismatch 1 0)
unfolding convert_where contains count
test_mismatch = refl

test_named :
    convert_query_and_named_params {V = ℕ} 0
      (codes "a = :id AND b::int = :x OR c = :id AND d = ':id'")
      (((codes ":x", 7) ∷ (codes ":id", 5) ∷ []) ∷ [])
    ≡ (codes "a = $1 AND b::int = $2 OR c = $1 AND d = ':id'", 5 ∷ 7 ∷ [])
unfolding convert_query_and_named_params convert convert_byte handle_dollar_quote
    handle_single_quote copy_quoted_byte handle_named_param copy_postgres_cast take_name
    is_word_char write_named_param get after_name drop put text_discrete ℕ_discrete itoa merge_from
    add_params parse_dollar_tag has_prefix
test_named = refl

test_mysql :
    convert_mysql_params {V = ℕ} 0
      (codes "a=:id AND b=:id2 OR c=:id")
      (((codes ":id", 5) ∷ (codes ":id2", 7) ∷ []) ∷ [])
    ≡ (codes "a=? AND b=? OR c=?", 5 ∷ 7 ∷ 5 ∷ [])
unfolding convert_mysql_params find_params starts_param take_name is_word_char replace_params
    replace_once has_prefix drop merge_from add_params put get text_discrete ℕ_discrete
test_mysql = refl

users_quoted : safe_ident users ≡ ok quoted_users
unfolding safe_ident trim_space trim_left is_space all is_word_char quote_parts split join
users_quoted = refl

people_inserted :
    generate_multi_insert numbers
      (codes "people")
      (some (person 1 2))
      (some (person 1 2) ∷ some (person 3 0) ∷ [])
    ≡ ok (
      codes "INSERT INTO \"people\" (\"name\", \"age\") VALUES ($1, $2), ($3, DEFAULT)",
      1 ∷ 2 ∷ 3 ∷ [],
    )
unfolding generate_multi_insert safe_ident safe_trimmed trim_space trim_left is_space all
    is_word_char quote_parts split quote_identifiers db_fields db_tag_name text_discrete ℕ_discrete
    get put multi_rows row_values has_part is_empty_value tuple_of itoa join
people_inserted = refl

-- A field that is named `-` is refused by the insertion of one struct.
skipped_field_is_refused :
    mysql_struct_columns numbers ((record { tag = codes "-"; value = 1; is_struct = false }) ∷ [])
    ≡ err (invalid_identifier (codes "-"))
unfolding mysql_struct_columns has_part split text_discrete ℕ_discrete safe_mysql_ident
    mysql_trimmed trim_space trim_left is_space quote_parts is_mysql_identifier is_word_char
skipped_field_is_refused = refl

-- Two maps of arguments that are written alike have one key.
hash_key_confuses :
    hash_key {V = Text} [] ok (λ t. t) [] ((codes "a", codes "1|b:2") ∷ [])
    ≡ hash_key {V = Text} [] ok (λ t. t) [] ((codes "a", codes "1") ∷ (codes "b", codes "2") ∷ [])
unfolding hash_key hashed_args sort_texts insert_text text_leb get text_discrete ℕ_discrete
hash_key_confuses = refl

safe_ident-QuotedName_example : QuotedName b'"' IsSegment quoted_users
safe_ident-QuotedName_example = safe_ident-QuotedName users users_quoted

unquote-safe_ident_example : without b'"' quoted_users ≡ trim_space users
unquote-safe_ident_example = unquote-safe_ident users users_quoted

convert_where-number_marks_example : convert_where filter 3 bounds ≡ (
    if count b'?' filter == 0 || count b'?' filter == length bounds
    then ok (number_marks 3 filter, bounds)
    else err (placeholder_mismatch (count b'?' filter) (length bounds)))
convert_where-number_marks_example = convert_where-number_marks filter 3 bounds

insert_statement-quote_identifiers_example : insert_statement 0 account users ≡ (
    let keys : List Text = sort_texts (keys_of account) in
    do
      tbl ← safe_ident users
      cols ← quote_identifiers keys
      ok (insert_text_of tbl cols (placeholders 1 (length keys)), map (param_value 0 account) keys))
insert_statement-quote_identifiers_example = insert_statement-quote_identifiers 0 account users

update_statement-quote_identifiers_example : update_statement 0 account users filter bounds ≡ (
    let keys : List Text = sort_texts (keys_of account) in
    do
      tbl ← safe_ident users
      cols ← quote_identifiers keys
      w ← convert_where filter (suc (length keys)) bounds
      ok (
        codes "UPDATE "
            ++ (tbl ++ (codes " SET " ++ (listed (settings 1 cols) ++ (codes " WHERE " ++ w.0)))),
        map (param_value 0 account) keys ++ w.1,
      ))
update_statement-quote_identifiers_example =
    update_statement-quote_identifiers 0 account users filter bounds

generate_multi_insert-IsMultiInsert_example :
    IsMultiInsert numbers
      (codes "people")
      (person 1 2)
      (some (person 1 2) ∷ some (person 3 0) ∷ [])
      (
        codes "INSERT INTO \"people\" (\"name\", \"age\") VALUES ($1, $2), ($3, DEFAULT)",
        1 ∷ 2 ∷ 3 ∷ [],
      )
generate_multi_insert-IsMultiInsert_example =
    generate_multi_insert-IsMultiInsert numbers (codes "people") (person 1 2)
      (some (person 1 2) ∷ some (person 3 0) ∷ []) people_inserted

convert_mysql_params-one_pass_example :
    convert_mysql_params 0 search maps
    ≡ (one_pass false search, map (param_value 0 (merge_named_params maps)) (find_params search))
convert_mysql_params-one_pass_example = convert_mysql_params-one_pass 0 search maps

mysql_users_quoted : safe_mysql_ident users ≡ ok (codes "`public`.`users`")
unfolding safe_mysql_ident mysql_trimmed trim_space trim_left is_space quote_parts split
    is_mysql_identifier is_word_char all join
mysql_users_quoted = refl

safe_mysql_ident-QuotedName_example :
    QuotedName b'`' IsMysqlSegment (codes "`public`.`users`")
    × (without b'`' (codes "`public`.`users`") ≡ trim_space users)
safe_mysql_ident-QuotedName_example = safe_mysql_ident-QuotedName users mysql_users_quoted

-- Three documents, each its own sort value.
abbrev stored_docs : List ℕ
stored_docs = 1 ∷ 2 ∷ 3 ∷ []

abbrev sort_value : ℕ → ℕ
sort_value d = d

abbrev search_stored : Bool → Option ℕ → ℕ → Reply ℕ
search_stored ids none n = page (take n stored_docs) 3
search_stored ids (some d) n = page (take n (drop_hits d stored_docs)) 3

search_stored-Pages : Pages sort_value search_stored stored_docs
search_stored-Pages ids zero n h = (3, refl, λ _. omega arith)
search_stored-Pages ids (suc zero) n h = (3, refl, λ _. omega arith)
search_stored-Pages ids (suc (suc zero)) n h = (3, refl, λ _. omega arith)
search_stored-Pages ids (suc (suc (suc zero))) n h = (3, refl, λ _. omega arith)
search_stored-Pages ids (suc (suc (suc (suc p)))) n h = absurd (omega arith)

-- Documents that are numbers in a row; more than fit one page.
unfoldable count_from : ℕ → ℕ → List ℕ
count_from a zero = []
count_from a (suc n) = a ∷ count_from (suc a) n

length-count_from : (a n : ℕ) → length (count_from a n) ≡ n
unfolding count_from
length-count_from a zero = refl
length-count_from a (suc n) = ap suc (length-count_from (suc a) n)

get_elem?-count_from : (a n i d : ℕ) → get_elem? (count_from a n) i ≡ some d → d ≡ a + i
unfolding count_from
get_elem?-count_from a zero i d h = absurd (cc)
get_elem?-count_from a (suc n) zero d h = ground arith
get_elem?-count_from a (suc n) (suc i) d h = omega (arith, get_elem?-count_from (suc a) n i d h)

abbrev counted_docs : List ℕ
counted_docs = count_from 0 10003

counted_docs-Ranked : Ranked sort_value ltb counted_docs
counted_docs-Ranked i j d e g h =
    let first : d ≡ i = omega (arith, get_elem?-count_from 0 10003 i d g) in
    let second : e ≡ j = omega (arith, get_elem?-count_from 0 10003 j e h) in
    rw (first, second) refl

-- A server that stops its count of the matches at 10,000.
abbrev search_counted : Bool → Option ℕ → ℕ → Reply ℕ
search_counted ids none n = page (take n counted_docs) 10000
search_counted ids (some s) n = page (take n (behind sort_value ltb s counted_docs)) 10000

search_counted-Answers : Answers sort_value ltb search_counted counted_docs
search_counted-Answers =
    (λ ids n. (10000, refl, λ _. omega arith), λ ids s n. (10000, refl, λ _. omega arith))

absent_is_valid : absent ≢ invalid
absent_is_valid e = cc

get_documents-slice_example :
    get_documents_with_search_after sort_value search_counted 10003 absent false 10001 1
    ≡ done (take 1 (drop_hits 10001 counted_docs))
get_documents-slice_example =
    get_documents-slice sort_value ltb search_counted counted_docs 10003 10001 1 absent
      counted_docs-Ranked search_counted-Answers absent_is_valid
      (omega (arith, length-count_from 0 10003)) (omega arith)

-- Pairs of documents with one sort value; the last of the first page is one of a pair.
abbrev paired : ℕ → ℕ
paired d = (d + 1) / 2

abbrev search_paired : Bool → Option ℕ → ℕ → Reply ℕ
search_paired ids none n = page (take n counted_docs) 10000
search_paired ids (some s) n = page (take n (behind paired ltb s counted_docs)) 10000

search_paired-Answers : Answers paired ltb search_paired counted_docs
search_paired-Answers =
    (λ ids n. (10000, refl, λ _. omega arith), λ ids s n. (10000, refl, λ _. omega arith))

counted_last : last_of (take 10000 counted_docs) ≡ some 9999
counted_last =
    let (d, l, g) = last-take counted_docs 9999 (omega (arith, length-count_from 0 10003)) in
    l ∙ ap some (omega (arith, get_elem?-count_from 0 10003 9999 d g))

ties_are_skipped_example :
    let rest = take 2 (behind paired ltb 5000 counted_docs) in
    (get_documents_with_search_after paired search_paired 3 absent false 0 10002
      ≡ done (take 10000 counted_docs ++ rest))
    × All (λ e. ltb 5000 (paired e) ≡ true) rest
ties_are_skipped_example =
    ties_are_skipped paired search_paired ltb counted_docs search_paired-Answers 3 1 9999 absent
      absent_is_valid (omega (arith, length-count_from 0 10003)) counted_last (omega arith)
      (omega arith)

jump_beyond_panics_example :
    get_documents_with_search_after sort_value search_stored 1 absent false 20000 1 ≡ panic
jump_beyond_panics_example =
    jump_beyond_panics sort_value search_stored stored_docs search_stored-Pages 1 20000 1 false
      (omega arith) (omega arith) (omega arith)

-- Scroll ids that are positions, with pages of two.
abbrev scroll_stored : ℕ → ScrollReply ℕ ℕ
scroll_stored p = scrolled (take 2 (drop_hits p stored_docs)) (some (p + 2))

abbrev position : ℕ → ℕ
position p = p

scroll_stored-Scrolls : Scrolls scroll_stored 2 stored_docs position
scroll_stored-Scrolls p = refl

scroll_loop-slice_example :
    Returns scroll_stored 2 stored_docs position
      (scroll_loop scroll_stored false 2 4 (at_page scroll_stored 2 stored_docs position 0 1 2 []))
      ([] ++ take 2 (drop_hits 1 (drop_hits 0 stored_docs)))
scroll_loop-slice_example =
    scroll_loop-slice scroll_stored 2 stored_docs position scroll_stored-Scrolls 4 0 1 2 []
      (omega arith) (omega arith) (omega arith)
