-- ===== src/Storage/Mysql/Structs.antt =====
-- InsertFromStruct and MultiInsertFromStructsArray of storage/mysql/helper.go. A row is the list of
-- its fields, or `none` if it is no struct or a nil pointer; the rows have one type.
use photon.Base.{◌||◌, if◌then◌else◌, List, [], ◌∷◌, ◌++◌, Option, none, some, ite}
use photon.Base.Int.{ℤ}
use photon.Base.Dict.{Dict, get, put}
use photon.Storage.Text.{Text, codes, text_discrete}
use photon.Storage.Result.{
  Result, ok, err, no_fields, empty_data, ◌>>=◌, Exec, context, exec_failed, rows_failed, Reply,
  failed, done,
}
use photon.Storage.Identifiers.{is_empty}
use photon.Storage.Fields.{Field, Reflection, has_part, tag_parts, first_part, omitted, stored}
use photon.Storage.Postgres.Statements.{Columns, listed, insert_text_of}
use photon.Storage.Postgres.Structs.{Row, struct_of, tuple_text, some_columns}
use photon.Storage.Mysql.{safe_mysql_ident, quote_mysql_identifiers}
use photon.Storage.Mysql.Statements.{mysql_inserted}

-- mysqlDBTagName: no name for no tag, and for the names `-` and "".
unfoldable pub mysql_db_tag_name : Text → Option Text
mysql_db_tag_name tag =
    let name : Text = first_part (tag_parts tag) in
    if is_empty tag || is_empty name
    then none
    else ite (text_discrete name (codes "-")) none (some name)

abbrev some_fields : List Text → Result (List Text)
some_fields [] = err no_fields
some_fields (q ∷ quoted) = ok (q ∷ quoted)

module _ {V : Type 0} (r : Reflection V) where
  -- The record itself is a struct, so every field marked `marshaljson` is marshalled.
  abbrev mysql_stored : Field V → Result V
  mysql_stored f =
      if has_part (codes "marshaljson") (tag_parts f.tag) then r.marshal f.value else ok f.value

  unfoldable pub mysql_struct_columns : List (Field V) → Result (Columns V)
  mysql_struct_columns [] = ok (record { cols = []; phs = []; vals = [] })
  mysql_struct_columns (f ∷ fields) =
      let later = mysql_struct_columns fields in
      if is_empty f.tag || omitted r f then later else (do
        value ← mysql_stored f
        quoted ← safe_mysql_ident (first_part (tag_parts f.tag))
        rest ← later
        ok (record {
          cols = quoted ∷ rest.cols;
          phs = codes "?" ∷ rest.phs;
          vals = value ∷ rest.vals;
        }))

  unfoldable pub mysql_insert_from_struct : Option (Exec V) → Text → Row V → Result (ℤ × ℤ)
  mysql_insert_from_struct dbctx table_name row = do
    tbl ← safe_mysql_ident table_name
    fields ← struct_of row
    c ← mysql_struct_columns fields
    given ← some_columns r c
    exec ← context dbctx
    mysql_inserted (exec (insert_text_of tbl given.cols given.phs) given.vals)

  -- The names of mysqlInsertFields
  unfoldable pub mysql_fields : List (Field V) → List Text
  mysql_fields [] = []
  mysql_fields (f ∷ fields) =
      let rest = mysql_fields fields in
      elim (mysql_db_tag_name f.tag) [ none ↦ rest | some name ↦ name ∷ rest ]

  -- fieldValues and fieldIsDefault in one map: `none` is a default.
  unfoldable pub mysql_row_values :
      Dict Text (Option V) → List (Field V) → Result (Dict Text (Option V))
  mysql_row_values values [] = ok values
  mysql_row_values values (f ∷ fields) =
      let same = mysql_row_values values fields in
      elim (mysql_db_tag_name f.tag) [
        | none ↦ same
        | some name ↦
            if omitted r f
            then mysql_row_values (put text_discrete name none values) fields
            else (do
              value ← stored r f
              mysql_row_values (put text_discrete name (some value) values) fields)
      ]

  -- The placeholders and values of a row: `none` in the map is DEFAULT.
  unfoldable pub mysql_placeholders : Dict Text (Option V) → List Text → List Text × List V
  mysql_placeholders values [] = ([], [])
  mysql_placeholders values (name ∷ fields) =
      let rest = mysql_placeholders values fields in
      elim (get text_discrete name values) [
        | none ↦ (codes "?" ∷ rest.0, r.nil ∷ rest.1)
        | some o ↦ elim o [
          | none ↦ (codes "DEFAULT" ∷ rest.0, rest.1)
          | some v ↦ (codes "?" ∷ rest.0, v ∷ rest.1)
        ]
      ]

  -- `valueStrings` and `allValues`
  unfoldable pub mysql_rows : List Text → List (Row V) → Result (List Text × List V)
  mysql_rows fields [] = ok ([], [])
  mysql_rows fields (row ∷ rows) = do
    cells ← struct_of row
    values ← mysql_row_values [] cells
    rest ← mysql_rows fields rows
    ok (
      tuple_text r (mysql_placeholders values fields).0 ∷ rest.0,
      (mysql_placeholders values fields).1 ++ rest.1,
    )

  unfoldable pub mysql_generate_multi_insert : Text → Row V → List (Row V) → Result (Text × List V)
  mysql_generate_multi_insert table_name first rows = do
    tbl ← safe_mysql_ident table_name
    cells ← struct_of first
    fields ← ok (mysql_fields cells)
    quoted ← quote_mysql_identifiers fields
    quoted_fields ← some_fields quoted
    t ← mysql_rows fields rows
    ok (
      codes "INSERT INTO "
          ++ (tbl ++ (codes " (" ++ (listed quoted_fields ++ (codes ") VALUES " ++ listed t.0)))),
      t.1,
    )

  abbrev mysql_rows_of : Reply → Result ℤ
  mysql_rows_of (failed e) = err (exec_failed e)
  mysql_rows_of (done rows last) = elim rows.failure [
    | some e ↦ err (rows_failed e)
    | none ↦ ok rows.value
  ]

  unfoldable pub mysql_multi_insert : Option (Exec V) → Text → List (Row V) → Result ℤ
  mysql_multi_insert dbctx table_name [] = err empty_data
  mysql_multi_insert dbctx table_name (first ∷ rows) = do
    q ← mysql_generate_multi_insert table_name first (first ∷ rows)
    exec ← context dbctx
    mysql_rows_of (exec q.0 q.1)
