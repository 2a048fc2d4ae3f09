-- ===== src/Storage/Postgres/Structs.antt =====
-- InsertFromStruct and MultiInsertFromStructsArray of storage/postgres/pghelper.go. A row is the
-- list of its fields, or `none` if it is no struct; the rows have one type.
pub mod Positions
use photon.Base.{ℕ, suc, if◌then◌else◌, List, [], ◌∷◌, ◌++◌, Option, none, some, map}
use photon.Base.Int.{ℤ}
use photon.Base.Dict.{Dict, get, put}
use photon.Storage.Text.{Text, codes, text_discrete}
use photon.Storage.Result.{
  Result, ok, err, not_struct, no_fields, empty_data, ◌>>=◌, Exec, context, inserted, exec_failed,
  rows_failed, Reply, failed, done,
}
use photon.Storage.Fields.{Field, Reflection, db_tag_name, omitted, stored}
use photon.Storage.Postgres.Ident.{safe_ident, quote_identifiers}
use photon.Storage.Postgres.Where.{placeholder}
use photon.Storage.Postgres.Statements.{Columns, listed, insert_text_of}

abbrev pub Row : Type 0 → Type 0
Row V = Option (List (Field V))

abbrev pub struct_of : {V : Type 0} → Row V → Result (List (Field V))
struct_of none = err not_struct
struct_of (some fields) = ok fields

module _ {V : Type 0} (r : Reflection V) where
  -- The loop of InsertFromStruct
  unfoldable pub struct_columns : ℕ → List (Field V) → Result (Columns V)
  struct_columns arg_pos [] = ok (record { cols = []; phs = []; vals = [] })
  struct_columns arg_pos (f ∷ fields) =
      let skipped = struct_columns arg_pos fields in
      let later = struct_columns (suc arg_pos) fields in
      elim (db_tag_name f.tag) [
        | none ↦ skipped
        | some col ↦ if omitted r f then skipped else (do
          value ← stored r f
          qc ← safe_ident col
          rest ← later
          ok (record {
            cols = qc ∷ rest.cols;
            phs = placeholder arg_pos ∷ rest.phs;
            vals = value ∷ rest.vals;
          }))
      ]

  abbrev pub some_columns : Columns V → Result (Columns V)
  some_columns c = elim c.cols [ [] ↦ err no_fields | _ ↦ ok c ]

  unfoldable pub insert_from_struct : Option (Exec V) → Text → Row V → Result (ℤ × ℤ)
  insert_from_struct dbctx table_name row = do
    exec ← context dbctx
    tbl ← safe_ident table_name
    fields ← struct_of row
    c ← struct_columns 1 fields
    given ← some_columns c
    inserted (exec (insert_text_of tbl given.cols given.phs) given.vals)

  -- dbFields: the names of the tags, each once
  unfoldable pub db_fields : Dict Text Unit → List (Field V) → List Text
  db_fields fields_map [] = []
  db_fields fields_map (f ∷ fields) =
      let same = db_fields fields_map fields in
      elim (db_tag_name f.tag) [
        | none ↦ same
        | some name ↦
            let next = db_fields (put text_discrete name tt fields_map) fields in
            elim (get text_discrete name fields_map) [ some _ ↦ same | none ↦ name ∷ next ]
      ]

  -- fieldValues and fieldIsDefault in one map: `none` is a default.
  unfoldable pub row_values : Dict Text (Option V) → List (Field V) → Result (Dict Text (Option V))
  row_values values [] = ok values
  row_values values (f ∷ fields) =
      let same = row_values values fields in
      elim (db_tag_name f.tag) [
        | none ↦ same
        | some name ↦
            if omitted r f then row_values (put text_discrete name none values) fields else (do
              value ← stored r f
              row_values (put text_discrete name (some value) values) fields)
      ]

  -- A missing name has the value nil and is no default.
  abbrev pub field_value : Dict Text (Option V) → Text → Option V
  field_value values name = elim (get text_discrete name values) [ none ↦ some r.nil | some v ↦ v ]

  -- `placeholders`, `values` and `*argPos` of multiInsertPlaceholders
  pub record Tuple : Type 0 where
    pub marks : List Text
    pub args : List V
    pub arg_pos : ℕ

  abbrev add_default : Tuple → Tuple
  add_default t = record t { marks = codes "DEFAULT" ∷ t.marks }

  abbrev add_value : ℕ → V → Tuple → Tuple
  add_value arg_pos v t = record t { marks = placeholder arg_pos ∷ t.marks; args = v ∷ t.args }

  unfoldable pub tuple_of : ℕ → List (Option V) → Tuple
  tuple_of arg_pos [] = record { marks = []; args = []; arg_pos = arg_pos }
  tuple_of arg_pos (none ∷ vs) = add_default (tuple_of arg_pos vs)
  tuple_of arg_pos (some v ∷ vs) = add_value arg_pos v (tuple_of (suc arg_pos) vs)

  abbrev pub tuple_text : List Text → Text
  tuple_text marks = codes "(" ++ (listed marks ++ codes ")")

  -- `valueTuples`, `allValues` and `argPos`
  pub record Tuples : Type 0 where
    pub value_tuples : List Text
    pub all_values : List V
    pub last_pos : ℕ

  unfoldable pub multi_rows : List Text → ℕ → List (Row V) → Result Tuples
  multi_rows fields arg_pos [] =
      ok (record { value_tuples = []; all_values = []; last_pos = arg_pos })
  multi_rows fields arg_pos (row ∷ rows) = do
    cells ← struct_of row
    values ← row_values [] cells
    t ← ok (tuple_of arg_pos (map (field_value values) fields))
    rest ← multi_rows fields t.arg_pos rows
    ok (record {
      value_tuples = tuple_text t.marks ∷ rest.value_tuples;
      all_values = t.args ++ rest.all_values;
      last_pos = rest.last_pos;
    })

  -- generateMultiInsertQueriesFromStructArray, for the first row and all rows
  unfoldable pub generate_multi_insert : Text → Row V → List (Row V) → Result (Text × List V)
  generate_multi_insert table_name first rows = do
    tbl ← safe_ident table_name
    cells ← struct_of first
    fields ← ok (db_fields [] cells)
    quoted_cols ← quote_identifiers fields
    t ← multi_rows fields 1 rows
    ok (
      codes "INSERT INTO "
          ++ (tbl
              ++ (codes " ("
                  ++ (listed quoted_cols ++ (codes ") VALUES " ++ listed t.value_tuples)))),
      t.all_values,
    )

  abbrev rows_of : Reply → Result ℤ
  rows_of (failed e) = err (exec_failed e)
  rows_of (done rows last) = elim rows.failure [
    | some e ↦ err (rows_failed e)
    | none ↦ ok rows.value
  ]

  unfoldable pub multi_insert_from_structs_array : Option (Exec V) → Text → List (Row V) → Result ℤ
  multi_insert_from_structs_array dbctx table_name [] = err empty_data
  multi_insert_from_structs_array dbctx table_name (first ∷ rows) = do
    exec ← context dbctx
    q ← generate_multi_insert table_name first (first ∷ rows)
    rows_of (exec q.0 q.1)
