-- ===== src/Storage/Postgres/Statements.antt =====
-- The statements of storage/postgres/pghelper.go for one record: InsertFromMap, UpdateFromMap,
-- DeleteByPrimaryKey and SoftDeleteByPrimaryKey. A Go map is an association list.
pub mod Laws
use photon.Base.{ℕ, suc, ◌+◌, List, [], ◌∷◌, ◌++◌, Option, none, some}
use photon.Base.Int.{ℤ}
use photon.Storage.Text.{Text, codes, join, sort_texts}
use photon.Storage.Result.{
  Result, ok, err, empty_data, ◌>>=◌, Exec, context, inserted, affected, exec_failed, rows_failed,
  Reply, failed, done, or_zero,
}
use photon.Storage.Postgres.Ident.{safe_ident}
use photon.Storage.Postgres.Where.{placeholder, convert_where}
use photon.Storage.Postgres.Named.{Params, param_value}

abbrev pub keys_of : {V : Type 0} → Params V → List Text
keys_of [] = []
keys_of ((k, v) ∷ m) = k ∷ keys_of m

abbrev pub with_data : {V : Type 0} → Params V → Result (Params V)
with_data [] = err empty_data
with_data (e ∷ m) = ok (e ∷ m)

-- `cols`, `phs` and `vals` of an insertion
pub record Columns (V : Type 0) : Type 0 where
  pub cols : List Text
  pub phs : List Text
  pub vals : List V

-- `setParts`, `values` and `argPos` of an update
pub record Settings (V : Type 0) : Type 0 where
  pub set_parts : List Text
  pub values : List V
  pub arg_pos : ℕ

abbrev pub listed : List Text → Text
listed texts = join (codes ", ") texts

abbrev pub insert_text_of : Text → List Text → List Text → Text
insert_text_of tbl cols phs =
    codes "INSERT INTO "
    ++ (tbl ++ (codes " (" ++ (listed cols ++ (codes ") VALUES (" ++ (listed phs ++ codes ")")))))

module _ {V : Type 0} (nil : V) (data_map : Params V) where
  unfoldable pub insert_columns : ℕ → List Text → Result (Columns V)
  insert_columns i [] = ok (record { cols = []; phs = []; vals = [] })
  insert_columns i (col ∷ keys) = do
    qc ← safe_ident col
    rest ← insert_columns (suc i) keys
    ok (record {
      cols = qc ∷ rest.cols;
      phs = placeholder (i + 1) ∷ rest.phs;
      vals = param_value nil data_map col ∷ rest.vals;
    })

  unfoldable pub set_columns : ℕ → List Text → Result (Settings V)
  set_columns arg_pos [] = ok (record { set_parts = []; values = []; arg_pos = arg_pos })
  set_columns arg_pos (col ∷ keys) = do
    qc ← safe_ident col
    rest ← set_columns (suc arg_pos) keys
    ok (record {
      set_parts = (qc ++ (codes " = " ++ placeholder arg_pos)) ∷ rest.set_parts;
      values = param_value nil data_map col ∷ rest.values;
      arg_pos = rest.arg_pos;
    })

  -- The statement and its values
  unfoldable pub insert_statement : Text → Result (Text × List V)
  insert_statement table_name = do
    tbl ← safe_ident table_name
    c ← insert_columns 0 (sort_texts (keys_of data_map))
    ok (insert_text_of tbl c.cols c.phs, c.vals)

  unfoldable pub update_statement : Text → Text → List V → Result (Text × List V)
  update_statement table_name where_clause params = do
    tbl ← safe_ident table_name
    s ← set_columns 1 (sort_texts (keys_of data_map))
    w ← convert_where where_clause s.arg_pos params
    ok (
      codes "UPDATE "
          ++ (tbl ++ (codes " SET " ++ (listed s.set_parts ++ (codes " WHERE " ++ w.0)))),
      s.values ++ w.1,
    )

module _ {V : Type 0} (nil as_true : V) (dbctx : Option (Exec V)) where
  unfoldable pub insert_from_map : Text → Params V → Result (ℤ × ℤ)
  insert_from_map table_name data_map = do
    exec ← context dbctx
    given ← with_data data_map
    q ← insert_statement nil given table_name
    inserted (exec q.0 q.1)

  unfoldable pub update_from_map : Text → Params V → Text → List V → Result ℤ
  update_from_map table_name data_map where_clause params = do
    exec ← context dbctx
    given ← with_data data_map
    q ← update_statement nil given table_name where_clause params
    affected (exec q.0 q.1)

  unfoldable pub delete_by_primary_key : Text → Text → V → Result ℤ
  delete_by_primary_key table_name pk_column pk_value = do
    exec ← context dbctx
    tbl ← safe_ident table_name
    pk ← safe_ident pk_column
    affected (
        exec (codes "DELETE FROM " ++ (tbl ++ (codes " WHERE " ++ (pk ++ codes " = $1"))))
          (pk_value ∷ []))

  unfoldable pub soft_delete_by_primary_key : Text → Text → Text → V → Result ℤ
  soft_delete_by_primary_key table_name delete_col pk_col value = do
    exec ← context dbctx
    tbl ← safe_ident table_name
    del ← safe_ident delete_col
    pk ← safe_ident pk_col
    affected (
        exec
          (codes "UPDATE "
            ++ (tbl ++ (codes " SET " ++ (del ++ (codes " = $1 WHERE " ++ (pk ++ codes " = $2"))))))
          (as_true ∷ value ∷ []))

  abbrev written : Reply → Result (ℤ × ℤ)
  written (failed e) = err (exec_failed e)
  written (done rows last) = elim rows.failure [
    | some e ↦ err (rows_failed e)
    | none ↦ ok (rows.value, or_zero last)
  ]

  unfoldable pub execute_write_query : Text → List V → Result (ℤ × ℤ)
  execute_write_query query params = do exec ← context dbctx; written (exec query params)
