-- ===== src/Storage/Mysql/Statements.antt =====
-- The statements of storage/mysql/helper.go for one record. The hook of operations is called with
-- what is executed and changes nothing. The context is asked for after the statement is made.
use photon.Base.{List, [], ◌∷◌, ◌++◌, Option, none, some, map, if◌then◌else◌}
use photon.Base.Int.{ℤ}
use photon.Storage.Text.{Text, codes, trim_space, sort_texts}
use photon.Storage.Result.{
  Result, ok, err, empty_where, ◌>>=◌, Exec, context, Reply, failed, done, exec_failed, rows_failed,
  or_zero,
}
use photon.Storage.Identifiers.{is_empty}
use photon.Storage.Postgres.Named.{Params, param_value}
use photon.Storage.Postgres.Statements.{Columns, keys_of, with_data, listed, insert_text_of}
use photon.Storage.Mysql.{safe_mysql_ident}

-- A failed `RowsAffected` or `LastInsertId` counts as 0.
abbrev pub mysql_inserted : Reply → Result (ℤ × ℤ)
mysql_inserted (failed e) = err (exec_failed e)
mysql_inserted (done rows last) = ok (or_zero rows, or_zero last)

abbrev mysql_affected : Reply → Result ℤ
mysql_affected (failed e) = err (exec_failed e)
mysql_affected (done rows last) = ok (or_zero rows)

abbrev with_where : Text → Result Text
with_where where_clause =
    if is_empty (trim_space where_clause) then err empty_where else ok where_clause

module _ {V : Type 0} (nil : V) (data_map : Params V) where
  unfoldable pub mysql_columns : List Text → Result (Columns V)
  mysql_columns [] = ok (record { cols = []; phs = []; vals = [] })
  mysql_columns (column ∷ keys) = do
    quoted ← safe_mysql_ident column
    rest ← mysql_columns keys
    ok (record {
      cols = quoted ∷ rest.cols;
      phs = codes "?" ∷ rest.phs;
      vals = param_value nil data_map column ∷ rest.vals;
    })

abbrev set_part : Text → Text
set_part quoted = quoted ++ codes " = ?"

module _ {V : Type 0} (nil : V) (dbctx : Option (Exec V)) where
  unfoldable pub mysql_insert_from_map : Text → Params V → Result (ℤ × ℤ)
  mysql_insert_from_map table_name data_map = do
    tbl ← safe_mysql_ident table_name
    given ← with_data data_map
    c ← mysql_columns nil given (sort_texts (keys_of given))
    exec ← context dbctx
    mysql_inserted (exec (insert_text_of tbl c.cols c.phs) c.vals)

  unfoldable pub mysql_update_from_map : Text → Params V → Text → List V → Result ℤ
  mysql_update_from_map table_name data_map where_text params = do
    tbl ← safe_mysql_ident table_name
    given ← with_data data_map
    where_clause ← with_where where_text
    c ← mysql_columns nil given (sort_texts (keys_of given))
    exec ← context dbctx
    mysql_affected (
        exec
          (codes "UPDATE "
            ++ (tbl
                ++ (codes " SET "
                    ++ (listed (map set_part c.cols) ++ (codes " WHERE " ++ where_clause)))))
          (c.vals ++ params))

  unfoldable pub mysql_delete_by_primary_key : Text → Text → V → Result ℤ
  mysql_delete_by_primary_key table_name pk_column pk_value = do
    tbl ← safe_mysql_ident table_name
    pk ← safe_mysql_ident pk_column
    exec ← context dbctx
    mysql_affected (
        exec (codes "DELETE FROM " ++ (tbl ++ (codes " WHERE " ++ (pk ++ codes " = ?"))))
          (pk_value ∷ []))

  unfoldable pub mysql_soft_delete_by_primary_key : Text → Text → Text → V → Result ℤ
  mysql_soft_delete_by_primary_key table_name delete_col pk_col value = do
    tbl ← safe_mysql_ident table_name
    del ← safe_mysql_ident delete_col
    pk ← safe_mysql_ident pk_col
    exec ← context dbctx
    mysql_affected (
        exec
          (codes "UPDATE "
            ++ (tbl ++ (codes " SET " ++ (del ++ (codes " = 1 WHERE " ++ (pk ++ codes " = ?"))))))
          (value ∷ []))

  abbrev mysql_written : Reply → Result (ℤ × ℤ)
  mysql_written (failed e) = err (exec_failed e)
  mysql_written (done rows last) = elim rows.failure [
    | some e ↦ err (rows_failed e)
    | none ↦ ok (rows.value, or_zero last)
  ]

  unfoldable pub mysql_execute_write_query : Text → List V → Result (ℤ × ℤ)
  mysql_execute_write_query query params = do
    exec ← context dbctx
    mysql_written (exec query params)
