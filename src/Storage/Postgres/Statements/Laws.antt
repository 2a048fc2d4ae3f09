-- ===== src/Storage/Postgres/Statements/Laws.antt =====
-- The statements and values of insertions and updates.
use mathlib.Core.List.{Permᴰ}
use mathlib.Core.Path.{ap₂}
use photon.Base.Dict.{get}
use photon.Storage.Sort.{sort_texts-Perm}
use photon.Base.{ℕ, zero, suc, ◌+◌, ◌≡◌, refl, List, [], ◌∷◌, ◌++◌, length, map, arith, inl, inr}
use photon.Storage.Text.{Text, codes, sort_texts, text_discrete}
use photon.Storage.Result.{ok, ◌>>=◌, Result-cases}
use photon.Storage.Postgres.Ident.{safe_ident, quote_identifiers}
use photon.Storage.Postgres.Where.{placeholder, convert_where}
use photon.Storage.Postgres.Named.{Params, param_value, param_value_same}
use photon.Storage.Postgres.Statements.{
  keys_of, listed, insert_text_of, insert_columns, set_columns, insert_statement, update_statement,
}

-- `n` placeholders from a position on
abbrev pub placeholders : ℕ → ℕ → List Text
placeholders start zero = []
placeholders start (suc n) = placeholder start ∷ placeholders (suc start) n

-- The settings of columns, whose placeholders count from a position on
abbrev pub settings : ℕ → List Text → List Text
settings start [] = []
settings start (c ∷ cs) = (c ++ (codes " = " ++ placeholder start)) ∷ settings (suc start) cs

module _ {V : Type 0} (nil : V) (data_map : Params V) where
  insert_columns-quote_identifiers :
      (i start : ℕ) (keys : List Text)
      → start ≡ i + 1
      → insert_columns nil data_map i keys ≡ (do
        cols ← quote_identifiers keys
        ok (record {
          cols = cols;
          phs = placeholders start (length keys);
          vals = map (param_value nil data_map) keys;
        }))
  unfolding insert_columns quote_identifiers
  insert_columns-quote_identifiers i start [] h = refl
  insert_columns-quote_identifiers i start (k ∷ keys) h = elim (Result-cases (safe_ident k)) [
    | inr (e, f) ↦ rw f refl
    | inl (qc, f) ↦ elim (Result-cases (quote_identifiers keys)) [
      | inr (e, g) ↦
          rw (f, insert_columns-quote_identifiers (suc i) (suc start) keys (omega arith), g) refl
      | inl (cs, g) ↦
          rw (f, insert_columns-quote_identifiers (suc i) (suc start) keys (omega arith), g, ← h)
            refl
    ]
  ]

  set_columns-quote_identifiers :
      (start : ℕ) (keys : List Text)
      → set_columns nil data_map start keys ≡ (do
        cols ← quote_identifiers keys
        ok (record {
          set_parts = settings start cols;
          values = map (param_value nil data_map) keys;
          arg_pos = start + length keys;
        }))
  unfolding set_columns quote_identifiers
  set_columns-quote_identifiers start [] = ground arith
  set_columns-quote_identifiers start (k ∷ keys) = elim (Result-cases (safe_ident k)) [
    | inr (e, f) ↦ rw f refl
    | inl (qc, f) ↦ elim (Result-cases (quote_identifiers keys)) [
      | inr (e, g) ↦ rw (f, set_columns-quote_identifiers (suc start) keys, g) refl
      | inl (cs, g) ↦ rw (f, set_columns-quote_identifiers (suc start) keys, g) (ground arith)
    ]
  ]

  one_plus : (n : ℕ) → 1 + n ≡ suc n
  one_plus n = omega arith

  -- What an insertion sends: the sorted keys, quoted, as its columns, the placeholders from `$1` on,
  -- and for each of them the value of the key at its place. The first identifier that is refused is
  -- the error.
  pub insert_statement-quote_identifiers :
      (table_name : Text)
      → insert_statement nil data_map table_name ≡ (
          let keys : List Text = sort_texts (keys_of data_map) in
          do
            tbl ← safe_ident table_name
            cols ← quote_identifiers keys
            ok (
              insert_text_of tbl cols (placeholders 1 (length keys)),
              map (param_value nil data_map) keys,
            ))
  unfolding insert_statement
  insert_statement-quote_identifiers table_name =
      let keys : List Text = sort_texts (keys_of data_map) in
      elim (Result-cases (safe_ident table_name)) [
        | inr (e, f) ↦ rw f refl
        | inl (tbl, f) ↦ elim (Result-cases (quote_identifiers keys)) [
          | inr (e, g) ↦ rw (f, insert_columns-quote_identifiers 0 1 keys refl, g) refl
          | inl (cs, g) ↦ rw (f, insert_columns-quote_identifiers 0 1 keys refl, g) refl
        ]
      ]

  -- An update of a map sends the sorted keys, quoted, as settings with the placeholders from
  -- `$1` on, then the WHERE clause whose question marks are numbered from there; its values are
  -- those of the sorted keys and then the parameters of the clause. It fails with the first
  -- error of the table name, of a key in sorted order, or of the clause.
  pub update_statement-quote_identifiers :
      (table_name where_clause : Text) (params : List V)
      → update_statement nil data_map table_name where_clause params ≡ (
          let keys : List Text = sort_texts (keys_of data_map) in
          do
            tbl ← safe_ident table_name
            cols ← quote_identifiers keys
            w ← convert_where where_clause (suc (length keys)) params
            ok (
              codes "UPDATE "
                  ++ (tbl
                      ++ (codes " SET " ++ (listed (settings 1 cols) ++ (codes " WHERE " ++ w.0)))),
              map (param_value nil data_map) keys ++ w.1,
            ))
  unfolding update_statement
  update_statement-quote_identifiers table_name where_clause params =
      let keys : List Text = sort_texts (keys_of data_map) in
      elim (Result-cases (safe_ident table_name)) [
        | inr (e, f) ↦ rw f refl
        | inl (tbl, f) ↦ elim (Result-cases (quote_identifiers keys)) [
          | inr (e, g) ↦ rw (f, set_columns-quote_identifiers 1 keys, g) refl
          | inl (cs, g) ↦
              rw (f, set_columns-quote_identifiers 1 keys, g, one_plus (length keys)) refl
        ]
      ]

module _ {V : Type 0} (nil : V) where
  map-param_value :
      (d e : Params V) (keys : List Text)
      → ((k : Text) → get text_discrete k d ≡ get text_discrete k e)
      → map (param_value nil d) keys ≡ map (param_value nil e) keys
  map-param_value d e [] h = refl
  map-param_value d e (k ∷ keys) h =
      ap₂ ◌∷◌ (param_value_same nil d e k (h k)) (map-param_value d e keys h)

  -- A map gives one statement, whichever order its keys are walked in.
  pub insert_statement-keys_of :
      (d e : Params V) (table_name : Text)
      → Permᴰ (keys_of d) (keys_of e)
      → ((k : Text) → get text_discrete k d ≡ get text_discrete k e)
      → insert_statement nil d table_name ≡ insert_statement nil e table_name
  insert_statement-keys_of d e table_name p h =
      rw
        (
          insert_statement-quote_identifiers nil d table_name,
          insert_statement-quote_identifiers nil e table_name,
          sort_texts-Perm p,
          map-param_value d e (sort_texts (keys_of e)) h,
        )
        refl
