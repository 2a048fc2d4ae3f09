-- ===== src/Storage/Postgres/Structs/Positions.antt =====
-- The positions in the statements made from structs.
use photon.Base.{
  ℕ, suc, ◌+◌, ◌≡◌, refl, ap, sym, subst, Bool, true, false, List, [], ◌∷◌, ◌++◌, Option, none,
  some, length, length-append, map, arith,
}
use photon.Base.Dict.{Dict}
use photon.Storage.Text.{Text, codes}
use photon.Storage.Result.{ok, bind-eq-ok, ok-inj}
use photon.Storage.Fields.{Field, Reflection}
use photon.Storage.Postgres.Where.{placeholder}
use photon.Storage.Postgres.Statements.{listed}
use photon.Storage.Postgres.Ident.{safe_ident, quote_identifiers}
use photon.Storage.Postgres.Structs.{
  Row, Tuple, Tuples, tuple_of, tuple_text, multi_rows, row_values, field_value, db_fields,
  generate_multi_insert,
}

-- What stands for a field in a tuple: DEFAULT, or a placeholder.
abbrev pub mark_text : Option ℕ → Text
mark_text none = codes "DEFAULT"
mark_text (some n) = placeholder n

-- The positions of the marks count up by one from a start, and end before the other number.
abbrev pub Counts : ℕ → List (Option ℕ) → ℕ → Type 0
Counts start [] end = start ≡ end
Counts start (none ∷ ms) end = Counts start ms end
Counts start (some n ∷ ms) end = (n ≡ start) × Counts (suc start) ms end

Counts-append :
    (a b c : ℕ) (ms ns : List (Option ℕ)) → Counts a ms b → Counts b ns c → Counts a (ms ++ ns) c
Counts-append a b c [] ns h k = rw h k
Counts-append a b c (none ∷ ms) ns h k = Counts-append a b c ms ns h k
Counts-append a b c (some n ∷ ms) ns h k = (h.0, Counts-append (suc a) b c ms ns h.1 k)

-- The marks and arguments of one tuple
abbrev given : {V : Type 0} → List (Option V) → List V
given [] = []
given (none ∷ vs) = given vs
given (some v ∷ vs) = v ∷ given vs

abbrev is_given {ℓ} : {A : Type ℓ} → Option A → Bool
is_given none = false
is_given (some a) = true

record IsTuple {V : Type 0} (r : Reflection V) (start : ℕ) (vs : List (Option V)) (t : Tuple r)
    : Type 0 where
  positions : List (Option ℕ)
  shown : map mark_text positions ≡ t.marks
  counts : Counts start positions t.arg_pos
  same : map is_given positions ≡ map is_given vs
  args : t.args ≡ given vs
  total : t.arg_pos ≡ start + length (given vs)

module _ {V : Type 0} (r : Reflection V) where
  tuple_of-IsTuple : (start : ℕ) (vs : List (Option V)) → IsTuple r start vs (tuple_of r start vs)
  unfolding tuple_of
  tuple_of-IsTuple start [] = record {
    positions = [];
    shown = refl;
    counts = refl;
    same = refl;
    args = refl;
    total = omega arith;
  }
  tuple_of-IsTuple start (none ∷ vs) =
      let t = tuple_of-IsTuple start vs in
      record {
        positions = none ∷ t.positions;
        shown = rw t.shown refl;
        counts = t.counts;
        same = rw t.same refl;
        args = t.args;
        total = t.total;
      }
  tuple_of-IsTuple start (some v ∷ vs) =
      let t = tuple_of-IsTuple (suc start) vs in
      record {
        positions = some start ∷ t.positions;
        shown = rw t.shown refl;
        counts = (refl, t.counts);
        same = rw t.same refl;
        args = rw t.args refl;
        total = omega (arith, t.total);
      }

abbrev flat {ℓ} : {A : Type ℓ} → List (List A) → List A
flat [] = []
flat (l ∷ ls) = l ++ flat ls

given-append : {V : Type 0} (vs ws : List (Option V)) → given (vs ++ ws) ≡ given vs ++ given ws
given-append [] ws = refl
given-append (none ∷ vs) ws = given-append vs ws
given-append (some v ∷ vs) ws = ap (λ l. v ∷ l) (given-append vs ws)

-- The cells of a row, in the order of the columns: `none` for an omitted field
abbrev CellsOf : {V : Type 0} (r : Reflection V) → List Text → Row V → List (Option V) → Type 0
CellsOf r fields none vs = ⊥
CellsOf r fields (some cells) vs =
    (values : Dict Text (Option _)) × (row_values r [] cells ≡ ok values)
    × (vs ≡ map (field_value r values) fields)

abbrev AllCells :
    {V : Type 0} (r : Reflection V) → List Text → List (Row V) → List (List (Option V)) → Type 0
AllCells r fields [] [] = Unit
AllCells r fields (row ∷ rows) (vs ∷ vss) = CellsOf r fields row vs × AllCells r fields rows vss
AllCells r fields _ _ = ⊥

-- How the tuples come from the rows: their marks are numbered without a gap from a start, DEFAULT
-- stands for the omitted fields, and the values are those of the other fields in the same order.
pub record IsTuples {V : Type 0} (r : Reflection V) (start : ℕ) (fields : List Text)
    (rows : List (Row V)) (t : Tuples r) : Type 0 where
  cells : List (List (Option V))
  positions : List (List (Option ℕ))
  read : AllCells r fields rows cells
  shown : map (λ ms. tuple_text r (map mark_text ms)) positions ≡ t.value_tuples
  counts : Counts start (flat positions) t.last_pos
  same : map (λ ms. map is_given ms) positions ≡ map (λ vs. map is_given vs) cells
  sent : t.all_values ≡ given (flat cells)
  total : t.last_pos ≡ start + length t.all_values

module _ {V : Type 0} (r : Reflection V) (fields : List Text) where
  no_rows :
      (start : ℕ)
      → IsTuples r start fields [] (record { value_tuples = []; all_values = []; last_pos = start })
  no_rows start = record {
    cells = [];
    positions = [];
    read = tt;
    shown = refl;
    counts = refl;
    same = refl;
    sent = refl;
    total = omega arith;
  }

  add_row :
      (start : ℕ) (row : Row V) (rows : List (Row V)) (vs : List (Option V)) (rest : Tuples r)
      → CellsOf r fields row vs
      → IsTuples r (tuple_of r start vs).arg_pos fields rows rest
      → IsTuples r start fields (row ∷ rows) (record {
        value_tuples = tuple_text r (tuple_of r start vs).marks ∷ rest.value_tuples;
        all_values = (tuple_of r start vs).args ++ rest.all_values;
        last_pos = rest.last_pos;
      })
  add_row start row rows vs rest c k =
      let t = tuple_of-IsTuple r start vs in
      record {
        cells = vs ∷ k.cells;
        positions = t.positions ∷ k.positions;
        read = (c, k.read);
        shown = rw (k.shown, t.shown) refl;
        counts =
            Counts-append start _ rest.last_pos t.positions (flat k.positions) t.counts k.counts;
        same = rw (k.same, t.same) refl;
        sent = rw (given-append vs (flat k.cells), t.args, k.sent) refl;
        total = omega (
          arith,
          t.total,
          k.total,
          ap length t.args,
          length-append (tuple_of r start vs).args rest.all_values,
        );
      }

  pub multi_rows-IsTuples :
      (start : ℕ) (rows : List (Row V)) {t : Tuples r}
      → multi_rows r fields start rows ≡ ok t
      → IsTuples r start fields rows t
  unfolding multi_rows
  multi_rows-IsTuples start [] {t} h = subst (IsTuples r start fields []) (ok-inj h) (no_rows start)
  multi_rows-IsTuples start (none ∷ rows) h = absurd (cc h)
  multi_rows-IsTuples start (some cells ∷ rows) {t} h =
      let (values, e, f) = bind-eq-ok (row_values r [] cells) _ h in
      let vs : List (Option V) = map (field_value r values) fields in
      let (rest, g, k) = bind-eq-ok (multi_rows r fields (tuple_of r start vs).arg_pos rows) _ f in
      subst (IsTuples r start fields (some cells ∷ rows)) (ok-inj k) (
        add_row start (some cells) rows vs rest (values, e, refl)
          (multi_rows-IsTuples (tuple_of r start vs).arg_pos rows g))

-- A generated insertion: its columns are the quoted names of the tags of the first row, and its
-- tuples and values come from all rows, with `$1` as the first position.
pub record IsMultiInsert {V : Type 0} (r : Reflection V) (table_name : Text)
    (cells : List (Field V)) (rows : List (Row V)) (q : Text × List V) : Type 0 where
  tbl : Text
  cols : List Text
  tuples : Tuples r
  table_ok : safe_ident table_name ≡ ok tbl
  cols_ok : quote_identifiers (db_fields r [] cells) ≡ ok cols
  rows_ok : IsTuples r 1 (db_fields r [] cells) rows tuples
  query :
      q.0
      ≡ codes "INSERT INTO "
        ++ (tbl
            ++ (codes " (" ++ (listed cols ++ (codes ") VALUES " ++ listed tuples.value_tuples))))
  values : q.1 ≡ tuples.all_values

-- When the generation of a bulk insertion from structs succeeds, its columns are the quoted names
-- that `dbFields` takes from the first row; every row gives one tuple, in which DEFAULT stands
-- for the omitted fields and the other fields have placeholders; the placeholders of all tuples
-- count up from `$1` without a gap, and the values are those of the same fields in the same
-- order, as many as the placeholders.
pub generate_multi_insert-IsMultiInsert :
    {V : Type 0} (r : Reflection V) (table_name : Text) (cells : List (Field V))
    (rows : List (Row V)) {q : Text × List V}
    → generate_multi_insert r table_name (some cells) rows ≡ ok q
    → IsMultiInsert r table_name cells rows q
unfolding generate_multi_insert
generate_multi_insert-IsMultiInsert r table_name cells rows {q} h =
    let (tbl, e, f) = bind-eq-ok (safe_ident table_name) _ h in
    let (cols, g, k) = bind-eq-ok (quote_identifiers (db_fields r [] cells)) _ f in
    let (t, l, m) = bind-eq-ok (multi_rows r (db_fields r [] cells) 1 rows) _ k in
    record {
      tbl = tbl;
      cols = cols;
      tuples = t;
      table_ok = e;
      cols_ok = g;
      rows_ok = multi_rows-IsTuples r (db_fields r [] cells) 1 rows l;
      query = sym (ap (λ (p : Text × List _). p.0) (ok-inj m));
      values = sym (ap (λ (p : Text × List _). p.1) (ok-inj m));
    }
