-- ===== src/Storage/Result.antt =====
-- The errors of the helpers in storage/postgres/pghelper.go and storage/mysql/helper.go. An error
-- of the driver or of `json.Marshal` is its message.
use photon.Base.{ℕ, String, ◌≡◌, refl, ◌⊎◌, inl, inr, Option, none, some, List}
use photon.Base.Int.{ℤ, pos}
use photon.Storage.Text.{Text}

pub data SqlError : Type 0 where
  nil_context : SqlError
  empty_identifier : SqlError
  invalid_identifier : Text → SqlError
  empty_data : SqlError
  empty_where : SqlError
  placeholder_mismatch : ℕ → ℕ → SqlError
  not_struct : SqlError
  no_fields : SqlError
  marshal_failed : String → SqlError
  query_failed : String → SqlError
  exec_failed : String → SqlError
  rows_failed : String → SqlError

pub data Result {ℓ} (A : Type ℓ) : Type ℓ where
  ok : A → Result A
  err : SqlError → Result A

module _ {ℓ} {A B : Type ℓ} where
  infixl 5 ◌>>=◌
  abbrev pub ◌>>=◌ : Result A → (A → Result B) → Result B
  ok a >>= f = f a
  err e >>= f = err e

  -- A chain succeeds when each of its parts does.
  pub bind-eq-ok :
      (r : Result A) (f : A → Result B) {b : B}
      → r >>= f ≡ ok b
      → (a : A) × (r ≡ ok a) × (f a ≡ ok b)
  bind-eq-ok (ok a) f h = (a, refl, h)
  bind-eq-ok (err e) f h = cc

pub ok-inj {ℓ} : {A : Type ℓ} {a b : A} → ok a ≡ ok b → a ≡ b
ok-inj e = cc

pub Result-cases {ℓ} :
    {A : Type ℓ} (r : Result A) → ((a : A) × (r ≡ ok a)) ⊎ ((e : SqlError) × (r ≡ err e))
Result-cases (ok a) = inl (a, refl)
Result-cases (err e) = inr (e, refl)

-- A number that the driver answers, with the error that may come with it.
pub record Answer : Type 0 where
  pub value : ℤ
  pub failure : Option String

-- `sql.Result`, or the error of the execution
pub data Reply : Type 0 where
  failed : String → Reply
  done : Answer → Answer → Reply

-- The execution of a statement with its values: `ExecContext`. The nil context is `none`.
abbrev pub Exec : Type 0 → Type 0
Exec V = Text → List V → Reply

abbrev pub context : {V : Type 0} → Option (Exec V) → Result (Exec V)
context none = err nil_context
context (some exec) = ok exec

-- `lastInsertID, err := res.LastInsertId()`, with 0 for an error.
abbrev pub or_zero : Answer → ℤ
or_zero a = elim a.failure [ some e ↦ pos 0 | none ↦ a.value ]

-- What is read from the reply to an insertion, or to an update or a deletion; an error of
-- `RowsAffected` is ignored.
abbrev pub inserted : Reply → Result (ℤ × ℤ)
inserted (failed e) = err (exec_failed e)
inserted (done rows last) = ok (rows.value, or_zero last)

abbrev pub affected : Reply → Result ℤ
affected (failed e) = err (exec_failed e)
affected (done rows last) = ok rows.value
