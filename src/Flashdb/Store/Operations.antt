-- ===== src/Flashdb/Store/Operations.antt =====
-- storage/flashdb/store.go: every operation of the store, against the invariant of its shards.
use photon.Base.{ℕ, List, [], ◌∷◌, Bool, false, String, All}
use photon.Base.Dict
use photon.Base.Int.{ℤ, pos}
use photon.Flashdb.Value.{Env, Fields}
use photon.Flashdb.Shard.Room.{IsValid}
use photon.Flashdb.Cell
use photon.Flashdb.Cell.{Cell}
use photon.Flashdb.Cell.Operations.{
  SizesFit, get-IsValid, set-IsValid, delete-IsValid, increment-IsValid, append-IsValid,
  get_ttl-IsValid, set_ttl-IsValid, exists-IsValid,
}
use photon.Flashdb.Store
use photon.Flashdb.Store.{Store}
use photon.Flashdb.Store.Shards.{on_key-IsValid}

-- An act on a store keeps its shards.
abbrev pub Keeps : {R : Type 0} → (Store → Store × R) → Type 0
Keeps f = (s : Store) → All IsValid s.parts → All IsValid (f s).0.parts

module _ (env : Env) (remaining : ℕ → ℤ) where
  pub get-Keeps : (now : ℕ) (k : String) → Keeps (Store.get env now k)
  unfolding Store.get
  get-Keeps now k s v =
      (on_key-IsValid env k [] (Cell.get now k) s (get-IsValid env s.default_ttl remaining now k)
        v).0

  pub set-Keeps :
      SizesFit env
      → (now : ℕ) (k : String) (value : Fields) (ttl : ℤ) → Keeps (Store.set env now k value ttl)
  unfolding Store.set
  set-Keeps fit now k value ttl s v =
      (on_key-IsValid env k false (Store.answered (Cell.set env s.default_ttl now k value ttl)) s
        (λ c w. set-IsValid env s.default_ttl remaining now k value ttl c fit w) v).0

  pub exists-Keeps :
      (now : ℕ) (k : String) (between : Cell → Cell)
      → ((c : Cell) → IsValid c.shard → IsValid (between c).shard)
      → Keeps (Store.exists env now k between)
  unfolding Store.exists
  exists-Keeps now k between keeps s v =
      (on_key-IsValid env k false (Store.answered (Cell.exists now k between)) s
        (exists-IsValid env s.default_ttl remaining now k between keeps) v).0

  pub delete-Keeps : (k : String) → Keeps (Store.delete env k)
  unfolding Store.delete
  delete-Keeps k s v =
      (on_key-IsValid env k false (Store.answered (Cell.delete k)) s
        (delete-IsValid env s.default_ttl remaining k) v).0

  pub increment-Keeps :
      (now : ℕ) (k : String) (offsets : List (String × ℤ))
      → Keeps (Store.increment env now k offsets)
  unfolding Store.increment
  increment-Keeps now k offsets s v =
      (on_key-IsValid env k tt (Cell.increment env now k offsets) s
        (increment-IsValid env s.default_ttl remaining now k offsets) v).0

  pub decrement-Keeps :
      (now : ℕ) (k : String) (offsets : List (String × ℤ))
      → Keeps (Store.decrement env now k offsets)
  unfolding Store.decrement Cell.decrement
  decrement-Keeps now k offsets s v =
      (on_key-IsValid env k tt (Cell.decrement env now k offsets) s
        (increment-IsValid env s.default_ttl remaining now k (Cell.negate_all offsets)) v).0

  pub append-Keeps :
      SizesFit env
      → (now : ℕ) (k : String) (suffixes : List (String × List ℕ))
      → Keeps (Store.append env now k suffixes)
  unfolding Store.append
  append-Keeps fit now k suffixes s v =
      (on_key-IsValid env k tt (Cell.append env now k suffixes) s
        (λ c w. append-IsValid env s.default_ttl remaining now k suffixes c fit w) v).0

  pub get_ttl-Keeps : (now : ℕ) (k : String) → Keeps (Store.get_ttl env remaining now k)
  unfolding Store.get_ttl
  get_ttl-Keeps now k s v =
      (on_key-IsValid env k (pos 0) (Cell.get_ttl remaining now k) s
        (get_ttl-IsValid env s.default_ttl remaining now k) v).0

  pub set_ttl-Keeps : (now : ℕ) (k : String) (ttl : ℤ) → Keeps (Store.set_ttl env now k ttl)
  unfolding Store.set_ttl
  set_ttl-Keeps now k ttl s v =
      (on_key-IsValid env k tt (Cell.set_ttl now k ttl) s
        (set_ttl-IsValid env s.default_ttl remaining now k ttl) v).0

  pub multi_get-Keeps :
      (now : ℕ) (ks : List String) (out : Dict.Dict String Fields)
      → Keeps (Store.multi_get env now ks out)
  unfolding Store.multi_get
  multi_get-Keeps now [] out s v = v
  multi_get-Keeps now (k ∷ ks) out s v =
      multi_get-Keeps now ks _ (Store.get env now k s).0 (get-Keeps now k s v)

  pub multi_delete-Keeps :
      (ks : List String) (out : Dict.Dict String Bool) → Keeps (Store.multi_delete env ks out)
  unfolding Store.multi_delete
  multi_delete-Keeps [] out s v = v
  multi_delete-Keeps (k ∷ ks) out s v =
      multi_delete-Keeps ks _ (Store.delete env k s).0 (delete-Keeps k s v)
