-- ===== src/Storage/HashKey.antt =====
-- HashKey of storage/postgres/pghelper.go and storage/mysql/helper.go. `fmt`'s %v of a value, which
-- may fail, and SHA-256 with base64 are parameters.
use mathlib.Core.List.{Permᴰ}
use photon.Base.{◌≡◌, refl, List, [], ◌∷◌, ◌++◌}
use photon.Base.Dict.{get}
use photon.Storage.Text.{Text, codes, sort_texts, text_discrete}
use photon.Storage.Sort.{sort_texts-Perm}
use photon.Storage.Result.{Result, ok, ◌>>=◌}
use photon.Storage.Postgres.Named.{Params, param_value, param_value_same}
use photon.Storage.Postgres.Statements.{keys_of}

module _ {V : Type 0} (nil : V) (show : V → Result Text) (hash : Text → Text) where
  -- What is written after the query
  unfoldable pub hashed_args : Params V → List Text → Result Text
  hashed_args args [] = ok []
  hashed_args args (k ∷ keys) = do
    v ← show (param_value nil args k)
    rest ← hashed_args args keys
    ok (k ++ (codes ":" ++ (v ++ (codes "|" ++ rest))))

  unfoldable pub hash_key : Text → Params V → Result Text
  hash_key query args = do t ← hashed_args args (sort_texts (keys_of args)); ok (hash (query ++ t))

  hashed_args_same :
      (a b : Params V) (keys : List Text)
      → ((k : Text) → get text_discrete k a ≡ get text_discrete k b)
      → hashed_args a keys ≡ hashed_args b keys
  unfolding hashed_args
  hashed_args_same a b [] h = refl
  hashed_args_same a b (k ∷ keys) h =
      rw (param_value_same nil a b k (h k), hashed_args_same a b keys h) refl

  -- The key does not depend on the order in which the arguments are walked.
  pub hash_key-keys_of :
      (query : Text) (a b : Params V)
      → Permᴰ (keys_of a) (keys_of b)
      → ((k : Text) → get text_discrete k a ≡ get text_discrete k b)
      → hash_key query a ≡ hash_key query b
  unfolding hash_key
  hash_key-keys_of query a b p h =
      rw (sort_texts-Perm p, hashed_args_same a b (sort_texts (keys_of b)) h) refl
