-- ===== src/Storage/Postgres/Named/Run.antt =====
-- The whole run of ConvertQueryAndNamedParams.
use photon.Base.{ℕ, ◌≡◌, true, List, [], ◌∷◌, ◌++◌, some, All}
use photon.Base.Dict.{Dict, get}
use photon.Storage.Text.{Text, text_discrete}
use photon.Storage.Postgres.Named.{Converter, Params}
use photon.Storage.Postgres.Named.Pieces.{Piece, originals, all_shown}
use photon.Storage.Postgres.Named.Binding.{IsTidy, Unquoted, quote_free, Numbered, Valued, Inv}

-- Every piece of a row begins where a parameter begins, or is short.
abbrev pub Tidy : List Piece → Type 0
Tidy [] = Unit
Tidy (p ∷ ps) = IsTidy (originals (p ∷ ps)) p × Tidy ps

module _ {V : Type 0} (nil : V) (params : Params V) where
  record Run (text : Text) (c d : Converter V) : Type 0 where
    pieces : List Piece
    source : originals pieces ≡ text
    written : d.out ≡ c.out ++ all_shown pieces
    inv : Inv nil params d
    grows :
        (token : Text) (pos : ℕ)
        → get text_discrete token c.seen ≡ some pos
        → get text_discrete token d.seen ≡ some pos
    numbered : All (Numbered d.seen) pieces
    tidy : Unquoted c → quote_free text ≡ true → Tidy pieces

-- How an output and its values come from a query: the query is a row of pieces, the output is the
-- same row with the number of a position in place of each parameter, one number for one name, and
-- the value at that position is the value of the parameter.
pub record IsConversion {V : Type 0} (nil : V) (params : Params V) (query : Text)
    (result : Text × List V) : Type 0 where
  pieces : List Piece
  numbers : Dict Text ℕ
  source : originals pieces ≡ query
  written : result.0 ≡ all_shown pieces
  numbered : All (Numbered numbers) pieces
  tidy : quote_free query ≡ true → Tidy pieces
  valued :
      (token : Text) (pos : ℕ)
      → get text_discrete token numbers ≡ some pos
      → Valued nil params result.1 token pos
