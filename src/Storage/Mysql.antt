-- ===== src/Storage/Mysql.antt =====
-- storage/mysql/helper.go: identifiers, named parameters and the statements for one record.
pub mod Ident
pub mod Named
pub mod Statements
pub mod Structs
use photon.Base.{Bool, false, not, ◌&&◌, leb, if◌then◌else◌, List, [], ◌∷◌}
use photon.Storage.Text.{Text, codes, trim_space, is_word_char, split, join, all}
use photon.Storage.Result.{Result, ok, err, empty_identifier, ◌>>=◌}
use photon.Storage.Identifiers.{is_empty, quote_parts}

-- mysqlIdentifierRegexp: a letter or an underscore, then letters, digits and underscores.
unfoldable pub is_mysql_identifier : Text → Bool
is_mysql_identifier [] = false
is_mysql_identifier (c ∷ s) = is_word_char c && not (leb b'0' c && leb c b'9') && all is_word_char s

-- safeMySQLIdent after `strings.TrimSpace`
unfoldable pub mysql_trimmed : Text → Result Text
mysql_trimmed ident = if is_empty ident then err empty_identifier else (do
  parts ← quote_parts is_mysql_identifier b'`' ident (split b'.' ident)
  ok (join (codes ".") parts))

unfoldable pub safe_mysql_ident : Text → Result Text
safe_mysql_ident ident = mysql_trimmed (trim_space ident)

unfoldable pub quote_mysql_identifiers : List Text → Result (List Text)
quote_mysql_identifiers [] = ok []
quote_mysql_identifiers (field ∷ fields) = do
  identifier ← safe_mysql_ident field
  quoted ← quote_mysql_identifiers fields
  ok (identifier ∷ quoted)
