-- ===== src/Storage/Fields.antt =====
-- The fields of a struct as the helpers of storage/postgres and storage/mysql see them by
-- reflection, their `db` tags, and types.IsEmpty of utils/types/empty.go.
use photon.Base.{
  ℕ, Bool, true, false, ◌&&◌, ◌||◌, ◌==◌, if◌then◌else◌, List, [], ◌∷◌, ite, Option, none, some,
}
use photon.Storage.Text.{Text, codes, split, text_discrete}
use photon.Storage.Result.{Result, ok}
use photon.Storage.Identifiers.{is_empty}

-- The dynamic type of a value, with what IsEmpty asks of it: whether a pointer or map is nil, the
-- lengths, and for the others whether the value is deeply equal to the zero of its type.
pub data Shape : Type 0 where
  text : Text → Shape
  nil_value : Shape
  pointer : Bool → Shape
  map_value : Bool → ℕ → Shape
  sequence : ℕ → Shape
  other : Bool → Shape

unfoldable pub is_empty_value : Shape → Bool
is_empty_value (text s) = is_empty s
is_empty_value nil_value = true
is_empty_value (pointer is_nil) = is_nil
is_empty_value (map_value is_nil n) = is_nil || n == 0
is_empty_value (sequence n) = n == 0
is_empty_value (other is_zero) = is_zero

-- A field: its `db` tag (empty if there is none), its value, and whether its kind is Struct.
pub record Field (V : Type 0) : Type 0 where
  pub tag : Text
  pub value : V
  pub is_struct : Bool

unfoldable pub has_part : Text → List Text → Bool
has_part t [] = false
has_part t (p ∷ ps) = let rest = has_part t ps in ite (text_discrete p t) true rest

abbrev pub tag_parts : Text → List Text
tag_parts tag = split b',' tag

abbrev pub first_part : List Text → Text
first_part [] = []
first_part (p ∷ ps) = p

-- dbTagName
unfoldable pub db_tag_name : Text → Option Text
db_tag_name tag =
    if is_empty tag
    then none
    else ite (text_discrete (first_part (tag_parts tag)) (codes "-")) none
        (some (first_part (tag_parts tag)))

-- What the helpers ask of the values: their shape, and `json.Marshal` of a value, as a string.
pub record Reflection (V : Type 0) : Type 0 where
  pub shape : V → Shape
  pub marshal : V → Result V
  pub nil : V

module _ {V : Type 0} (r : Reflection V) where
  abbrev pub omitted : Field V → Bool
  omitted f = has_part (codes "omitempty") (tag_parts f.tag) && is_empty_value (r.shape f.value)

  -- The value that is stored: a struct marked `marshaljson` is marshalled.
  abbrev pub stored : Field V → Result V
  stored f =
      if has_part (codes "marshaljson") (tag_parts f.tag) && f.is_struct
      then r.marshal f.value
      else ok f.value
