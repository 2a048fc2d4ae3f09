-- ===== src/Storage/Postgres/Named/Pieces.antt =====
-- The output of the converter of named parameters as pieces of the query.
use mathlib.Core.List.{cons≢nil}
use photon.Base.{
  ℕ, ◌≡◌, ◌≢◌, refl, Bool, Bool-cases, Option-cases, true, false, not, ◌&&◌, ◌||◌, ◌==◌,
  if◌then◌else◌, List, [], ◌∷◌, ◌++◌, Option, none, some, arith, inl, inr,
}
use photon.Storage.Text.{Text, itoa, is_word_char, all, has_prefix, has_prefix-drop, drop}
use photon.Storage.Identifiers.{is_empty}
use photon.Storage.Postgres.Named.{
  Converter, handle_dollar_quote, handle_single_quote, copy_quoted_byte, parse_dollar_tag,
  take_name, after_name, tag_body, open_dollar_quote, starts_with, copy,
}

-- A text that is copied, or a parameter with the position that is written for it.
pub data Piece : Type 0 where
  literal : Text → Piece
  named : Text → ℕ → Piece

abbrev pub original : Piece → Text
original (literal t) = t
original (named token pos) = token

abbrev pub shown : Piece → Text
shown (literal t) = t
shown (named token pos) = b'$' ∷ itoa pos

unfoldable pub originals : List Piece → Text
originals [] = []
originals (p ∷ ps) = original p ++ originals ps

unfoldable pub all_shown : List Piece → Text
all_shown [] = []
all_shown (p ∷ ps) = shown p ++ all_shown ps

-- A round that copies a text and leaves the parameters alone.
pub record Copied {V : Type 0} (text taken : Text) (c d : Converter V) : Type 0 where
  pub not_empty : taken ≢ []
  pub eaten : taken ++ d.rest ≡ text
  pub written : d.out ≡ c.out ++ taken
  pub same_ordered : d.ordered ≡ c.ordered
  pub same_seen : d.seen ≡ c.seen
  pub same_pos : d.arg_pos ≡ c.arg_pos

tag_body-prefix : (s tag : Text) → tag_body s ≡ some tag → has_prefix s tag ≡ true
unfolding tag_body has_prefix
tag_body-prefix [] tag h = ground arith
tag_body-prefix (c ∷ s) tag h = elim (Bool-cases (c == b'$')) [
  | inl e ↦ ground (arith, rw e at h)
  | inr e ↦ elim (Option-cases (tag_body s)) [
    | inl f ↦ ground (arith, rw (e, f) at h)
    | inr (t, f) ↦ ground (arith, rw (e, f) at h, tag_body-prefix s t f)
  ]
]

tag-prefix :
    (text tag : Text) → parse_dollar_tag text ≡ some tag → (has_prefix text tag ≡ true) × (tag ≢ [])
unfolding parse_dollar_tag has_prefix
tag-prefix [] tag h = ground arith
tag-prefix (c ∷ s) tag h = elim (Option-cases (tag_body s)) [
  | inl f ↦ ground (arith, rw f at h)
  | inr (t, f) ↦ elim (Bool-cases (c == b'$')) [
    | inl e ↦ ground (arith, rw (e, f) at h, tag_body-prefix s t f)
    | inr e ↦ ground (arith, rw e at h)
  ]
]

pub name-parts : (s : Text) → take_name s ++ after_name s ≡ s
unfolding take_name after_name
name-parts [] = refl
name-parts (c ∷ s) = ground (arith, name-parts s)

pub name-all : (s : Text) → all is_word_char (take_name s) ≡ true
unfolding take_name all
name-all [] = refl
name-all (c ∷ s) = ground (arith, name-all s)

module _ {V : Type 0} where
  abbrev pub CopiedIf : Text → Converter V → Option (Converter V) → Type 0
  CopiedIf text c none = Unit
  CopiedIf text c (some d) = (taken : Text) × Copied text taken c d

  open-Copied :
      (b : ℕ) (s : Text) (c : Converter V) (o : Option Text)
      → parse_dollar_tag (b ∷ s) ≡ o
      → CopiedIf (b ∷ s) c (open_dollar_quote (b ∷ s) o c)
  unfolding open_dollar_quote
  open-Copied b s c none h = tt
  open-Copied b s c (some tag) h = (
    tag,
    record {
      not_empty = (tag-prefix (b ∷ s) tag h).1;
      eaten = has_prefix-drop (b ∷ s) tag (tag-prefix (b ∷ s) tag h).0;
      written = refl;
      same_ordered = refl;
      same_seen = refl;
      same_pos = refl;
    },
  )

  unless-Copied :
      (b : ℕ) (s : Text) (c : Converter V) (quoted : Bool)
      → CopiedIf
          (b ∷ s)
          c
          (if quoted then none else open_dollar_quote (b ∷ s) (parse_dollar_tag (b ∷ s)) c)
  unless-Copied b s c true = tt
  unless-Copied b s c false = open-Copied b s c _ refl

  pub dollar-Copied :
      (b : ℕ) (s : Text) (c : Converter V) → CopiedIf (b ∷ s) c (handle_dollar_quote b s c)
  unfolding handle_dollar_quote
  dollar-Copied b s c = elim (Bool-cases (c.in_single_quote || not (b == b'$'))) [
    | inl e ↦ rw e tt
    | inr e ↦
        elim (Bool-cases
          (c.in_dollar_quote && not (is_empty c.dollar_tag) && has_prefix (b ∷ s) c.dollar_tag)) [
            | inl f ↦
                rw (e, f)
                  (
                    c.dollar_tag,
                    record {
                      not_empty = λ g. absurd (ground (arith, rw g at f));
                      eaten = has_prefix-drop (b ∷ s) c.dollar_tag (ground (arith, f));
                      written = refl;
                      same_ordered = refl;
                      same_seen = refl;
                      same_pos = refl;
                    },
                  )
            | inr f ↦ rw (e, f) (unless-Copied b s c c.in_dollar_quote)
          ]
  ]

  pub byte-Copied :
      (b : ℕ) (s : Text) (c : Converter V) (in_single in_dollar : Bool) (tag : Text)
      → Copied (b ∷ s) (b ∷ []) c (record (copy (b ∷ []) s c) {
        in_single_quote = in_single;
        in_dollar_quote = in_dollar;
        dollar_tag = tag;
      })
  byte-Copied b s c in_single in_dollar tag = record {
    not_empty = λ e. cons≢nil e;
    eaten = refl;
    written = refl;
    same_ordered = refl;
    same_seen = refl;
    same_pos = refl;
  }

  pub pair-Copied :
      (b d : ℕ) (s : Text) (c : Converter V)
      → starts_with d s ≡ true
      → Copied (b ∷ s) (b ∷ d ∷ []) c (copy (b ∷ d ∷ []) (drop 1 s) c)
  unfolding starts_with drop
  pair-Copied b d [] c h = absurd (ground arith)
  pair-Copied b d (a ∷ s) c h = record {
    not_empty = λ e. cons≢nil e;
    eaten = ground arith;
    written = refl;
    same_ordered = refl;
    same_seen = refl;
    same_pos = refl;
  }

  pub single-Copied :
      (b : ℕ) (s : Text) (c : Converter V) → CopiedIf (b ∷ s) c (handle_single_quote b s c)
  unfolding handle_single_quote
  single-Copied b s c = elim (Bool-cases (c.in_dollar_quote || not (b == b'\''))) [
    | inl e ↦ rw e tt
    | inr e ↦ elim (Bool-cases (c.in_single_quote && starts_with b'\'' s)) [
      | inl f ↦ rw (e, f) (_, pair-Copied b b'\'' s c (ground (arith, f)))
      | inr f ↦ rw (e, f) (_, byte-Copied b s c _ _ _)
    ]
  ]

  pub quoted-Copied :
      (b : ℕ) (s : Text) (c : Converter V) → CopiedIf (b ∷ s) c (copy_quoted_byte b s c)
  unfolding copy_quoted_byte
  quoted-Copied b s c = elim (Bool-cases (not c.in_single_quote && not c.in_dollar_quote)) [
    | inl e ↦ rw e tt
    | inr e ↦ rw e (_, byte-Copied b s c _ _ _)
  ]
