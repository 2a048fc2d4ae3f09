-- ===== src/Storage/Postgres/Ident.antt =====
-- safeIdent of storage/postgres/pghelper.go.
use photon.Base.{
  ℕ, ◌≡◌, ◌≢◌, refl, Bool, Bool-cases, true, not, ◌||◌, ◌==◌, if◌then◌else◌, List, [], ◌∷◌, arith,
  All, inl, inr, map,
}
use photon.Storage.Text.{
  Text, codes, trim_space, is_word_char, split, join, all, All-split, split-shape, join-split,
}
use photon.Storage.Result.{Result, ok, err, empty_identifier, invalid_identifier, ◌>>=◌, bind-eq-ok}
use photon.Storage.Identifiers.{
  is_empty, enclose, quote_parts, QuotedName, without, quote_parts-ok, QuotedName-join,
  without-join, without-absent,
}

abbrev is_ident_char : ℕ → Bool
is_ident_char c = is_word_char c || c == b'.'

abbrev pub not_empty : Text → Bool
not_empty p = not (is_empty p)

-- The identifier after `strings.TrimSpace`
unfoldable pub safe_trimmed : Text → Result Text
safe_trimmed ident =
    if is_empty ident
    then err empty_identifier
    else if not (all is_ident_char ident)
    then err (invalid_identifier ident)
    else (do
      parts ← quote_parts not_empty b'"' ident (split b'.' ident)
      ok (join (codes ".") parts))

unfoldable pub safe_ident : Text → Result Text
unfolding safe_trimmed
safe_ident ident = safe_trimmed (trim_space ident)

-- quoteIdentifiers
unfoldable pub quote_identifiers : List Text → Result (List Text)
quote_identifiers [] = ok []
quote_identifiers (c ∷ fields) = do
  qc ← safe_ident c
  quoted_cols ← quote_identifiers fields
  ok (qc ∷ quoted_cols)

abbrev pub IsSegment : Text → Type 0
IsSegment p = (all is_word_char p ≡ true) × (p ≢ [])

segments :
    (ps : List Text)
    → All (λ p. all is_word_char p ≡ true) ps
    → All (λ p. not_empty p ≡ true) ps
    → All IsSegment ps
segments [] a b = tt
segments (p ∷ ps) a b = ((a.0, λ e. absurd (ground (arith, rw e at b.0))), segments ps a.1 b.1)

absent_quotes :
    (ps : List Text) → All (λ p. all is_word_char p ≡ true) ps → All (λ p. without b'"' p ≡ p) ps
absent_quotes [] a = tt
absent_quotes (p ∷ ps) a =
    (without-absent is_word_char b'"' p (unfold is_word_char in refl) a.0, absent_quotes ps a.1)

-- What an accepted identifier went through.
record Accepted (ident out : Text) : Type 0 where
  chars : all is_ident_char ident ≡ true
  shape : out ≡ join (codes ".") (map (enclose b'"') (split b'.' ident))
  parts : All (λ p. not_empty p ≡ true) (split b'.' ident)

trimmed-Accepted : (ident out : Text) → safe_trimmed ident ≡ ok out → Accepted ident out
unfolding safe_trimmed
trimmed-Accepted ident out h = elim (Bool-cases (is_empty ident)) [
  | inl e ↦ absurd (ground (arith, rw e at h))
  | inr e ↦ elim (Bool-cases (all is_ident_char ident)) [
    | inr f ↦ absurd (ground (arith, rw (e, f) at h))
    | inl f ↦
        let (qs, g, k) =
          bind-eq-ok (quote_parts not_empty b'"' ident (split b'.' ident)) _ (rw (e, f) at h) in
        let (m, a) = quote_parts-ok not_empty b'"' ident (split b'.' ident) g in
        record { chars = f; shape = rw m cc; parts = a }
  ]
]

-- An identifier that `safeIdent` accepts comes out as segments between double quotes joined by
-- dots, where each segment is not empty and has letters, digits and underscores only.
pub safe_ident-QuotedName :
    (ident : Text) {out : Text} → safe_ident ident ≡ ok out → QuotedName b'"' IsSegment out
unfolding safe_ident
safe_ident-QuotedName ident {out} h =
    let a = trimmed-Accepted (trim_space ident) out h in
    let (p, ps, e) = split-shape b'.' (trim_space ident) in
    rw (a.shape, e)
      (QuotedName-join b'"' p ps
        (rw e at (segments _ (All-split is_word_char b'.' (trim_space ident) a.chars) a.parts)))

-- Without its double quotes, what `safeIdent` makes of an identifier that it accepts is that
-- identifier, trimmed.
pub unquote-safe_ident :
    (ident : Text) {out : Text} → safe_ident ident ≡ ok out → without b'"' out ≡ trim_space ident
unfolding safe_ident
unquote-safe_ident ident {out} h =
    let a = trimmed-Accepted (trim_space ident) out h in
    rw
      (
        a.shape,
        without-join b'"' (split b'.' (trim_space ident)) (λ e. absurd (omega arith))
            (absent_quotes _ (All-split is_word_char b'.' (trim_space ident) a.chars)),
      )
      (join-split b'.' (trim_space ident))
