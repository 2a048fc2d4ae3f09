-- ===== src/Storage/Mysql/Ident.antt =====
-- What safeMySQLIdent of storage/mysql/helper.go accepts.
use photon.Base.{◌≡◌, refl, Bool-cases, true, List, [], ◌∷◌, arith, All, inl, inr, map, sym}
use photon.Storage.Text.{
  Text, codes, trim_space, is_word_char, split, split-shape, join, join-split, all,
}
use photon.Storage.Result.{ok, bind-eq-ok, ok-inj}
use photon.Storage.Identifiers.{
  is_empty, enclose, quote_parts, QuotedName, without, quote_parts-ok, QuotedName-join,
  without-join, without-absent,
}
use photon.Storage.Mysql.{is_mysql_identifier, mysql_trimmed, safe_mysql_ident}

abbrev pub IsMysqlSegment : Text → Type 0
IsMysqlSegment p = is_mysql_identifier p ≡ true

identifier-all : (p : Text) → is_mysql_identifier p ≡ true → all is_word_char p ≡ true
unfolding is_mysql_identifier all
identifier-all [] h = refl
identifier-all (c ∷ s) h = ground arith

no_backquotes : (ps : List Text) → All IsMysqlSegment ps → All (λ p. without b'`' p ≡ p) ps
no_backquotes [] a = tt
no_backquotes (p ∷ ps) a = (
  without-absent is_word_char b'`' p (unfold is_word_char in refl) (identifier-all p a.0),
  no_backquotes ps a.1,
)

accepted :
    (ident : Text) {out : Text}
    → mysql_trimmed ident ≡ ok out
    → (out ≡ join (codes ".") (map (enclose b'`') (split b'.' ident)))
      × All IsMysqlSegment (split b'.' ident)
unfolding mysql_trimmed
accepted ident {out} h = elim (Bool-cases (is_empty ident)) [
  | inl e ↦ absurd (ground (arith, rw e at h))
  | inr e ↦
      let (qs, g, k) =
        bind-eq-ok (quote_parts is_mysql_identifier b'`' ident (split b'.' ident)) _ (rw e at h) in
      let (m, a) = quote_parts-ok is_mysql_identifier b'`' ident (split b'.' ident) g in
      (rw m (sym (ok-inj k)), a)
]

-- An identifier that `safeMySQLIdent` accepts comes out as segments between backquotes joined by
-- dots, each of which begins with a letter or an underscore and goes on with letters, digits and
-- underscores; without the backquotes it is the identifier, trimmed.
pub safe_mysql_ident-QuotedName :
    (ident : Text) {out : Text}
    → safe_mysql_ident ident ≡ ok out
    → QuotedName b'`' IsMysqlSegment out × (without b'`' out ≡ trim_space ident)
unfolding safe_mysql_ident
safe_mysql_ident-QuotedName ident {out} h =
    let (shape, a) = accepted (trim_space ident) h in
    let (p, ps, e) = split-shape b'.' (trim_space ident) in
    (
      rw (shape, e) (QuotedName-join b'`' p ps (rw e at a)),
      rw
          (
            shape,
            without-join b'`' (split b'.' (trim_space ident)) (λ f. absurd (omega arith))
                (no_backquotes _ a),
          )
          (join-split b'.' (trim_space ident)),
    )
