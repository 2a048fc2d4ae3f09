-- ===== src/Storage/Identifiers.antt =====
-- The parts of an identifier, quoted one by one: the loop of safeIdent (storage/postgres) and of
-- safeMySQLIdent (storage/mysql), which differ in the test of a part and in the quotation mark.
use photon.Base.{
  ℕ, ◌≡◌, ◌≢◌, refl, ap, Bool, Bool-cases, true, false, ◌==◌, ==_iff, if◌then◌else◌, List, [], ◌∷◌,
  ◌++◌, map, arith, All, inl, inr,
}
use mathlib.Core.List.{append_assoc, append-nil}
use photon.Storage.Text.{Text, codes, join, all}
use photon.Storage.Result.{Result, ok, err, invalid_identifier, ◌>>=◌, bind-eq-ok}

abbrev pub is_empty : Text → Bool
is_empty [] = true
is_empty (c ∷ s) = false

abbrev pub enclose : ℕ → Text → Text
enclose mark p = mark ∷ p ++ mark ∷ []

unfoldable pub quote_parts : (Text → Bool) → ℕ → Text → List Text → Result (List Text)
quote_parts valid mark ident [] = ok []
quote_parts valid mark ident (p ∷ ps) =
    if valid p
    then (do rest ← quote_parts valid mark ident ps; ok (enclose mark p ∷ rest))
    else err (invalid_identifier ident)

-- A name of quoted segments joined by dots.
pub data QuotedName (mark : ℕ) (Segment : Text → Type 0) : Text → Type 0 where
  segment : {p : Text} → Segment p → QuotedName mark Segment (enclose mark p)
  dotted :
      {p t : Text}
      → Segment p
      → QuotedName mark Segment t
      → QuotedName mark Segment (enclose mark p ++ b'.' ∷ t)

-- A text without a character
unfoldable pub without : ℕ → Text → Text
without d [] = []
without d (c ∷ s) = let rest = without d s in if c == d then rest else c ∷ rest

without-append : (d : ℕ) (s t : Text) → without d (s ++ t) ≡ without d s ++ without d t
unfolding without
without-append d [] t = refl
without-append d (c ∷ s) t = ground (arith, without-append d s t)

module _ (valid : Text → Bool) (mark : ℕ) where
  -- When no part is refused, each of them stands quoted in the result.
  pub quote_parts-ok :
      (ident : Text) (parts : List Text) {qs : List Text}
      → quote_parts valid mark ident parts ≡ ok qs
      → (map (enclose mark) parts ≡ qs) × All (λ p. valid p ≡ true) parts
  unfolding quote_parts
  quote_parts-ok ident [] {qs} h = (cc, tt)
  quote_parts-ok ident (p ∷ ps) {qs} h = elim (Bool-cases (valid p)) [
    | inl e ↦
        let (rest, f, g) = bind-eq-ok (quote_parts valid mark ident ps) _ (rw e at h) in
        let (m, a) = quote_parts-ok ident ps f in (rw m cc, (e, a))
    | inr e ↦ absurd (ground (arith, rw e at h))
  ]

  -- Parts that pass the test are all accepted.
  pub quote_parts-valid :
      (ident : Text) (parts : List Text)
      → All (λ p. valid p ≡ true) parts
      → quote_parts valid mark ident parts ≡ ok (map (enclose mark) parts)
  unfolding quote_parts
  quote_parts-valid ident [] a = refl
  quote_parts-valid ident (p ∷ ps) a = rw (a.0, quote_parts-valid ident ps a.1) refl

pub QuotedName-join :
    (mark : ℕ) {Segment : Text → Type 0} (p : Text) (ps : List Text)
    → All Segment (p ∷ ps)
    → QuotedName mark Segment (join (codes ".") (map (enclose mark) (p ∷ ps)))
unfolding join
QuotedName-join mark p [] a = segment a.0
QuotedName-join mark p (q ∷ ps) a = dotted a.0 (QuotedName-join mark q ps a.1)

without-enclose :
    (mark : ℕ) (p t : Text)
    → without mark p ≡ p
    → without mark (enclose mark p ++ t) ≡ p ++ without mark t
unfolding without
without-enclose mark p t h =
    ground (arith, without-append mark p (mark ∷ t), append_assoc p (mark ∷ []) t)

without-other : (d c : ℕ) (s : Text) → d ≢ c → without d (c ∷ s) ≡ c ∷ without d s
unfolding without
without-other d c s n = ground arith

-- A character that fails a test is not in a text that passes it.
pub without-absent :
    (p : ℕ → Bool) (d : ℕ) (s : Text) → p d ≡ false → all p s ≡ true → without d s ≡ s
unfolding without all
without-absent p d [] h a = refl
without-absent p d (c ∷ s) h a = elim (Bool-cases (c == d)) [
  | inl e ↦ absurd (ground (arith, rw ((==_iff c d).0 e) at a))
  | inr e ↦ rw e (ap (λ x. c ∷ x) (without-absent p d s h (ground arith)))
]

-- Taking the quotation marks out of a quoted name leaves the joined parts.
pub without-join :
    (mark : ℕ) (parts : List Text)
    → mark ≢ b'.'
    → All (λ p. without mark p ≡ p) parts
    → without mark (join (codes ".") (map (enclose mark) parts)) ≡ join (codes ".") parts
unfolding join
without-join mark [] n a = unfold without in refl
without-join mark (p ∷ []) n a =
    rw (← append-nil (enclose mark p))
      (rw (without-enclose mark p [] a.0) (unfold without in append-nil p))
without-join mark (p ∷ q ∷ ps) n a = rw (without-enclose mark p _ a.0) (
    ap (λ x. p ++ x)
      (rw (without-other mark b'.' _ n) (ap (λ x. b'.' ∷ x) (without-join mark (q ∷ ps) n a.1))))
