-- ===== src/Storage/Postgres/Named/Rounds.antt =====
-- One round of the converter of named parameters, handler by handler.
use photon.Base.{
  ℕ, ◌≡◌, refl, ap, Bool-cases, true, false, ◌==◌, ==_iff, [], ◌∷◌, ◌++◌, Option, none, some, arith,
  inl, inr,
}
use photon.Base.Dict.{get}
use photon.Storage.Text.{Text, is_word_char, all, text_discrete}
use photon.Storage.Identifiers.{is_empty}
use photon.Storage.Postgres.Named.{
  Converter, Params, handle_dollar_quote, handle_single_quote, copy_quoted_byte, copy_postgres_cast,
  handle_named_param, write_named_param, convert_byte, take_name, after_name, starts_param,
  starts_with, named_or_colon, copy, or_else,
}
use photon.Storage.Postgres.Named.Pieces.{
  CopiedIf, dollar-Copied, single-Copied, quoted-Copied, pair-Copied, byte-Copied, name-parts,
  name-all,
}
use photon.Storage.Postgres.Named.Binding.{
  IsToken, quote_free, Unquoted, Inv, Round, Copied-Round, write_at-Round,
}

module _ {V : Type 0} (nil : V) (params : Params V) where
  write_named_param-Round :
      (token left text : Text) (c : Converter V)
      → IsToken token
      → token ++ left ≡ text
      → Inv nil params c
      → Round nil params text c (write_named_param nil params token left c)
  unfolding write_named_param
  write_named_param-Round token left text c t e i =
      write_at-Round nil params (get text_discrete token c.seen) token left text c refl t e i

  -- The case of a byte that is copied as it is
  byte-Round :
      (b : ℕ) (s : Text) (c : Converter V)
      → Inv nil params c
      → starts_param (b ∷ s) ≡ false
      → Round nil params (b ∷ s) c (copy (b ∷ []) s c)
  byte-Round b s c i h =
      Copied-Round nil params (b ∷ s) (b ∷ []) c _ i (byte-Copied b s c _ _ _)
        (λ u q. ((h, inl refl), u))

  named_or_colon-Round :
      (s : Text) (c : Converter V)
      → Inv nil params c
      → Round nil params (b':' ∷ s) c (named_or_colon nil params s c)
  named_or_colon-Round s c i = elim (Bool-cases (is_empty (take_name s))) [
    | inl e ↦ rw e (byte-Round b':' s c i (unfold starts_param in rw e refl))
    | inr e ↦ rw e (
        write_named_param-Round (b':' ∷ take_name s) (after_name s) (b':' ∷ s) c
          (record {
            name = take_name s;
            starts = refl;
            name_ne_nil = λ f. absurd (ground (arith, rw f at e));
            name_chars = name-all s;
          })
          (ap (λ x. b':' ∷ x) (name-parts s)) i)
  ]

  cast_starts : (s : Text) → starts_with b':' s ≡ true → starts_param (b':' ∷ s) ≡ false
  unfolding starts_with starts_param take_name
  cast_starts [] h = ground arith
  cast_starts (c ∷ s) h = rw ((==_iff c b':').0 h) (unfold is_word_char in refl)

  cast-Round :
      (s : Text) (c d : Converter V)
      → Inv nil params c
      → Round nil params (b':' ∷ s) c d
      → Round nil params (b':' ∷ s) c (or_else (copy_postgres_cast s c) d)
  unfolding copy_postgres_cast
  cast-Round s c d i r = elim (Bool-cases (starts_with b':' s)) [
    | inl e ↦ rw e (
        Copied-Round nil params (b':' ∷ s) (b':' ∷ b':' ∷ []) c _ i (pair-Copied b':' b':' s c e)
          (λ u q. ((cast_starts s e, inr refl), u)))
    | inr e ↦ rw e r
  ]

  -- A round made by a handler of quotes, or by what is done when it answers false
  or_else-Round :
      (text : Text) (c : Converter V) (o : Option (Converter V)) (d : Converter V)
      → Inv nil params c
      → CopiedIf text c o
      → (Unquoted c → quote_free text ≡ true → o ≡ none)
      → Round nil params text c d
      → Round nil params text c (or_else o d)
  or_else-Round text c (some a) d i (taken, k) n r =
      Copied-Round nil params text taken c a i k (λ u q. absurd (cc (n u q)))
  or_else-Round text c none d i k n r = r

  last-Round :
      (b : ℕ) (s : Text) (c : Converter V)
      → Inv nil params c
      → Round nil params
          (b ∷ s)
          c
          (or_else (handle_named_param nil params b s c) (copy (b ∷ []) s c))
  unfolding handle_named_param
  last-Round b s c i = elim (Bool-cases (b == b':')) [
    | inl e ↦ rw (e, (==_iff b b':').0 e) (cast-Round s c _ i (named_or_colon-Round s c i))
    | inr e ↦ rw e (byte-Round b s c i (unfold starts_param in rw e refl))
  ]

  dollar_none :
      (b : ℕ) (s : Text) (c : Converter V)
      → Unquoted c
      → quote_free (b ∷ s) ≡ true
      → handle_dollar_quote b s c ≡ none
  unfolding handle_dollar_quote quote_free all
  dollar_none b s c u q = rw u.0 (ground arith)

  single_none :
      (b : ℕ) (s : Text) (c : Converter V)
      → Unquoted c
      → quote_free (b ∷ s) ≡ true
      → handle_single_quote b s c ≡ none
  unfolding handle_single_quote quote_free all
  single_none b s c u q = rw u.1 (ground arith)

  quoted_none : (b : ℕ) (s : Text) (c : Converter V) → Unquoted c → copy_quoted_byte b s c ≡ none
  unfolding copy_quoted_byte
  quoted_none b s c u = rw (u.0, u.1) refl

  pub convert_byte-Round :
      (b : ℕ) (s : Text) (c : Converter V)
      → Inv nil params c
      → Round nil params (b ∷ s) c (convert_byte nil params b s c)
  unfolding convert_byte
  convert_byte-Round b s c i =
      or_else-Round (b ∷ s) c (handle_dollar_quote b s c) _ i (dollar-Copied b s c)
        (dollar_none b s c)
        (or_else-Round (b ∷ s) c (handle_single_quote b s c) _ i (single-Copied b s c)
          (single_none b s c)
          (or_else-Round (b ∷ s) c (copy_quoted_byte b s c) _ i (quoted-Copied b s c)
            (λ u q. quoted_none b s c u) (last-Round b s c i)))
