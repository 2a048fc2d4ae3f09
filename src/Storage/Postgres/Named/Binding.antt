-- ===== src/Storage/Postgres/Named/Binding.antt =====
-- What the positions in the output of the converter of named parameters stand for.
use mathlib.Core.List.{cons≢nil}
use photon.Base.{
  ℕ, zero, suc, ◌≡◌, ◌≢◌, refl, Bool, true, false, not, ◌&&◌, ◌==◌, List, [], ◌∷◌, ◌++◌, Option,
  none, some, length, length-append, get_elem?, arith, ◌⊎◌, if_pos, if_neg,
}
use photon.Base.Dict.{Dict, get, put, get-put}
use photon.Storage.Text.{Text, is_word_char, all, text_discrete}
use photon.Storage.Postgres.Named.{Converter, Params, param_value, write_at, starts_param}
use photon.Storage.Postgres.Named.Pieces.{Piece, literal, named, original, shown, Copied}

module _ {V : Type 0} where
  get_elem?-append :
      (xs ys : List V) (i : ℕ) {v : V} → get_elem? xs i ≡ some v → get_elem? (xs ++ ys) i ≡ some v
  get_elem?-append [] ys i h = cc
  get_elem?-append (x ∷ xs) ys zero h = h
  get_elem?-append (x ∷ xs) ys (suc i) h = get_elem?-append xs ys i h

  get_elem?_last : (xs : List V) (v : V) → get_elem? (xs ++ v ∷ []) (length xs) ≡ some v
  get_elem?_last [] v = refl
  get_elem?_last (x ∷ xs) v = get_elem?_last xs v

-- A colon and a name that is not empty.
pub record IsToken (token : Text) : Type 0 where
  pub name : Text
  pub starts : token ≡ b':' ∷ name
  pub name_ne_nil : name ≢ []
  pub name_chars : all is_word_char name ≡ true

abbrev pub Numbered : Dict Text ℕ → Piece → Type 0
Numbered seen (literal t) = Unit
Numbered seen (named token pos) = IsToken token × (get text_discrete token seen ≡ some pos)

unfoldable pub quote_free : Text → Bool
quote_free s = all (λ c. not (c == b'\'') && not (c == b'$')) s

-- A piece that hides no parameter: what is copied is one character or `::`, where no parameter
-- begins.
abbrev pub IsTidy : Text → Piece → Type 0
IsTidy text (literal t) = (starts_param text ≡ false) × ((length t ≡ 1) ⊎ (t ≡ b':' ∷ b':' ∷ []))
IsTidy text (named token pos) = Unit

abbrev pub Unquoted : {V : Type 0} → Converter V → Type 0
Unquoted c = (c.in_single_quote ≡ false) × (c.in_dollar_quote ≡ false)

module _ {V : Type 0} (nil : V) (params : Params V) where
  -- The value at a position, which counts from 1, is that of the parameter.
  abbrev pub Valued : List V → Text → ℕ → Type 0
  Valued ordered token pos =
      (i : ℕ) × (pos ≡ suc i) × (get_elem? ordered i ≡ some (param_value nil params token))

  pub record Inv (c : Converter V) : Type 0 where
    pub next : c.arg_pos ≡ suc (length c.ordered)
    pub bound :
        (token : Text) (pos : ℕ)
        → get text_discrete token c.seen ≡ some pos
        → Valued c.ordered token pos

  pub record Round (text : Text) (c d : Converter V) : Type 0 where
    pub piece : Piece
    pub progress : original piece ≢ []
    pub eaten : original piece ++ d.rest ≡ text
    pub written : d.out ≡ c.out ++ shown piece
    pub inv : Inv d
    pub grows :
        (token : Text) (pos : ℕ)
        → get text_discrete token c.seen ≡ some pos
        → get text_discrete token d.seen ≡ some pos
    pub numbered : Numbered d.seen piece
    pub tidy : Unquoted c → quote_free text ≡ true → IsTidy text piece × Unquoted d

  pub Copied-Round :
      (text taken : Text) (c d : Converter V)
      → Inv c
      → Copied text taken c d
      → (Unquoted c → quote_free text ≡ true → IsTidy text (literal taken) × Unquoted d)
      → Round text c d
  Copied-Round text taken c d i k t = record {
    piece = literal taken;
    progress = k.not_empty;
    eaten = k.eaten;
    written = k.written;
    inv = record {
      next = rw (k.same_pos, k.same_ordered) i.next;
      bound = λ token pos. rw (k.same_seen, k.same_ordered) (i.bound token pos);
    };
    grows = λ token pos h. rw k.same_seen h;
    numbered = tt;
    tidy = t;
  }

  put_new :
      (token : Text) (pos : ℕ) (seen : Dict Text ℕ) (q : Text) (p : ℕ)
      → get text_discrete token seen ≡ none
      → get text_discrete q seen ≡ some p
      → get text_discrete q (put text_discrete token pos seen) ≡ some p
  put_new token pos seen q p h g = elim (text_discrete token q) [
    | yes e ↦ absurd (cc (rw e at h))
    | no n ↦ rw (get-put text_discrete token q pos seen, if_neg (text_discrete token q) n) g
  ]

  put_self :
      (token : Text) (pos : ℕ) (seen : Dict Text ℕ)
      → get text_discrete token (put text_discrete token pos seen) ≡ some pos
  put_self token pos seen =
      rw (get-put text_discrete token token pos seen) (if_pos (text_discrete token token) refl _ _)

  put_bound :
      (token : Text) (c : Converter V) (q : Text) (p : ℕ)
      → Inv c
      → get text_discrete q (put text_discrete token c.arg_pos c.seen) ≡ some p
      → Valued (c.ordered ++ param_value nil params token ∷ []) q p
  put_bound token c q p i g = elim (text_discrete token q) [
    | yes e ↦
        let last : p ≡ suc (length c.ordered) =
          ground (arith, put_self token c.arg_pos c.seen, i.next, rw (← e) at g) in
        (length c.ordered, last, rw (← e) (get_elem?_last c.ordered (param_value nil params token)))
    | no n ↦
        let v = i.bound q p (ground (arith, get-put text_discrete token q c.arg_pos c.seen)) in
        (v.0, v.1, get_elem?-append c.ordered _ v.0 v.2)
  ]

  pub write_at-Round :
      (o : Option ℕ) (token left text : Text) (c : Converter V)
      → get text_discrete token c.seen ≡ o
      → IsToken token
      → token ++ left ≡ text
      → Inv c
      → Round text c (write_at o (param_value nil params token) token left c)
  unfolding write_at
  write_at-Round (some pos) token left text c h t e i = record {
    piece = named token pos;
    progress = λ f. cons≢nil (rw t.starts at f);
    eaten = e;
    written = refl;
    inv = record { next = i.next; bound = i.bound };
    grows = λ q p g. g;
    numbered = (t, h);
    tidy = λ u q. (tt, u);
  }
  write_at-Round none token left text c h t e i = record {
    piece = named token c.arg_pos;
    progress = λ f. cons≢nil (rw t.starts at f);
    eaten = e;
    written = refl;
    inv = record {
      next = omega (arith, i.next, length-append c.ordered (param_value nil params token ∷ []));
      bound = λ q p g. put_bound token c q p i g;
    };
    grows = λ q p g. put_new token c.arg_pos c.seen q p h g;
    numbered = (t, put_self token c.arg_pos c.seen);
    tidy = λ u q. (tt, u);
  }
