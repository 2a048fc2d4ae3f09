-- ===== src/Storage/Sort.antt =====
-- The order of texts, and what a sort by it depends on.
use mathlib.Core.List.{Permᴰ}
use mathlib.Core.List.Permᴰ.{nil, cons, swap, trans}
use photon.Base.{◌≡◌, refl, ◌∙◌, Bool-cases, true, false, List, [], ◌∷◌, arith, inl, inr}
use photon.Storage.Text.{Text, text_leb, insert_text, sort_texts}

text_leb_total : (s t : Text) → text_leb s t ≡ false → text_leb t s ≡ true
unfolding text_leb
text_leb_total [] t h = ground arith
text_leb_total (c ∷ s) [] h = refl
text_leb_total (c ∷ s) (d ∷ t) h = ground (arith, text_leb_total s t)

text_leb_antisym : (s t : Text) → text_leb s t ≡ true → text_leb t s ≡ true → s ≡ t
unfolding text_leb
text_leb_antisym [] [] h g = refl
text_leb_antisym [] (d ∷ t) h g = ground arith
text_leb_antisym (c ∷ s) [] h g = ground arith
text_leb_antisym (c ∷ s) (d ∷ t) h g = ground (arith, text_leb_antisym s t)

text_leb_trans : (s t u : Text) → text_leb s t ≡ true → text_leb t u ≡ true → text_leb s u ≡ true
unfolding text_leb
text_leb_trans [] t u h g = refl
text_leb_trans (c ∷ s) [] u h g = ground arith
text_leb_trans (c ∷ s) (d ∷ t) [] h g = ground arith
text_leb_trans (c ∷ s) (d ∷ t) (e ∷ u) h g = ground (arith, text_leb_trans s t u)

insert_text_comm :
    (a b : Text) (l : List Text) → insert_text a (insert_text b l) ≡ insert_text b (insert_text a l)
unfolding insert_text
insert_text_comm a b [] = ground (arith, text_leb_total a b, text_leb_antisym a b)
insert_text_comm a b (c ∷ l) = elim (Bool-cases (text_leb a c)) [
  | inl e ↦ elim (Bool-cases (text_leb b c)) [
    | inl f ↦ ground (arith, text_leb_total a b, text_leb_antisym a b)
    | inr f ↦ ground (arith, text_leb_trans b a c)
  ]
  | inr e ↦ elim (Bool-cases (text_leb b c)) [
    | inl f ↦ ground (arith, text_leb_trans a b c)
    | inr f ↦ ground (arith, insert_text_comm a b l)
  ]
]

-- Two arrangements of the same texts are sorted to the same list.
pub sort_texts-Perm : {s t : List Text} → Permᴰ s t → sort_texts s ≡ sort_texts t
unfolding sort_texts
sort_texts-Perm nil = refl
sort_texts-Perm (cons e p) = rw (e, sort_texts-Perm p) refl
sort_texts-Perm (swap {a} {b} {a'} {b'} {l} e f) = rw (e, f) (insert_text_comm b' a' (sort_texts l))
sort_texts-Perm (trans p q) = sort_texts-Perm p ∙ sort_texts-Perm q
