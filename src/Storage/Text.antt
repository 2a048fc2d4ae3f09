-- ===== src/Storage/Text.antt =====
-- Texts of storage/ as lists of code points, and what the helpers use of the packages `strings`
-- and `strconv`. Every byte that the helpers compare is ASCII, so copying a text byte by byte and
-- code point by code point is the same.
use Prim.Native.Char.{code}
use mathlib.Core.Path.{ap₂}
use mathlib.Core.List.{cons≢nil, head-eq_of_cons-eq, tail-eq_of_cons-eq}
use photon.Base.{
  ℕ, zero, suc, ◌+◌, ◌/◌, ◌%◌, ◌<◌, ◌≡◌, refl, ap, sym, ℕ_discrete, Bool, Bool-cases, ==_iff, inl,
  inr, true, false, ◌&&◌, ◌||◌, ◌==◌, ltb, leb, if◌then◌else◌, List, [], ◌∷◌, ◌++◌, reverse, length,
  String, arith, All,
}

abbrev pub Text : Type 0
Text = List ℕ

abbrev pub codes : String → Text
codes String.[] = []
codes (String.◌∷◌ c s) = code c ∷ codes s

-- `unicode.IsSpace`
unfoldable pub is_space : ℕ → Bool
is_space c =
    leb 9 c && leb c 13
    || c == 32
    || c == 133
    || c == 160
    || c == 5760
    || leb 8192 c && leb c 8202
    || c == 8232
    || c == 8233
    || c == 8239
    || c == 8287
    || c == 12288

unfoldable pub trim_left : Text → Text
trim_left [] = []
trim_left (c ∷ s) = let rest = trim_left s in if is_space c then rest else c ∷ s

-- `strings.TrimSpace`
unfoldable pub trim_space : Text → Text
trim_space s = reverse (trim_left (reverse (trim_left s)))

-- Letters, digits and the underscore.
unfoldable pub is_word_char : ℕ → Bool
is_word_char c =
    leb b'a' c && leb c b'z' || leb b'A' c && leb c b'Z' || leb b'0' c && leb c b'9' || c == b'_'

abbrev cons_head : ℕ → List Text → List Text
cons_head c [] = (c ∷ []) ∷ []
cons_head c (p ∷ ps) = (c ∷ p) ∷ ps

-- `strings.Split` by one character
unfoldable pub split : ℕ → Text → List Text
split d [] = [] ∷ []
split d (c ∷ s) = let rest = split d s in if c == d then [] ∷ rest else cons_head c rest

-- `strings.Join`
unfoldable pub join : Text → List Text → Text
join sep [] = []
join sep (p ∷ []) = p
join sep (p ∷ q ∷ ps) = p ++ (sep ++ join sep (q ∷ ps))

unfoldable pub digits_of : ℕ → ℕ → Text
digits_of zero n = []
digits_of (suc f) n =
    let rest = digits_of f (n / 10) in
    if ltb n 10 then (b'0' + n) ∷ [] else rest ++ (b'0' + n % 10) ∷ []

-- `strconv.Itoa` of a number that is not negative: `suc n` rounds are enough for its digits.
unfoldable pub itoa : ℕ → Text
unfolding digits_of
itoa n = digits_of (suc n) n

both : {c d : ℕ} {s t : Text} → Dec (c ≡ d) → Dec (s ≡ t) → Dec (c ∷ s ≡ d ∷ t)
both (no n) e = no (λ h. n (head-eq_of_cons-eq h))
both (yes h) (no n) = no (λ e. n (tail-eq_of_cons-eq e))
both (yes h) (yes e) = yes (ap₂ ◌∷◌ h e)

-- `==` on texts
unfoldable pub text_discrete : Discrete Text
unfolding both
text_discrete [] [] = yes refl
text_discrete [] (d ∷ t) = no (λ e. cons≢nil (sym e))
text_discrete (c ∷ s) [] = no (λ e. cons≢nil e)
text_discrete (c ∷ s) (d ∷ t) = both (ℕ_discrete c d) (text_discrete s t)

unfoldable pub all : (ℕ → Bool) → Text → Bool
all p [] = true
all p (c ∷ s) = p c && all p s

unfoldable pub contains : ℕ → Text → Bool
contains d [] = false
contains d (c ∷ s) = c == d || contains d s

unfoldable pub count : ℕ → Text → ℕ
count d [] = 0
count d (c ∷ s) = let rest = count d s in if c == d then suc rest else rest

unfoldable pub has_prefix : Text → Text → Bool
has_prefix s [] = true
has_prefix [] (c ∷ p) = false
has_prefix (b ∷ s) (c ∷ p) = b == c && has_prefix s p

unfoldable pub drop : ℕ → Text → Text
drop zero s = s
drop (suc n) [] = []
drop (suc n) (c ∷ s) = drop n s

pub has_prefix-drop : (s p : Text) → has_prefix s p ≡ true → p ++ drop (length p) s ≡ s
unfolding has_prefix drop
has_prefix-drop s [] h = refl
has_prefix-drop [] (c ∷ p) h = ground arith
has_prefix-drop (b ∷ s) (c ∷ p) h = ground (arith, has_prefix-drop s p)

pub split-shape : (d : ℕ) (s : Text) → (p : Text) × (ps : List Text) × (split d s ≡ p ∷ ps)
unfolding split
split-shape d [] = ([], [], refl)
split-shape d (c ∷ s) = elim (Bool-cases (c == d)) [
  | inl e ↦ ([], split d s, rw e refl)
  | inr e ↦ let (p, ps, f) = split-shape d s in (c ∷ p, ps, rw (e, f) refl)
]

join-cons_head : (sep : Text) (c : ℕ) (l : List Text) → join sep (cons_head c l) ≡ c ∷ join sep l
unfolding join
join-cons_head sep c [] = refl
join-cons_head sep c (p ∷ []) = refl
join-cons_head sep c (p ∷ q ∷ l) = refl

join-empty :
    (sep : Text) (l : List Text) (p : Text) (ps : List Text)
    → l ≡ p ∷ ps
    → join sep ([] ∷ l) ≡ sep ++ join sep l
unfolding join
join-empty sep l p ps e = rw e refl

-- Joining what was split gives the text back.
pub join-split : (d : ℕ) (s : Text) → join (d ∷ []) (split d s) ≡ s
unfolding split
join-split d [] = unfold join in refl
join-split d (c ∷ s) = elim (Bool-cases (c == d)) [
  | inl e ↦
      let (p, ps, f) = split-shape d s in
      rw (e, join-empty (d ∷ []) (split d s) p ps f, join-split d s)
        (ap (λ x. x ∷ s) (sym ((==_iff c d).0 e)))
  | inr e ↦ rw (e, join-cons_head (d ∷ []) c (split d s), join-split d s) refl
]

All-cons_head :
    (p : ℕ → Bool) (c : ℕ) (l : List Text)
    → p c ≡ true
    → All (λ t. all p t ≡ true) l
    → All (λ t. all p t ≡ true) (cons_head c l)
unfolding all
All-cons_head p c [] h a = (rw h refl, tt)
All-cons_head p c (t ∷ l) h a = (rw (h, a.0) refl, a.1)

-- What holds of every character but the one that a text is split by holds in each part.
pub All-split :
    (p : ℕ → Bool) (d : ℕ) (s : Text)
    → all (λ c. p c || c == d) s ≡ true
    → All (λ t. all p t ≡ true) (split d s)
unfolding split all
All-split p d [] h = (unfold all in refl, tt)
All-split p d (c ∷ s) h = elim (Bool-cases (c == d)) [
  | inl e ↦ rw e (refl, All-split p d s (ground arith))
  | inr e ↦ rw e (
      All-cons_head p c (split d s) (ground (arith, rw e at h))
        (All-split p d s (ground (arith, rw e at h))))
]

contains-append : (d : ℕ) (s t : Text) → contains d (s ++ t) ≡ (contains d s || contains d t)
unfolding contains
contains-append d [] t = refl
contains-append d (c ∷ s) t = ground (arith, contains-append d s t)

digits_of-contains : (f n d : ℕ) → 57 < d → contains d (digits_of f n) ≡ false
unfolding digits_of contains
digits_of-contains zero n d h = refl
digits_of-contains (suc f) n d h = ground (
  arith,
  digits_of-contains f (n / 10) d h,
  contains-append d (digits_of f (n / 10)) ((b'0' + n % 10) ∷ []),
)

-- A number has digits only.
pub itoa-contains : (n d : ℕ) → 57 < d → contains d (itoa n) ≡ false
unfolding itoa
itoa-contains n d h = digits_of-contains (suc n) n d h

-- `<` and the sort of keys: Go compares the bytes of UTF-8, whose order is that of the code points.
unfoldable pub text_leb : Text → Text → Bool
text_leb [] t = true
text_leb (c ∷ s) [] = false
text_leb (c ∷ s) (d ∷ t) = ltb c d || c == d && text_leb s t

unfoldable pub insert_text : Text → List Text → List Text
insert_text k [] = k ∷ []
insert_text k (j ∷ ks) =
    let rest = insert_text k ks in if text_leb k j then k ∷ j ∷ ks else j ∷ rest

-- `sort.Strings`
unfoldable pub sort_texts : List Text → List Text
sort_texts [] = []
sort_texts (k ∷ ks) = insert_text k (sort_texts ks)
