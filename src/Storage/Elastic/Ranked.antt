-- ===== src/Storage/Elastic/Ranked.antt =====
-- A server that ranks its documents by a sort value and answers to `search_after` with those that
-- come behind the value, as the loops of storage/elasticsearch/helper.go use it.
use photon.Base.{
  ℕ, zero, suc, ◌<◌, ◌≡◌, refl, ap, ◌∙◌, Bool, false, ltb, List, [], ◌∷◌, Option, none, some,
  length, get_elem?, keep, arith,
}
use photon.Storage.Elastic.{take, drop, Reply, page}
use photon.Storage.Elastic.Slices.{last-take}
use photon.Storage.Elastic.Pages.{Pages, cursor-get_elem?}

-- To keep the elements from a position on is to drop those before it.
keep-drop :
    {D : Type 0} (f : D → Bool) (docs : List D) (m : ℕ)
    → ((j : ℕ) (d : D) → get_elem? docs j ≡ some d → f d ≡ ltb m (suc j))
    → keep f docs ≡ drop m docs
keep-drop f [] zero h = refl
keep-drop f [] (suc m) h = refl
keep-drop f (d ∷ docs) zero h =
    rw (h 0 d refl) (ap (λ l. d ∷ l) (keep-drop f docs zero λ j e g. h (suc j) e g ∙ ground arith))
keep-drop f (d ∷ docs) (suc m) h =
    let skipped : f d ≡ false = h 0 d refl ∙ ground arith in
    rw skipped (keep-drop f docs m λ j e g. h (suc j) e g ∙ ground arith)

module _ {D S : Type 0} (sort_of : D → S) (less : S → S → Bool) where
  -- The documents that come behind a sort value
  abbrev pub behind : S → List D → List D
  behind s docs = keep (λ d. less s (sort_of d)) docs

  -- The documents stand in the order of their sort values, and no two have the same.
  abbrev pub Ranked : List D → Type 0
  Ranked docs =
      (i j : ℕ) (d e : D)
      → get_elem? docs i ≡ some d
      → get_elem? docs j ≡ some e
      → less (sort_of d) (sort_of e) ≡ ltb i j

  -- Each search is answered by the first hits, or by the first behind the sort value that it gives.
  -- The total of an answer may be anything, but it is not zero while documents match.
  abbrev pub Answers : (Bool → Option S → ℕ → Reply D) → List D → Type 0
  Answers search docs =
      ((ids : Bool) (n : ℕ)
        → (t : ℕ) × (search ids none n ≡ page (take n docs) t) × (0 < length docs → 0 < t))
      × ((ids : Bool) (s : S) (n : ℕ)
          → (t : ℕ) × (search ids (some s) n ≡ page (take n (behind s docs)) t)
            × (0 < length docs → 0 < t))

  module _ (search : Bool → Option S → ℕ → Reply D) (docs : List D) (ranked : Ranked docs)
      (answers : Answers search docs) where
    behind-drop :
        (i : ℕ) (d : D) → get_elem? docs i ≡ some d → behind (sort_of d) docs ≡ drop (suc i) docs
    behind-drop i d g = keep-drop _ docs (suc i) λ j e h. ranked i j d e g h ∙ ground arith

    -- Such a server pages: the hits behind a hit are those at the positions after it.
    pub Answers-Pages : Pages sort_of search docs
    Answers-Pages ids zero n h = answers.0 ids n
    Answers-Pages ids (suc i) n h =
        let (d, _, g) = last-take docs i h in
        let (t, answered, counted) = answers.1 ids (sort_of d) n in
        (
          t,
          rw (← cursor-get_elem? sort_of docs i d g)
              (answered ∙ ap (λ l. page (take n l) t) (behind-drop i d g)),
          counted,
        )
