-- ===== src/Storage/Elastic/Pages.antt =====
-- The jump of the loops that page by `search_after`, from a server whose pages follow each other.
use photon.Base.{
  ℕ, zero, suc, ◌+◌, ◌-◌, ◌≤◌, ◌<◌, ◌≡◌, refl, ap, sym, subst, ◌∙◌, Bool, Bool-cases, true, false,
  ◌==◌, ltb, List, [], Option, none, some, length, get_elem?, arith, inl, inr,
}
use photon.Storage.Elastic.Slices.{
  last-take, get_elem?-drop, length-drop, length-take, take_all, drop_all,
}
use photon.Storage.Elastic.{
  es_max_fetch_size, take, drop, last_of, Reply, page, Outcome, done, panic, absent, jump,
  jump_to_active_batch, get_documents_with_search_after, with_last,
}

pub with_last-some :
    {D : Type 0} (hits : List D) (d : D) → last_of hits ≡ some d → with_last hits ≡ done d
unfolding with_last
with_last-some {D} hits d h =
    ap (λ (o : Option D). elim o as (λ _. Outcome D) [ none ↦ panic | some x ↦ done x ]) h

positive_total : (t : ℕ) → 0 < t → (t == 0) ≡ false
positive_total t h = ground arith

module _ {D S : Type 0} (sort_of : D → S) where
  -- The sort value behind which the hits at a position begin
  abbrev pub cursor_at : List D → ℕ → Option S
  cursor_at docs zero = none
  cursor_at docs (suc i) = elim (get_elem? docs i) [ none ↦ none | some d ↦ some (sort_of d) ]

  -- Each page begins right behind the last hit of the page before it. The total of an answer may be
  -- anything, but it is not zero while documents match.
  abbrev pub Pages : (Bool → Option S → ℕ → Reply D) → List D → Type 0
  Pages search docs =
      (ids : Bool) (p n : ℕ)
      → p ≤ length docs
      → (t : ℕ) × (search ids (cursor_at docs p) n ≡ page (take n (drop p docs)) t)
        × (0 < length docs → 0 < t)

  pub cursor-get_elem? :
      (docs : List D) (k : ℕ) (d : D)
      → get_elem? docs k ≡ some d
      → some (sort_of d) ≡ cursor_at docs (suc k)
  cursor-get_elem? docs k d h = sym (
      ap (λ (o : Option D). elim o as (λ _. Option S) [ none ↦ none | some x ↦ some (sort_of x) ])
        h)

  -- The cursor behind a full page
  pub cursor_behind :
      (docs : List D) (p m k : ℕ)
      → 0 < m
      → k ≡ p + m
      → k ≤ length docs
      → (d : D) × (last_of (take m (drop p docs)) ≡ some d) × (some (sort_of d) ≡ cursor_at docs k)
  cursor_behind docs p zero k h e b = absurd (omega arith)
  cursor_behind docs p (suc n) zero h e b = absurd (omega arith)
  cursor_behind docs p (suc n) (suc k) h e b =
      let (d, l, g) = last-take (drop p docs) n (omega (arith, length-drop docs p)) in
      (d, l, cursor-get_elem? docs k d (sym (get_elem?-drop docs p n k (omega arith)) ∙ g))

  pub length-page :
      (docs : List D) (p n : ℕ) → p + n ≤ length docs → length (take n (drop p docs)) ≡ n
  length-page docs p n h = omega (arith, length-take (drop p docs) n, length-drop docs p)

  module _ (search : Bool → Option S → ℕ → Reply D) (docs : List D)
      (pages : Pages search docs) where
    jump_step :
        (f p from : ℕ)
        → es_max_fetch_size ≤ from
        → p + es_max_fetch_size ≤ length docs
        → jump sort_of search (suc f) from (cursor_at docs p)
          ≡ jump sort_of search f
              (from - es_max_fetch_size)
              (cursor_at docs (p + es_max_fetch_size))
    unfolding jump
    jump_step f p from h k =
        let (d, l, c) =
          cursor_behind docs p es_max_fetch_size (p + es_max_fetch_size) (omega arith) refl k in
        let far : ltb from es_max_fetch_size ≡ false = ground arith in
        let (t, answered, counted) = pages true p es_max_fetch_size (omega arith) in
        let some_docs : (t == 0) ≡ false = positive_total t (counted (omega arith)) in
        rw (far, answered, some_docs, with_last-some _ d l, c) refl

    pub jump-position :
        (f p from : ℕ)
        → from < f
        → p + from ≤ length docs
        → (q : ℕ) × (r : ℕ) × (q + r ≡ p + from)
          × (r < es_max_fetch_size)
          × (jump sort_of search f from (cursor_at docs p)
              ≡ done
                  (record { cursor = cursor_at docs q; from = r; insufficient_documents = false }))
    jump-position zero p from h k = absurd (omega arith)
    jump-position (suc f) p from h k = elim (Bool-cases (ltb from es_max_fetch_size)) [
      | inl e ↦ (p, from, refl, ground arith, unfold jump in rw e refl)
      | inr e ↦
          let far : es_max_fetch_size ≤ from = ground arith in
          let (q, r, s, small, t) =
            jump-position f (p + es_max_fetch_size) (from - es_max_fetch_size) (omega arith)
              (omega arith) in
          (q, r, omega arith, small, jump_step f p from far (omega arith) ∙ t)
    ]

    jump_first :
        (f from : ℕ)
        → es_max_fetch_size ≤ from
        → 0 < length docs
        → length docs ≤ es_max_fetch_size
        → jump sort_of search (suc f) from (cursor_at docs 0)
          ≡ jump sort_of search f (from - es_max_fetch_size) (cursor_at docs (length docs))
    unfolding jump
    jump_first f from h k l =
        let (d, g, c) =
          cursor_behind docs 0 (length docs) (length docs) k (omega arith) (omega arith) in
        let whole : take (length docs) docs ≡ docs = take_all docs (length docs) (omega arith) in
        let far : ltb from es_max_fetch_size ≡ false = ground arith in
        let (t, answered, counted) = pages true 0 es_max_fetch_size (omega arith) in
        let some_docs : (t == 0) ≡ false = positive_total t (counted k) in
        rw
          (
            far,
            answered,
            some_docs,
            take_all docs es_max_fetch_size l,
            with_last-some docs d (subst (λ x. last_of x ≡ some d) whole g),
            c,
          )
          refl

    jump_empty :
        (f from : ℕ)
        → es_max_fetch_size ≤ from
        → 0 < length docs
        → jump sort_of search (suc f) from (cursor_at docs (length docs)) ≡ panic
    unfolding jump
    jump_empty f from h k =
        let far : ltb from es_max_fetch_size ≡ false = ground arith in
        let (t, answered, counted) = pages true (length docs) es_max_fetch_size (omega arith) in
        let some_docs : (t == 0) ≡ false = positive_total t (counted k) in
        rw
          (
            far,
            answered,
            some_docs,
            drop_all docs (length docs) (omega arith),
            take_all {D = D} [] es_max_fetch_size (omega arith),
          )
          (unfold with_last in refl)

    -- Pages that are empty while the total is not
    beyond :
        (from : ℕ)
        → 0 < length docs
        → es_max_fetch_size + es_max_fetch_size ≤ from
        → jump sort_of search from (from - es_max_fetch_size) (cursor_at docs (length docs)) ≡ panic
    beyond zero h k = absurd (omega arith)
    beyond (suc f) h k = jump_empty f (suc f - es_max_fetch_size) (omega arith) h

    -- When each page begins right behind the last hit of the page before and no total is zero
    -- while documents match, the query has no `_source`, it matches at least one document and
    -- no more than one page, and two pages or more are to be skipped, the jump panics on an
    -- empty page: it asks for the total of the matches, which is not zero, instead of the
    -- hits of the page.
    pub jump_beyond_panics :
        (fuel from size : ℕ) (fetch_all : Bool)
        → 0 < length docs
        → length docs ≤ es_max_fetch_size
        → es_max_fetch_size + es_max_fetch_size ≤ from
        → get_documents_with_search_after sort_of search fuel absent fetch_all from size ≡ panic
    unfolding get_documents_with_search_after jump_to_active_batch
    jump_beyond_panics fuel from size fetch_all h k l =
        rw (jump_first from from (omega arith) h k, beyond from h l) refl
