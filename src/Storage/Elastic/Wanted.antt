-- ===== src/Storage/Elastic/Wanted.antt =====
-- What a scroll session returns, from a server whose scroll ids go on by a page.
use mathlib.Core.List.{append_assoc, append-nil}
use photon.Base.{
  ℕ, zero, suc, ◌+◌, ◌-◌, ◌≤◌, ◌<◌, ◌≡◌, refl, ap, sym, subst, ◌∙◌, Bool, Bool-cases, true, false,
  ltb, leb, if◌then◌else◌, List, [], ◌∷◌, ◌++◌, some, length, arith, inl, inr,
}
use photon.Storage.Elastic.{take, drop, Outcome, done}
use photon.Storage.Elastic.Slices.{
  length-drop, length-take, take_all, drop_all, drop-drop, take-split, drop-take,
}
use photon.Storage.Elastic.Scroll.{ScrollReply, scrolled, Session, take_page, scroll_loop, found}

module _ {D : Type 0} where
  take-take : (l : List D) (m n : ℕ) → m ≤ n → take m (take n l) ≡ take m l
  take-take l zero n h = refl
  take-take l (suc m) zero h = absurd (omega arith)
  take-take [] (suc m) (suc n) h = refl
  take-take (d ∷ l) (suc m) (suc n) h = ap (λ x. d ∷ x) (take-take l m n (omega arith))

  -- A slice that a page has whole
  slice_inside :
      (l : List D) (n from size : ℕ)
      → from + size ≤ n
      → take size (drop from (take n l)) ≡ take size (drop from l)
  slice_inside l n from size h =
      rw (drop-take l from (n - from) n (omega arith))
        (take-take (drop from l) size (n - from) (omega arith))

  -- A slice that goes on behind a page
  slice_across :
      (l : List D) (n from size : ℕ)
      → from ≤ n
      → n ≤ from + size
      → drop from (take n l) ++ take (size - (n - from)) (drop n l) ≡ take size (drop from l)
  slice_across l n from size h k =
      rw
        (
          drop-take l from (n - from) n (omega arith),
          take-split (drop from l) (n - from) (size - (n - from)) size (omega arith),
          drop-drop l (n - from) from n (omega arith),
        )
        refl

module _ {D I : Type 0} (scroll : I → ScrollReply D I) (n : ℕ) (docs : List D) (id_at : ℕ → I) where
  abbrev pub Scrolls : Type 0
  Scrolls = (p : ℕ) → scroll (id_at p) ≡ scrolled (take n (drop p docs)) (some (id_at (p + n)))

  -- The loop ends, and with these documents.
  abbrev pub Returns : Outcome (Session D I) → List D → Type 0
  Returns (done t) l = t.docs ≡ l
  Returns _ l = ⊥

  abbrev pub at_page : ℕ → ℕ → ℕ → List D → Session D I
  at_page p from size acc = record {
    from = from;
    size = size;
    scroll_id = some (id_at p);
    docs = acc;
  }

  module _ (answers : Scrolls) where
    step :
        (f p from size : ℕ) (acc : List D)
        → scroll_loop scroll false n (suc f) (at_page p from size acc) ≡ (
            let t : Session D I × Bool =
              take_page scroll false n
                (at_page p from size acc)
                (take n (drop p docs))
                (some (id_at (p + n))) in
            if t.1 then done t.0 else scroll_loop scroll false n f t.0)
    unfolding scroll_loop
    step f p from size acc = rw (answers p) refl

    abbrev wanted : ℕ → ℕ → ℕ → List D
    wanted p from size = take size (drop from (drop p docs))

    found-take : (l : List D) → found scroll false n (take n l) ≡ length (take n l)
    found-take l = ground (arith, length-take l n)

    page_full : (p : ℕ) → p + n ≤ length docs → length (take n (drop p docs)) ≡ n
    page_full p h = omega (arith, length-take (drop p docs) n, length-drop docs p)

    -- One round, by what it does with the page
    AfterPage : ℕ → Session D I × Bool → List D → Type 0
    AfterPage f t l = Returns (if t.1 then done t.0 else scroll_loop scroll false n f t.0) l

    by_step :
        (f p from size : ℕ) (acc l : List D)
        → AfterPage f
            (take_page scroll false n
              (at_page p from size acc)
              (take n (drop p docs))
              (some (id_at (p + n))))
            l
        → Returns (scroll_loop scroll false n (suc f) (at_page p from size acc)) l
    unfolding AfterPage
    by_step f p from size acc l r = subst (λ o. Returns o l) (sym (step f p from size acc)) r

    page_inside :
        (f p from size : ℕ) (acc : List D)
        → from + size ≤ length (take n (drop p docs))
        → 0 < size
        → Returns
            (scroll_loop scroll false n (suc f) (at_page p from size acc))
            (acc ++ wanted p from size)
    unfolding take_page AfterPage
    page_inside f p from size acc h k =
        let len : length (take n (drop p docs)) ≤ n = omega (arith, length-take (drop p docs) n) in
        let begins : ltb from (length (take n (drop p docs))) ≡ true = ground arith in
        let ends : leb (from + size) (length (take n (drop p docs))) ≡ true = ground arith in
        by_step f p from size acc _ (
          rw (found-take (drop p docs), begins, ends)
            (ap (λ x. acc ++ x) (slice_inside (drop p docs) n from size (omega arith))))

    last_hits :
        (p from size : ℕ)
        → length (drop p docs) ≤ from + size
        → take n (drop p docs) ≡ drop p docs
        → drop from (take n (drop p docs)) ≡ wanted p from size
    last_hits p from size h e = rw e (
        sym
          (take_all (drop from (drop p docs)) size (omega (arith, length-drop (drop p docs) from))))

    nothing :
        (p from size : ℕ) (acc : List D)
        → length (drop p docs) ≤ from
        → acc ≡ acc ++ wanted p from size
    nothing p from size acc h =
        rw (drop_all (drop p docs) from h, take_all {D = D} [] size (omega arith))
          (sym (append-nil acc))

    page_short :
        (f p from size : ℕ) (acc : List D)
        → length (take n (drop p docs)) < from + size
        → length (take n (drop p docs)) < n
        → Returns
            (scroll_loop scroll false n (suc f) (at_page p from size acc))
            (acc ++ wanted p from size)
    unfolding take_page AfterPage
    page_short f p from size acc h k =
        let all_of : take n (drop p docs) ≡ drop p docs =
          take_all (drop p docs) n (omega (arith, length-take (drop p docs) n)) in
        let ends : leb (from + size) (length (take n (drop p docs))) ≡ false = ground arith in
        let short : ltb (length (take n (drop p docs))) n ≡ true = ground arith in
        elim (Bool-cases (ltb from (length (take n (drop p docs))))) [
          | inl e ↦ by_step f p from size acc _ (
              rw (found-take (drop p docs), e, ends, short)
                (ap (λ x. acc ++ x)
                  (last_hits p from size (omega (arith, h, ap length all_of)) all_of)))
          | inr e ↦ by_step f p from size acc _ (
              rw (found-take (drop p docs), e, short)
                (nothing p from size acc (ground (arith, ap length all_of))))
        ]

    page_across :
        (f p from size : ℕ) (acc : List D)
        → p + n ≤ length docs
        → from < n
        → n < from + size
        → scroll_loop scroll false n (suc f) (at_page p from size acc)
          ≡ scroll_loop scroll false n f
              (at_page (p + n) 0 (size - (n - from)) (acc ++ drop from (take n (drop p docs))))
    unfolding take_page
    page_across f p from size acc h k l =
        let len : length (take n (drop p docs)) ≡ n = page_full p h in
        let begins : ltb from (length (take n (drop p docs))) ≡ true = ground (arith, len) in
        let ends : leb (from + size) (length (take n (drop p docs))) ≡ false =
          ground (arith, len) in
        let full : ltb (length (take n (drop p docs))) n ≡ false = ground (arith, len) in
        step f p from size acc ∙ rw (found-take (drop p docs), begins, ends, full) refl

    page_skipped :
        (f p from size : ℕ) (acc : List D)
        → p + n ≤ length docs
        → n ≤ from
        → scroll_loop scroll false n (suc f) (at_page p from size acc)
          ≡ scroll_loop scroll false n f (at_page (p + n) (from - n) size acc)
    unfolding take_page
    page_skipped f p from size acc h k =
        let len : length (take n (drop p docs)) ≡ n = page_full p h in
        let begins : ltb from (length (take n (drop p docs))) ≡ false = ground (arith, len) in
        let full : ltb (length (take n (drop p docs))) n ≡ false = ground (arith, len) in
        step f p from size acc ∙ rw (found-take (drop p docs), begins, full) refl

    across_lists :
        (p from size : ℕ) (acc : List D)
        → from ≤ n
        → n ≤ from + size
        → (acc ++ drop from (take n (drop p docs))) ++ take (size - (n - from)) (drop (p + n) docs)
          ≡ acc ++ take size (drop from (drop p docs))
    across_lists p from size acc h k =
        append_assoc acc (drop from (take n (drop p docs)))
          (take (size - (n - from)) (drop (p + n) docs))
        ∙ ap (λ x. acc ++ x)
            (rw (← drop-drop docs n p (p + n) (omega arith))
              (slice_across (drop p docs) n from size h k))

    skipped_lists :
        (p from size : ℕ) (acc : List D)
        → n ≤ from
        → acc ++ take size (drop (from - n) (drop (p + n) docs))
          ≡ acc ++ take size (drop from (drop p docs))
    skipped_lists p from size acc h =
        ap (λ x. acc ++ take size x)
          (drop-drop docs (from - n) (p + n) (p + from) (omega arith)
            ∙ sym (drop-drop docs from p (p + from) (omega arith)))

    page_there :
        (p : ℕ) → 0 < n → ltb (length (take n (drop p docs))) n ≡ false → p + n ≤ length docs
    page_there p h e = ground (arith, length-take (drop p docs) n, length-drop docs p)

    -- When every scroll request answers with the page behind the last one, of a positive
    -- size, and some documents are wanted but not all, the loop of a scroll session ends and
    -- returns, after what it held before, as many of the documents behind the skipped ones as
    -- are wanted, or all of them if there are fewer. Enough fuel is one more round than the
    -- numbers of the skipped and the wanted documents.
    pub scroll_loop-slice :
        (f p from size : ℕ) (acc : List D)
        → 0 < n
        → 0 < size
        → from + size < f
        → Returns
            (scroll_loop scroll false n f (at_page p from size acc))
            (acc ++ take size (drop from (drop p docs)))
    scroll_loop-slice zero p from size acc a b h = absurd (omega arith)
    scroll_loop-slice (suc f) p from size acc a b h =
        elim (Bool-cases (leb (from + size) (length (take n (drop p docs))))) [
          | inl e ↦ page_inside f p from size acc (ground arith) b
          | inr e ↦ elim (Bool-cases (ltb (length (take n (drop p docs))) n)) [
            | inl g ↦ page_short f p from size acc (ground arith) (ground arith)
            | inr g ↦
                let here : p + n ≤ length docs = page_there p a g in
                let len : length (take n (drop p docs)) ≡ n = page_full p here in
                elim (Bool-cases (ltb from n)) [
                  | inl k ↦
                      subst (λ o. Returns o (acc ++ take size (drop from (drop p docs))))
                        (sym
                          (page_across f p from size acc here (ground arith) (ground (arith, len))))
                        (subst
                          (Returns (
                            scroll_loop scroll false n f (at_page (p + n) 0 (size - (n - from)) _)))
                          (across_lists p from size acc (ground arith) (ground (arith, len)))
                          (scroll_loop-slice f (p + n) 0 (size - (n - from)) _ a
                            (ground (arith, len)) (ground arith)))
                  | inr k ↦
                      subst (λ o. Returns o (acc ++ take size (drop from (drop p docs))))
                        (sym (page_skipped f p from size acc here (ground arith)))
                        (subst
                          (Returns
                            (scroll_loop scroll false n f (at_page (p + n) (from - n) size acc)))
                          (skipped_lists p from size acc (ground arith))
                          (scroll_loop-slice f (p + n) (from - n) size acc a b (ground arith)))
                ]
          ]
        ]
