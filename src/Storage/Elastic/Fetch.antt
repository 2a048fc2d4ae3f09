-- ===== src/Storage/Elastic/Fetch.antt =====
-- storage/elasticsearch/helper.go: what getDocumentsWithSearchAfter returns.
use mathlib.Core.List.{append_assoc, append-nil}
use photon.Base.{
  ℕ, zero, suc, ◌+◌, ◌-◌, ◌≤◌, ◌<◌, ◌≡◌, ◌≢◌, refl, ap, sym, ◌∙◌, Bool, Bool-cases, true, false,
  ◌||◌, ltb, if◌then◌else◌, List, [], ◌++◌, Option, length, arith, inl, inr,
}
use photon.Storage.Elastic.Slices.{
  length-drop, take_all, drop_all, drop-drop, take-split, drop-append, drop-take, take-append-drop,
}
use photon.Storage.Elastic.{
  es_max_fetch_size, take, drop, Reply, done, Source, absent, fields, invalid, jump,
  jump_to_active_batch, batch_size, fetch, get_documents_with_search_after,
}
use photon.Storage.Elastic.Ranked.{Answers, Ranked, Answers-Pages}
use photon.Storage.Elastic.Pages.{
  Pages, cursor_at, with_last-some, cursor_behind, length-page, jump-position,
}

module _ {D S : Type 0} (sort_of : D → S) where
  pub last_slice :
      (n : ℕ) (l acc : List D)
      → done (if ltb n (length l) then acc ++ drop n l else acc) ≡ done (acc ++ drop n l)
  last_slice n l acc = elim (Bool-cases (ltb n (length l))) [
    | inl e ↦ rw e refl
    | inr e ↦ rw (e, drop_all l n (ground arith), append-nil acc) refl
  ]

  module _ (search : Bool → Option S → ℕ → Reply D) (docs : List D)
      (pages : Pages sort_of search docs) where
    -- A full page: the loop goes on behind it.
    fetch_step :
        (fetch_all : Bool) (f p fetch_from total : ℕ) (acc : List D)
        → (fetch_all || ltb 0 total) ≡ true
        → 0 < batch_size fetch_all total
        → fetch_from ≤ batch_size fetch_all total
        → p + batch_size fetch_all total ≤ length docs
        → fetch sort_of search fetch_all (suc f) (cursor_at sort_of docs p) fetch_from total acc
          ≡ fetch sort_of search fetch_all f
              (cursor_at sort_of docs (p + batch_size fetch_all total))
              0
              (if fetch_all then total else total - batch_size fetch_all total)
              (acc ++ drop fetch_from (take (batch_size fetch_all total) (drop p docs)))
    unfolding fetch
    fetch_step fetch_all f p fetch_from total acc go b k h =
        let n : ℕ = batch_size fetch_all total in
        let (d, l, c) = cursor_behind sort_of docs p n (p + n) b refl h in
        let len : length (take n (drop p docs)) ≡ n = length-page sort_of docs p n h in
        let full : ltb (length (take n (drop p docs))) n ≡ false = ground (arith, len) in
        let inside : ltb (length (take n (drop p docs))) fetch_from ≡ false = ground (arith, len) in
        let (t, answered, _) = pages false p n (omega arith) in
        rw (go, answered, full, with_last-some _ d l, inside, c) refl

    -- A page that is not full is the last one.
    fetch_last :
        (fetch_all : Bool) (f p fetch_from total : ℕ) (acc : List D)
        → (fetch_all || ltb 0 total) ≡ true
        → p ≤ length docs
        → length docs < p + batch_size fetch_all total
        → fetch sort_of search fetch_all (suc f) (cursor_at sort_of docs p) fetch_from total acc
          ≡ done (acc ++ drop fetch_from (drop p docs))
    unfolding fetch
    fetch_last fetch_all f p fetch_from total acc go k h =
        let n : ℕ = batch_size fetch_all total in
        let rest : take n (drop p docs) ≡ drop p docs =
          take_all (drop p docs) n (omega (arith, length-drop docs p)) in
        let short : ltb (length (drop p docs)) n ≡ true = ground (arith, length-drop docs p) in
        let (t, answered, _) = pages false p n k in
        rw (go, answered, rest, short) (last_slice fetch_from (drop p docs) acc)

    batch-le :
        (total : ℕ) → 0 < total → (0 < batch_size false total) × (batch_size false total ≤ total)
    unfolding batch_size
    batch-le total h = (ground arith, ground arith)

    batch_from-le : (total n : ℕ) → n ≤ total → n < es_max_fetch_size → n ≤ batch_size false total
    unfolding batch_size
    batch_from-le total n h k = ground arith

    -- Two pages in a row, without what is skipped in the first
    pages-append :
        (p b n total : ℕ)
        → b ≤ total
        → n ≤ b
        → p + b ≤ length docs
        → drop n (take b (drop p docs)) ++ take (total - b) (drop (p + b) docs)
          ≡ drop n (take total (drop p docs))
    pages-append p b n total h k l =
        rw
          (
            take-split (drop p docs) b (total - b) total (omega arith),
            drop-drop docs b p (p + b) (omega arith),
          )
          (sym (
            drop-append (take b (drop p docs)) (take (total - b) (drop (p + b) docs)) n
              (omega (arith, length-page sort_of docs p b l))))

    fetch-size :
        (f p fetch_from total : ℕ) (acc : List D)
        → total < f
        → p ≤ length docs
        → fetch_from ≤ total
        → fetch_from < es_max_fetch_size
        → fetch sort_of search false f (cursor_at sort_of docs p) fetch_from total acc
          ≡ done (acc ++ drop fetch_from (take total (drop p docs)))
    fetch-size zero p n total acc h k l m = absurd (omega arith)
    fetch-size (suc f) p zero zero acc h k l m = unfold fetch in ap done (sym (append-nil acc))
    fetch-size (suc f) p (suc n) zero acc h k l m = absurd (omega arith)
    fetch-size (suc f) p n (suc t) acc h k l m =
        let b : ℕ = batch_size false (suc t) in
        let (positive, within) = batch-le (suc t) (omega arith) in
        elim (Bool-cases (ltb (length docs) (p + b))) [
          | inl e ↦
              fetch_last false f p n (suc t) acc (ground arith) k (ground arith)
              ∙ ap (λ x. done (acc ++ drop n x))
                  (sym (take_all (drop p docs) (suc t) (ground (arith, length-drop docs p))))
          | inr e ↦
              let here : p + b ≤ length docs = ground arith in
              let skip : n ≤ b = batch_from-le (suc t) n l m in
              fetch_step false f p n (suc t) acc (ground arith) positive skip here
              ∙ (fetch-size f (p + b) 0 (suc t - b) _ (omega arith) here (omega arith) (omega arith)
                  ∙ ap done (
                      append_assoc acc (drop n (take b (drop p docs)))
                        (take (suc t - b) (drop (p + b) docs))
                      ∙ ap (λ x. acc ++ x) (pages-append p b n (suc t) within skip here)))
        ]

    after_jump :
        (fuel q r from size : ℕ)
        → q + r ≡ from
        → r < es_max_fetch_size
        → from ≤ length docs
        → from + size < fuel
        → fetch sort_of search false fuel (cursor_at sort_of docs q) r (r + size) []
          ≡ done (take size (drop from docs))
    after_jump fuel q r from size e small h k =
        fetch-size fuel q r (r + size) [] (omega arith) (omega arith) (omega arith) small
        ∙ ap done (
            drop-take (drop q docs) r size (r + size) refl
            ∙ ap (take size) (drop-drop docs r q from (omega arith)))

    pages-slice :
        (fuel from size : ℕ) (source : Source)
        → source ≢ invalid
        → from ≤ length docs
        → from + size < fuel
        → get_documents_with_search_after sort_of search fuel source false from size
          ≡ done (take size (drop from docs))
    unfolding get_documents_with_search_after jump_to_active_batch
    pages-slice fuel from size invalid n h k = absurd (n refl)
    pages-slice fuel from size absent n h k =
        let (q, r, s, small, t) =
          jump-position sort_of search docs pages (suc from) 0 from (omega arith) (omega arith) in
        rw t (after_jump fuel q r from size (omega (arith, s)) small h k)
    pages-slice fuel from size fields n h k =
        let (q, r, s, small, t) =
          jump-position sort_of search docs pages (suc from) 0 from (omega arith) (omega arith) in
        rw t (after_jump fuel q r from size (omega (arith, s)) small h k)

    rest_of_page : (p b : ℕ) → take b (drop p docs) ++ drop (p + b) docs ≡ drop p docs
    rest_of_page p b =
        rw (← drop-drop docs b p (p + b) (omega arith)) (take-append-drop (drop p docs) b)

    fetch-all :
        (f p total : ℕ) (acc : List D)
        → length docs < p + f
        → p ≤ length docs
        → fetch sort_of search true f (cursor_at sort_of docs p) 0 total acc
          ≡ done (acc ++ drop p docs)
    fetch-all zero p total acc h k = absurd (omega arith)
    fetch-all (suc f) p total acc h k =
        elim (Bool-cases (ltb (length docs) (p + es_max_fetch_size))) [
          | inl e ↦ fetch_last true f p 0 total acc refl k (unfold batch_size in ground arith)
          | inr e ↦
              let here : p + batch_size true total ≤ length docs =
                unfold batch_size in ground arith in
              fetch_step true f p 0 total acc refl (unfold batch_size in omega arith) (omega arith)
                here
              ∙ (fetch-all f (p + batch_size true total) total _ (unfold batch_size in omega arith)
                    here
                  ∙ ap done (
                      append_assoc acc (take (batch_size true total) (drop p docs))
                        (drop (p + batch_size true total) docs)
                      ∙ ap (λ x. acc ++ x) (rest_of_page p (batch_size true total))))
        ]

    pub get_documents_all :
        (fuel size : ℕ) (source : Source)
        → source ≢ invalid
        → length docs < fuel
        → get_documents_with_search_after sort_of search fuel source true 0 size ≡ done docs
    unfolding get_documents_with_search_after jump_to_active_batch jump
    get_documents_all fuel size invalid n h = absurd (n refl)
    get_documents_all fuel size absent n h =
        fetch-all fuel 0 (0 + size) [] (omega arith) (omega arith)
    get_documents_all fuel size fields n h =
        fetch-all fuel 0 (0 + size) [] (omega arith) (omega arith)

  -- When no two of the matching documents have the same sort value, the server ranks them by it
  -- and answers a search with the first hits, or the first behind the sort value given, and
  -- with a total that is not zero while documents match, the `_source` of the query is valid,
  -- and there are at least as many documents as are to be skipped, paging by `search_after`
  -- ends, without a panic, with as many of the documents behind the skipped ones as are asked
  -- for, or all of them if there are fewer. Enough fuel is one more round than the numbers of
  -- the skipped and the wanted documents.
  pub get_documents-slice :
      (less : S → S → Bool) (search : Bool → Option S → ℕ → Reply D) (docs : List D)
      (fuel from size : ℕ) (source : Source)
      → Ranked sort_of less docs
      → Answers sort_of less search docs
      → source ≢ invalid
      → from ≤ length docs
      → from + size < fuel
      → get_documents_with_search_after sort_of search fuel source false from size
        ≡ done (take size (drop from docs))
  get_documents-slice less search docs fuel from size source ranked answers =
      pages-slice search docs (Answers-Pages sort_of less search docs ranked answers) fuel from size
        source
