-- ===== src/Storage/Elastic/Ties.antt =====
-- storage/elasticsearch/helper.go: what the paging returns when documents share a sort value.
use photon.Base.{
  ℕ, zero, suc, ◌+◌, ◌-◌, ◌≤◌, ◌<◌, ◌≡◌, ◌≢◌, refl, ◌∙◌, Bool, Bool-cases, true, false, ltb, List,
  [], ◌∷◌, ◌++◌, Option, some, none, length, keep, All, arith, inl, inr, ltb→lt,
}
use photon.Storage.Elastic.Slices.{last-take, length-take}
use photon.Storage.Elastic.{
  es_max_fetch_size, take, last_of, Reply, page, done, Source, absent, fields, invalid, jump,
  jump_to_active_batch, batch_size, fetch, get_documents_with_search_after,
}
use photon.Storage.Elastic.Pages.{with_last-some}
use photon.Storage.Elastic.Ranked.{behind, Answers}
use photon.Storage.Elastic.Fetch.{last_slice}

All-keep : {D : Type 0} (f : D → Bool) (xs : List D) → All (λ x. f x ≡ true) (keep f xs)
All-keep f [] = tt
All-keep f (x ∷ xs) = elim (Bool-cases (f x)) [
  | inl e ↦ rw e (e, All-keep f xs)
  | inr e ↦ rw e (All-keep f xs)
]

All-take : {D : Type 0} (P : D → Type 0) (n : ℕ) (xs : List D) → All P xs → All P (take n xs)
All-take P zero xs a = tt
All-take P (suc n) [] a = tt
All-take P (suc n) (x ∷ xs) a = (a.0, All-take P n xs a.1)

large_batch : (total : ℕ) → es_max_fetch_size ≤ total → batch_size false total ≡ es_max_fetch_size
unfolding batch_size
large_batch total h = ground arith

module _ {D S : Type 0} (sort_of : D → S) (search : Bool → Option S → ℕ → Reply D) where
  -- A full page: the loop goes on behind its last hit.
  fetch_more :
      (f : ℕ) (cursor : Option S) (total t : ℕ) (acc hits : List D) (h : D)
      → 0 < total
      → search false cursor (batch_size false total) ≡ page hits t
      → length hits ≡ batch_size false total
      → last_of hits ≡ some h
      → fetch sort_of search false (suc f) cursor 0 total acc
        ≡ fetch sort_of search false f
            (some (sort_of h))
            0
            (total - batch_size false total)
            (acc ++ hits)
  unfolding fetch
  fetch_more f cursor total t acc hits h go answered len l =
      let wanted : ltb 0 total ≡ true = ground arith in
      let full : ltb (length hits) (batch_size false total) ≡ false = ground (arith, len) in
      let inside : ltb (length hits) 0 ≡ false = ground arith in
      rw (wanted, answered, full, with_last-some hits h l, inside) refl

  fetch_short :
      (f : ℕ) (cursor : Option S) (total t : ℕ) (acc hits : List D)
      → 0 < total
      → search false cursor (batch_size false total) ≡ page hits t
      → length hits < batch_size false total
      → fetch sort_of search false (suc f) cursor 0 total acc ≡ done (acc ++ hits)
  unfolding fetch
  fetch_short f cursor total t acc hits go answered short =
      let wanted : ltb 0 total ≡ true = ground arith in
      let last : ltb (length hits) (batch_size false total) ≡ true = ground (arith, short) in
      rw (wanted, answered, last) (last_slice sort_of 0 hits acc)

  fetch_none :
      (f : ℕ) (cursor : Option S) (total : ℕ) (acc : List D)
      → total ≡ 0
      → fetch sort_of search false (suc f) cursor 0 total acc ≡ done acc
  unfolding fetch
  fetch_none f cursor total acc e =
      let nothing : ltb 0 total ≡ false = ground arith in rw nothing refl

  -- The last page, of less than the largest size.
  fetch_rest :
      (f : ℕ) (cursor : Option S) (n t : ℕ) (acc docs : List D)
      → suc n < es_max_fetch_size
      → search false cursor (suc n) ≡ page (take (suc n) docs) t
      → fetch sort_of search false (suc (suc f)) cursor 0 (suc n) acc
        ≡ done (acc ++ take (suc n) docs)
  fetch_rest f cursor n t acc docs small answered =
      let size : batch_size false (suc n) ≡ suc n = unfold batch_size in ground arith in
      elim (Bool-cases (ltb (length docs) (suc n))) [
        | inl e ↦
            fetch_short (suc f) cursor (suc n) t acc (take (suc n) docs) (omega arith)
              (rw size answered) (omega (arith, size, ltb→lt _ _ e, length-take docs (suc n)))
        | inr e ↦
            let enough : suc n ≤ length docs = ground arith in
            let (h, l, _) = last-take docs n enough in
            fetch_more (suc f) cursor (suc n) t acc (take (suc n) docs) h (omega arith)
              (rw size answered) (omega (arith, size, enough, length-take docs (suc n))) l
            ∙ fetch_none f (some (sort_of h)) (suc n - batch_size false (suc n)) _
                (omega (arith, size))
      ]

  module _ (less : S → S → Bool) (docs : List D) (answers : Answers sort_of less search docs) where
    two_pages :
        (f n total : ℕ) (d : D)
        → total ≡ es_max_fetch_size + suc n
        → last_of (take es_max_fetch_size docs) ≡ some d
        → es_max_fetch_size ≤ length docs
        → suc n < es_max_fetch_size
        → fetch sort_of search false (suc (suc (suc f))) none 0 total []
          ≡ done
              (take es_max_fetch_size docs ++ take (suc n) (behind sort_of less (sort_of d) docs))
    two_pages f n total d e l many small =
        let size = large_batch total (omega arith) in
        let (t, answered, _) = answers.0 false es_max_fetch_size in
        let (t', answered', _) = answers.1 false (sort_of d) (suc n) in
        let rest : total - batch_size false total ≡ suc n = omega (arith, size) in
        fetch_more (suc (suc f)) none total t [] (take es_max_fetch_size docs) d (omega arith)
          (rw size answered) (omega (arith, size, many, length-take docs es_max_fetch_size)) l
        ∙ rw rest (
            fetch_rest f (some (sort_of d)) n t' (take es_max_fetch_size docs)
              (behind sort_of less (sort_of d) docs) small answered')

    -- When the server answers a search with the first hits, or the first behind the sort
    -- value given, and with a total that is not zero while documents match, the `_source` of
    -- the query is valid, there are enough documents for the first page, and less than a page
    -- more is asked for than the first page holds, paging by `search_after` returns the first
    -- page and, behind it, only documents whose sort value comes behind that of its last hit:
    -- a document with the same value that did not fit the first page is skipped. Fuel for
    -- three rounds is enough.
    pub ties_are_skipped :
        (fuel n : ℕ) (d : D) (source : Source)
        → source ≢ invalid
        → es_max_fetch_size ≤ length docs
        → last_of (take es_max_fetch_size docs) ≡ some d
        → suc n < es_max_fetch_size
        → 2 < fuel
        → let rest = take (suc n) (behind sort_of less (sort_of d) docs) in
          (get_documents_with_search_after sort_of search fuel source false 0
              (es_max_fetch_size + suc n)
            ≡ done (take es_max_fetch_size docs ++ rest))
          × All (λ e. less (sort_of d) (sort_of e) ≡ true) rest
    unfolding get_documents_with_search_after jump_to_active_batch jump
    ties_are_skipped zero n d source valid many l small enough = absurd (omega arith)
    ties_are_skipped (suc zero) n d source valid many l small enough = absurd (omega arith)
    ties_are_skipped (suc (suc zero)) n d source valid many l small enough = absurd (omega arith)
    ties_are_skipped (suc (suc (suc f))) n d invalid valid many l small enough = absurd (valid refl)
    ties_are_skipped (suc (suc (suc f))) n d absent valid many l small enough = (
      two_pages f n (0 + (es_max_fetch_size + suc n)) d (omega arith) l many small,
      All-take _ (suc n) _ (All-keep _ docs),
    )
    ties_are_skipped (suc (suc (suc f))) n d fields valid many l small enough = (
      two_pages f n (0 + (es_max_fetch_size + suc n)) d (omega arith) l many small,
      All-take _ (suc n) _ (All-keep _ docs),
    )
