-- ===== src/Storage/Elastic.antt =====
-- storage/elasticsearch/helper.go: the loops of IncrementalSearch that page by `search_after`. The
-- search is a parameter: it is asked for ids only or for documents, after a sort value or from the
-- start, and for a number of hits. The rest of the query is fixed and part of it.
pub mod Slices
pub mod Pages
pub mod Ranked
pub mod Fetch
pub mod Ties
pub mod Scroll
pub mod Wanted
use photon.Base.{
  ℕ, zero, suc, ◌+◌, ◌-◌, Bool, true, false, not, ◌&&◌, ◌||◌, ◌==◌, ltb, if◌then◌else◌, List, [],
  ◌∷◌, ◌++◌, Option, none, some, length, String,
}

-- EsMaxFetchSize
abbrev pub es_max_fetch_size : ℕ
es_max_fetch_size = 10000

module _ {ℓ} {A : Type ℓ} where
  abbrev pub take : ℕ → List A → List A
  take zero l = []
  take (suc n) [] = []
  take (suc n) (x ∷ l) = x ∷ take n l

  abbrev pub drop : ℕ → List A → List A
  drop zero l = l
  drop (suc n) [] = []
  drop (suc n) (x ∷ l) = drop n l

  -- `hits[len(hits)-1]`, which panics for no hits
  abbrev pub last_of : List A → Option A
  last_of [] = none
  last_of (x ∷ []) = some x
  last_of (x ∷ y ∷ l) = last_of (y ∷ l)

-- The answer to a search: an error, or the hits and the total that the server states.
pub data Reply (D : Type 0) : Type 0 where
  failed : String → Reply D
  page : List D → ℕ → Reply D

-- What a loop ends with; `unfinished` is a loop that ran out of fuel.
pub data Outcome (A : Type 0) : Type 0 where
  done : A → Outcome A
  error : String → Outcome A
  panic : Outcome A
  unfinished : Outcome A

infixl 5 ◌>>=◌
abbrev pub ◌>>=◌ : {A B : Type 0} → Outcome A → (A → Outcome B) → Outcome B
done a >>= f = f a
error e >>= f = error e
panic >>= f = panic
unfinished >>= f = unfinished

-- `_source` of the query: absent, a list of strings, or something else
pub data Source : Type 0 where
  absent fields invalid : Source

pub record Jumped (S : Type 0) : Type 0 where
  pub cursor : Option S
  pub from : ℕ
  pub insufficient_documents : Bool

-- `hits[len(hits)-1]` in a loop
unfoldable pub with_last : {D : Type 0} → List D → Outcome D
with_last hits = elim (last_of hits) [ none ↦ panic | some h ↦ done h ]

abbrev pub hits_of : {D : Type 0} → Reply D → Outcome (List D × ℕ)
hits_of (failed e) = error e
hits_of (page hits total) = done (hits, total)

unfoldable pub batch_size : Bool → ℕ → ℕ
batch_size fetch_all total =
    if not fetch_all && ltb total es_max_fetch_size then total else es_max_fetch_size

module _ {D S : Type 0} (sort_of : D → S) (search : Bool → Option S → ℕ → Reply D) where
  -- The loop of jumpToActiveBatchOfDocuments
  unfoldable pub jump : ℕ → ℕ → Option S → Outcome (Jumped S)
  jump zero from cursor = unfinished
  jump (suc f) from cursor =
      if ltb from es_max_fetch_size
      then done (record { cursor = cursor; from = from; insufficient_documents = false })
      else (do
        r ← hits_of (search true cursor es_max_fetch_size)
        (if r.1 == 0
            then done (record { cursor = cursor; from = from; insufficient_documents = true })
            else (do h ← with_last r.0; jump f (from - es_max_fetch_size) (some (sort_of h)))))

  unfoldable pub jump_to_active_batch : Source → ℕ → Outcome (Jumped S)
  jump_to_active_batch invalid from = error "invalid type for _source, expected []string"
  jump_to_active_batch _ from = jump (suc from) from none

  -- The loop of getDocumentsWithSearchAfter
  unfoldable pub fetch : Bool → ℕ → Option S → ℕ → ℕ → List D → Outcome (List D)
  fetch fetch_all zero cursor fetch_from total docs = unfinished
  fetch fetch_all (suc f) cursor fetch_from total docs =
      if not (fetch_all || ltb 0 total) then done docs else (do
        r ← hits_of (search false cursor (batch_size fetch_all total))
        (if ltb (length r.0) (batch_size fetch_all total)
            then done (if ltb fetch_from (length r.0) then docs ++ drop fetch_from r.0 else docs)
            else (do
              h ← with_last r.0
              (if ltb (length r.0) fetch_from
                  then panic
                  else fetch fetch_all f (some (sort_of h)) 0
                      (if fetch_all then total else total - batch_size fetch_all total)
                      (docs ++ drop fetch_from r.0)))))

  -- getDocumentsWithSearchAfter for a query that is sorted, on fuel for its second loop
  unfoldable pub get_documents_with_search_after : ℕ → Source → Bool → ℕ → ℕ → Outcome (List D)
  get_documents_with_search_after fuel source fetch_all from size = do
    j ← jump_to_active_batch source from
    (if j.insufficient_documents
        then done []
        else fetch fetch_all fuel j.cursor j.from (j.from + size) [])
