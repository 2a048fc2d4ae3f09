-- ===== src/Storage/Elastic/Scroll.antt =====
-- getDocumentsWithScrollSession of storage/elasticsearch/helper.go. A scroll id is the argument of
-- the next request, and `none` is the empty one.
use photon.Base.{
  ℕ, zero, suc, ◌+◌, ◌-◌, Bool, true, false, ltb, leb, if◌then◌else◌, List, ◌++◌, Option, none,
  some, length, String,
}
use photon.Storage.Elastic.{take, drop, Outcome, done, error, unfinished, ◌>>=◌}

-- The answer to a scroll request: an error, the status of a bad request, or a page with the next id.
pub data ScrollReply (D I : Type 0) : Type 0 where
  failed : String → ScrollReply D I
  bad_request : ScrollReply D I
  scrolled : List D → Option I → ScrollReply D I

-- `searchQuery.From`, `searchQuery.Size`, `scrollID` and `docs` of the loop
pub record Session (D I : Type 0) : Type 0 where
  pub from : ℕ
  pub size : ℕ
  pub scroll_id : Option I
  pub docs : List D

module _ {D I : Type 0} (scroll : I → ScrollReply D I) (fetch_all : Bool) (fetch_size : ℕ) where
  -- What a page does: `inl` leaves the loop, `inr` goes on.
  abbrev pub found : List D → ℕ
  found hits = if ltb (length hits) fetch_size then length hits else fetch_size

  unfoldable pub take_page : Session D I → List D → Option I → Session D I × Bool
  take_page s hits next =
      if fetch_all
      then (record s { docs = s.docs ++ hits; scroll_id = next }, ltb (found hits) fetch_size)
      else if ltb s.from (found hits)
      then if leb (s.from + s.size) (found hits)
        then (record s { docs = s.docs ++ take s.size (drop s.from hits) }, true)
        else if ltb (found hits) fetch_size
        then (record s { docs = s.docs ++ drop s.from hits }, true)
        else (
          record s {
            docs = s.docs ++ drop s.from hits;
            size = s.size - (fetch_size - s.from);
            from = 0;
            scroll_id = next;
          },
          false,
        )
      else if ltb (found hits) fetch_size
      then (s, true)
      else (record s { from = s.from - fetch_size; scroll_id = next }, false)

  abbrev pub answered : ScrollReply D I → Outcome (Option (List D × Option I))
  answered (failed e) = error e
  answered bad_request = done none
  answered (scrolled hits next) = done (some (hits, next))

  unfoldable pub scroll_loop : ℕ → Session D I → Outcome (Session D I)
  scroll_loop zero s = unfinished
  scroll_loop (suc f) s = elim s.scroll_id [
    | none ↦ done s
    | some i ↦ do
      r ← answered (scroll i)
      (elim r [
        | none ↦ done s
        | some page ↦
            let t : Session D I × Bool = take_page s page.0 page.1 in
            if t.1 then done t.0 else scroll_loop f t.0
      ])
  ]
