-- ===== src/Flashdb/Cell/Operations.antt =====
-- storage/flashdb/store.go: each operation against the invariant of a shard.
use photon.Base.{ℕ, ◌≡◌, refl, some, List, String, Option-cases, Bool-cases, inl, inr, ◌==◌}
use photon.Base.Int.{ℤ, pos, ◌≤ℤ◌, ltb_ℤ}
use photon.Flashdb.Value.{Env, Fields, Record, compute_size, is_expired}
use photon.Flashdb.Shard
use photon.Flashdb.Shard.{Shard}
use photon.Flashdb.Shard.Tracked.{bump-Tracked}
use photon.Flashdb.Shard.Room.{IsValid, remove-IsValid, trim_all-IsValid}
use photon.Flashdb.Cell
use photon.Flashdb.Cell.{Cell, find, live}
use photon.Flashdb.Cell.Accounting.{compute_size-lt}
use photon.Flashdb.Cell.Invariant.{
  bump-IsValid, live-IsValid, live_found, store-IsValid, resized-Tracked, update-IsValid,
  insert-IsValid,
}

-- The estimated sizes do not leave the range of an int64.
abbrev pub SizesFit : Env → Type 0
SizesFit env = (key : String) (value : Fields) → pos 0 ≤ℤ compute_size env key value

module _ (env : Env) (default_ttl : ℤ) (remaining : ℕ → ℤ) where
  pub get-IsValid :
      (now : ℕ) (k : String) (c : Cell) → IsValid c.shard → IsValid (Cell.get now k c).0.shard
  unfolding Cell.get
  get-IsValid now k c v = elim (Option-cases (live now k c).1) [
    | inl gone ↦ rw (gone, Cell.get) (live-IsValid now k c v)
    | inr (r, there) ↦ rw (there, Cell.get) (bump-IsValid k (live-IsValid now k c v))
  ]

  pub get_ttl-IsValid :
      (now : ℕ) (k : String) (c : Cell)
      → IsValid c.shard
      → IsValid (Cell.get_ttl remaining now k c).0.shard
  unfolding Cell.get_ttl
  get_ttl-IsValid now k c v = elim (Option-cases (live now k c).1) [
    | inl gone ↦ rw (gone, Cell.get_ttl) (live-IsValid now k c v)
    | inr (r, there) ↦ elim (Bool-cases (r.expiry == 0)) [
      | inl forever ↦ rw (there, Cell.get_ttl) (rw forever (live-IsValid now k c v))
      | inr timed ↦ elim (Bool-cases (ltb_ℤ (remaining r.expiry) (pos 0))) [
        | inl late ↦
            rw (there, Cell.get_ttl) (rw (timed, late) (remove-IsValid k (live-IsValid now k c v)))
        | inr early ↦ rw (there, Cell.get_ttl) (rw (timed, early) (live-IsValid now k c v))
      ]
    ]
  ]

  -- A live record is still there after the look at it.
  still_there :
      (now : ℕ) (k : String) (c : Cell) (r : Record)
      → (live now k c).1 ≡ some r
      → find k (live now k c).0.shard ≡ some r
  still_there now k c r h = let (there, _, same) = live_found now k c r h in rw same there

  pub set_ttl-IsValid :
      (now : ℕ) (k : String) (ttl : ℤ) (c : Cell)
      → IsValid c.shard
      → IsValid (Cell.set_ttl now k ttl c).0.shard
  unfolding Cell.set_ttl
  set_ttl-IsValid now k ttl c v = elim (Option-cases (live now k c).1) [
    | inl gone ↦ rw (gone, Cell.set_ttl) (live-IsValid now k c v)
    | inr (r, there) ↦
        rw (there, Cell.set_ttl)
          (bump-IsValid k
            (store-IsValid k r _ (live-IsValid now k c v) (still_there now k c r there) refl))
  ]

  pub increment-IsValid :
      (now : ℕ) (k : String) (offsets : List (String × ℤ)) (c : Cell)
      → IsValid c.shard
      → IsValid (Cell.increment env now k offsets c).0.shard
  unfolding Cell.increment
  increment-IsValid now k offsets c v = elim (Option-cases (live now k c).1) [
    | inl gone ↦ rw (gone, Cell.increment) (live-IsValid now k c v)
    | inr (r, there) ↦
        let stays = λ (f : Fields).
          store-IsValid k r (record r { value = f }) (live-IsValid now k c v)
            (still_there now k c r there) refl in
        elim (Option-cases (Cell.increment_fields env offsets r.value).1) [
          | inl done ↦
              rw (there, Cell.increment) (rw (done, Cell.increment) (bump-IsValid k (stays _)))
          | inr (e, stopped) ↦ rw (there, Cell.increment) (rw (stopped, Cell.increment) (stays _))
        ]
  ]

  pub append-IsValid :
      (now : ℕ) (k : String) (suffixes : List (String × List ℕ)) (c : Cell)
      → SizesFit env
      → IsValid c.shard
      → IsValid (Cell.append env now k suffixes c).0.shard
  unfolding Cell.append
  append-IsValid now k suffixes c fit v = elim (Option-cases (live now k c).1) [
    | inl gone ↦ rw (gone, Cell.append) (live-IsValid now k c v)
    | inr (r, there) ↦
        let w = live-IsValid now k c v in
        let held = still_there now k c r there in
        let grown = (Cell.append_fields suffixes r.value).0 in
        elim (Option-cases (Cell.append_fields suffixes r.value).1) [
          | inr (e, stopped) ↦
              rw (there, Cell.append) (rw (stopped, Cell.append) (store-IsValid k r _ w held refl))
          | inl done ↦
              let t =
                resized-Tracked k r (record r { value = grown; size = compute_size env k grown }) w
                  held (fit k grown) (compute_size-lt env k grown) in
              rw (there, Cell.append)
                (rw (done, Cell.append)
                  (trim_all-IsValid _ (bump-Tracked k t) (unfold Shard.bump in w.in_memory)))
        ]
  ]

  pub set-IsValid :
      (now : ℕ) (k : String) (value : Fields) (ttl : ℤ) (c : Cell)
      → SizesFit env
      → IsValid c.shard
      → IsValid (Cell.set env default_ttl now k value ttl c).0.shard
  unfolding Cell.set
  set-IsValid now k value ttl c fit v = elim (Option-cases (find k c.shard)) [
    | inl new ↦ rw (new, Cell.set) (insert-IsValid k _ _ v new (fit k value))
    | inr (r, there) ↦
        rw (there, Cell.set)
          (update-IsValid k r _ v there (fit k value) (compute_size-lt env k value))
  ]

  pub delete-IsValid : (k : String) (c : Cell) → IsValid c.shard → IsValid (Cell.delete k c).0.shard
  unfolding Cell.delete
  delete-IsValid k c v = elim (Option-cases (find k c.shard)) [
    | inl missing ↦ rw (missing, Cell.delete) v
    | inr (r, there) ↦ rw (there, Cell.delete) (remove-IsValid k v)
  ]

  pub exists_again-IsValid :
      (now : ℕ) (k : String) (c : Cell)
      → IsValid c.shard
      → IsValid (Cell.exists_again now k c).0.shard
  unfolding Cell.exists_again
  exists_again-IsValid now k c v = elim (Option-cases (find k c.shard)) [
    | inl missing ↦ rw (missing, Cell.exists_again) v
    | inr (r, there) ↦ elim (Bool-cases (is_expired r now)) [
      | inl gone ↦ rw (there, Cell.exists_again) (rw gone (remove-IsValid k v))
      | inr fresh ↦ rw (there, Cell.exists_again) (rw fresh v)
    ]
  ]

  -- What keeps the shard well formed in the gap between the locks lets `Exists` keep it so.
  pub exists-IsValid :
      (now : ℕ) (k : String) (between : Cell → Cell)
      → ((c : Cell) → IsValid c.shard → IsValid (between c).shard)
      → (c : Cell) → IsValid c.shard
      → IsValid (Cell.exists now k between c).0.shard
  unfolding Cell.exists
  exists-IsValid now k between keeps c v = elim (Option-cases (find k c.shard)) [
    | inl missing ↦ rw (missing, Cell.exists) v
    | inr (r, there) ↦ elim (Bool-cases (is_expired r now)) [
      | inl gone ↦
          rw (there, Cell.exists) (rw gone (exists_again-IsValid now k (between c) (keeps c v)))
      | inr fresh ↦ rw (there, Cell.exists) (rw fresh v)
    ]
  ]
