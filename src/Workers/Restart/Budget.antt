-- ===== src/Workers/Restart/Budget.antt =====
-- workers/restart.go: what the restart budget grants, and how long a restart waits.
use photon.Base.{
  ℕ, zero, suc, ◌-◌, ◌*◌, ◌≤◌, ◌≡◌, arith, [], ◌∷◌, ◌++◌, String, string_discrete, ltb, ite, length,
  length-append,
}
use photon.Base.Dict
use photon.Workers.Restart.{
  Limits, History, times, pruned, track_worker_restart, doubled, compute_worker_restart_backoff,
}

doubled-le : (l : Limits) (n b : ℕ) → b ≤ l.backoff_max → doubled l n b ≤ l.backoff_max
unfolding doubled
doubled-le l zero b h = h
doubled-le l (suc n) b h = ground (arith, doubled-le l n (b * 2))

backoff-le :
    (l : Limits) (n : ℕ)
    → l.backoff ≤ l.backoff_max
    → compute_worker_restart_backoff l n ≤ l.backoff_max
unfolding compute_worker_restart_backoff
backoff-le l n h = ground (arith, doubled-le l (n - 1) l.backoff)

doubled_mono : (l : Limits) (n b : ℕ) → b ≤ l.backoff_max → doubled l n b ≤ doubled l (suc n) b
unfolding doubled
doubled_mono l zero b h = ground arith
doubled_mono l (suc n) b h = ground (arith, doubled_mono l n (b * 2))

backoff_mono :
    (l : Limits) (n : ℕ)
    → l.backoff ≤ l.backoff_max
    → compute_worker_restart_backoff l n ≤ compute_worker_restart_backoff l (suc n)
unfolding compute_worker_restart_backoff doubled
backoff_mono l zero h = ground arith
backoff_mono l (suc zero) h = ground (arith, doubled_mono l 0 l.backoff)
backoff_mono l (suc (suc n)) h = ground (arith, doubled_mono l (suc n) l.backoff)

-- The delay never shrinks as the restarts in the window add up, and never exceeds the configured
-- maximum, when the first delay is within it.
backoff_lem :
    (l : Limits) (n : ℕ)
    → l.backoff ≤ l.backoff_max
    → (compute_worker_restart_backoff l n ≤ compute_worker_restart_backoff l (suc n))
      × (compute_worker_restart_backoff l (suc n) ≤ l.backoff_max)
backoff_lem l n h = (backoff_mono l n h, backoff-le l (suc n) h)

-- A restart is granted exactly while the window holds fewer restarts of that worker than the
-- limit; it is recorded either way, the restarts of other workers are not touched, and the count
-- reported is that of the recorded times.
pub track_lem :
    (l : Limits) (now : ℕ) (name other : String) (h : History)
    → let (h', d) = track_worker_restart l now name h in
      (d.count ≡ suc (length (pruned l now (times name h))))
      × (d.allowed ≡ ltb (length (pruned l now (times name h))) l.limit)
      × (times other h'
          ≡ ite
              (string_discrete name other)
              (pruned l now (times name h) ++ (now ∷ []))
              (times other h))
unfolding track_worker_restart times
track_lem l now name other h =
    let ts = pruned l now (times name h) ++ (now ∷ []) in
    (
      ground (arith, length-append (pruned l now (times name h)) (now ∷ [])),
      ground (arith, length-append (pruned l now (times name h)) (now ∷ [])),
      ground (arith, Dict.get-put string_discrete name other ts h),
    )
