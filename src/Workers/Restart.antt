-- ===== src/Workers/Restart.antt =====
-- workers/restart.go: the restart budget, a sliding window over the times of the restarts of a
-- worker, and the backoff that doubles with each of them. Times and durations are nanoseconds; the
-- configured limits of workers/overseer.go are the fields of `Limits`.
pub mod Budget
use photon.Base.{
  Bool, true, false, ℕ, zero, suc, ◌-◌, ◌*◌, ◌/◌, none, some, List, [], ◌∷◌, ◌++◌, String,
  string_discrete, leb, ltb, if◌then◌else◌, keep, length,
}
use photon.Base.Dict
use photon.Base.Dict.{Dict}

pub record Limits : Type 0 where
  pub window : ℕ
  pub limit : ℕ
  pub backoff : ℕ
  pub backoff_max : ℕ

-- The loop of `computeWorkerRestartBackoff`, `n` rounds of it.
unfoldable pub doubled : Limits → ℕ → ℕ → ℕ
doubled l zero backoff = backoff
doubled l (suc n) backoff =
    let rest = doubled l n (backoff * 2) in
    if leb (l.backoff_max / 2) backoff then l.backoff_max else rest

unfoldable pub compute_worker_restart_backoff : Limits → ℕ → ℕ
compute_worker_restart_backoff l restart_count =
    if leb restart_count 1 then l.backoff else doubled l (restart_count - 1) l.backoff

-- The answer of `trackWorkerRestart`.
pub record Decision : Type 0 where
  pub count : ℕ
  pub delay : ℕ
  pub allowed : Bool

abbrev pub History : Type 0
History = Dict String (List ℕ)

-- The times recorded for a worker; Go reads a missing key as nil.
unfoldable pub times : String → History → List ℕ
times name h = elim (Dict.get string_discrete name h) [ none ↦ [] | some ts ↦ ts ]

-- The times that are still in the window at `now`.
unfoldable pub pruned : Limits → ℕ → List ℕ → List ℕ
pruned l now ts = keep (λ t. leb (now - t) l.window) ts

unfoldable pub track_worker_restart : Limits → ℕ → String → History → History × Decision
unfolding times pruned compute_worker_restart_backoff
track_worker_restart l now name h =
    let ts = pruned l now (times name h) ++ (now ∷ []) in
    let n = length ts in
    (
      Dict.put string_discrete name ts h,
      if ltb l.limit n
          then record { count = n; delay = 0; allowed = false }
          else record { count = n; delay = compute_worker_restart_backoff l n; allowed = true },
    )
