-- ===== src/Workers/Options.antt =====
-- workers/options.go and overseer.go: the settings of the overseer, and the budget of its own restarts
-- after a panic. Durations are nanoseconds.
use photon.Base.{
  ℕ, ◌-◌, ◌≤◌, ◌<◌, arith, Bool, false, Option, none, some, List, [], ◌∷◌, ◌++◌, if◌then◌else◌, leb,
  ltb, keep, length,
}
use photon.Base.Int.{ℤ, pos, negsuc}
use photon.Workers.Restart.{Limits}

pub record RestartPolicy : Type 0 where
  pub limit : ℤ
  pub window : ℤ
  pub min_backoff : ℤ
  pub max_backoff : ℤ

pub record WatchdogOptions : Type 0 where
  pub interval : ℤ
  pub heartbeat_timeout : ℤ

-- The hooks take no part in the settings.
pub record OverseerOptions : Type 0 where
  pub restart_policy : RestartPolicy
  pub watchdog : WatchdogOptions

pub record Settings : Type 0 where
  pub limits : Limits
  pub overseer_sleep_timeout : ℕ
  pub worker_watchdog_every : ℕ
  pub worker_heartbeat_limit : ℕ

-- The values that the package starts with.
abbrev pub initial_settings : Settings
initial_settings = record {
  limits = record {
    window = 60_000_000_000;
    limit = 10;
    backoff = 500_000_000;
    backoff_max = 30_000_000_000;
  };
  overseer_sleep_timeout = 1_000_000_000;
  worker_watchdog_every = 5_000_000_000;
  worker_heartbeat_limit = 30_000_000_000;
}

abbrev min_overseer_sleep : ℕ
min_overseer_sleep = 100_000_000

-- A duration, a default for one that is not positive, and at least the minimum.
unfoldable pub at_least_minimum : ℕ → ℤ → ℕ
at_least_minimum d (negsuc n) = if ltb d min_overseer_sleep then min_overseer_sleep else d
at_least_minimum d (pos n) =
    let t = if leb n 0 then d else n in if ltb t min_overseer_sleep then min_overseer_sleep else t

-- `SetOverseerSleepTimeout`
unfoldable pub set_overseer_sleep_timeout : ℤ → Settings → Settings
set_overseer_sleep_timeout timeout s = record s {
  overseer_sleep_timeout = at_least_minimum 1_000_000_000 timeout;
}

-- `SetWorkerWatchdogInterval`
unfoldable pub set_worker_watchdog_interval : ℤ → Settings → Settings
set_worker_watchdog_interval interval s = record s {
  worker_watchdog_every = at_least_minimum 5_000_000_000 interval;
}

-- `SetWorkerHeartbeatTimeout`
unfoldable pub set_worker_heartbeat_timeout : ℤ → Settings → Settings
set_worker_heartbeat_timeout (pos n) s = record s { worker_heartbeat_limit = n }
set_worker_heartbeat_timeout (negsuc n) s = record s { worker_heartbeat_limit = 0 }

-- An option that is positive, or the setting before it.
abbrev pub or_before : ℤ → ℕ → ℕ
or_before (pos n) before = if ltb 0 n then n else before
or_before (negsuc n) before = before

abbrev pub is_positive : ℤ → Bool
is_positive (pos n) = ltb 0 n
is_positive (negsuc n) = false

-- `applyOverseerOptions`
unfoldable pub apply_overseer_options : Option OverseerOptions → Settings → Settings
apply_overseer_options none s = s
apply_overseer_options (some o) s =
    let p = o.restart_policy in
    let w = o.watchdog in
    let with_limits = record s {
      limits = record {
        window = or_before p.window s.limits.window;
        limit = or_before p.limit s.limits.limit;
        backoff = or_before p.min_backoff s.limits.backoff;
        backoff_max = or_before p.max_backoff s.limits.backoff_max;
      };
    } in
    let with_watchdog =
      if is_positive w.interval
      then set_worker_watchdog_interval w.interval with_limits
      else with_limits in
    if is_positive w.heartbeat_timeout
    then set_worker_heartbeat_timeout w.heartbeat_timeout with_watchdog
    else with_watchdog

-- The recovery of `executeOverseerWithContext`: the restarts within the window, with this one, and
-- whether the overseer restarts itself.
unfoldable pub recover_from_panic : ℕ → ℕ → ℕ → List ℕ → List ℕ × Bool
recover_from_panic restart_window restart_limit now timestamps =
    let kept = keep (λ t. leb (now - t) restart_window) timestamps ++ (now ∷ []) in
    (kept, leb (length kept) restart_limit)

-- Settings that the loops of the overseer can run on.
record IsUsable (s : Settings) : Type 0 where
  usable_sleep : min_overseer_sleep ≤ s.overseer_sleep_timeout
  usable_watchdog : min_overseer_sleep ≤ s.worker_watchdog_every
  usable_limit : 0 < s.limits.limit
  usable_backoff : 0 < s.limits.backoff

initial-IsUsable : IsUsable initial_settings
initial-IsUsable = record {
  usable_sleep = omega arith;
  usable_watchdog = omega arith;
  usable_limit = omega arith;
  usable_backoff = omega arith;
}

at_least_minimum-ge : (d : ℕ) (t : ℤ) → min_overseer_sleep ≤ at_least_minimum d t
unfolding at_least_minimum
at_least_minimum-ge d t = ground arith

apply_overseer_options-IsUsable :
    (o : Option OverseerOptions) (s : Settings) → IsUsable s → IsUsable (apply_overseer_options o s)
unfolding apply_overseer_options set_worker_watchdog_interval set_worker_heartbeat_timeout
apply_overseer_options-IsUsable none s u = u
apply_overseer_options-IsUsable (some o) s u = record {
  usable_sleep = ground (arith, u.usable_sleep);
  usable_watchdog =
      ground (arith, u.usable_watchdog, at_least_minimum-ge 5_000_000_000 o.watchdog.interval);
  usable_limit = ground (arith, u.usable_limit);
  usable_backoff = ground (arith, u.usable_backoff);
}
