-- ===== src/Workers/Tests.antt =====
-- workers: the default limits of workers/overseer.go on short histories.
use photon.Base.{◌≡◌, refl, true, false, none, some, [], ◌∷◌, string_discrete, arith}
use photon.Base.Dict
use photon.Base.Int.{pos}
use photon.Workers.Config.{WorkerConfig}
use photon.Workers.Registry.{Running, is_stale, register, stale_running_workers, collect_stale}
use photon.Workers.Monitor.{Overseer, Failed, launch_worker, check_heartbeats, restart_stale}
use photon.Workers.Monitor.Consistent.{registered, configured, is_running}
use photon.Workers.Monitor.Reachable.{
  Reached, here, next, launches, ticks, new_overseer, Reached-agrees,
}
use photon.Workers.Monitor.Failures.{no_stale_worker}
use photon.Workers.Restart.{Limits, History}

-- Ten restarts in a minute, from half a second to thirty, in milliseconds.
abbrev defaults : Limits
defaults = record { window = 60_000; limit = 10; backoff = 500; backoff_max = 30_000 }

abbrev history : History
history = ("mail", 1_000 ∷ 50_000 ∷ []) ∷ []

abbrev mail : WorkerConfig
mail = record { name = "mail"; has_factory = true; max_count = pos 2; is_enabled = true }

abbrev idle : Overseer
idle = new_overseer defaults 30_000 120_000 2

abbrev busy : Overseer
busy = launch_worker 100 "id1" "mailer" mail idle

abbrev ticked : Overseer
ticked = check_heartbeats false 50_000 busy

busy-Reached : Reached idle busy
busy-Reached = next idle busy here (launches 100 "id1" "mailer" mail idle (λ e. absurd (cc)))

Reached-agrees_example :
    (configured "id1" ticked.registry ≡ registered "id1" ticked.registry)
    × (is_running "id1" ticked.statuses ≡ registered "id1" ticked.registry)
Reached-agrees_example =
    Reached-agrees defaults 30_000 120_000 2 ticked "id1"
      (next busy ticked busy-Reached (ticks false 50_000 busy))

abbrev failure : Failed
failure = record { name = "mailer"; id = "id1"; error = none }

abbrev state : Running
state = record { config = mail; worker_name = "mailer"; last_heartbeat = some 100 }

no_stale_worker_example :
    (is_stale 10_000 30_000 state ≡ false)
    × (Dict.get string_discrete "id1" busy.registry.by_id ≡ some state)
unfolding check_heartbeats launch_worker new_overseer Dict.get restart_stale stale_running_workers
    collect_stale register string_discrete Dict.put
no_stale_worker_example = no_stale_worker false 10_000 busy "id1" state (omega arith) refl
