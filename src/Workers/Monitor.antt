-- ===== src/Workers/Monitor.antt =====
-- workers/runtime.go, watchdog.go and restart.go: what the overseer does to its state. Each function
-- is one event: a launch, the end of a worker's run, a failure signal, a tick of the watchdog.
-- The clock, the new ids and the results of the factories are arguments; `cancelled` says that the
-- context of the overseer is done. Hooks are the list of the events that they were called with.
pub mod Consistent
pub mod Events
pub mod Reachable
pub mod Failures
use photon.Base.{
  ℕ, Bool, true, false, not, Option, none, some, List, [], ◌∷◌, ◌++◌, String, string_discrete, ite,
  if◌then◌else◌, ltb, length, ◌==◌,
}
use photon.Base.Dict
use photon.Base.Dict.{Dict}
use photon.Workers.Config.{WorkerConfig}
use photon.Workers.Registry.{
  Statuses, status_started, status_stopped, status_restart, Running, Registry, register, unregister,
  stale_running_workers, should_emit,
}
use photon.Workers.Restart.{Limits, History, track_worker_restart}

pub data Event : Type 0 where
  on_start : String → String → Event
  on_stop on_error : String → String → Option String → Event
  on_restart : String → String → Option String → ℕ → Event

-- What the overseer reads of a worker that failed: its name, its id and its error.
pub record Failed : Type 0 where
  pub name : String
  pub id : String
  pub error : Option String

-- The state of the overseer; `pending` are the configurations that wait for a relaunch, and `signals`
-- the failure channel, the oldest signal first.
pub record Overseer : Type 0 where
  pub limits : Limits
  pub heartbeat_timeout : ℕ
  pub signal_ttl : ℕ
  pub capacity : ℕ
  pub registry : Registry
  pub statuses : Statuses
  pub seen : Dict String ℕ
  pub history : History
  pub pending : List WorkerConfig
  pub signals : List Failed
  pub events : List Event

abbrev pub hook : Event → Overseer → Overseer
hook e o = record o { events = o.events ++ (e ∷ []) }

abbrev pub name_of : WorkerConfig → Option Failed → String
name_of cfg none = cfg.name
name_of cfg (some w) = ite (string_discrete w.name "") cfg.name w.name

abbrev pub failed_id : Option Failed → String
failed_id none = ""
failed_id (some w) = w.id

abbrev pub failed_error : Option Failed → Option String
failed_error none = none
failed_error (some w) = w.error

-- `scheduleWorkerRestartWithContext`, up to the start of the timer.
unfoldable pub schedule_restart : Bool → ℕ → WorkerConfig → Option Failed → Overseer → Overseer
schedule_restart true now cfg failed o = o
schedule_restart false now cfg failed o =
    let name = name_of cfg failed in
    let (history, d) = track_worker_restart o.limits now name o.history in
    if not d.allowed then record o { history = history } else record o {
      history = history;
      statuses = status_restart name d.count o.statuses;
      events = o.events ++ (on_restart name (failed_id failed) (failed_error failed) d.count ∷ []);
      pending = o.pending ++ (cfg ∷ []);
    }

-- `launchWorker`
unfoldable pub launch_worker : ℕ → String → String → WorkerConfig → Overseer → Overseer
launch_worker now id worker_name cfg o = record o {
  registry =
      register id (record { config = cfg; worker_name = worker_name; last_heartbeat = some now })
        o.registry;
  statuses = status_started now id cfg.name o.statuses;
  events = o.events ++ (on_start cfg.name id ∷ []);
}

-- `launchWorkerFromConfigWithContext`, with the name of the worker that the factory made, if any.
unfoldable pub launch_from_config :
    Bool → ℕ → String → Option String → WorkerConfig → Overseer → Overseer
launch_from_config cancelled now id none cfg o = schedule_restart cancelled now cfg none o
launch_from_config cancelled now id (some worker_name) cfg o =
    launch_worker now id worker_name cfg o

-- `signalWorkerFailure`: a signal that finds the channel full is dropped.
unfoldable pub signal_failure : ℕ → Failed → Overseer → Overseer
signal_failure now w o =
    let (seen, emit) = should_emit o.signal_ttl now w.id o.seen in
    if not emit
    then record o { seen = seen }
    else if ltb (length o.signals) o.capacity
    then record o { seen = seen; signals = o.signals ++ (w ∷ []) }
    else record o { seen = seen }

-- How a worker's run ends.
pub data Ending : Type 0 where
  returned : Ending
  failed_with panicked_with : String → Ending

abbrev pub error_of : Ending → String
error_of returned = "worker exited unexpectedly without error"
error_of (failed_with e) = e
error_of (panicked_with e) = e

-- `runWorkerSafely`, after the run: nothing when the runtime's context is done, else the hook and the
-- signal. The text of a panic stands with its prefix.
unfoldable pub run_ended : Bool → ℕ → String → String → Ending → Overseer → Overseer
run_ended true now name id ending o = o
run_ended false now name id ending o =
    let err = some (error_of ending) in
    signal_failure now (record { name = name; id = id; error = err })
      (hook (on_error name id err) o)

-- The monitor takes a failure signal.
unfoldable pub handle_failure : Bool → ℕ → Failed → Overseer → Overseer
handle_failure cancelled now w o =
    let (registry, state) = unregister w.id o.registry in
    let o' = record o {
      registry = registry;
      statuses = status_stopped now w.id w.error o.statuses;
      events = o.events ++ (on_stop w.name w.id w.error ∷ []);
    } in
    elim state [
      | none ↦ o'
      | some running ↦ schedule_restart cancelled now running.config (some w) o'
    ]

-- The oldest signal of the channel.
unfoldable pub take_signal : Bool → ℕ → Overseer → Overseer
take_signal cancelled now o = elim o.signals [
  | [] ↦ o
  | w ∷ rest ↦ handle_failure cancelled now w (record o { signals = rest })
]

abbrev timed_out : String
timed_out = "worker heartbeat timed out"

-- The loop of `checkWorkerHeartbeats` over the stale workers.
unfoldable pub restart_stale : Bool → ℕ → List (String × Running) → Overseer → Overseer
restart_stale cancelled now [] o = o
restart_stale cancelled now ((id, w) ∷ rest) o =
    let o' = record o {
      statuses = status_stopped now id (some timed_out) o.statuses;
      events =
          o.events
          ++ (on_error w.worker_name id (some timed_out)
              ∷ on_stop w.worker_name id (some timed_out)
              ∷ []);
    } in
    restart_stale cancelled now rest (
      schedule_restart cancelled now w.config
        (some (record { name = w.worker_name; id = id; error = some timed_out })) o')

-- `checkWorkerHeartbeats`
unfoldable pub check_heartbeats : Bool → ℕ → Overseer → Overseer
check_heartbeats cancelled now o =
    let (registry, stale) = stale_running_workers now o.heartbeat_timeout o.registry in
    if o.heartbeat_timeout == 0
    then o
    else restart_stale cancelled now stale (record o { registry = registry })
