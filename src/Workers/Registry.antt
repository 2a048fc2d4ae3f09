-- ===== src/Workers/Registry.antt =====
-- workers/status.go, runtime.go and watchdog.go: the maps of the running workers and their statuses.
-- The maps are those that `StartOverseerWithContext` makes. Times are nanoseconds.
use photon.Base.{
  ℕ, ◌-◌, Bool, true, false, not, Option, none, some, List, [], ◌∷◌, ◌++◌, String, string_discrete,
  ite, if◌then◌else◌, leb, ltb,
}
use photon.Base.Dict
use photon.Base.Dict.{Dict}
use photon.Workers.Config.{WorkerConfig}

pub record WorkerStatus : Type 0 where
  pub name : String
  pub id : String
  pub running : Bool
  pub restart_count : ℕ
  pub last_error : String
  pub last_started_at : ℕ
  pub last_stopped_at : ℕ

abbrev pub Statuses : Type 0
Statuses = Dict String WorkerStatus

-- Go reads a missing key as the zero value.
abbrev pub status_of : String → Statuses → WorkerStatus
status_of id m = elim (Dict.get string_discrete id m) [
  | some st ↦ st
  | none ↦ record {
    name = "";
    id = "";
    running = false;
    restart_count = 0;
    last_error = "";
    last_started_at = 0;
    last_stopped_at = 0;
  }
]

-- `updateWorkerStatusStarted`
unfoldable pub status_started : ℕ → String → String → Statuses → Statuses
status_started now id name m =
    Dict.put string_discrete id
      (record (status_of id m) { id = id; name = name; running = true; last_started_at = now }) m

-- `updateWorkerStatusStopped`
unfoldable pub status_stopped : ℕ → String → Option String → Statuses → Statuses
status_stopped now id err m =
    let st = status_of id m in
    ite (string_discrete id "") m (
      Dict.put string_discrete id
        (elim err [
          | none ↦ record st { running = false; last_stopped_at = now }
          | some e ↦ record st { running = false; last_stopped_at = now; last_error = e }
        ])
        m)

-- `updateWorkerStatusRestart`
unfoldable pub status_restart : String → ℕ → Statuses → Statuses
status_restart name count [] = []
status_restart name count ((id, st) ∷ m) =
    let rest = status_restart name count m in
    (id, ite (string_discrete st.name name) (record st { restart_count = count }) st) ∷ rest

-- What is kept of a running worker: its configuration, the worker's own name, and the last heartbeat
-- of its runtime, if it has one.
pub record Running : Type 0 where
  pub config : WorkerConfig
  pub worker_name : String
  pub last_heartbeat : Option ℕ

pub record Registry : Type 0 where
  pub by_id : Dict String Running
  pub config_by_id : Dict String WorkerConfig

-- `registerRunningWorkerState`, of a configuration that is there.
unfoldable pub register : String → Running → Registry → Registry
register id w r = ite (string_discrete id "") r (record {
  by_id = Dict.put string_discrete id w r.by_id;
  config_by_id = Dict.put string_discrete id w.config r.config_by_id;
})

-- The state that `unregisterRunningWorkerState` answers with: the worker's, or one that has its
-- configuration only.
unfoldable pub unregistered : String → Registry → Option Running
unregistered id r = elim (Dict.get string_discrete id r.by_id) [
  | some w ↦ some w
  | none ↦ elim (Dict.get string_discrete id r.config_by_id) [
    | none ↦ none
    | some c ↦ some (record { config = c; worker_name = ""; last_heartbeat = none })
  ]
]

-- The two deletes.
abbrev pub without : String → Registry → Registry
without id r = record {
  by_id = Dict.del string_discrete id r.by_id;
  config_by_id = Dict.del string_discrete id r.config_by_id;
}

-- `unregisterRunningWorkerState`
unfoldable pub unregister : String → Registry → Registry × Option Running
unregister id r = ite (string_discrete id "") (r, none) (without id r, unregistered id r)

-- `Beat`
unfoldable pub beat : ℕ → String → Registry → Registry
beat now id r = elim (Dict.get string_discrete id r.by_id) [
  | none ↦ r
  | some w ↦ record r {
    by_id = Dict.put string_discrete id (record w { last_heartbeat = some now }) r.by_id;
  }
]

-- More than the timeout has passed since the last heartbeat.
abbrev pub is_stale : ℕ → ℕ → Running → Bool
is_stale now timeout w = elim w.last_heartbeat [
  | none ↦ false
  | some t ↦ not (leb (now - t) timeout)
]

-- The loop of `staleRunningWorkers` over the entries of the map.
unfoldable pub collect_stale :
    ℕ
    → ℕ
    → List (String × Running)
    → Registry × List (String × Running)
    → Registry × List (String × Running)
collect_stale now timeout [] (r, stale) = (r, stale)
collect_stale now timeout ((id, w) ∷ rest) (r, stale) =
    if is_stale now timeout w
    then collect_stale now timeout rest (without id r, stale ++ ((id, w) ∷ []))
    else collect_stale now timeout rest (r, stale)

-- `staleRunningWorkers`
unfoldable pub stale_running_workers : ℕ → ℕ → Registry → Registry × List (String × Running)
stale_running_workers now timeout r = collect_stale now timeout r.by_id (r, [])

-- `shouldEmitWorkerFailureSignal`: the signals seen, without those older than the TTL.
unfoldable pub recent : ℕ → ℕ → Dict String ℕ → Dict String ℕ
recent ttl now [] = []
recent ttl now ((id, t) ∷ m) =
    let rest = recent ttl now m in if ltb ttl (now - t) then rest else (id, t) ∷ rest

unfoldable pub should_emit : ℕ → ℕ → String → Dict String ℕ → Dict String ℕ × Bool
should_emit ttl now id seen =
    let seen' = recent ttl now seen in
    ite (string_discrete id "") (seen, true)
      (elim (Dict.get string_discrete id seen') [
        | none ↦ (Dict.put string_discrete id now seen', true)
        | some t ↦
            if leb (now - t) ttl
            then (seen', false)
            else (Dict.put string_discrete id now seen', true)
      ])
