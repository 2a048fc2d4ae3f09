-- ===== src/Workers/Monitor/Events.antt =====
-- workers: each event of the overseer, against the maps of the running workers and their statuses.
use photon.Base.{
  ℕ, ◌≡◌, ◌≢◌, inl, inr, arith, Bool, true, false, Option, none, some, List, [], ◌∷◌, String,
  string_discrete, if_pos, if_neg, Option-cases, Bool-cases, ◌==◌,
}
use photon.Base.Dict
use photon.Base.Dict.{Dict}
use photon.Base.Int.{pos}
use photon.Workers.Config.{WorkerConfig}
use photon.Workers.Registry.{
  Statuses, status_stopped, status_restart, Running, Registry, unregister, without, unregistered,
  beat, is_stale, collect_stale, stale_running_workers,
}
use photon.Workers.Restart.{track_worker_restart}
use photon.Workers.Monitor.{
  Overseer, Failed, Ending, schedule_restart, launch_worker, launch_from_config, signal_failure,
  run_ended, handle_failure, take_signal, restart_stale, check_heartbeats, name_of, error_of, hook,
  on_error,
}
use photon.Workers.Monitor.Consistent.{
  Agree, registered, is_there, is_running-restart, register-Agree, late-Agree, stopped-Agree,
}

abbrev pub AgreeNow : Overseer → Type 0
AgreeNow o = Agree [] o.registry o.statuses

restart-Agree :
    (name : String) (count : ℕ) (late : List (String × Running)) (r : Registry) (m : Statuses)
    → Agree late r m
    → Agree late r (status_restart name count m)
restart-Agree name count late r m a = record {
  same = a.same;
  alive = λ q there. ground (arith, there, a.alive q, is_running-restart name q count m);
  known = λ q up. ground (arith, up, a.known q, is_running-restart name q count m);
  gone = a.gone;
  nameless = ground (arith, a.nameless, is_running-restart name "" count m);
}

-- A restart that is scheduled touches neither the maps nor what runs.
pub schedule_restart-Agree :
    (cancelled : Bool) (now : ℕ) (cfg : WorkerConfig) (failed : Option Failed)
    (late : List (String × Running)) (o : Overseer)
    → Agree late o.registry o.statuses
    → (let o' = schedule_restart cancelled now cfg failed o in Agree late o'.registry o'.statuses)
unfolding schedule_restart
schedule_restart-Agree true now cfg failed late o a = a
schedule_restart-Agree false now cfg failed late o a =
    let name = name_of cfg failed in
    let d = (track_worker_restart o.limits now name o.history).1 in
    elim (Bool-cases d.allowed) [
      | inl e ↦ rw e (restart-Agree name d.count late o.registry o.statuses a)
      | inr e ↦ rw e a
    ]

restart_stale-Agree :
    (cancelled : Bool) (now : ℕ) (late : List (String × Running)) (o : Overseer)
    → Agree late o.registry o.statuses
    → AgreeNow (restart_stale cancelled now late o)
unfolding restart_stale
restart_stale-Agree cancelled now [] o a = a
restart_stale-Agree cancelled now ((id, w) ∷ late) o a = restart_stale-Agree cancelled now late _ (
    schedule_restart-Agree cancelled now w.config _ late _
      (stopped-Agree now id _ w late o.registry o.statuses a))

collect_stale-Agree :
    (now timeout : ℕ) (xs late : List (String × Running)) (r : Registry) (m : Statuses)
    → Agree late r m
    → (let (r', late') = collect_stale now timeout xs (r, late) in Agree late' r' m)
unfolding collect_stale
collect_stale-Agree now timeout [] late r m a = a
collect_stale-Agree now timeout ((id, w) ∷ xs) late r m a =
    elim (Bool-cases (is_stale now timeout w)) [
      | inl e ↦ rw e (collect_stale-Agree now timeout xs _ _ m (late-Agree id w late r m a))
      | inr e ↦ rw e (collect_stale-Agree now timeout xs late r m a)
    ]

pub check_heartbeats-Agree :
    (cancelled : Bool) (now : ℕ) (o : Overseer)
    → AgreeNow o
    → AgreeNow (check_heartbeats cancelled now o)
unfolding check_heartbeats stale_running_workers
check_heartbeats-Agree cancelled now o a =
    let w =
      restart_stale-Agree cancelled now _ _
        (collect_stale-Agree now o.heartbeat_timeout o.registry.by_id [] o.registry o.statuses a) in
    elim (Bool-cases (o.heartbeat_timeout == 0)) [ inl e ↦ rw e a | inr e ↦ rw e w ]

nobody : Running
nobody = record {
  config = record { name = ""; has_factory = false; max_count = pos 0; is_enabled = false };
  worker_name = "";
  last_heartbeat = none;
}

unregister_named :
    (id : String) (r : Registry) → id ≢ "" → unregister id r ≡ (without id r, unregistered id r)
unfolding unregister
unregister_named id r n = if_neg (string_discrete id "") n _ _

unregister_nameless : (id : String) (r : Registry) → id ≡ "" → unregister id r ≡ (r, none)
unfolding unregister
unregister_nameless id r e = if_pos (string_discrete id "") e _ _

stopped_nameless :
    (now : ℕ) (id : String) (err : Option String) (m : Statuses)
    → id ≡ ""
    → status_stopped now id err m ≡ m
unfolding status_stopped
stopped_nameless now id err m e = if_pos (string_discrete id "") e _ _

-- The maps and the statuses after a failure, before the restart.
failed-Agree :
    (now : ℕ) (id : String) (err : Option String) (r : Registry) (m : Statuses)
    → Agree [] r m
    → Agree [] (unregister id r).0 (status_stopped now id err m)
failed-Agree now id err r m a = elim (string_discrete id "") [
  | yes e ↦ rw (unregister_nameless id r e) (rw (stopped_nameless now id err m e) a)
  | no n ↦
      rw (unregister_named id r n)
        (stopped-Agree now id err nobody [] _ m (late-Agree id nobody [] r m a))
]

handle_failure-Agree :
    (cancelled : Bool) (now : ℕ) (w : Failed) (o : Overseer)
    → AgreeNow o
    → AgreeNow (handle_failure cancelled now w o)
unfolding handle_failure
handle_failure-Agree cancelled now w o a =
    let b = failed-Agree now w.id w.error o.registry o.statuses a in
    elim (Option-cases (unregister w.id o.registry).1) [
      | inl e ↦ rw (e, handle_failure) b
      | inr (running, e) ↦
          rw (e, handle_failure)
            (schedule_restart-Agree cancelled now running.config (some w) [] _ b)
    ]

pub take_signal-Agree :
    (cancelled : Bool) (now : ℕ) (o : Overseer)
    → AgreeNow o
    → AgreeNow (take_signal cancelled now o)
unfolding take_signal
take_signal-Agree cancelled now o a = go o.signals
  where
    go :
        (ws : List Failed)
        → AgreeNow (elim ws as (λ _. Overseer) [
          | [] ↦ o
          | w ∷ rest ↦ handle_failure cancelled now w (record o { signals = rest })
        ])
    go [] = a
    go (w ∷ rest) = handle_failure-Agree cancelled now w _ a

-- A signal touches neither the maps nor the statuses.
signal_failure_keeps :
    (now : ℕ) (w : Failed) (o : Overseer)
    → (let o' = signal_failure now w o in (o'.registry ≡ o.registry) × (o'.statuses ≡ o.statuses))
unfolding signal_failure
signal_failure_keeps now w o = ground arith

pub run_ended-Agree :
    (done : Bool) (now : ℕ) (name id : String) (ending : Ending) (o : Overseer)
    → AgreeNow o
    → AgreeNow (run_ended done now name id ending o)
unfolding run_ended
run_ended-Agree true now name id ending o a = a
run_ended-Agree false now name id ending o a =
    let w : Failed = record { name = name; id = id; error = some (error_of ending) } in
    let (e, e') = signal_failure_keeps now w (hook (on_error name id w.error) o) in rw e (rw e' a)

is_there-beat :
    (id : String) (r : Registry) (w w' : Running)
    → Dict.get string_discrete id r.by_id ≡ some w
    → (q : String)
    → is_there (Dict.get string_discrete q (Dict.put string_discrete id w' r.by_id))
      ≡ registered q r
is_there-beat id r w w' e q = ground (arith, e, Dict.get-put string_discrete id q w' r.by_id)

pub beat-Agree :
    (now : ℕ) (id : String) (r : Registry) (m : Statuses)
    → Agree [] r m
    → Agree [] (beat now id r) m
unfolding beat
beat-Agree now id r m a = elim (Option-cases (Dict.get string_discrete id r.by_id)) [
  | inl e ↦ rw (e, beat) a
  | inr (w, e) ↦
      let w' = record w { last_heartbeat = some now } in
      let same = is_there-beat id r w w' e in
      rw (e, beat)
        (record {
          same = λ q. ground (arith, same q, a.same q);
          alive = λ q there. ground (arith, same q, there, a.alive q);
          known = λ q up. ground (arith, same q, up, a.known q);
          gone = λ q late. ground (arith, same q, late, a.gone q);
          nameless = a.nameless;
        })
]

pub launch_from_config-Agree :
    (cancelled : Bool) (now : ℕ) (id : String) (made : Option String) (cfg : WorkerConfig)
    (o : Overseer)
    → id ≢ ""
    → AgreeNow o
    → AgreeNow (launch_from_config cancelled now id made cfg o)
unfolding launch_from_config launch_worker
launch_from_config-Agree cancelled now id none cfg o h a =
    schedule_restart-Agree cancelled now cfg none [] o a
launch_from_config-Agree cancelled now id (some name) cfg o h a =
    register-Agree now id cfg.name _ o.registry o.statuses h a
