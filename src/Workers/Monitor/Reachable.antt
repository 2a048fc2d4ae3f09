-- ===== src/Workers/Monitor/Reachable.antt =====
-- workers: the states that the overseer reaches, one event after another.
use photon.Base.{ℕ, ◌≡◌, ◌≢◌, refl, arith, Bool, Option, List, [], ◌∷◌, ◌++◌, String}
use photon.Base.Dict
use photon.Base.Dict.{Dict}
use photon.Workers.Config.{WorkerConfig}
use photon.Workers.Registry.{beat}
use photon.Workers.Restart.{Limits}
use photon.Workers.Monitor.{
  Overseer, Ending, launch_worker, launch_from_config, run_ended, take_signal, check_heartbeats,
}
use photon.Workers.Monitor.Consistent.{is_running, registered, configured, member, register-Agree}
use photon.Workers.Monitor.Events.{
  AgreeNow, check_heartbeats-Agree, take_signal-Agree, run_ended-Agree, beat-Agree,
  launch_from_config-Agree,
}

-- What one event does.
pub data Step : Overseer → Overseer → Type 0 where
  launches :
      (now : ℕ) (id worker_name : String) (cfg : WorkerConfig) (o : Overseer)
      → id ≢ ""
      → Step o (launch_worker now id worker_name cfg o)
  relaunches :
      (cancelled : Bool) (now : ℕ) (id : String) (made : Option String) (cfg : WorkerConfig)
      (before after : List WorkerConfig) (o : Overseer)
      → id ≢ ""
      → o.pending ≡ before ++ cfg ∷ after
      → Step o
          (launch_from_config cancelled now id made cfg (record o { pending = before ++ after }))
  beats :
      (now : ℕ) (id : String) (o : Overseer)
      → Step o (record o { registry = beat now id o.registry })
  ends :
      (done : Bool) (now : ℕ) (name id : String) (ending : Ending) (o : Overseer)
      → Step o (run_ended done now name id ending o)
  takes : (cancelled : Bool) (now : ℕ) (o : Overseer) → Step o (take_signal cancelled now o)
  ticks : (cancelled : Bool) (now : ℕ) (o : Overseer) → Step o (check_heartbeats cancelled now o)

-- The states reached from the state that `StartOverseerWithContext` makes.
pub data Reached (start : Overseer) : Overseer → Type 0 where
  here : Reached start start
  next : (o o' : Overseer) → Reached start o → Step o o' → Reached start o'

unfoldable pub new_overseer : Limits → ℕ → ℕ → ℕ → Overseer
new_overseer limits heartbeat_timeout signal_ttl capacity = record {
  limits = limits;
  heartbeat_timeout = heartbeat_timeout;
  signal_ttl = signal_ttl;
  capacity = capacity;
  registry = record { by_id = []; config_by_id = [] };
  statuses = [];
  seen = [];
  history = [];
  pending = [];
  signals = [];
  events = [];
}

Step-Agree : {o o' : Overseer} → Step o o' → AgreeNow o → AgreeNow o'
unfolding launch_worker
Step-Agree (launches now id worker_name cfg o h) a =
    register-Agree now id cfg.name _ o.registry o.statuses h a
Step-Agree (relaunches cancelled now id made cfg before after o h _) a =
    launch_from_config-Agree cancelled now id made cfg _ h a
Step-Agree (beats now id o) a = beat-Agree now id o.registry o.statuses a
Step-Agree (ends done now name id ending o) a = run_ended-Agree done now name id ending o a
Step-Agree (takes cancelled now o) a = take_signal-Agree cancelled now o a
Step-Agree (ticks cancelled now o) a = check_heartbeats-Agree cancelled now o a

new_overseer-Agree :
    (limits : Limits) (heartbeat_timeout signal_ttl capacity : ℕ)
    → AgreeNow (new_overseer limits heartbeat_timeout signal_ttl capacity)
unfolding new_overseer Dict.get
new_overseer-Agree limits heartbeat_timeout signal_ttl capacity = record {
  same = λ q. refl;
  alive = λ q there. unfold Dict.get in absurd (cc);
  known = λ q up. unfold Dict.get in absurd (cc);
  gone = λ q late. unfold member in absurd (cc);
  nameless = unfold Dict.get in refl;
}

Reached-Agree :
    (limits : Limits) (heartbeat_timeout signal_ttl capacity : ℕ) (o : Overseer)
    → Reached (new_overseer limits heartbeat_timeout signal_ttl capacity) o
    → AgreeNow o
Reached-Agree limits h s c _ here = new_overseer-Agree limits h s c
Reached-Agree limits h s c _ (next o o' r st) = Step-Agree st (Reached-Agree limits h s c o r)

-- In every state that the overseer reaches from its start, by launches, relaunches, heartbeats,
-- ends of runs, failure signals and ticks of the watchdog, an id has a worker in one map of the
-- running workers exactly when it has a configuration in the other, and exactly when its status
-- is running.
pub Reached-agrees :
    (limits : Limits) (heartbeat_timeout signal_ttl capacity : ℕ) (o : Overseer) (id : String)
    → Reached (new_overseer limits heartbeat_timeout signal_ttl capacity) o
    → (configured id o.registry ≡ registered id o.registry)
      × (is_running id o.statuses ≡ registered id o.registry)
unfolding member
Reached-agrees limits h s c o id r =
    let a = Reached-Agree limits h s c o r in (a.same id, ground (arith, a.alive id, a.known id))
