-- ===== src/Workers/Monitor/Failures.antt =====
-- workers: the way from the end of a worker's run to its relaunch.
use photon.Base.{
  ℕ, ◌-◌, ◌≤◌, ◌<◌, ◌≡◌, ◌≢◌, refl, sym, ◌∙◌, inl, inr, arith, Bool, true, false, Option, none,
  some, List, [], ◌∷◌, ◌++◌, String, string_discrete, Option-cases, Bool-cases,
}
use photon.Base.Dict
use photon.Base.Dict.{Dict}
use photon.Workers.Config.{WorkerConfig}
use photon.Workers.Registry.{
  Running, Registry, unregister, without, unregistered, is_stale, collect_stale,
  stale_running_workers, recent, should_emit,
}
use photon.Workers.Monitor.{
  Overseer, Failed, schedule_restart, handle_failure, restart_stale, check_heartbeats,
}

schedule_restart_keeps :
    (cancelled : Bool) (now : ℕ) (cfg : WorkerConfig) (failed : Option Failed) (o : Overseer)
    → (schedule_restart cancelled now cfg failed o).registry ≡ o.registry
unfolding schedule_restart
schedule_restart_keeps true now cfg failed o = refl
schedule_restart_keeps false now cfg failed o = ground arith

handled_registry :
    (cancelled : Bool) (now : ℕ) (w : Failed) (o : Overseer)
    → (handle_failure cancelled now w o).registry ≡ (unregister w.id o.registry).0
unfolding handle_failure
handled_registry cancelled now w o = elim (Option-cases (unregister w.id o.registry).1) [
  | inl e ↦ rw (e, handle_failure) refl
  | inr (running, e) ↦
      rw (e, handle_failure) (schedule_restart_keeps cancelled now running.config (some w) _)
]

unregister_twice : (id : String) (r : Registry) → (unregister id (unregister id r).0).1 ≡ none
unfolding unregister unregistered
unregister_twice id r = ground (
  arith,
  Dict.get-del string_discrete id id r.by_id,
  Dict.get-del string_discrete id id r.config_by_id,
)

-- A second failure signal for the id of a worker schedules no restart and leaves the restart
-- history as it is.
pub restarted_once :
    (cancelled again : Bool) (now later : ℕ) (w w' : Failed) (o : Overseer)
    → w.id ≡ w'.id
    → (let o' = handle_failure cancelled now w o in
        let o'' = handle_failure again later w' o' in
        (o''.pending ≡ o'.pending) × (o''.history ≡ o'.history))
unfolding handle_failure
restarted_once cancelled again now later w w' o same =
    let o' = handle_failure cancelled now w o in
    let e : (unregister w'.id o'.registry).1 ≡ none =
      rw (handled_registry cancelled now w o) (rw (sym same) (unregister_twice w.id o.registry)) in
    rw (e, handle_failure) (refl, refl)

get-recent :
    (ttl now t : ℕ) (id : String) (m : Dict String ℕ)
    → Dict.get string_discrete id m ≡ some t
    → now - t ≤ ttl
    → Dict.get string_discrete id (recent ttl now m) ≡ some t
unfolding Dict.get recent
get-recent ttl now t id [] h l = h
get-recent ttl now t id ((j, u) ∷ m) h l = ground (arith, get-recent ttl now t id m)

-- When a failure signal of a named id was emitted, the next one within the TTL is not.
pub emitted_once :
    (ttl now later : ℕ) (id : String) (seen : Dict String ℕ)
    → id ≢ ""
    → (should_emit ttl now id seen).1 ≡ true
    → later - now ≤ ttl
    → (should_emit ttl later id (should_emit ttl now id seen).0).1 ≡ false
unfolding should_emit
emitted_once ttl now later id seen h e l = ground (
  arith,
  h,
  e,
  l,
  Dict.get-put string_discrete id id now (recent ttl now seen),
  get-recent ttl later now id (Dict.put string_discrete id now (recent ttl now seen)),
)

-- The watchdog.
collect_stale_among :
    (now timeout : ℕ) (xs : List (String × Running)) (r : Registry) (l : List (String × Running))
    (q : String) (w : Running)
    → Dict.get string_discrete q (collect_stale now timeout xs (r, l)).0.by_id ≡ some w
    → Dict.get string_discrete q r.by_id ≡ some w
unfolding collect_stale
collect_stale_among now timeout [] r l q w h = h
collect_stale_among now timeout ((id, v) ∷ xs) r l q w h =
    elim (Bool-cases (is_stale now timeout v)) [
      | inl e ↦
          let h' =
            collect_stale_among now timeout xs (without id r) (l ++ ((id, v) ∷ [])) q w
              (ground (arith, e, h)) in
          ground (arith, h', Dict.get-del string_discrete id q r.by_id)
      | inr e ↦ collect_stale_among now timeout xs r l q w (ground (arith, e, h))
    ]

collect_stale_gone :
    (now timeout : ℕ) (xs : List (String × Running)) (r : Registry) (l : List (String × Running))
    (q : String)
    → Dict.get string_discrete q r.by_id ≡ none
    → Dict.get string_discrete q (collect_stale now timeout xs (r, l)).0.by_id ≡ none
collect_stale_gone now timeout xs r l q h =
    elim (Option-cases (Dict.get string_discrete q (collect_stale now timeout xs (r, l)).0.by_id)) [
      | inl e ↦ e
      | inr (w, e) ↦ absurd (ground (arith, h, collect_stale_among now timeout xs r l q w e))
    ]

-- A stale entry that is walked over is gone.
collect_stale_leaves :
    (now timeout : ℕ) (xs : List (String × Running)) (r : Registry) (l : List (String × Running))
    (q : String) (w : Running)
    → Dict.get string_discrete q xs ≡ some w
    → is_stale now timeout w ≡ true
    → Dict.get string_discrete q (collect_stale now timeout xs (r, l)).0.by_id ≡ none
unfolding Dict.get collect_stale
collect_stale_leaves now timeout [] r l q w h s = absurd (cc)
collect_stale_leaves now timeout ((id, v) ∷ xs) r l q w h s =
    let l' = l ++ ((id, v) ∷ []) in
    elim (string_discrete id q) [
      | yes e ↦
          let left =
            collect_stale_gone now timeout xs (without id r) l' q
              (ground (arith, e, Dict.get-del string_discrete id q r.by_id)) in
          ground (arith, e, h, s, left)
      | no n ↦
          let h' : Dict.get string_discrete q xs ≡ some w = ground (arith, n, h) in
          let one = collect_stale_leaves now timeout xs (without id r) l' q w h' s in
          let other = collect_stale_leaves now timeout xs r l q w h' s in ground (arith, one, other)
    ]

restart_stale_keeps :
    (cancelled : Bool) (now : ℕ) (stale : List (String × Running)) (o : Overseer)
    → (restart_stale cancelled now stale o).registry ≡ o.registry
unfolding restart_stale
restart_stale_keeps cancelled now [] o = refl
restart_stale_keeps cancelled now ((id, w) ∷ stale) o =
    restart_stale_keeps cancelled now stale _ ∙ schedule_restart_keeps cancelled now w.config _ _

-- After a tick of the watchdog with a positive heartbeat timeout, every worker that is still
-- registered was registered before, with the same state, and its last heartbeat is within the
-- timeout.
pub no_stale_worker :
    (cancelled : Bool) (now : ℕ) (o : Overseer) (id : String) (w : Running)
    → 0 < o.heartbeat_timeout
    → Dict.get string_discrete id (check_heartbeats cancelled now o).registry.by_id ≡ some w
    → (is_stale now o.heartbeat_timeout w ≡ false)
      × (Dict.get string_discrete id o.registry.by_id ≡ some w)
unfolding check_heartbeats stale_running_workers
no_stale_worker cancelled now o id w positive h =
    let xs = o.registry.by_id in
    let t = o.heartbeat_timeout in
    let (r, stale) = collect_stale now t xs (o.registry, []) in
    let kept = restart_stale_keeps cancelled now stale (record o { registry = r }) in
    let h' : Dict.get string_discrete id r.by_id ≡ some w = ground (arith, positive, h, kept) in
    let was = collect_stale_among now t xs o.registry [] id w h' in
    elim (Bool-cases (is_stale now t w)) [
      | inr e ↦ (e, was)
      | inl e ↦ absurd (ground (arith, h', collect_stale_leaves now t xs o.registry [] id w was e))
    ]
