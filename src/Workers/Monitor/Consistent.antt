-- ===== src/Workers/Monitor/Consistent.antt =====
-- workers: the maps of the running workers against their statuses, over every event of the overseer.
use photon.Base.{
  ℕ, ◌≡◌, ◌≢◌, refl, ◌⊎◌, arith, Bool, true, false, Option, none, some, List, [], ◌∷◌, ◌++◌, String,
  string_discrete, ite,
}
use photon.Base.Dict
use photon.Base.Dict.{Dict}
use photon.Workers.Config.{WorkerConfig}
use photon.Workers.Registry.{
  Statuses, WorkerStatus, status_of, status_started, status_stopped, status_restart, Running,
  Registry, register, without,
}

abbrev pub is_there : {A : Type 0} → Option A → Bool
is_there none = false
is_there (some a) = true

abbrev pub registered : String → Registry → Bool
registered q r = is_there (Dict.get string_discrete q r.by_id)

abbrev pub configured : String → Registry → Bool
configured q r = is_there (Dict.get string_discrete q r.config_by_id)

abbrev pub is_running : String → Statuses → Bool
is_running q m = (status_of q m).running

unfoldable pub member : String → List (String × Running) → Bool
member q [] = false
member q ((id, w) ∷ rest) = let there = member q rest in ite (string_discrete id q) true there

-- The two maps have the same workers, those whose status is running, but for some workers that were
-- unregistered and are not stopped yet.
pub record Agree (late : List (String × Running)) (r : Registry) (m : Statuses) : Type 0 where
  pub same : (q : String) → configured q r ≡ registered q r
  pub alive : (q : String) → registered q r ≡ true → is_running q m ≡ true
  pub known :
      (q : String) → is_running q m ≡ true → (registered q r ≡ true) ⊎ (member q late ≡ true)
  pub nameless : is_running "" m ≡ false
  pub gone : (q : String) → member q late ≡ true → registered q r ≡ false

is_running-put :
    (id q : String) (st : WorkerStatus) (m : Statuses)
    → is_running q (Dict.put string_discrete id st m)
      ≡ ite (string_discrete id q) st.running (is_running q m)
is_running-put id q st m = ground (arith, Dict.get-put string_discrete id q st m)

is_running-started :
    (now : ℕ) (id name q : String) (m : Statuses)
    → is_running q (status_started now id name m) ≡ ite (string_discrete id q) true (is_running q m)
unfolding status_started
is_running-started now id name q m = is_running-put id q _ m

is_running-stopped :
    (now : ℕ) (id : String) (err : Option String) (q : String) (m : Statuses)
    → is_running q (status_stopped now id err m)
      ≡ ite
          (string_discrete id "")
          (is_running q m)
          (ite (string_discrete id q) false (is_running q m))
unfolding status_stopped
is_running-stopped now id none q m =
    let it =
      is_running-put id q (record (status_of id m) { running = false; last_stopped_at = now }) m in
    ground (arith, it)
is_running-stopped now id (some e) q m =
    let st = record (status_of id m) { running = false; last_stopped_at = now; last_error = e } in
    let it = is_running-put id q st m in ground (arith, it)

pub is_running-restart :
    (name q : String) (count : ℕ) (m : Statuses)
    → is_running q (status_restart name count m) ≡ is_running q m
unfolding status_restart Dict.get
is_running-restart name q count [] = refl
is_running-restart name q count ((id, st) ∷ m) = ground (arith, is_running-restart name q count m)

registered-del :
    (id q : String) (r : Dict String Running)
    → is_there (Dict.get string_discrete q (Dict.del string_discrete id r))
      ≡ ite (string_discrete id q) false (is_there (Dict.get string_discrete q r))
registered-del id q r = ground (arith, Dict.get-del string_discrete id q r)

configured-del :
    (id q : String) (r : Dict String WorkerConfig)
    → is_there (Dict.get string_discrete q (Dict.del string_discrete id r))
      ≡ ite (string_discrete id q) false (is_there (Dict.get string_discrete q r))
configured-del id q r = ground (arith, Dict.get-del string_discrete id q r)

-- A launch.
pub register-Agree :
    (now : ℕ) (id name : String) (w : Running) (r : Registry) (m : Statuses)
    → id ≢ ""
    → Agree [] r m
    → Agree [] (register id w r) (status_started now id name m)
unfolding register member
register-Agree now id name w r m h a = record {
  same = λ q. ground (
    arith,
    h,
    a.same q,
    Dict.get-put string_discrete id q w r.by_id,
    Dict.get-put string_discrete id q w.config r.config_by_id,
  );
  alive = λ q there. ground (
    arith,
    h,
    there,
    a.alive q,
    is_running-started now id name q m,
    Dict.get-put string_discrete id q w r.by_id,
  );
  known = λ q up. ground (
    arith,
    h,
    up,
    a.known q,
    is_running-started now id name q m,
    Dict.get-put string_discrete id q w r.by_id,
  );
  gone = λ q late. ground (arith, late);
  nameless = ground (arith, h, a.nameless, is_running-started now id name "" m);
}

member-last :
    (q id : String) (w : Running) (late : List (String × Running))
    → member q (late ++ ((id, w) ∷ [])) ≡ ite (string_discrete id q) true (member q late)
unfolding member
member-last q id w [] = ground arith
member-last q id w ((j, v) ∷ late) = ground (arith, member-last q id w late)

-- A worker leaves the maps and is late to be stopped.
pub late-Agree :
    (id : String) (w : Running) (late : List (String × Running)) (r : Registry) (m : Statuses)
    → Agree late r m
    → Agree (late ++ ((id, w) ∷ [])) (without id r) m
late-Agree id w late r m a = record {
  same = λ q.
      ground (arith, a.same q, registered-del id q r.by_id, configured-del id q r.config_by_id);
  alive = λ q there. ground (arith, there, a.alive q, registered-del id q r.by_id);
  known =
      λ q up. ground (arith, up, a.known q, registered-del id q r.by_id, member-last q id w late);
  gone = λ q there.
      ground (arith, there, a.gone q, registered-del id q r.by_id, member-last q id w late);
  nameless = a.nameless;
}

-- A late worker is stopped.
pub stopped-Agree :
    (now : ℕ) (id : String) (err : Option String) (w : Running) (late : List (String × Running))
    (r : Registry) (m : Statuses)
    → Agree ((id, w) ∷ late) r m
    → Agree late r (status_stopped now id err m)
unfolding member
stopped-Agree now id err w late r m a = record {
  same = a.same;
  alive = λ q there.
      ground (arith, there, a.nameless, a.alive q, a.gone q, is_running-stopped now id err q m);
  known = λ q up. ground (arith, up, a.nameless, a.known q, is_running-stopped now id err q m);
  gone = λ q there. ground (arith, there, a.gone q);
  nameless = ground (arith, a.nameless, is_running-stopped now id err "" m);
}
