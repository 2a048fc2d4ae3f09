-- ===== src/Workers/Config/Launches.antt =====
-- workers/overseer.go and runtime.go: the size of the failure channel against the launches.
use photon.Base.{
  ◌+◌, ◌≡◌, arith, true, Option, none, some, List, [], ◌∷◌, ◌++◌, All, length, replicate,
  Bool-cases, Option-cases, inl, inr, max, length-replicate, length-append, ℕ, zero, suc,
}
use photon.Workers.Config.{
  WorkerConfig, validate, total_worker_count, channel_size, started, count_of,
}

total_worker_count-started :
    (cs : List (Option WorkerConfig)) (n : ℕ) → total_worker_count cs n ≡ n + length (started cs)
unfolding total_worker_count started
total_worker_count-started [] n = omega arith
total_worker_count-started (none ∷ cs) n = total_worker_count-started cs n
total_worker_count-started (some c ∷ cs) n =
    let k = count_of c.max_count in
    ground (
      arith,
      total_worker_count-started cs n,
      total_worker_count-started cs (n + k),
      length-append (replicate k c) (started cs),
      length-replicate k c,
    )

abbrev Startable : WorkerConfig → Type 0
Startable c = (c.is_enabled ≡ true) × (validate (some c) ≡ none)

replicate-Startable :
    (n : ℕ) (c : WorkerConfig) (rest : List WorkerConfig)
    → Startable c
    → All Startable rest
    → All Startable (replicate n c ++ rest)
replicate-Startable zero c rest h hs = hs
replicate-Startable (suc n) c rest h hs = (h, replicate-Startable n c rest h hs)

started-Startable : (cs : List (Option WorkerConfig)) → All Startable (started cs)
unfolding started validate
started-Startable [] = tt
started-Startable (none ∷ cs) = started-Startable cs
started-Startable (some c ∷ cs) = elim (Bool-cases c.is_enabled) [
  | inr e ↦ rw (e, started) (started-Startable cs)
  | inl e ↦ elim (Option-cases (validate (some c))) [
    | inr (x, e') ↦ rw (e, started) (rw e' (started-Startable cs))
    | inl e' ↦
        rw (e, started)
          (rw e' (
            replicate-Startable (count_of c.max_count) c (started cs) (e, e')
              (started-Startable cs)))
  ]
]

-- The failure channel has room for one signal of every worker that is launched at the start, and
-- for one at least; every configuration launched is enabled and valid.
pub channel_size-started :
    (cs : List (Option WorkerConfig))
    → (channel_size cs ≡ max 1 (length (started cs)))
      × All (λ c. (c.is_enabled ≡ true) × (validate (some c) ≡ none)) (started cs)
channel_size-started cs = (ground (arith, total_worker_count-started cs 0), started-Startable cs)
