-- ===== src/Workers/Config.antt =====
-- workers/workerconfig.go, overseer.go and runtime.go: the configuration of the workers, the size of
-- the failure channel and the launches at the start. A nil pointer is `none`; the size is taken
-- where the sum of the counts is an int.
pub mod Launches
use photon.Base.{
  ℕ, ◌+◌, Bool, not, Option, none, some, List, [], ◌∷◌, ◌++◌, String, string_discrete, ite,
  if◌then◌else◌, ltb, replicate,
}
use photon.Base.Int.{ℤ, pos, negsuc, leb_ℤ}

-- `New` is nil or not; its result is an argument of a launch.
pub record WorkerConfig : Type 0 where
  pub name : String
  pub has_factory : Bool
  pub max_count : ℤ
  pub is_enabled : Bool

pub data ConfigError : Type 0 where
  nil_config nameless invalid_count no_factory : ConfigError

-- `Validate`: no error is `none`.
unfoldable pub validate : Option WorkerConfig → Option ConfigError
validate none = some nil_config
validate (some c) = ite (string_discrete c.name "") (some nameless) (
    if leb_ℤ c.max_count (pos 0)
    then some invalid_count
    else if not c.has_factory
    then some no_factory
    else none)

abbrev pub count_of : ℤ → ℕ
count_of (pos n) = n
count_of (negsuc n) = 0

-- The loop of `executeOverseerWithContext` over the configurations.
unfoldable pub total_worker_count : List (Option WorkerConfig) → ℕ → ℕ
total_worker_count [] total = total
total_worker_count (none ∷ cs) total = total_worker_count cs total
total_worker_count (some c ∷ cs) total =
    let skipped = total_worker_count cs total in
    if not c.is_enabled then skipped else elim (validate (some c)) [
      | some e ↦ skipped
      | none ↦ total_worker_count cs (total + count_of c.max_count)
    ]

-- The size of the channel.
abbrev pub channel_size : List (Option WorkerConfig) → ℕ
channel_size cs = let total = total_worker_count cs 0 in if ltb total 1 then 1 else total

-- The launches of `startAllWorkersWithContext`, while its context is live.
unfoldable pub started : List (Option WorkerConfig) → List WorkerConfig
started [] = []
started (none ∷ cs) = started cs
started (some c ∷ cs) =
    let rest = started cs in
    if not c.is_enabled then rest else elim (validate (some c)) [
      | some e ↦ rest
      | none ↦ replicate (count_of c.max_count) c ++ rest
    ]
