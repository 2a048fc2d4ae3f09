-- ===== src/Features.antt =====
-- core/features: feature flags. Floats, the parser of times, `strings.ToUpper` and the FNV hash of
-- the standard library are parameters. Go pointers in the loaded configuration are not nil.
pub mod Conditions
pub mod Evaluation
pub mod Validator
pub mod Matching
pub mod Gates
pub mod Buckets
mod Tests
use photon.Base.{ℕ, Bool, List, Option, String}
use photon.Base.Int.{ℤ}
use photon.Base.Dict.{Dict}

-- Go's float64.
pub record Floats (F : Type 0) : Type 0 where
  pub of_int : ℤ → F
  pub add : F → F → F
  pub sub : F → F → F
  pub mul : F → F → F
  pub div : F → F → F
  pub absolute : F → F
  pub less : F → F → Bool
  pub at_most : F → F → Bool
  pub same : F → F → Bool

mutual
  -- What an `interface{}` holds: nil, the types that the code names, a slice of interfaces, a value
  -- of another comparable type (by type and value), or of another type that == cannot compare.
  pub data Value (F : Type 0) : Type 0 where
    nothing : Value F
    truth : Bool → Value F
    int int64 : ℤ → Value F
    float : F → Value F
    text : String → Value F
    other : ℕ → ℕ → Value F
    opaque : ℕ → Value F
    list : Values F → Value F

  pub data Values (F : Type 0) : Type 0 where
    end : Values F
    cons : Value F → Values F → Values F

-- The rule context.
abbrev pub Context : Type 0 → Type 0
Context F = Dict String (Value F)

pub record Condition (F : Type 0) : Type 0 where
  pub key : String
  pub operator : String
  pub value : Value F

pub record Rules (F : Type 0) : Type 0 where
  pub conjunction : String
  pub conditions : List (Condition F)

pub record Variant (F : Type 0) : Type 0 where
  pub name : String
  pub weight : F

pub record Rollout (F : Type 0) : Type 0 where
  pub platform : String
  pub environment : String
  pub region : String
  pub percentage : F

pub record Schedule : Type 0 where
  pub start : String
  pub end : String

pub record Feature (F : Type 0) : Type 0 where
  pub enabled : Bool
  pub schedule : Option Schedule
  pub datatype : String
  pub default_value : Value F
  pub variants : List (Variant F)
  pub rules : Option (Rules F)
  pub rollouts : List (Rollout F)

pub record Attributes : Type 0 where
  pub platforms : List String
  pub environments : List String
  pub regions : List String

pub record FeatureConfig (F : Type 0) : Type 0 where
  pub attributes : Option Attributes
  pub features : Dict String (Feature F)

pub record EvaluationOptions (F : Type 0) : Type 0 where
  pub platform : String
  pub environment : String
  pub region : String
  pub evaluation_bucket_key : String
  pub rule_context : Context F
