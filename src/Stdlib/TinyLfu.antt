-- ===== src/Stdlib/TinyLfu.antt =====
-- utils/stdlib/tiny_lfu.go: admission by estimated frequency, over the sketch. The hash function is
-- the caller's, so it is a parameter; a nil hash, which panics, has no counterpart.
use photon.Base.{
  ℕ, zero, suc, ◌+◌, ◌≤◌, ◌≡◌, refl, ◌⊎◌, Bool, true, ltb, leb, if◌then◌else◌, arith, ◌==◌, min,
  replicate,
}
use photon.Base.Int.{ℤ}
use photon.Stdlib.Sketch
use photon.Stdlib.Sketch.{Sketch, Built, built, refused, max_uint32}
use photon.Stdlib.Sketch.History.{run, count, count-le-estimate}
use photon.Stdlib.Sketch.Rows.{IsValid}

pub record TinyLfu (K : Type 0) : Type 0 where
  pub cms : Sketch
  pub hash : K → ℕ
  pub admit_on_eq : Bool

-- The loop of `RecordN`.
unfoldable pub increment_n : ℕ → ℕ → Sketch → Sketch
increment_n zero h c = c
increment_n (suc n) h c = increment_n n h (Sketch.increment c h)

module _ {K : Type 0} where
  -- `NewTinyLFUWithOptions`
  unfoldable pub new_with_options : ℤ → ℕ → ℕ → Bool → (K → ℕ) → Built (TinyLfu K)
  new_with_options depth width aging_every admit_on_equal hash =
      elim (Sketch.new_sketch depth width aging_every) [
        | refused e ↦ refused e
        | built cms ↦ built (record { cms = cms; hash = hash; admit_on_eq = admit_on_equal })
      ]

  -- `NewTinyLFU`
  unfoldable pub new_tiny_lfu : ℤ → ℕ → ℕ → (K → ℕ) → Built (TinyLfu K)
  unfolding new_with_options
  new_tiny_lfu depth width aging_every hash = new_with_options depth width aging_every true hash

  -- `Record`
  unfoldable pub note : TinyLfu K → K → TinyLfu K
  note t key = record t { cms = Sketch.increment t.cms (t.hash key) }

  -- `RecordN`
  unfoldable pub note_n : TinyLfu K → K → ℕ → TinyLfu K
  note_n t key n = if n == 0 then t else record t { cms = increment_n n (t.hash key) t.cms }

  -- `Estimate`, and `VictimFreq`
  unfoldable pub estimate : TinyLfu K → K → ℕ
  estimate t key = Sketch.estimate t.cms (t.hash key)

  -- `ShouldAdmitAgainst`
  unfoldable pub should_admit_against : TinyLfu K → K → ℕ → Bool
  should_admit_against t incoming victim_freq =
      let fi = Sketch.estimate t.cms (t.hash incoming) in
      if t.admit_on_eq then leb victim_freq fi else ltb victim_freq fi

  -- `ShouldAdmit`
  unfoldable pub should_admit : TinyLfu K → K → K → Bool
  should_admit t incoming victim =
      let fi = Sketch.estimate t.cms (t.hash incoming) in
      let fv = Sketch.estimate t.cms (t.hash victim) in
      if t.admit_on_eq then leb fv fi else ltb fv fi

  -- `Age` and `Reset`
  unfoldable pub age : TinyLfu K → TinyLfu K
  age t = record t { cms = Sketch.age t.cms }

  unfoldable pub reset : TinyLfu K → TinyLfu K
  reset t = record t { cms = Sketch.reset t.cms }

count_n : (n h : ℕ) → count h (replicate n h) ≡ n
unfolding count
count_n zero h = refl
count_n (suc n) h = ground (arith, count_n n h)

increment_n-run : (n h : ℕ) (c : Sketch) → increment_n n h c ≡ run c (replicate n h)
unfolding increment_n run
increment_n-run zero h c = refl
increment_n-run (suc n) h c = increment_n-run n h (Sketch.increment c h)

module _ {K : Type 0} where
  estimate-note_n :
      (t : TinyLfu K) (key : K) (n : ℕ)
      → IsValid t.cms
      → t.cms.aging_every ≡ 0
      → min (n + estimate t key) max_uint32 ≤ estimate (note_n t key n) key
  unfolding estimate note_n
  estimate-note_n t key n v off = ground (
    arith,
    increment_n-run n (t.hash key) t.cms,
    count_n n (t.hash key),
    count-le-estimate t.cms (t.hash key) (replicate n (t.hash key)) v off,
  )

  admit_on_eq-note_n :
      (t : TinyLfu K) (key : K) (n : ℕ) → (note_n t key n).admit_on_eq ≡ t.admit_on_eq
  unfolding note_n
  admit_on_eq-note_n t key n = ground arith

  -- With aging off and ties admitted, a key that was recorded n times over a well-formed sketch
  -- is admitted against every victim whose frequency is at most n and in the range of the
  -- counters.
  recorded_is_admitted :
      (t : TinyLfu K) (key : K) (n victim_freq : ℕ)
      → IsValid t.cms
      → t.cms.aging_every ≡ 0
      → t.admit_on_eq ≡ true
      → victim_freq ≤ n
      → victim_freq ≤ max_uint32
      → should_admit_against (note_n t key n) key victim_freq ≡ true
  unfolding should_admit_against estimate
  recorded_is_admitted t key n f v off eq le range =
      ground (arith, estimate-note_n t key n v off, admit_on_eq-note_n t key n)

  -- When ties are admitted, of two keys at least one is admitted against the other; and
  -- `ShouldAdmit` is `ShouldAdmitAgainst` at the estimate of the victim.
  should_admit_order :
      (t : TinyLfu K) (a b : K)
      → t.admit_on_eq ≡ true
      → ((should_admit t a b ≡ true) ⊎ (should_admit t b a ≡ true))
        × (should_admit t a b ≡ should_admit_against t a (estimate t b))
  unfolding should_admit should_admit_against estimate
  should_admit_order t a b e = (ground arith, refl)
