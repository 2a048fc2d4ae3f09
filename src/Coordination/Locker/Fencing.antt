-- ===== src/Coordination/Locker/Fencing.antt =====
-- coordination/concurrency/lock/redis_locker.go: one holder at a time, and tokens that grow.
use text.Mathlib.TextLemmas.{append_cancel_left, append_cancel_right, append-nil}
use photon.Base.{
  ◌∙◌, ℕ, ◌+◌, ◌*◌, ◌≤◌, ◌<◌, ◌≡◌, ◌≢◌, refl, sym, ap, subst, arith, true, none, some, List, [],
  ◌∷◌, All, String, string_discrete, ite, if◌then◌else◌, ltb, ◌⊎◌, inl, inr, Bool-cases,
  Option-cases,
}
use photon.Coordination.Locker.{
  Redis, Held, not_acquired, fail, duration_milliseconds, fencing_counter_key, lock_value,
  try_acquire, lock_from,
}

-- What the documentation of Redis says of the commands. `counter` is the number under a key that INCR
-- counts, 0 for a missing one: INCR raises it and answers with it; a key that PSETEX wrote is there
-- until it expires; no command touches another key.
pub record IsRedis {S : Type 0} (r : Redis S) (counter : String → S → ℕ) : Type 0 where
  pub counts :
      (t : ℕ) (k : String) (s : S) (n : ℕ)
      → (r.incr t k s).1 ≡ some n
      → (n ≡ counter k s + 1) × (counter k (r.incr t k s).0 ≡ n)
  pub refuses : (t : ℕ) (k : String) (s : S) → (r.incr t k s).1 ≡ none → (r.incr t k s).0 ≡ s
  pub lives :
      (t t' ttl : ℕ) (k v : String) (s : S)
      → t ≤ t'
      → t' < t + ttl
      → r.exists t' k (r.psetex t k ttl v s) ≡ true
  pub incr_apart : (t : ℕ) (j k : String) (s : S) → j ≢ k → counter k (r.incr t j s).0 ≡ counter k s
  pub psetex_apart :
      (t ttl : ℕ) (j k v : String) (s : S) → j ≢ k → counter k (r.psetex t j ttl v s) ≡ counter k s

-- A key is not its own counter, and two keys do not share one.
key-fence : (key : String) → key ≢ fencing_counter_key key
key-fence key h =
    let m : String = ":fence" in
    let nil : String = "" in
    let e : m ≡ nil = append_cancel_left key m nil (sym h ∙ sym (append-nil key)) in absurd (cc)

other_fence : (j key : String) → j ≢ key → fencing_counter_key j ≢ fencing_counter_key key
other_fence j key n h = n (append_cancel_right j key ":fence" h)

-- A try at a lock.
pub record Try : Type 0 where
  pub time : ℕ
  pub expiry : ℕ
  pub key : String
  pub owner : String

abbrev pub Increasing : ℕ → List ℕ → Type 0
Increasing n [] = Unit
Increasing n (m ∷ ms) = (n < m) × Increasing m ms

module _ {S : Type 0} (r : Redis S) where
  -- The tokens that a sequence of tries gives to a key.
  unfoldable pub tokens_of : String → List Try → S → List ℕ
  tokens_of key [] s = []
  tokens_of key (t ∷ ts) s =
      let (s', token) = try_acquire r t.time t.key t.owner t.expiry s in
      let rest = tokens_of key ts s' in
      ite (string_discrete t.key key)
        (elim token [ none ↦ rest | some n ↦ if ltb 0 n then n ∷ rest else rest ]) rest

module _ {S : Type 0} (r : Redis S) (counter : String → S → ℕ) (laws : IsRedis r counter) where
  -- A try raises the counter of its key to the token that it gives.
  try-counter :
      (time expiry : ℕ) (key owner : String) (s : S)
      → (let (s', token) = try_acquire r time key owner expiry s in
          ((token ≡ some 0) × (s' ≡ s))
          ⊎ (((token ≡ none) × (s' ≡ s))
              ⊎ ((token ≡ some (counter (fencing_counter_key key) s + 1))
                  × (counter (fencing_counter_key key) s'
                      ≡ counter (fencing_counter_key key) s + 1))))
  unfolding try_acquire
  try-counter time expiry key owner s = elim (Bool-cases (r.exists time key s)) [
    | inl e ↦ rw (e, try_acquire) (inl (refl, refl))
    | inr e ↦ elim (Option-cases (r.incr time (fencing_counter_key key) s).1) [
      | inl e' ↦
          rw (e, try_acquire) (rw (e', try_acquire) (inr (inl (refl, laws.refuses _ _ _ e'))))
      | inr (n, e') ↦
          let (up, now) = laws.counts time (fencing_counter_key key) s n e' in
          let kept =
            laws.psetex_apart time expiry key (fencing_counter_key key) (lock_value r n owner)
              (r.incr time (fencing_counter_key key) s).0 (key-fence key) in
          rw (e, try_acquire)
            (rw (e', try_acquire) (inr (inr (ground (arith, up), kept ∙ now ∙ up))))
    ]
  ]

  -- A try at another lock.
  try_apart :
      (time expiry : ℕ) (key owner k : String) (s : S)
      → key ≢ k
      → fencing_counter_key key ≢ k
      → counter k (try_acquire r time key owner expiry s).0 ≡ counter k s
  unfolding try_acquire
  try_apart time expiry key owner k s h h' =
      let counted = laws.incr_apart time (fencing_counter_key key) k s h' in
      elim (Bool-cases (r.exists time key s)) [
        | inl e ↦ rw (e, try_acquire) refl
        | inr e ↦ elim (Option-cases (r.incr time (fencing_counter_key key) s).1) [
          | inl e' ↦ rw (e, try_acquire) (rw (e', try_acquire) counted)
          | inr (n, e') ↦
              rw (e, try_acquire)
                (rw (e', try_acquire) (laws.psetex_apart time expiry key k _ _ h ∙ counted))
        ]
      ]

  -- In any sequence of tries by any owners at any times, the fencing tokens that a key gets
  -- increase strictly, above the counter at the start, when Redis keeps what it documents and
  -- no lock has the name of the counter of the key.
  pub tokens_increase :
      (key : String) (ts : List Try) (s : S)
      → All (λ t. t.key ≢ fencing_counter_key key) ts
      → Increasing (counter (fencing_counter_key key) s) (tokens_of r key ts s)
  unfolding tokens_of
  tokens_increase key [] s h = tt
  tokens_increase key (t ∷ ts) s (h, hs) =
      let fence = fencing_counter_key key in
      let s' = (try_acquire r t.time t.key t.owner t.expiry s).0 in
      let later = tokens_of r key ts s' in
      let rest = tokens_increase key ts s' hs in
      let skip : tokens_of r key (t ∷ ts) s ≡ later
          → counter fence s' ≡ counter fence s
          → Increasing (counter fence s) (tokens_of r key (t ∷ ts) s) =
        λ e e'.
          subst (Increasing (counter fence s)) (sym e) (subst (λ c. Increasing c later) e' rest) in
      elim (string_discrete t.key key) [
        | no n ↦
            skip (ground (arith, n))
              (try_apart t.time t.expiry t.key t.owner fence s h (other_fence t.key key n))
        | yes e ↦ elim (try-counter t.time t.expiry t.key t.owner s) [
          | inl (given, same) ↦ skip (ground (arith, e, given)) (ap (counter fence) same)
          | inr (inl (given, same)) ↦ skip (ground (arith, e, given)) (ap (counter fence) same)
          | inr (inr (given, up)) ↦
              let up' : counter fence s' ≡ counter fence s + 1 =
                subst
                  (λ k. counter (fencing_counter_key k) s' ≡ counter (fencing_counter_key k) s + 1)
                  e up in
              let given' : (try_acquire r t.time t.key t.owner t.expiry s).1
                  ≡ some (counter fence s + 1) =
                subst
                  (λ k.
                    (try_acquire r t.time t.key t.owner t.expiry s).1
                    ≡ some (counter (fencing_counter_key k) s + 1))
                  e given in
              let taken : tokens_of r key (t ∷ ts) s ≡ (counter fence s + 1) ∷ later =
                ground (arith, e, given') in
              subst (Increasing (counter fence s)) (sym taken)
                (omega arith, subst (λ c. Increasing c later) up' rest)
        ]
      ]

  acquired_lives :
      (time t expiry n : ℕ) (key owner : String) (s : S)
      → (try_acquire r time key owner expiry s).1 ≡ some n
      → 0 < n
      → time ≤ t
      → t < time + expiry
      → r.exists t key (try_acquire r time key owner expiry s).0 ≡ true
  unfolding try_acquire
  acquired_lives time t expiry n key owner s got positive l l' =
      elim (Bool-cases (r.exists time key s)) [
        | inl e ↦ absurd (ground (arith, e, got, positive))
        | inr e ↦ elim (Option-cases (r.incr time (fencing_counter_key key) s).1) [
          | inl e' ↦ absurd (ground (arith, e, e', got))
          | inr (m, e') ↦
              rw (e, try_acquire)
                (rw (e', try_acquire) (laws.lives time t expiry key (lock_value r m owner) _ l l'))
        ]
      ]

  try_taken :
      (t : ℕ) (key owner : String) (expiry : ℕ) (s : S)
      → r.exists t key s ≡ true
      → try_acquire r t key owner expiry s ≡ (s, some 0)
  unfolding try_acquire
  try_taken t key owner expiry s e = rw e refl

  lock_from_taken :
      (t : ℕ) (key owner : String) (expiry : ℕ) (times : List ℕ) (held : Held) (s : S)
      → r.exists t key s ≡ true
      → lock_from r key owner expiry (t ∷ times) held s ≡ lock_from r key owner expiry times held s
  unfolding lock_from
  lock_from_taken t key owner expiry times held s e =
      rw (try_taken t key owner expiry s e, lock_from)
        (ap (λ p. lock_from r key owner expiry times held p.0) (try_taken t key owner expiry s e))

  -- While a lock that was acquired has not expired, another run of the loop of `Lock` on its
  -- key, all of whose tries come before the expiry, is not acquired and changes neither Redis
  -- nor its own store.
  pub lock_excludes :
      (time expiry n : ℕ) (key owner other : String) (times : List ℕ) (held : Held) (s : S)
      → (try_acquire r time key owner expiry s).1 ≡ some n
      → 0 < n
      → All (λ t. (time ≤ t) × (t < time + expiry)) times
      → (let s' = (try_acquire r time key owner expiry s).0 in
          lock_from r key other expiry times held s' ≡ (held, (s', fail not_acquired)))
  unfolding lock_from
  lock_excludes time expiry n key owner other [] held s got positive within = refl
  lock_excludes time expiry n key owner other (t ∷ times) held s got positive ((l, l'), within) =
      let s' = (try_acquire r time key owner expiry s).0 in
      let taken : r.exists t key s' ≡ true =
        acquired_lives time t expiry n key owner s got positive l l' in
      lock_from_taken t key other expiry times held s' taken
      ∙ lock_excludes time expiry n key owner other times held s got positive within

-- The milliseconds of a duration cover it, by less than one of them.
pub duration_milliseconds_lem :
    (d : ℕ)
    → (d ≤ duration_milliseconds d * 1_000_000)
      × (duration_milliseconds d * 1_000_000 < d + 1_000_000)
unfolding duration_milliseconds
duration_milliseconds_lem d = ground arith
