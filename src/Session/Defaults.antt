-- ===== src/Session/Defaults.antt =====
-- core/session/config.go: what a configuration has after its defaults.
use photon.Base.{
  ◌≡◌, ◌≢◌, refl, arith, ap, ◌∙◌, Bool, true, false, not, ◌&&◌, Option, none, some, String,
  string_discrete, ite, ◌⊎◌, inl, inr,
}
use photon.Base.Int.{ℤ, pos}
use photon.Session.{
  SameSite, StoreOptions, CookieConfig, Config, Checked, valid, invalid, or_text, or_bool, or_mode,
  or_lifetime, is_set, is_none_mode, is_valid_store, is_valid_encoding, cookie_filled,
  apply_cookie_defaults, apply_redis_defaults, apply_defaults,
}

Checked-cases :
    {A : Type 0} (r : Checked A) → ((a : A) × (r ≡ valid a)) ⊎ ((e : _) × (r ≡ invalid e))
Checked-cases (valid a) = inl (a, refl)
Checked-cases (invalid e) = inr (e, refl)

or_text_twice : (s d : String) → or_text (or_text s d) d ≡ or_text s d
or_text_twice s d = ground arith

or_bool_twice : (o : Option Bool) (d : Bool) → or_bool (or_bool o d) d ≡ or_bool o d
or_bool_twice none d = refl
or_bool_twice (some b) d = refl

or_mode_twice : (m : SameSite) → or_mode (or_mode m) ≡ or_mode m
or_mode_twice m = ground arith

or_lifetime_twice : (d : ℤ) → or_lifetime (or_lifetime d) ≡ or_lifetime d
or_lifetime_twice d = ground arith

redis_twice :
    (o : StoreOptions) → apply_redis_defaults (apply_redis_defaults o) ≡ apply_redis_defaults o
unfolding apply_redis_defaults
redis_twice o = rw (or_text_twice o.name "default") (
    rw (or_text_twice o.address "127.0.0.1:6379")
      (rw (or_text_twice o.key_prefix "GFRRSESSID:") (rw (or_bool_twice o.ping_on_init true) refl)))

-- The defaults of a cookie stay as they are.
cookie_filled_twice : (c : CookieConfig) → cookie_filled (cookie_filled c) ≡ cookie_filled c
unfolding cookie_filled
cookie_filled_twice c = rw (or_text_twice c.name "GFRRSESSID") (
    rw (or_text_twice c.path "/") (
      rw (or_mode_twice c.same_site) (
        rw (or_bool_twice c.secure true) (
          rw (or_bool_twice c.http_only true)
            (rw (or_bool_twice c.persist true) (rw (or_bool_twice c.partitioned false) refl))))))

apply_cookie_defaults_lem :
    (c d : CookieConfig)
    → apply_cookie_defaults c ≡ valid d
    → (d ≡ cookie_filled c) × ((is_none_mode d.same_site && not (is_set d.secure)) ≡ false)
unfolding apply_cookie_defaults
apply_cookie_defaults_lem c d h = ground (arith, h)

-- A configuration that passes has a known encoding and a known store, a lifetime other than zero,
-- the choice of hashing and the cookie with its defaults, which is secure when it is sent across
-- sites.
pub apply_defaults_ready :
    (c d : Config)
    → apply_defaults (some c) ≡ valid d
    → (is_valid_encoding d.encoding ≡ true)
      × (is_valid_store d.store_type ≡ true)
      × ((is_none_mode d.cookie.same_site && not (is_set d.cookie.secure)) ≡ false)
      × (d.lifetime ≢ pos 0)
      × (d.hash_token_in_store ≢ none)
      × (d.cookie ≡ cookie_filled c.cookie)
unfolding apply_defaults
apply_defaults_ready c d h = elim (Checked-cases (apply_cookie_defaults c.cookie)) [
  | inr (e, h') ↦ absurd (ground (arith, h, h'))
  | inl (cookie, h') ↦
      let it = apply_cookie_defaults_lem c.cookie cookie h' in ground (arith, h, h', it)
]

apply_cookie_defaults_again :
    (c d : CookieConfig) → apply_cookie_defaults c ≡ valid d → apply_cookie_defaults d ≡ valid d
unfolding apply_cookie_defaults
apply_cookie_defaults_again c d h =
    let (e, safe) = apply_cookie_defaults_lem c d h in
    let same : cookie_filled d ≡ d = rw e (cookie_filled_twice c) in ground (arith, same, safe)

-- A configuration with its defaults, for a cookie with its own.
abbrev ready : Config → CookieConfig → Config
ready c cookie = record {
  store_type = or_text c.store_type "memory";
  options =
      ite (string_discrete (or_text c.store_type "memory") "redis") (apply_redis_defaults c.options)
        c.options;
  cookie = cookie;
  lifetime = or_lifetime c.lifetime;
  hash_token_in_store = or_bool c.hash_token_in_store true;
  encoding = or_text c.encoding "gob";
}

record Passes (c : Config) (cookie : CookieConfig) : Type 0 where
  passes_encoding : is_valid_encoding (or_text c.encoding "gob") ≡ true
  passes_cookie : apply_cookie_defaults c.cookie ≡ valid cookie
  passes_store : is_valid_store (or_text c.store_type "memory") ≡ true

passed :
    (c d : Config)
    → apply_defaults (some c) ≡ valid d
    → (cookie : CookieConfig) × Passes c cookie × (d ≡ ready c cookie)
unfolding apply_defaults
passed c d h = elim (Checked-cases (apply_cookie_defaults c.cookie)) [
  | inr (e, h') ↦ absurd (ground (arith, h, h'))
  | inl (cookie, h') ↦ (
    cookie,
    record {
      passes_encoding = ground (arith, h, h');
      passes_cookie = h';
      passes_store = ground (arith, h, h');
    },
    ground (arith, h, h'),
  )
]

passing :
    (c : Config) (cookie : CookieConfig)
    → Passes c cookie
    → apply_defaults (some c) ≡ valid (ready c cookie)
unfolding apply_defaults
passing c cookie p = rw p.passes_encoding (rw p.passes_cookie (rw p.passes_store refl))

options_twice :
    (st : String) (o : StoreOptions)
    → (let o' = ite (string_discrete st "redis") (apply_redis_defaults o) o in
        ite (string_discrete st "redis") (apply_redis_defaults o') o' ≡ o')
options_twice st o = ground (arith, redis_twice o)

passes_again :
    (c : Config) (cookie : CookieConfig) → Passes c cookie → Passes (ready c cookie) cookie
passes_again c cookie p = record {
  passes_encoding = rw (or_text_twice c.encoding "gob") p.passes_encoding;
  passes_cookie = apply_cookie_defaults_again c.cookie cookie p.passes_cookie;
  passes_store = rw (or_text_twice c.store_type "memory") p.passes_store;
}

ready_twice : (c : Config) (cookie : CookieConfig) → ready (ready c cookie) cookie ≡ ready c cookie
ready_twice c cookie = rw (or_text_twice c.store_type "memory") (
    rw (or_text_twice c.encoding "gob") (
      rw (or_bool_twice c.hash_token_in_store true) (
        rw (or_lifetime_twice c.lifetime)
          (rw (options_twice (or_text c.store_type "memory") c.options) refl))))

-- The defaults change nothing in a configuration that they made, and it passes again.
pub apply_defaults_again :
    (c d : Config) → apply_defaults (some c) ≡ valid d → apply_defaults (some d) ≡ valid d
apply_defaults_again c d h =
    let (cookie, p, e) = passed c d h in
    rw e
      (passing (ready c cookie) cookie (passes_again c cookie p) ∙ ap valid (ready_twice c cookie))
