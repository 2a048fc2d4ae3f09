-- ===== src/Session.antt =====
-- core/session/config.go and helper.go: the configuration of the sessions. A nil pointer is `none`;
-- durations are nanoseconds. Trimming and lower case are a parameter.
pub mod Defaults
mod Tests
use photon.Base.{
  Bool, true, false, not, ◌&&◌, Option, none, some, String, string_discrete, ite, if◌then◌else◌,
  ◌==◌,
}
use photon.Base.Int.{ℤ, pos, negsuc}

-- The modes of net/http; `unset` is its zero.
pub data SameSite : Type 0 where
  unset default_mode lax_mode strict_mode none_mode : SameSite

pub record StoreOptions : Type 0 where
  pub name : String
  pub address : String
  pub key_prefix : String
  pub ping_on_init : Option Bool

pub record CookieConfig : Type 0 where
  pub name : String
  pub path : String
  pub same_site : SameSite
  pub secure : Option Bool
  pub http_only : Option Bool
  pub persist : Option Bool
  pub partitioned : Option Bool

-- The fields that the defaults read or write.
pub record Config : Type 0 where
  pub store_type : String
  pub options : StoreOptions
  pub cookie : CookieConfig
  pub lifetime : ℤ
  pub hash_token_in_store : Option Bool
  pub encoding : String

pub data ConfigError : Type 0 where
  nil_config invalid_encoding invalid_store invalid_cookie : ConfigError

pub data Checked (A : Type 0) : Type 0 where
  valid : A → Checked A
  invalid : ConfigError → Checked A

abbrev pub or_text : String → String → String
or_text s d = ite (string_discrete s "") d s

abbrev pub or_bool : Option Bool → Bool → Option Bool
or_bool none d = some d
or_bool (some b) d = some b

abbrev pub or_mode : SameSite → SameSite
or_mode unset = lax_mode
or_mode m = m

abbrev pub or_lifetime : ℤ → ℤ
or_lifetime (pos n) = if n == 0 then pos 86_400_000_000_000 else pos n
or_lifetime (negsuc n) = negsuc n

abbrev pub is_set : Option Bool → Bool
is_set (some true) = true
is_set _ = false

abbrev pub is_none_mode : SameSite → Bool
is_none_mode none_mode = true
is_none_mode _ = false

-- `isValidStore`
abbrev pub is_valid_store : String → Bool
is_valid_store s =
    ite (string_discrete s "memory") true (ite (string_discrete s "redis") true false)

-- `isValidEncoding`
abbrev pub is_valid_encoding : String → Bool
is_valid_encoding s = ite (string_discrete s "gob") true (ite (string_discrete s "json") true false)

-- The defaults of `applyCookieDefaults`.
unfoldable pub cookie_filled : CookieConfig → CookieConfig
cookie_filled c = record {
  name = or_text c.name "GFRRSESSID";
  path = or_text c.path "/";
  same_site = or_mode c.same_site;
  secure = or_bool c.secure true;
  http_only = or_bool c.http_only true;
  persist = or_bool c.persist true;
  partitioned = or_bool c.partitioned false;
}

-- `applyCookieDefaults`
unfoldable pub apply_cookie_defaults : CookieConfig → Checked CookieConfig
apply_cookie_defaults c =
    let filled = cookie_filled c in
    if is_none_mode filled.same_site && not (is_set filled.secure)
    then invalid invalid_cookie
    else valid filled

-- `applyRedisDefaults`
unfoldable pub apply_redis_defaults : StoreOptions → StoreOptions
apply_redis_defaults o = record {
  name = or_text o.name "default";
  address = or_text o.address "127.0.0.1:6379";
  key_prefix = or_text o.key_prefix "GFRRSESSID:";
  ping_on_init = or_bool o.ping_on_init true;
}

-- `applyDefaults`
unfoldable pub apply_defaults : Option Config → Checked Config
apply_defaults none = invalid nil_config
apply_defaults (some c) =
    let store_type = or_text c.store_type "memory" in
    let encoding = or_text c.encoding "gob" in
    if not (is_valid_encoding encoding)
    then invalid invalid_encoding
    else elim (apply_cookie_defaults c.cookie) [
      | invalid e ↦ invalid e
      | valid cookie ↦
          if not (is_valid_store store_type)
          then invalid invalid_store
          else valid (record {
            store_type = store_type;
            options =
                ite (string_discrete store_type "redis") (apply_redis_defaults c.options) c.options;
            cookie = cookie;
            lifetime = or_lifetime c.lifetime;
            hash_token_in_store = or_bool c.hash_token_in_store true;
            encoding = encoding;
          })
    ]

-- `ParseSessionEncoding`
unfoldable pub parse_session_encoding : (String → String) → String → String
parse_session_encoding normal s =
    ite (string_discrete (normal s) "json") "json" (ite (string_discrete (normal s) "gob") "gob" "")

-- `ParseSameSite`
unfoldable pub parse_same_site : (String → String) → String → SameSite
parse_same_site normal s = ite (string_discrete (normal s) "lax") lax_mode (
    ite (string_discrete (normal s) "strict") strict_mode
      (ite (string_discrete (normal s) "none") none_mode unset))
