-- ===== src/Session/Tests.antt =====
-- core/session: the defaults of a short configuration.
use photon.Base.{◌≡◌, ◌≢◌, refl, true, false, ◌&&◌, not, none, some, string_discrete}
use photon.Base.Int.{pos}
use photon.Session.{
  unset, Config, Checked, valid, is_valid_encoding, is_valid_store, is_none_mode, is_set,
  cookie_filled, apply_cookie_defaults, apply_defaults,
}
use photon.Session.Defaults.{apply_defaults_ready}

abbrev given : Config
given = record {
  store_type = "";
  options = record { name = ""; address = ""; key_prefix = ""; ping_on_init = none };
  cookie = record {
    name = "";
    path = "";
    same_site = unset;
    secure = none;
    http_only = none;
    persist = none;
    partitioned = none;
  };
  lifetime = pos 0;
  hash_token_in_store = none;
  encoding = "json";
}

abbrev config_or : Checked Config → Config
config_or (valid c) = c
config_or _ = given

abbrev complete : Config
complete = config_or (apply_defaults (some given))

complete_made : apply_defaults (some given) ≡ valid complete
unfolding apply_defaults apply_cookie_defaults cookie_filled string_discrete
complete_made = refl

apply_defaults_ready_example :
    (is_valid_encoding complete.encoding ≡ true)
    × (is_valid_store complete.store_type ≡ true)
    × ((is_none_mode complete.cookie.same_site && not (is_set complete.cookie.secure)) ≡ false)
    × (complete.lifetime ≢ pos 0)
    × (complete.hash_token_in_store ≢ none)
    × (complete.cookie ≡ cookie_filled given.cookie)
apply_defaults_ready_example = apply_defaults_ready given complete complete_made
