-- ===== src/Settings.antt =====
-- src/krb5_token_service/config.py: the settings, their defaults and their bounds.
use krb5_token_service.Prelude.{◌≡◌, refl, Option, none, some, ℕ, Bool, ◌&&◌, Text, codes, ltb}

pub record Settings : Type 0 where
  pub broker_jwks_url : Text
  pub broker_issuer : Text
  pub expected_audience : Text
  pub kinit_bin : Text
  pub krb5_config : Text
  pub default_realm : Text
  pub default_lifetime : Text
  pub default_renewable_lifetime : Text
  pub ccache_tmp_root : Text
  pub kinit_timeout_seconds : ℕ
  pub cern_get_keytab_bin : Text
  pub cern_get_keytab_timeout_seconds : ℕ
  pub failed_auth_max_attempts : ℕ
  pub failed_auth_window_seconds : ℕ
  pub failed_auth_lockout_seconds : ℕ
  pub jwks_cache_ttl_seconds : ℕ
  pub log_level : Text

abbrev pub default_settings : Settings
default_settings = record {
  broker_jwks_url = codes "http://localhost:8080/.well-known/jwks.json";
  broker_issuer = codes "https://mcp.af.uchicago.edu";
  expected_audience = codes "krb5-token-service";
  kinit_bin = codes "kinit";
  krb5_config = codes "/app/etc/krb5.conf";
  default_realm = codes "CERN.CH";
  default_lifetime = codes "24h";
  default_renewable_lifetime = codes "7d";
  ccache_tmp_root = codes "/tmp/krb5cc";
  kinit_timeout_seconds = 30;
  cern_get_keytab_bin = codes "/app/etc/cern-get-keytab";
  cern_get_keytab_timeout_seconds = 60;
  failed_auth_max_attempts = 3;
  failed_auth_window_seconds = 900;
  failed_auth_lockout_seconds = 900;
  jwks_cache_ttl_seconds = 300;
  log_level = codes "INFO";
}

-- The bounds `Field(…, gt=0)`: `Settings(…)` raises where one fails.
unfoldable pub are_valid : Settings → Bool
are_valid s =
    ltb 0 s.kinit_timeout_seconds
    && ltb 0 s.cern_get_keytab_timeout_seconds
    && ltb 0 s.failed_auth_max_attempts
    && ltb 0 s.failed_auth_window_seconds
    && ltb 0 s.failed_auth_lockout_seconds

-- `get_settings`, on what `Settings()` reads at this call and what `lru_cache` holds.
unfoldable pub get_settings : Settings → Option Settings → Settings × Option Settings
get_settings read none = (read, some read)
get_settings read (some settings) = (settings, some settings)

-- A later call gives the settings of the first, whatever would be read then.
get_settings-get_settings :
    (read later : Settings) (cache : Option Settings)
    → let out = get_settings read cache in get_settings later out.1 ≡ out
unfolding get_settings
get_settings-get_settings read later none = refl
get_settings-get_settings read later (some settings) = refl
