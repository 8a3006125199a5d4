-- ===== src/Analytics/Config.antt =====
-- packages/analytics/src/config.ts: resolveAnalyticsConfig. The paths of node:path and of
-- resolveDshHome are parameters.
mod Tests
use dsh_gateway.Prelude.{
  ℕ, Bool, true, false, ◌&&◌, ◌||◌, not, if◌then◌else◌, leb, ltb, all, ◌==◌, Text, text, Option,
  none, some, List, [], ◌∷◌, Outcome, ok, throw, ◌>>=◌, ◌>>◌,
}
use dsh_gateway.Js.{max_safe_integer}

-- The messages of the `TypeError`s.
pub data ConfigError : Type 0 where
  poll_interval_invalid hash_credential_ref_invalid state_dir_relative : ConfigError

pub record AnalyticsConfig : Type 0 where
  pub enabled : Option Bool
  pub external_queue_opt_in : Option Bool
  pub poll_interval_ms : Option ℕ
  pub hash_credential_ref : Option Text
  pub state_dir : Option Text

pub record ResolvedAnalyticsConfig : Type 0 where
  pub enabled : Bool
  pub external_queue_opt_in : Bool
  pub poll_interval_ms : ℕ
  pub hash_credential_ref : Text
  pub state_dir : Text
  pub database_path : Text

abbrev pub default_analytics_poll_interval_ms : ℕ
default_analytics_poll_interval_ms = 5000

abbrev pub default_analytics_hash_credential_ref : Text
default_analytics_hash_credential_ref = text "DSH_GATEWAY_ANALYTICS_HASH_KEY"

abbrev is_word_start : ℕ → Bool
is_word_start c = (leb 65 c && leb c 90) || ((leb 97 c && leb c 122) || (c == 95))

abbrev is_word : ℕ → Bool
is_word c = is_word_start c || (leb 48 c && leb c 57)

-- `CREDENTIAL_REF`: `^[A-Za-z_][A-Za-z0-9_]*$`
unfoldable pub is_credential_ref : Text → Bool
is_credential_ref [] = false
is_credential_ref (c ∷ s) = is_word_start c && all is_word s

-- `value ?? fallback`
abbrev given {α} : {A : Type α} → Option A → A → A
given none fallback = fallback
given (some value) fallback = value

unfoldable pub check_interval : ℕ → Outcome ConfigError (Unit {0})
check_interval n =
    if ltb max_safe_integer n || (ltb n 1000 || ltb 60000 n)
    then throw poll_interval_invalid
    else ok tt

unfoldable pub check_ref : Text → Outcome ConfigError (Unit {0})
unfolding is_credential_ref
check_ref s = if is_credential_ref s then ok tt else throw hash_credential_ref_invalid

module _ (is_absolute : Text → Bool) (join : Text → Text → Text) (default_state_dir : Text) where
  unfoldable pub check_state_dir : Option Text → Outcome ConfigError (Unit {0})
  check_state_dir none = ok tt
  check_state_dir (some path) = if is_absolute path then ok tt else throw state_dir_relative

  unfoldable pub resolve_analytics_config :
      AnalyticsConfig → Outcome ConfigError ResolvedAnalyticsConfig
  unfolding check_interval check_ref check_state_dir
  resolve_analytics_config config =
      let interval = given config.poll_interval_ms default_analytics_poll_interval_ms in
      let reference = given config.hash_credential_ref default_analytics_hash_credential_ref in
      let directory = given config.state_dir default_state_dir in
      check_interval interval
      >> check_ref reference
      >> check_state_dir config.state_dir
      >> ok (record {
        enabled = given config.enabled true;
        external_queue_opt_in = given config.external_queue_opt_in false;
        poll_interval_ms = interval;
        hash_credential_ref = reference;
        state_dir = directory;
        database_path = join directory (text "usage.sqlite3");
      })
