-- ===== src/Analytics/Config/Tests.antt =====
-- config.ts: resolveAnalyticsConfig on concrete configurations.
use dsh_gateway.Prelude.{true, false, Text, text, none, some, ◌++◌, Outcome, ok, throw, ◌≡◌, refl}
use dsh_gateway.Analytics.Config.{
  ConfigError, poll_interval_invalid, hash_credential_ref_invalid, AnalyticsConfig,
  ResolvedAnalyticsConfig, resolve_analytics_config,
}

abbrev join : Text → Text → Text
join directory name = directory ++ (text "/" ++ name)

abbrev empty_config : AnalyticsConfig
empty_config = record {
  enabled = none;
  external_queue_opt_in = none;
  poll_interval_ms = none;
  hash_credential_ref = none;
  state_dir = none;
}

abbrev resolve : AnalyticsConfig → Outcome ConfigError ResolvedAnalyticsConfig
resolve = resolve_analytics_config (λ path. true) join (text "/home")

defaults :
    resolve empty_config
    ≡ ok (record {
      enabled = true;
      external_queue_opt_in = false;
      poll_interval_ms = 5000;
      hash_credential_ref = text "DSH_GATEWAY_ANALYTICS_HASH_KEY";
      state_dir = text "/home";
      database_path = text "/home/usage.sqlite3";
    })
unfolding resolve_analytics_config
defaults = refl

short_interval :
    resolve (record empty_config { poll_interval_ms = some 999 }) ≡ throw poll_interval_invalid
unfolding resolve_analytics_config
short_interval = refl

reference_with_dash :
    resolve (record empty_config { hash_credential_ref = some (text "A-B") })
    ≡ throw hash_credential_ref_invalid
unfolding resolve_analytics_config
reference_with_dash = refl
