-- ===== src/Settings/Tests.antt =====
-- Settings of a development machine, and a rejected environment.
use morai_trading_dashboard.Ingest.Windows.{default_settings}
use morai_trading_dashboard.Validation.{field, ErrorDetail}
use morai_trading_dashboard.Settings.Loading.{load_settings-withholds, invalid, load_settings}
use morai_trading_dashboard.Settings.{
  credentials_preamble, configured, rejected, schwab_credentials, SchwabCredentials, Settings,
}
use morai_trading_dashboard.Settings.Secrets.{schwab_credentials-all_or_missing, unset_fields}
use morai_trading_dashboard.Settings.Dsn.{async_dsn-scheme, async_dsn}
use mathlib.Core.List.{Permᴰ}
use morai_trading_dashboard.Prelude.{
  join, ◌<>◌, ◌≢◌, String, none, some, [], ◌∷◌, ◌≡◌, refl, ◌⊎◌, nat_eq, text_eq,
}

abbrev plain_settings : Settings
plain_settings = record {
  database_url = "postgresql://localhost/morai";
  morai_app_db_password = none;
  posthog_api_key = none;
  posthog_host = "https://us.i.posthog.com";
  morai_master_key = some "key";
  schwab_api_key = some "api";
  schwab_app_secret = none;
  schwab_callback_url = none;
  sync = default_settings;
  schwab_sync_cooldown_seconds = 60;
}

abbrev extra_key : String → ErrorDetail
extra_key value = record {
  loc = field "schwab_app_secret" ∷ [];
  kind = "extra_forbidden";
  msg = "Extra inputs are not permitted";
  input = value;
}

abbrev missing_url : ErrorDetail
missing_url = record {
  loc = field "database_url" ∷ [];
  kind = "missing";
  msg = "Field required";
  input = "";
}

load_settings-withholds_example :
    load_settings (invalid (extra_key "s3cret" ∷ missing_url ∷ []))
    ≡ load_settings (invalid (missing_url ∷ extra_key "other" ∷ []))
load_settings-withholds_example =
    load_settings-withholds (extra_key "s3cret" ∷ missing_url ∷ [])
      (missing_url ∷ extra_key "other" ∷ []) (Permᴰ.swap refl refl)

rejected_text :
    load_settings (invalid (extra_key "s3cret" ∷ missing_url ∷ []))
    ≡ rejected
        "Configuration rejected. Field names and failure types follow; values are withheld deliberately, because a rejected key is often a credential (NN-34).\n  database_url: missing\n  schwab_app_secret: extra_forbidden"
unfolding load_settings join
rejected_text = refl

schwab_credentials-all_or_missing_example :
    ((unset_fields plain_settings ≡ [])
      × (c : SchwabCredentials) × (schwab_credentials plain_settings ≡ configured c)
      × (some "api" ≡ some c.api_key)
      × (none ≡ some c.app_secret)
      × (none ≡ some c.callback_url))
    ⊎ ((unset_fields plain_settings ≢ [])
        × (schwab_credentials plain_settings
            ≡ rejected (credentials_preamble <> join ", " (unset_fields plain_settings))))
schwab_credentials-all_or_missing_example = schwab_credentials-all_or_missing plain_settings

async_url : async_dsn plain_settings ≡ "postgresql+asyncpg://localhost/morai"
async_url = async_dsn-scheme plain_settings "localhost/morai" refl
