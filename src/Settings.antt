-- ===== src/Settings.antt =====
-- The process configuration (src/morai/settings.py). A raised RuntimeError carries its message as text, since
-- what a message may say is what the file is careful about.
pub mod Loading
pub mod Secrets
pub mod Dsn
mod Tests
use morai_trading_dashboard.Ingest.Windows.{SyncSettings}
use morai_trading_dashboard.Db.{Bytes}
use Prim.Native.String.{count}
use morai_trading_dashboard.Prelude.{
  join, ◌<>◌, ℕ, zero, suc, ◌+◌, ◌≤◌, ◌<◌, String, Bool, true, false, ◌&&◌, ◌||◌, not, Option, none,
  some, List, [], ◌∷◌, ◌++◌, map, ◌≡◌, refl, sym, ap, ◌∙◌, ◌⊎◌, inl, inr, arith, if◌then◌else◌, Eq,
  ◌==◌, nat_eq, text_eq, Result, ok, err, Instant, Duration, Uuid, keep, any, length, Bool-cases,
  Option-cases, Result-cases, beq_refl,
}

-- A computation that may raise a RuntimeError with a message.
pub data Configured {ℓ} (A : Type ℓ) : Type ℓ where
  rejected : String → Configured A
  configured : A → Configured A

pub record SchwabCredentials : Type 0 where
  pub api_key : String
  pub app_secret : String
  pub callback_url : String

pub record Settings : Type 0 where
  pub database_url : String
  pub morai_app_db_password : Option String
  pub posthog_api_key : Option String
  pub posthog_host : String
  pub morai_master_key : Option String
  pub schwab_api_key : Option String
  pub schwab_app_secret : Option String
  pub schwab_callback_url : Option String
  pub sync : SyncSettings
  pub schwab_sync_cooldown_seconds : ℕ

abbrev pub credentials_preamble : String
credentials_preamble =
    "Configuration rejected. The following Schwab credential fields are required and are withheld deliberately even when present -- values are never rendered (NN-34): "

abbrev missing_name : Option String → String → List String
missing_name none name = name ∷ []
missing_name (some value) name = []

abbrev missing_names : Option String → Option String → Option String → List String
missing_names api_key app_secret callback_url =
    missing_name api_key "schwab_api_key"
    ++ missing_name app_secret "schwab_app_secret"
    ++ missing_name callback_url "schwab_callback_url"

abbrev credentials_of : Option String → Option String → Option String → Configured SchwabCredentials
credentials_of (some api_key) (some app_secret) (some callback_url) =
    configured (record { api_key = api_key; app_secret = app_secret; callback_url = callback_url })
credentials_of api_key app_secret callback_url =
    rejected (credentials_preamble <> join ", " (missing_names api_key app_secret callback_url))

unfoldable pub schwab_credentials : Settings → Configured SchwabCredentials
schwab_credentials s = credentials_of s.schwab_api_key s.schwab_app_secret s.schwab_callback_url

abbrev pub unset_master_key : String
unset_master_key =
    "Configuration rejected. `morai_master_key` is required to unwrap any user's data key, and is withheld deliberately even when present -- values are never rendered (NN-34)."

abbrev pub bad_master_key : String
bad_master_key =
    "Configuration rejected. `morai_master_key` must be base64 of exactly 32 bytes for AES-256-GCM; its value is withheld deliberately (NN-34)."

-- `decoded is None or len(decoded) != 32`; a byte is a character of the text.
abbrev pub exactly_32 : Option Bytes → Option Bytes
exactly_32 none = none
exactly_32 (some decoded) = if not (count decoded == 32) then none else some decoded

abbrev or_reject {ℓ} : {A : Type ℓ} → Option A → String → Configured A
or_reject none message = rejected message
or_reject (some a) message = configured a

abbrev decoded_key : (String → Option Bytes) → Option String → Configured Bytes
decoded_key b64decode none = rejected unset_master_key
decoded_key b64decode (some key) = or_reject (exactly_32 (b64decode key)) bad_master_key

-- `b64decode` is `base64.b64decode(text, validate=True)`, and none is an error that it raises.
unfoldable pub master_key_bytes : (String → Option Bytes) → Settings → Configured Bytes
master_key_bytes b64decode s = decoded_key b64decode s.morai_master_key
