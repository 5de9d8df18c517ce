-- ===== src/Settings/Secrets.antt =====
-- The credentials and the master key of the settings (src/morai/settings.py).
use Prim.Native.String.{count}
use morai_trading_dashboard.Db.{Bytes}
use morai_trading_dashboard.Settings.{
  credentials_preamble, SchwabCredentials, configured, rejected, master_key_bytes,
  schwab_credentials, Settings,
}
use morai_trading_dashboard.Prelude.{
  Option-cases, ◌<>◌, ◌≢◌, ◌⊎◌, some, ◌↔◌, arith, ◌≡◌, join, is_some, String, not, Option, List, [],
  ◌∷◌, map, nat_eq, text_eq, keep,
}

-- The three fields, in the order in which they are checked.
abbrev pub credential_fields : Settings → List (String × Option String)
credential_fields s =
    ("schwab_api_key", s.schwab_api_key)
    ∷ ("schwab_app_secret", s.schwab_app_secret)
    ∷ ("schwab_callback_url", s.schwab_callback_url)
    ∷ []

abbrev pub unset_fields : Settings → List String
unset_fields s = map (λ f. f.0) (keep (λ f. not (is_some f.1)) (credential_fields s))

-- The credentials are given exactly where the three fields are set, and are then their values; otherwise
-- the message names the unset fields, in order, and no value.
pub schwab_credentials-all_or_missing :
    (s : Settings)
    → ((unset_fields s ≡ [])
        × (c : SchwabCredentials) × (schwab_credentials s ≡ configured c)
        × (s.schwab_api_key ≡ some c.api_key)
        × (s.schwab_app_secret ≡ some c.app_secret)
        × (s.schwab_callback_url ≡ some c.callback_url))
      ⊎ ((unset_fields s ≢ [])
          × (schwab_credentials s ≡ rejected (credentials_preamble <> join ", " (unset_fields s))))
unfolding schwab_credentials
schwab_credentials-all_or_missing s = ground (
  arith,
  Option-cases s.schwab_api_key,
  Option-cases s.schwab_app_secret,
  Option-cases s.schwab_callback_url,
)

-- The master key is accepted exactly where it is set and decodes to 32 bytes, and is then these bytes.
pub master_key_bytes-exact :
    (b64decode : String → Option Bytes) (s : Settings) (k : Bytes)
    → (master_key_bytes b64decode s ≡ configured k) ↔ (
        (key : String) × (s.morai_master_key ≡ some key)
        × (b64decode key ≡ some k)
        × (count k ≡ 32))
unfolding master_key_bytes
master_key_bytes-exact b64decode s k = ground arith

-- A master key that is set and refused is refused with one message, whatever it is.
pub master_key_bytes-withholds :
    (b64decode : String → Option Bytes) (s t : Settings) (m n : String)
    → is_some s.morai_master_key ≡ is_some t.morai_master_key
    → master_key_bytes b64decode s ≡ rejected m
    → master_key_bytes b64decode t ≡ rejected n
    → m ≡ n
unfolding master_key_bytes
master_key_bytes-withholds b64decode s t m n h i j = ground arith
