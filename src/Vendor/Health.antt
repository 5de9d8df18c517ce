-- ===== src/Vendor/Health.antt =====
-- `derive_connection_health` (src/morai/vendor/connections.py): the age of a Schwab token.
use morai_trading_dashboard.Prelude.{
  ℕ, ◌+◌, ◌≤◌, ◌<◌, ◌≡◌, ◌↔◌, not, arith, if◌then◌else◌, Instant, Duration, days, hours,
}
use morai_trading_dashboard.Prelude.Int.{pos, sub_ℕ, ltb_ℤ}

pub data ConnectionHealth : Type 0 where
  healthy expiring_soon expired : ConnectionHealth

abbrev pub refresh_token_lifetime : Duration
refresh_token_lifetime = days 7

abbrev pub expiring_soon_threshold : Duration
expiring_soon_threshold = hours 12

unfoldable pub derive_connection_health : Instant → Instant → ConnectionHealth × Instant
derive_connection_health token_created_at now =
    let expires_at = token_created_at + refresh_token_lifetime in
    let remaining = sub_ℕ expires_at now in
    if not (ltb_ℤ (pos 0) remaining)
    then (expired, expires_at)
    else if not (ltb_ℤ (pos expiring_soon_threshold) remaining)
    then (expiring_soon, expires_at)
    else (healthy, expires_at)

-- How bad a health is.
abbrev pub severity : ConnectionHealth → ℕ
severity healthy = 0
severity expiring_soon = 1
severity expired = 2

-- A token is expired exactly from seven days after its creation on, and healthy exactly while more than
-- twelve hours of those are left; the expiry is the seventh day whatever the health.
pub derive_connection_health-bands :
    (created now : Instant)
    → ((derive_connection_health created now).0 ≡ expired ↔ (created + days 7 ≤ now))
      × ((derive_connection_health created now).0 ≡ healthy ↔ (now + hours 12 < created + days 7))
      × ((derive_connection_health created now).1 ≡ created + days 7)
unfolding derive_connection_health
derive_connection_health-bands created now = ground arith

-- As time passes, the health of a token never improves.
pub derive_connection_health-worsens :
    (created now later : Instant)
    → now ≤ later
    → severity (derive_connection_health created now).0
      ≤ severity (derive_connection_health created later).0
unfolding derive_connection_health
derive_connection_health-worsens created now later h = ground arith
