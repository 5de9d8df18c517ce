-- ===== src/Vendor/Tests.antt =====
-- The health of a token at the edges of its bands.
use morai_trading_dashboard.Prelude.{◌≡◌, refl, ◌-◌, days, hours}
use morai_trading_dashboard.Vendor.Health.{
  derive_connection_health, expired, expiring_soon, healthy,
}

health_tests :
    (derive_connection_health 0 (days 7) ≡ (expired, days 7))
    × (derive_connection_health 0 (days 7 - 1) ≡ (expiring_soon, days 7))
    × (derive_connection_health 0 (days 7 - hours 12) ≡ (expiring_soon, days 7))
    × (derive_connection_health 0 (days 7 - hours 12 - 1) ≡ (healthy, days 7))
unfolding derive_connection_health
health_tests = (refl, refl, refl, refl)
