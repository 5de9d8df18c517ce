-- ===== src/Ledger/Pairing/Tests.antt =====
-- A small ledger: an open of two legs, a close, a fill without a position and one of no known effect.
use morai_trading_dashboard.Prelude.{
  ℕ, String, Bool, none, some, List, [], ◌∷◌, map, ◌≡◌, ◌==◌, text_eq, nat_eq, keep, lookup_list,
  sorted,
}
use morai_trading_dashboard.Prelude.Int.{pos}
use morai_trading_dashboard.Money.{Decimal}
use morai_trading_dashboard.Ledger.Records.{FillRecord, fill_key, fill_key_eq}
use morai_trading_dashboard.Ledger.Pairing.{
  classify_fill, Platform, Resolutions, GroupKey, group_key_eq, opening, derive_events,
  derive_event, no_fills, sort_fills, event_leb,
}
use morai_trading_dashboard.Ledger.Pairing.Groups.{derive_events-sorts}
use morai_trading_dashboard.Ledger.Pairing.Scope.{derive_events-scoped}

abbrev platform : Platform
platform = record { sha256_hex = λ s. s; epoch_micros = λ t. pos t }

abbrev dollars : ℕ → Decimal
dollars n = record { coefficient = pos n; exponent = pos 0 }

abbrev fill_of : String → String → ℕ → ℕ → String → String → FillRecord
fill_of order_id occ_symbol leg_index execution_time position_effect side = record {
  user_id = 1;
  order_id = order_id;
  occ_symbol = occ_symbol;
  leg_index = leg_index;
  execution_time = execution_time;
  position_effect = position_effect;
  side = side;
  quantity = some (dollars 1);
  price_usd = some (dollars 3);
  key_version = 1;
}

abbrev near_leg : FillRecord
near_leg = fill_of "a" "SPX1" 0 10 "OPENING" "SELL"

abbrev far_leg : FillRecord
far_leg = fill_of "a" "SPX2" 1 11 "OPENING" "BUY"

abbrev exit : FillRecord
exit = fill_of "b" "SPX1" 0 20 "CLOSING" "BUY"

abbrev unknown_effect : FillRecord
unknown_effect = fill_of "c" "SPX2" 0 30 "OTHER" "BUY"

abbrev orphan : FillRecord
orphan = fill_of "d" "SPX3" 0 40 "OPENING" "BUY"

abbrev ledger : List FillRecord
ledger = near_leg ∷ far_leg ∷ exit ∷ unknown_effect ∷ orphan ∷ []

abbrev resolutions : Resolutions
resolutions =
    (fill_key near_leg, some 7)
    ∷ (fill_key far_leg, some 7)
    ∷ (fill_key exit, some 7)
    ∷ (fill_key unknown_effect, some 7)
    ∷ (fill_key orphan, none)
    ∷ []

abbrev opening_group : GroupKey
opening_group = record { position_id = 7; role = opening; order_id = "a" }

derive_events-sorts_example :
    ((derive_events platform ledger resolutions).unresolved ≡ fill_key orphan ∷ [])
    × ((derive_events platform ledger resolutions).unclassified ≡ fill_key unknown_effect ∷ [])
    × (lookup_list opening_group (sort_fills resolutions ledger no_fills).groups
        ≡ near_leg ∷ far_leg ∷ [])
unfolding classify_fill
derive_events-sorts_example = derive_events-sorts platform ledger resolutions opening_group

abbrev is_order_b : String → Bool
is_order_b order_id = order_id == "b"

derive_events-scoped_example :
    (derive_events platform (exit ∷ []) resolutions).events
    ≡ sorted event_leb (
        map
          (derive_event platform)
          (keep (λ g. is_order_b g.0.order_id) (sort_fills resolutions ledger no_fills).groups))
derive_events-scoped_example = derive_events-scoped is_order_b platform ledger resolutions
