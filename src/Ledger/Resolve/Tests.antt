-- ===== src/Ledger/Resolve/Tests.antt =====
-- Two positions of one symbol, told apart by the order's other leg.
use morai_trading_dashboard.Prelude.{
  String, some, List, [], ◌∷◌, ◌≡◌, ◌↔◌, nat_eq, text_eq, pair_eq, Uuid,
}
use morai_trading_dashboard.Ledger.Records.{FillKey, fill_key_eq}
use morai_trading_dashboard.Ledger.Resolve.{Candidate, resolved_position}
use morai_trading_dashboard.Ledger.Resolve.Anchors.{resolved_position-unique_fit, Fits}

abbrev key_of : String → String → FillKey
key_of order_id occ_symbol = record {
  order_id = order_id;
  occ_symbol = occ_symbol;
  leg_index = 0;
  execution_time = 5;
}

abbrev candidates : List Candidate
candidates =
    (record { key = key_of "a" "near"; position_id = 1 })
    ∷ (record { key = key_of "a" "near"; position_id = 2 })
    ∷ (record { key = key_of "a" "far"; position_id = 2 })
    ∷ []

resolved_position-unique_fit_example :
    (resolved_position candidates (key_of "a" "near") ≡ some 2) ↔ (
      Fits candidates (key_of "a" "near") 2
      × ((q : Uuid) → Fits candidates (key_of "a" "near") q → q ≡ 2))
resolved_position-unique_fit_example = resolved_position-unique_fit candidates (key_of "a" "near") 2
