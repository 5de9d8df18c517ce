-- ===== src/Ledger/Occ/Tests.antt =====
-- Contracts and fills on which the theorems on symbols and rolls are used.
use morai_trading_dashboard.Prelude.{
  String, List, [], ◌∷◌, ◌++◌, ℕ, ◌⊎◌, ◌↔◌, true, some, ◌≡◌, refl, ok, err, value_error, nat_eq,
  arith,
}
use morai_trading_dashboard.Prelude.Int.{pos}
use morai_trading_dashboard.Ledger.Records.{FillRecord}
use morai_trading_dashboard.Ledger.Occ.{
  strip_prefix, parse_end, parse_letter, parse_digits, parse_root, codes, spx, OccContract,
  parse_occ_symbol, detect_roll,
}
use morai_trading_dashboard.Ledger.Occ.Roundtrip.{parse-occ_symbol_for, occ_symbol_for, IsWritable}
use morai_trading_dashboard.Ledger.Occ.Roll.{detect_roll-Rolls, Rolls, ClosesAndOpens, IsMalformed}
use morai_trading_dashboard.Ledger.Occ.Spelling.{parse_occ_symbol-Spells, Spells}

abbrev june_put : OccContract
june_put = record {
  root = spx;
  expiry = record { year = 2026; month = 6; day = 19 };
  option_type = b'P';
  strike = 5_000_000;
}

abbrev july_put : OccContract
july_put = record june_put { expiry = record { year = 2026; month = 7; day = 17 } }

june_put-IsWritable : IsWritable june_put
june_put-IsWritable = record {
  century = omega arith;
  this_century = omega arith;
  real_date = refl;
  letter = refl;
  eight_digits = omega arith;
}

parse-occ_symbol_for_example : parse_occ_symbol (occ_symbol_for june_put) ≡ ok june_put
parse-occ_symbol_for_example = parse-occ_symbol_for june_put june_put-IsWritable

abbrev fill_of : String → String → FillRecord
fill_of occ_symbol position_effect = record {
  user_id = 1;
  order_id = "a";
  occ_symbol = occ_symbol;
  leg_index = 0;
  execution_time = 10;
  position_effect = position_effect;
  side = "BUY";
  quantity = some (record { coefficient = pos 1; exponent = pos 0 });
  price_usd = some (record { coefficient = pos 3; exponent = pos 0 });
  key_version = 1;
}

june_parses : parse_occ_symbol (codes "SPX260619P05000000") ≡ ok june_put
unfolding parse_occ_symbol parse_root parse_digits parse_letter parse_end strip_prefix
june_parses = refl

july_parses : parse_occ_symbol (codes "SPX260717P05000000") ≡ ok july_put
unfolding parse_occ_symbol parse_root parse_digits parse_letter parse_end strip_prefix
july_parses = refl

bad_symbol : parse_occ_symbol (codes "SPX") ≡ err value_error
unfolding parse_occ_symbol parse_root parse_digits parse_letter parse_end strip_prefix
bad_symbol = refl

detect_roll-Rolls_example :
    let c = fill_of "SPX260619P05000000" "CLOSING" in
    let o = fill_of "SPX260717P05000000" "OPENING" in
    ((detect_roll c o ≡ ok true) ↔ Rolls c o)
    × ((detect_roll c o ≡ err value_error) ↔ (ClosesAndOpens c o × (IsMalformed c ⊎ IsMalformed o)))
detect_roll-Rolls_example =
    detect_roll-Rolls (fill_of "SPX260619P05000000" "CLOSING")
      (fill_of "SPX260717P05000000" "OPENING")

-- A symbol with a newline after it.
abbrev june_line : List ℕ
june_line = codes "SPX260619P05000000" ++ 10 ∷ []

june_line_parses : parse_occ_symbol june_line ≡ ok june_put
unfolding parse_occ_symbol parse_root parse_digits parse_letter parse_end strip_prefix
june_line_parses = refl

parse_occ_symbol-Spells_example :
    (parse_occ_symbol june_line ≡ ok june_put) ↔ Spells june_line june_put
parse_occ_symbol-Spells_example = parse_occ_symbol-Spells june_line june_put
