-- ===== src/Ingest/Tests.antt =====
-- A first sync of a young calendar, and a trade of two option legs of which one has no symbol.
use morai_trading_dashboard.Prelude.{
  ◌+◌, ◌≡◌, String, Option, none, some, List, [], ◌∷◌, refl, ok, Instant, days, length, arith,
}
use morai_trading_dashboard.Prelude.Int.{pos}
use morai_trading_dashboard.Ingest.Windows.{SyncSettings, sync_windows, sync_windows-tile, Tiles}
use morai_trading_dashboard.Ingest.Extract.{TransferItem, Transaction, extract_fills}
use morai_trading_dashboard.Ingest.Extract.Accounted.{extract_fills-accounted}

abbrev settings : SyncSettings
settings = record {
  schwab_tx_lookback_max_days = 1;
  schwab_tx_max_range_days = 1;
  schwab_tx_sync_overlap_days = 1;
}

sync_windows-tile_example :
    (ws : List (Instant × Instant)) × (sync_windows (some (days 2)) (days 4) settings
      ≡ ok (some ws))
    × Tiles (days 1) (days 4) (days 1) ws
sync_windows-tile_example =
    sync_windows-tile (some (days 2)) (days 4) settings (days 1) (omega arith) refl

-- A sync of a two-microsecond past asks for one window.
abbrev short_window : List (Instant × Instant)
short_window = (0, 2) ∷ []

abbrev no_overlap : SyncSettings
no_overlap = record settings { schwab_tx_sync_overlap_days = 0 }

short_run : sync_windows (some 0) 2 no_overlap ≡ ok (some short_window)
unfolding sync_windows
short_run = refl

abbrev item_of : Option String → TransferItem
item_of symbol = record {
  instrument = some (record { symbol = symbol; asset_type = some "OPTION" });
  amount = some (record { coefficient = pos 2; exponent = pos 0 });
  price = none;
  cost = none;
  position_effect = some "OPENING";
}

abbrev trade : Transaction
trade = record {
  activity_id = "77";
  type = "TRADE";
  time = 5;
  order_id = some "a";
  transfer_items = item_of (some "SPX 1") ∷ item_of none ∷ [];
}

extract_fills-accounted_example :
    length (extract_fills (λ s. s) trade).fills + length (extract_fills (λ s. s) trade).skip_reasons
    ≡ 2
extract_fills-accounted_example = extract_fills-accounted (λ s. s) trade
