-- ===== src/Ledger/Syncing/Tests.antt =====
-- A sync of one opening fill whose position is the only one with a leg of its symbol.
use morai_trading_dashboard.Ledger.Resolve.Sets.{distinct}
use morai_trading_dashboard.Ledger.Events.Roundtrip.{ReadableEvent}
use morai_trading_dashboard.Ledger.Columns.{decrypt_decimal}
use morai_trading_dashboard.Ledger.Resolve.{
  resolve_rows, resolved_position, anchors_from, fill_candidates, order_anchors,
  resolve_fill_positions,
}
use morai_trading_dashboard.Crypto.{decrypt_field, unwrap_dek}
use morai_trading_dashboard.Ledger.Syncing.Again.{sync_events-again, derived}
use morai_trading_dashboard.Ledger.Pairing.{
  signed_leg_amount, net_amount, classify_fill, first_time, derive_event, sort_fills, sort_fill,
  derive_events,
}
use morai_trading_dashboard.Ledger.Syncing.{draft_of, sync_events}
use morai_trading_dashboard.Ledger.Fills.{open_fill, read_fills}
use morai_trading_dashboard.Money.{Decimal}
use morai_trading_dashboard.Ledger.Reading.{cached, read_rows, fetch_dek}
use morai_trading_dashboard.Ledger.Events.{refers, read_events}
use morai_trading_dashboard.Ledger.Keys.{current_dek}
use morai_trading_dashboard.Ledger.Records.{FillRecord, FillKey}
use morai_trading_dashboard.Prelude.Int.{pos}
use morai_trading_dashboard.Prelude.{
  All, true, false, none, some, List, [], ◌∷◌, ◌≡◌, refl, nat_eq, text_eq, ok, length,
}
use morai_trading_dashboard.Outside.{plain_outside, Decrypts, Outside}
use morai_trading_dashboard.Db.{Fill, Leg, Database}
use morai_trading_dashboard.Db.Session.{user, Session}

abbrev one : Decimal
one = record { coefficient = pos 1; exponent = pos 0 }

-- Each text is read as the decimal 1.
abbrev reading : Outside
reading = record plain_outside { read_decimal = λ t. some one }

reading-Decrypts : Decrypts reading
reading-Decrypts key n plaintext aad = refl

abbrev key : FillKey
key = record { order_id = "a"; occ_symbol = "SPX1"; leg_index = 0; execution_time = 10 }

abbrev stored : Fill
stored = record {
  user_id = 1;
  key = key;
  position_effect = "OPENING";
  side = "BUY";
  quantity_ciphertext = some "1";
  quantity_nonce = some "nonce";
  price_usd_ciphertext = none;
  price_usd_nonce = none;
  key_version = 1;
}

abbrev leg : Leg
leg = record { position_id = 7; user_id = 1; leg_role = "FRONT"; occ_symbol = "SPX1"; root = "SPX" }

abbrev fill_db : Database
fill_db = record {
  users = (record { id = 1; username = "ada"; password_hash = none; is_admin = false }) ∷ [];
  sessions = [];
  setup_tokens = [];
  audit_log = [];
  user_data_keys =
      (record { user_id = 1; key_version = 1; wrapped_dek = "dek"; wrap_nonce = "n" }) ∷ [];
  fills = stored ∷ [];
  positions = (record { id = 7; user_id = 1; opened_at = none; closed_at = none }) ∷ [];
  legs = leg ∷ [];
  events = [];
  schwab_connections = [];
  broker_transactions = [];
  sync_runs = [];
}

abbrev ready : Session
ready = record { db = fill_db; committed = fill_db; setting = user 1; admin = false; draws = 0 }

abbrev held : List FillRecord
held =
    (record {
      user_id = 1;
      order_id = "a";
      occ_symbol = "SPX1";
      leg_index = 0;
      execution_time = 10;
      position_effect = "OPENING";
      side = "BUY";
      quantity = some one;
      price_usd = none;
      key_version = 1;
    })
    ∷ []

key_reads : current_dek reading 1 ready ≡ (ok ("dek", 1), ready)
unfolding current_dek unwrap_dek
key_reads = refl

key_found : fetch_dek reading ready 1 1 ≡ ok "dek"
unfolding fetch_dek unwrap_dek
key_found = refl

reads_held : read_fills reading 1 ready ≡ (ok held, ready)
unfolding read_fills read_rows fetch_dek unwrap_dek open_fill decrypt_decimal decrypt_field cached
reads_held = refl

no_events : read_events reading 1 ready ≡ (ok [], ready)
unfolding read_events read_rows
no_events = refl

one_event : length (derived reading 1 none ready held).events ≡ 1
unfolding derive_events resolve_fill_positions distinct order_anchors fill_candidates anchors_from
    resolved_position resolve_rows sort_fill sort_fills derive_event first_time classify_fill
one_event = refl

position_there :
    All (λ e. refers fill_db 1 e.position_id ≡ true) (derived reading 1 none ready held).events
unfolding derive_events resolve_fill_positions distinct order_anchors fill_candidates anchors_from
    resolved_position resolve_rows sort_fill sort_fills derive_event first_time classify_fill
position_there = (refl, tt)

amounts_read :
    All (λ e. ReadableEvent reading (draft_of e)) (derived reading 1 none ready held).events
unfolding derive_events resolve_fill_positions distinct order_anchors fill_candidates anchors_from
    resolved_position resolve_rows sort_fill sort_fills derive_event first_time classify_fill
    net_amount signed_leg_amount
amounts_read = ((tt, tt), tt)

sync_events-again_example :
    (t : Session) × (sync_events reading 1 none ready ≡ (ok (derived reading 1 none ready held), t))
    × (sync_events reading 1 none t ≡ (ok (derived reading 1 none ready held), t))
sync_events-again_example =
    sync_events-again reading 1 none ready ("dek", 1) held [] reading-Decrypts key_reads key_found
      refl reads_held no_events position_there amounts_read
