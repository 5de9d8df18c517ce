-- ===== src/Ledger/Events/Tests.antt =====
-- A batch of a ROLL and an OPEN event, with and without the amount of the ROLL.
use morai_trading_dashboard.Ledger.Events.Storing.{insert_events-half_roll}
use morai_trading_dashboard.Ledger.Events.Roundtrip.{insert_events-read, Kept, record_ids}
use morai_trading_dashboard.Ledger.Events.Adding.{Drawn}
use morai_trading_dashboard.Crypto.{unwrap_dek}
use morai_trading_dashboard.Money.{Decimal}
use morai_trading_dashboard.Ledger.Reading.{read_rows, fetch_dek}
use morai_trading_dashboard.Ledger.Events.{insert_events, read_events}
use morai_trading_dashboard.Ledger.Records.{EventRecord, EventWrite}
use morai_trading_dashboard.Ledger.Keys.{current_dek}
use morai_trading_dashboard.Prelude.Int.{pos}
use morai_trading_dashboard.Prelude.Pairs.{Pairs}
use morai_trading_dashboard.Prelude.{
  value_error, false, Option, none, some, List, [], ◌∷◌, ◌≡◌, refl, nat_eq, text_eq, ok, err,
}
use morai_trading_dashboard.Outside.{plain_outside, Decrypts, Outside}
use morai_trading_dashboard.Db.{Event, Database}
use morai_trading_dashboard.Db.Session.{user, Session}

abbrev one : Decimal
one = record { coefficient = pos 1; exponent = pos 0 }

-- Each text is read as the decimal 1.
abbrev reading : Outside
reading = record plain_outside { read_decimal = λ t. some one }

reading-Decrypts : Decrypts reading
reading-Decrypts key n plaintext aad = refl

abbrev event_db : Database
event_db = record {
  users = (record { id = 1; username = "ada"; password_hash = none; is_admin = false }) ∷ [];
  sessions = [];
  setup_tokens = [];
  audit_log = [];
  user_data_keys =
      (record { user_id = 1; key_version = 1; wrapped_dek = "dek"; wrap_nonce = "n" }) ∷ [];
  fills = [];
  positions = (record { id = 7; user_id = 1; opened_at = none; closed_at = none }) ∷ [];
  legs = [];
  events = [];
  schwab_connections = [];
  broker_transactions = [];
  sync_runs = [];
}

abbrev ready : Session
ready = record { db = event_db; committed = event_db; setting = user 1; admin = false; draws = 0 }

abbrev opening_event : EventWrite
opening_event = record {
  position_id = 7;
  event_type = "OPEN";
  event_time = 10;
  fill_ids_hash = some "h";
  open_debit_usd = some one;
  close_credit_usd = none;
}

abbrev roll_with : Option Decimal → EventWrite
roll_with credit = record opening_event {
  event_type = "ROLL";
  fill_ids_hash = none;
  close_credit_usd = credit;
}

key_reads : current_dek reading 1 ready ≡ (ok ("dek", 1), ready)
unfolding current_dek unwrap_dek
key_reads = refl

key_found : fetch_dek reading ready 1 1 ≡ ok "dek"
unfolding fetch_dek unwrap_dek
key_found = refl

no_events : read_events reading 1 ready ≡ (ok [], ready)
unfolding read_events read_rows
no_events = refl

insert_events-half_roll_example :
    (t : Session) × (insert_events reading 1 (opening_event ∷ roll_with none ∷ []) ready
      ≡ (err value_error, t))
insert_events-half_roll_example =
    insert_events-half_roll reading 1 (opening_event ∷ roll_with none ∷ []) ready ("dek", 1)
      key_reads refl (refl, (refl, tt)) refl

insert_events-read_example :
    let es = opening_event ∷ roll_with (some one) ∷ [] in
    (recs : List EventRecord) × (t : Session) × (rows : List Event) × (insert_events reading 1 es
        ready
      ≡ (ok tt, t))
    × (t.db ≡ record event_db { events = rows })
    × (t.setting ≡ user 1)
    × (read_events reading 1 t ≡ (ok recs, t))
    × Pairs (Kept 1 1) es recs
    × Drawn reading 0 t.draws (record_ids recs)
insert_events-read_example =
    insert_events-read reading 1 (opening_event ∷ roll_with (some one) ∷ []) ready ("dek", 1) []
      reading-Decrypts key_reads key_found refl (refl, (refl, tt)) refl
      ((refl, tt), ((refl, refl), tt)) no_events
