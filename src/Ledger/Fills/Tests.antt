-- ===== src/Ledger/Fills/Tests.antt =====
-- Two writes of one fill, and one of another, by a user with a data key.
use morai_trading_dashboard.Ledger.Fills.Roundtrip.{insert_fills-read}
use morai_trading_dashboard.Ledger.Columns.{decrypt_decimal}
use morai_trading_dashboard.Ledger.Fills.Reads.{record_of, holds_key, landed_writes}
use morai_trading_dashboard.Ledger.Reading.{cached, read_rows, fetch_dek}
use morai_trading_dashboard.Ledger.Fills.Again.{insert_fills-again}
use morai_trading_dashboard.Prelude.{
  map, ◌++◌, false, ℕ, ◌+◌, ◌≡◌, String, true, none, some, List, [], ◌∷◌, refl, ok, length, All,
}
use morai_trading_dashboard.Prelude.Int.{pos}
use morai_trading_dashboard.Outside.{Decrypts, Outside, plain_outside}
use morai_trading_dashboard.Db.{Fill, Database}
use morai_trading_dashboard.Db.Session.{Session, user}
use morai_trading_dashboard.Crypto.{decrypt_field, unwrap_dek}
use morai_trading_dashboard.Ledger.Records.{FillRecord, FillWrite}
use morai_trading_dashboard.Ledger.Keys.{current_dek}
use morai_trading_dashboard.Ledger.Fills.{open_fill, read_fills, write_key, insert_fills}
use morai_trading_dashboard.Ledger.Fills.Landing.{insert_fills-land, stores}

abbrev write_of : String → FillWrite
write_of order_id = record {
  order_id = order_id;
  occ_symbol = "SPX1";
  leg_index = 0;
  execution_time = 10;
  position_effect = "OPENING";
  side = "BUY";
  quantity = some (record { coefficient = pos 1; exponent = pos 0 });
  price_usd = none;
}

abbrev writes : List FillWrite
writes = write_of "a" ∷ write_of "a" ∷ write_of "b" ∷ []

abbrev keyed_db : Database
keyed_db = record {
  users = [];
  sessions = [];
  setup_tokens = [];
  audit_log = [];
  user_data_keys =
      (record { user_id = 1; key_version = 1; wrapped_dek = "dek"; wrap_nonce = "n" }) ∷ [];
  fills = [];
  positions = [];
  legs = [];
  events = [];
  schwab_connections = [];
  broker_transactions = [];
  sync_runs = [];
}

abbrev keyed : Session
keyed = record { db = keyed_db; committed = keyed_db; setting = user 1; admin = false; draws = 0 }

key_reads : current_dek plain_outside 1 keyed ≡ (ok ("dek", 1), keyed)
unfolding current_dek unwrap_dek
key_reads = refl

insert_fills-land_example :
    (n : ℕ) × (t : Session) × (insert_fills plain_outside 1 writes keyed ≡ (ok n, t))
    × (length t.db.fills ≡ 0 + n)
    × All (λ f. stores 1 t.db.fills f ≡ true) writes
    × ((f : FillWrite) → stores 1 [] f ≡ true → stores 1 t.db.fills f ≡ true)
insert_fills-land_example = insert_fills-land plain_outside 1 writes keyed ("dek", 1) key_reads refl

abbrev stored_row : Fill
stored_row = record {
  user_id = 1;
  key = write_key (write_of "a");
  position_effect = "OPENING";
  side = "BUY";
  quantity_ciphertext = some "1";
  quantity_nonce = some "nonce";
  price_usd_ciphertext = none;
  price_usd_nonce = none;
  key_version = 1;
}

abbrev holding : Session
holding = record keyed { db = record keyed_db { fills = stored_row ∷ [] } }

key_reads_later : current_dek plain_outside 1 holding ≡ (ok ("dek", 1), holding)
unfolding current_dek unwrap_dek
key_reads_later = refl

insert_fills-again_example :
    (t : Session) × (insert_fills plain_outside 1 (write_of "a" ∷ []) holding ≡ (ok 0, t))
    × (t.db.fills ≡ stored_row ∷ [])
insert_fills-again_example =
    insert_fills-again plain_outside 1 (write_of "a" ∷ []) holding ("dek", 1) key_reads_later refl
      (refl, tt)

-- Each text is read as the decimal 1.
abbrev reading : Outside
reading = record plain_outside {
  read_decimal = λ t. some (record { coefficient = pos 1; exponent = pos 0 });
}

reading-Decrypts : Decrypts reading
reading-Decrypts key n plaintext aad = refl

abbrev held : List FillRecord
held = record_of 1 1 (write_of "a") ∷ []

key_reads_there : current_dek reading 1 holding ≡ (ok ("dek", 1), holding)
unfolding current_dek unwrap_dek
key_reads_there = refl

key_found : fetch_dek reading holding 1 1 ≡ ok "dek"
unfolding fetch_dek unwrap_dek
key_found = refl

reads_held : read_fills reading 1 holding ≡ (ok held, holding)
unfolding read_fills read_rows fetch_dek unwrap_dek open_fill decrypt_decimal decrypt_field cached
reads_held = refl

insert_fills-read_example :
    (n : ℕ) × (t : Session) × (insert_fills reading 1 writes holding ≡ (ok n, t))
    × (read_fills reading 1 t ≡ (
      ok (held ++ map (record_of 1 1) (landed_writes (holds_key 1 (stored_row ∷ [])) writes)),
      t,
    ))
insert_fills-read_example =
    insert_fills-read reading 1 writes holding ("dek", 1) held reading-Decrypts key_reads_there
      key_found refl ((refl, tt), ((refl, tt), ((refl, tt), tt))) reads_held

new_writes : landed_writes (holds_key 1 (stored_row ∷ [])) writes ≡ write_of "b" ∷ []
unfolding landed_writes
new_writes = refl
