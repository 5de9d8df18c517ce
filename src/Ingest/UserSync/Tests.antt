-- ===== src/Ingest/UserSync/Tests.antt =====
-- A user with a connection and three runs.
use morai_trading_dashboard.Ingest.Runs.Newest.{record_sync_run-listed, run_record, accepts_run}
use morai_trading_dashboard.Identity.Rls.{Role, Catalogue}
use morai_trading_dashboard.Fixtures.{run_db}
use morai_trading_dashboard.Ingest.Worker.{sync_user_task, run_sync_user}
use morai_trading_dashboard.Ingest.Windows.{default_settings, sync_windows}
use morai_trading_dashboard.Vendor.Client.{plain_vendor, Vendor}
use morai_trading_dashboard.Ingest.Extract.{Transaction, extract_fills, direction}
use morai_trading_dashboard.Prelude.Int.{pos}
use morai_trading_dashboard.Ingest.UserSync.Totals.{sync_user-landed}
use morai_trading_dashboard.Ingest.UserSync.{sync_user, SyncOutcome, sync_all_windows, window_rows}
use morai_trading_dashboard.Ingest.Runs.{
  unknown_error, run_row, failed, record_sync_run, RunOutcome, SyncRunRecord, read_status, read_run,
  read_runs, manual, read_trigger, read_sync_runs,
}
use morai_trading_dashboard.Ingest.Worker.Recorded.{sync_user_task-records, Recorded}
use morai_trading_dashboard.Vendor.Connections.{read_connection, dek_for_version}
use morai_trading_dashboard.Crypto.{unwrap_dek, decrypt_field, encrypt_field}
use morai_trading_dashboard.Ingest.BrokerTransactions.{insert_broker_transactions}
use morai_trading_dashboard.Ledger.Keys.{current_dek}
use morai_trading_dashboard.Ledger.Fills.{insert_fills}
use morai_trading_dashboard.Prelude.{
  true, some, none, length, ◌+◌, Uuid, [], ◌∷◌, days, false, List, ◌≡◌, refl, nat_eq, text_eq, ok,
}
use morai_trading_dashboard.Outside.{plain_outside}
use morai_trading_dashboard.Db.Session.{null, user, Session}

abbrev ready : Session
ready = record { db = run_db; committed = run_db; setting = user 1; admin = false; draws = 0 }

latest : (recs : List SyncRunRecord) × (read_sync_runs 1 2 ready ≡ (ok recs, ready))
unfolding read_sync_runs read_runs read_run read_trigger read_status
latest = (_, refl)

by_hand : read_trigger "manual" ≡ ok manual
unfolding read_trigger
by_hand = refl

abbrev confined_role : Role
confined_role = record {
  rolname = "morai_app";
  rolsuper = false;
  rolbypassrls = false;
  rolcanlogin = true;
}

abbrev app_catalogue : Catalogue
app_catalogue = record { pg_roles = confined_role ∷ []; current_user = "morai_app" }

sync_user_task-records_example :
    Recorded 1
      (days 400)
      (days 401)
      manual
      ready
      (run_sync_user plain_outside
        (ok plain_vendor)
        default_settings
        (ok 1)
        (days 400)
        (record { db = run_db; committed = run_db; setting = null; admin = false; draws = 0 })).0
      (sync_user_task plain_outside
        (ok plain_vendor)
        default_settings
        app_catalogue
        (ok 1)
        "manual"
        (days 400)
        (days 401)
        ready)
sync_user_task-records_example =
    sync_user_task-records plain_outside (ok plain_vendor) default_settings 1 "manual" (days 400)
      (days 401) ready manual app_catalogue confined_role by_hand refl refl refl

abbrev new_run : RunOutcome
new_run = record {
  started_at = 40;
  finished_at = 45;
  trigger = manual;
  status = failed;
  fills_landed = none;
  broker_transactions_landed = none;
  error_code = some unknown_error;
}

record_sync_run-listed_example :
    (t : Session) × (id : Uuid) × (record_sync_run plain_outside 1 new_run ready ≡ (ok tt, t))
    × (accepts_run (run_row id 1 new_run) ≡ true)
    × (read_sync_runs 1 3 t ≡ (ok (run_record id 1 new_run ∷ latest.0), t))
record_sync_run-listed_example =
    record_sync_run-listed plain_outside 1 new_run 2 ready latest.0 refl refl refl latest.1

-- A vendor that answers every request with the same trade of one option.
abbrev bought : Transaction
bought = record {
  activity_id = "77";
  type = "TRADE";
  time = 5;
  order_id = some "a";
  transfer_items =
      (record {
        instrument = some (record { symbol = some "SPX 1"; asset_type = some "OPTION" });
        amount = some (record { coefficient = pos 2; exponent = pos 0 });
        price = none;
        cost = none;
        position_effect = some "OPENING";
      })
      ∷ [];
}

abbrev busy_vendor : Vendor
busy_vendor = record plain_vendor {
  json_list = λ t. some ("raw" ∷ []);
  read_transactions = λ ts. some (bought ∷ []);
}

-- The trade of seven windows lands once.
abbrev once : SyncOutcome
once = record { broker_transactions_landed = 1; fills_landed = 1; skip_reasons = [] }

busy :
    (t : Session) × (sync_user plain_outside busy_vendor default_settings 1 (days 400) ready
      ≡ (ok once, t))
unfolding sync_user read_connection dek_for_version unwrap_dek decrypt_field sync_windows
    sync_all_windows window_rows insert_broker_transactions current_dek encrypt_field insert_fills
    extract_fills direction
busy = (_, refl)

sync_user-landed_example :
    (length busy.0.db.fills ≡ length run_db.fills + 1)
    × (length busy.0.db.broker_transactions ≡ length run_db.broker_transactions + 1)
sync_user-landed_example =
    sync_user-landed plain_outside busy_vendor default_settings 1 (days 400) once ready busy.0
      busy.1
