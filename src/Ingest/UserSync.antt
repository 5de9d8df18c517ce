-- ===== src/Ingest/UserSync.antt =====
-- `sync_user` (src/morai/ingest/schwab_sync.py): the windows of a sync, each with its request, the raw copy of
-- its transactions, and their fills.
pub mod Writes
pub mod Confined
pub mod Landed
pub mod Totals
mod Tests
use morai_trading_dashboard.Ledger.Fills.{insert_fills}
use morai_trading_dashboard.Vendor.Connections.{schwab_client_for_user, read_connection}
use morai_trading_dashboard.Ingest.Windows.{sync_windows, SyncSettings}
use morai_trading_dashboard.Ledger.Records.{FillWrite}
use morai_trading_dashboard.Ingest.Extract.{extract_fills, Transaction}
use morai_trading_dashboard.Vendor.Client.{write_token, TokenHolder, Vendor}
use morai_trading_dashboard.Ingest.BrokerTransactions.{
  insert_broker_transactions, BrokerTransactionWrite,
}
use morai_trading_dashboard.Prelude.{
  runtime_error, connection_not_found, value_error, validation_error, map_ok, or_raise, ℕ, ◌+◌,
  String, List, [], ◌∷◌, ◌++◌, nat_eq, text_eq, Result, ok, err, Instant, Uuid,
}
use morai_trading_dashboard.Outside.{Outside}
use morai_trading_dashboard.Db.Session.{Action, ◌>>=◌, ◌>>◌, pure, lift, set_user}

pub record SyncOutcome : Type 0 where
  pub broker_transactions_landed : ℕ
  pub fills_landed : ℕ
  pub skip_reasons : List String

abbrev pub no_outcome : SyncOutcome
no_outcome = record { broker_transactions_landed = 0; fills_landed = 0; skip_reasons = [] }

abbrev broker_row : String → Transaction → BrokerTransactionWrite
broker_row raw_element t = record {
  activity_id = t.activity_id;
  transaction_type = t.type;
  transaction_time = t.time;
  order_id = t.order_id;
  raw_payload = raw_element;
}

-- What the transactions of a window give.
pub record WindowRows : Type 0 where
  pub broker_rows : List BrokerTransactionWrite
  pub fill_rows : List FillWrite
  pub reasons : List String

-- `zip(raw_elements, transactions, strict=True)`
unfoldable pub window_rows : (String → String) → List String → List Transaction → Result WindowRows
window_rows repr [] [] = ok (record { broker_rows = []; fill_rows = []; reasons = [] })
window_rows repr (raw ∷ raws) (t ∷ ts) =
    let e = extract_fills repr t in
    map_ok
      (λ rest. record {
        broker_rows = broker_row raw t ∷ rest.broker_rows;
        fill_rows = e.fills ++ rest.fill_rows;
        reasons = e.skip_reasons ++ rest.reasons;
      })
      (window_rows repr raws ts)
window_rows repr _ _ = err value_error

-- The request of a window, with the token that a refresh wrote. Where a call fails, the body raises, and what
-- the holder had is never looked at.
abbrev pub request_window :
    Vendor → String → Instant × Instant → TokenHolder → Action (List String × TokenHolder)
request_window v account_hash window holder = do
  let answer = v.get_transactions holder.token account_hash window.0 window.1
  response ← lift answer.0
  raw_elements ← lift (or_raise (v.json_list response) validation_error)
  pure (raw_elements, write_token answer.1 holder)

-- The body of the loop over the windows.
abbrev pub sync_window :
    Outside
    → Vendor
    → Uuid
    → String
    → Instant × Instant
    → TokenHolder × SyncOutcome
    → Action (TokenHolder × SyncOutcome)
sync_window o v user_id account_hash window state = do
  (raw_elements, holder) ← request_window v account_hash window state.0
  transactions ← lift (or_raise (v.read_transactions raw_elements) validation_error)
  rows ← lift (window_rows v.repr raw_elements transactions)
  brokered ← insert_broker_transactions o user_id rows.broker_rows
  filled ← insert_fills o user_id rows.fill_rows
  pure (
    holder,
    record {
      broker_transactions_landed = state.1.broker_transactions_landed + brokered;
      fills_landed = state.1.fills_landed + filled;
      skip_reasons = state.1.skip_reasons ++ rows.reasons;
    },
  )

unfoldable pub sync_all_windows :
    Outside
    → Vendor
    → Uuid
    → String
    → List (Instant × Instant)
    → TokenHolder × SyncOutcome
    → Action (TokenHolder × SyncOutcome)
sync_all_windows o v user_id account_hash [] state = pure state
sync_all_windows o v user_id account_hash (window ∷ windows) state = do
  next ← sync_window o v user_id account_hash window state
  sync_all_windows o v user_id account_hash windows next

abbrev pub sync_body :
    Outside
    → Vendor
    → Uuid
    → String
    → List (Instant × Instant)
    → TokenHolder
    → Action (SyncOutcome × TokenHolder)
sync_body o v user_id account_hash windows holder = do
  state ← sync_all_windows o v user_id account_hash windows (holder, no_outcome)
  pure (state.1, state.0)

-- Where the loop of `sync_windows` would not end (with a range of zero), the model raises.
unfoldable pub sync_user : Outside → Vendor → SyncSettings → Uuid → Instant → Action SyncOutcome
sync_user o v settings user_id now = do
  set_user user_id
  found ← read_connection o user_id
  connection ← lift (or_raise found connection_not_found)
  planned ← lift (sync_windows connection.last_synced_at now settings)
  windows ← lift (or_raise planned runtime_error)
  schwab_client_for_user o v user_id (sync_body o v user_id connection.account_hash windows)
