-- ===== src/Ingest/BrokerTransactions.antt =====
-- The raw broker transactions (src/morai/ingest/broker_transactions.py). A JSON value stands for its text.
use morai_trading_dashboard.Crypto.{encrypt_field}
use morai_trading_dashboard.Ledger.Keys.{current_dek}
use morai_trading_dashboard.Prelude.{
  insufficient_privilege, drop, int_text, take, ◌<>◌, ℕ, zero, suc, ◌+◌, String, Bool, ◌&&◌, not,
  Option, List, [], ◌∷◌, ◌++◌, if◌then◌else◌, ◌==◌, nat_eq, text_eq, Instant, Uuid, any, length,
}
use morai_trading_dashboard.Outside.{Outside}
use morai_trading_dashboard.Db.{BrokerTransaction, Bytes}
use morai_trading_dashboard.Db.Session.{
  Action, ◌>>=◌, ◌>>◌, pure, query, execute, raise_when, permits, get_session,
}

pub record BrokerTransactionWrite : Type 0 where
  pub activity_id : String
  pub transaction_type : String
  pub transaction_time : Instant
  pub order_id : Option String
  pub raw_payload : String

unfoldable pub broker_transaction_associated_data : String → Uuid → String → Bytes
broker_transaction_associated_data column user_id activity_id =
    "broker_transactions:" <> column <> ":" <> int_text user_id <> ":" <> activity_id

abbrev pub seal_transaction :
    Outside → Bytes → ℕ → Uuid → BrokerTransactionWrite → Action BrokerTransaction
seal_transaction o dek key_version user_id w = do
  (raw_ciphertext, raw_nonce) ←
      encrypt_field o w.raw_payload dek
        (broker_transaction_associated_data "raw_ciphertext" user_id w.activity_id)
  pure (record {
    user_id = user_id;
    activity_id = w.activity_id;
    transaction_type = w.transaction_type;
    transaction_time = w.transaction_time;
    order_id = w.order_id;
    raw_ciphertext = raw_ciphertext;
    raw_nonce = raw_nonce;
    key_version = key_version;
  })

unfoldable pub seal_transactions :
    Outside → Bytes → ℕ → Uuid → List BrokerTransactionWrite → Action (List BrokerTransaction)
seal_transactions o dek key_version user_id [] = pure []
seal_transactions o dek key_version user_id (w ∷ ws) = do
  row ← seal_transaction o dek key_version user_id w
  rest ← seal_transactions o dek key_version user_id ws
  pure (row ∷ rest)

abbrev same_transaction : BrokerTransaction → BrokerTransaction → Bool
same_transaction a b = a.user_id == b.user_id && a.activity_id == b.activity_id

-- `ON CONFLICT DO NOTHING`, row by row: the rows that land.
pub landed_transactions : List BrokerTransaction → List BrokerTransaction → List BrokerTransaction
landed_transactions table [] = []
landed_transactions table (row ∷ rows) =
    let skipped = landed_transactions table rows in
    let kept = row ∷ landed_transactions (row ∷ table) rows in
    if any (same_transaction row) table then skipped else kept

abbrev pub insert_transaction_chunk : Uuid → List BrokerTransaction → Action ℕ
insert_transaction_chunk user_id rows = do
  s ← get_session
  new_rows ← query (λ db. landed_transactions db.broker_transactions rows)
  raise_when (not (permits s user_id)) insufficient_privilege
  execute (λ db. record db { broker_transactions = db.broker_transactions ++ new_rows })
  pure (length new_rows)

abbrev pub transaction_chunk_size : ℕ
transaction_chunk_size = 2000

-- The loop over the chunks, with fuel as in `insert_chunks` of the fills.
unfoldable pub insert_transaction_chunks :
    ℕ → Outside → Bytes → ℕ → Uuid → List BrokerTransactionWrite → Action ℕ
unfolding seal_transactions landed_transactions
insert_transaction_chunks fuel o dek key_version user_id [] = pure 0
insert_transaction_chunks zero o dek key_version user_id (w ∷ ws) = pure 0
insert_transaction_chunks (suc fuel) o dek key_version user_id (w ∷ ws) = do
  rows ← seal_transactions o dek key_version user_id (take transaction_chunk_size (w ∷ ws))
  landed ← insert_transaction_chunk user_id rows
  later ←
      insert_transaction_chunks fuel o dek key_version user_id
        (drop transaction_chunk_size (w ∷ ws))
  pure (landed + later)

unfoldable pub insert_broker_transactions : Outside → Uuid → List BrokerTransactionWrite → Action ℕ
unfolding insert_transaction_chunks
insert_broker_transactions o user_id [] = pure 0
insert_broker_transactions o user_id (w ∷ ws) = do
  (dek, key_version) ← current_dek o user_id
  insert_transaction_chunks (length (w ∷ ws)) o dek key_version user_id (w ∷ ws)
