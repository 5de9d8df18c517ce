-- ===== src/Fixtures.antt =====
-- Tables that the tests share: a user with a login session, a connection and three sync runs.
use morai_trading_dashboard.Prelude.{false, none, some, [], ◌∷◌, nat_eq, text_eq, Instant}
use morai_trading_dashboard.Db.{SchwabConnection, SyncRun, Database}

abbrev pub stored_run : Instant → SyncRun
stored_run at = record {
  id = 9;
  user_id = 1;
  started_at = at;
  finished_at = at;
  trigger = "manual";
  status = "succeeded";
  fills_landed = some 0;
  broker_transactions_landed = some 0;
  error_code = none;
}

abbrev pub stored_connection : SchwabConnection
stored_connection = record {
  user_id = 1;
  account_hash_ciphertext = "hash";
  account_hash_nonce = "n";
  token_ciphertext = "t";
  token_nonce = "n";
  key_version = 1;
  token_created_at = 5;
  last_synced_at = none;
  reauth_notified_at = none;
}

abbrev pub run_db : Database
run_db = record {
  users = (record { id = 1; username = "ada"; password_hash = none; is_admin = false }) ∷ [];
  sessions =
      (record { token_hash = "cookie"; user_id = 1; expires_at = 9_000_000_000_000_000 }) ∷ [];
  setup_tokens = [];
  audit_log = [];
  user_data_keys =
      (record { user_id = 1; key_version = 1; wrapped_dek = "dek"; wrap_nonce = "n" }) ∷ [];
  fills = [];
  positions = [];
  legs = [];
  events = [];
  schwab_connections = stored_connection ∷ [];
  broker_transactions = [];
  sync_runs = stored_run 10 ∷ stored_run 30 ∷ stored_run 20 ∷ [];
}
