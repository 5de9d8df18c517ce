-- ===== src/Db.antt =====
-- The tables (src/morai/db/models.py), the state of a database session and its transaction.
-- A row has the columns that some statement of the code reads or writes; `created_at` is read by none.
pub mod Session
use morai_trading_dashboard.Prelude.{ℕ, String, Bool, Option, List, Instant, Uuid}
use morai_trading_dashboard.Ledger.Records.{FillKey}

-- Byte strings. A text stands for its own UTF-8 bytes, which determine it.
abbrev pub Bytes : Type 0
Bytes = String

pub record User : Type 0 where
  pub id : Uuid
  pub username : String
  pub password_hash : Option String
  pub is_admin : Bool

pub record LoginSession : Type 0 where
  pub token_hash : String
  pub user_id : Uuid
  pub expires_at : Instant

pub record SetupToken : Type 0 where
  pub token_hash : String
  pub user_id : Uuid
  pub purpose : String
  pub expires_at : Instant

pub record AuditLog : Type 0 where
  pub reader_id : Uuid
  pub subject_id : Uuid

pub record UserDataKey : Type 0 where
  pub user_id : Uuid
  pub key_version : ℕ
  pub wrapped_dek : Bytes
  pub wrap_nonce : Bytes

-- `key` is the primary key without the user.
pub record Fill : Type 0 where
  pub user_id : Uuid
  pub key : FillKey
  pub position_effect : String
  pub side : String
  pub quantity_ciphertext : Option Bytes
  pub quantity_nonce : Option Bytes
  pub price_usd_ciphertext : Option Bytes
  pub price_usd_nonce : Option Bytes
  pub key_version : ℕ

pub record Position : Type 0 where
  pub id : Uuid
  pub user_id : Uuid
  pub opened_at : Option Instant
  pub closed_at : Option Instant

pub record Leg : Type 0 where
  pub position_id : Uuid
  pub user_id : Uuid
  pub leg_role : String
  pub occ_symbol : String
  pub root : String

pub record SchwabConnection : Type 0 where
  pub user_id : Uuid
  pub account_hash_ciphertext : Bytes
  pub account_hash_nonce : Bytes
  pub token_ciphertext : Bytes
  pub token_nonce : Bytes
  pub key_version : ℕ
  pub token_created_at : Instant
  pub last_synced_at : Option Instant
  pub reauth_notified_at : Option Instant

pub record BrokerTransaction : Type 0 where
  pub user_id : Uuid
  pub activity_id : String
  pub transaction_type : String
  pub transaction_time : Instant
  pub order_id : Option String
  pub raw_ciphertext : Bytes
  pub raw_nonce : Bytes
  pub key_version : ℕ

pub record SyncRun : Type 0 where
  pub id : Uuid
  pub user_id : Uuid
  pub started_at : Instant
  pub finished_at : Instant
  pub trigger : String
  pub status : String
  pub fills_landed : Option ℕ
  pub broker_transactions_landed : Option ℕ
  pub error_code : Option String

pub record Event : Type 0 where
  pub id : Uuid
  pub user_id : Uuid
  pub position_id : Uuid
  pub event_type : String
  pub event_time : Instant
  pub fill_ids_hash : Option String
  pub open_debit_usd_ciphertext : Option Bytes
  pub open_debit_usd_nonce : Option Bytes
  pub close_credit_usd_ciphertext : Option Bytes
  pub close_credit_usd_nonce : Option Bytes
  pub key_version : ℕ

pub record Database : Type 0 where
  pub users : List User
  pub sessions : List LoginSession
  pub setup_tokens : List SetupToken
  pub audit_log : List AuditLog
  pub user_data_keys : List UserDataKey
  pub fills : List Fill
  pub positions : List Position
  pub legs : List Leg
  pub events : List Event
  pub schwab_connections : List SchwabConnection
  pub broker_transactions : List BrokerTransaction
  pub sync_runs : List SyncRun
