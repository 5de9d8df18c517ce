-- ===== src/Vendor/Connections.antt =====
-- The stored broker connection of a user (src/morai/vendor/connections.py). An advisory lock is held to the
-- end of the transaction; a session alone never waits for it.
pub mod Roundtrip
pub mod Refresh
mod Tests
use morai_trading_dashboard.Ledger.Keys.{current_dek}
use morai_trading_dashboard.Crypto.{unwrap_dek, encrypt_field, decrypt_field}
use morai_trading_dashboard.Vendor.Client.{TokenHolder, Vendor, ExchangedToken}
use morai_trading_dashboard.Prelude.{
  integrity_error, insufficient_privilege, connection_not_found, connection_data_key_missing,
  validation_error, or_raise, int_text, ◌<>◌, one_or_none, ℕ, String, Bool, true, false, ◌&&◌, not,
  Option, none, some, List, [], ◌∷◌, map, if◌then◌else◌, ◌==◌, nat_eq, text_eq, Instant, Uuid, keep,
  any,
}
use morai_trading_dashboard.Outside.{Outside}
use morai_trading_dashboard.Db.{SchwabConnection, User, Bytes}
use morai_trading_dashboard.Db.Session.{
  Action, ◌>>=◌, ◌>>◌, pure, lift, query, execute, raise_when, permits, get_session,
}

pub record ConnectionRecord : Type 0 where
  pub user_id : Uuid
  pub account_hash : String
  pub token : String
  pub token_created_at : Instant
  pub last_synced_at : Option Instant
  pub reauth_notified_at : Option Instant
  pub key_version : ℕ

unfoldable pub connection_associated_data : String → Uuid → Bytes
connection_associated_data column user_id =
    "schwab_connections:" <> column <> ":" <> int_text user_id

unfoldable pub dek_for_version : Outside → Uuid → ℕ → Action Bytes
dek_for_version o user_id key_version = do
  s ← get_session
  found ← query (λ db. one_or_none (
      keep (λ k. permits s k.user_id && (k.user_id == user_id && k.key_version == key_version))
        db.user_data_keys))
  key_row ← lift found
  row ← lift (or_raise key_row connection_data_key_missing)
  lift (unwrap_dek o row.wrapped_dek row.wrap_nonce o.master_key)

-- `ON CONFLICT (user_id) DO UPDATE`: the columns of the conflicting row that `set_` names.
abbrev pub replace_connection : SchwabConnection → SchwabConnection → SchwabConnection
replace_connection new old = record old {
  account_hash_ciphertext = new.account_hash_ciphertext;
  account_hash_nonce = new.account_hash_nonce;
  token_ciphertext = new.token_ciphertext;
  token_nonce = new.token_nonce;
  key_version = new.key_version;
  token_created_at = new.token_created_at;
}

unfoldable pub put_connection : SchwabConnection → List SchwabConnection → List SchwabConnection
put_connection new [] = new ∷ []
put_connection new (c ∷ table) =
    let rest = put_connection new table in
    if c.user_id == new.user_id then replace_connection new c ∷ table else c ∷ rest

unfoldable pub upsert_connection : Outside → Uuid → ExchangedToken → String → Action (Unit {0})
upsert_connection o user_id exchanged_token account_hash = do
  (dek, key_version) ← current_dek o user_id
  (token_ciphertext, token_nonce) ←
      encrypt_field o exchanged_token.token dek
        (connection_associated_data "token_ciphertext" user_id)
  (account_hash_ciphertext, account_hash_nonce) ←
      encrypt_field o account_hash dek
        (connection_associated_data "account_hash_ciphertext" user_id)
  s ← get_session
  raise_when (not (permits s user_id)) insufficient_privilege
  raise_when (not (any (λ (x : User). x.id == user_id) s.db.users)) integrity_error
  execute (λ db. record db {
    schwab_connections =
        put_connection
          (record {
            user_id = user_id;
            account_hash_ciphertext = account_hash_ciphertext;
            account_hash_nonce = account_hash_nonce;
            token_ciphertext = token_ciphertext;
            token_nonce = token_nonce;
            key_version = key_version;
            token_created_at = exchanged_token.created_at;
            last_synced_at = none;
            reauth_notified_at = none;
          })
          db.schwab_connections;
  })

abbrev pub open_connection :
    Outside → Uuid → Option SchwabConnection → Action (Option ConnectionRecord)
open_connection o user_id none = pure none
open_connection o user_id (some row) = do
  dek ← dek_for_version o user_id row.key_version
  account_hash ← lift (
      decrypt_field o row.account_hash_ciphertext row.account_hash_nonce dek
        (connection_associated_data "account_hash_ciphertext" user_id))
  token ← lift (
      decrypt_field o row.token_ciphertext row.token_nonce dek
        (connection_associated_data "token_ciphertext" user_id))
  pure (
      some (record {
        user_id = user_id;
        account_hash = account_hash;
        token = token;
        token_created_at = row.token_created_at;
        last_synced_at = row.last_synced_at;
        reauth_notified_at = row.reauth_notified_at;
        key_version = row.key_version;
      }))

unfoldable pub read_connection : Outside → Uuid → Action (Option ConnectionRecord)
read_connection o user_id = do
  s ← get_session
  found ← query (λ db.
      one_or_none (keep (λ c. permits s c.user_id && c.user_id == user_id) db.schwab_connections))
  row ← lift found
  open_connection o user_id row

-- An UPDATE of the row of a user, as far as the policy shows it.
abbrev pub update_connection : Uuid → (SchwabConnection → SchwabConnection) → Action (Unit {0})
update_connection user_id change = do
  s ← get_session
  execute (λ db. record db {
    schwab_connections =
        map (λ c. if permits s c.user_id && c.user_id == user_id then change c else c)
          db.schwab_connections;
  })

-- `if holder.wrote`
abbrev pub save_token : Outside → Vendor → Uuid → TokenHolder → Bool → Action (Unit {0})
save_token o v user_id holder false = pure tt
save_token o v user_id holder true = do
  wrapped ← lift (or_raise (v.read_wrapped holder.token) validation_error)
  (dek, key_version) ← current_dek o user_id
  (ciphertext, token_nonce) ←
      encrypt_field o wrapped.token dek (connection_associated_data "token_ciphertext" user_id)
  update_connection user_id (λ c. record c {
    token_ciphertext = ciphertext;
    token_nonce = token_nonce;
    key_version = key_version;
  })

abbrev pub seed_holder : Vendor → ConnectionRecord → TokenHolder
seed_holder v connection = record {
  token = v.wrapped_text (record {
    creation_timestamp = v.epoch_seconds connection.token_created_at;
    token = connection.token;
  });
  wrote = false;
}

-- The body runs between the reading of the token and the saving of the one that the vendor wrote; an error
-- of the body leaves the rest out.
abbrev pub schwab_client_for_user {ℓ} :
    {A : Type ℓ} → Outside → Vendor → Uuid → (TokenHolder → Action (A × TokenHolder)) → Action A
schwab_client_for_user o v user_id body = do
  found ← read_connection o user_id
  connection ← lift (or_raise found connection_not_found)
  (result, holder) ← body (seed_holder v connection)
  save_token o v user_id holder holder.wrote
  pure result
