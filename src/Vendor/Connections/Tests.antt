-- ===== src/Vendor/Connections/Tests.antt =====
-- A user who connects again.
use morai_trading_dashboard.Vendor.Connections.Refresh.{save_token-read, refreshed}
use morai_trading_dashboard.Prelude.Int.{pos}
use morai_trading_dashboard.Fixtures.{stored_connection, run_db}
use morai_trading_dashboard.Vendor.Connections.Roundtrip.{upsert_connection-read, connected}
use morai_trading_dashboard.Crypto.{unwrap_dek}
use morai_trading_dashboard.Ledger.Keys.{current_dek}
use morai_trading_dashboard.Vendor.Connections.{
  save_token, read_connection, dek_for_version, upsert_connection,
}
use morai_trading_dashboard.Vendor.Client.{plain_vendor, WrappedToken, TokenHolder, ExchangedToken}
use morai_trading_dashboard.Prelude.{true, false, some, ◌≡◌, refl, nat_eq, text_eq, ok}
use morai_trading_dashboard.Outside.{plain_outside, Decrypts}
use morai_trading_dashboard.Db.Session.{user, Session}

abbrev ready : Session
ready = record { db = run_db; committed = run_db; setting = user 1; admin = false; draws = 0 }

plain-Decrypts : Decrypts plain_outside
plain-Decrypts key n plaintext aad = refl

key_reads : current_dek plain_outside 1 ready ≡ (ok ("dek", 1), ready)
unfolding current_dek unwrap_dek
key_reads = refl

key_found : dek_for_version plain_outside 1 1 ready ≡ (ok "dek", ready)
unfolding dek_for_version unwrap_dek
key_found = refl

abbrev fresh_token : ExchangedToken
fresh_token = record { token = "new"; created_at = 77 }

upsert_connection-read_example :
    (t : Session) × (upsert_connection plain_outside 1 fresh_token "other" ready ≡ (ok tt, t))
    × (read_connection plain_outside 1 t
        ≡ (ok (some (connected 1 fresh_token "other" 1 (some stored_connection))), t))
upsert_connection-read_example =
    upsert_connection-read plain_outside 1 fresh_token "other" ready ("dek", 1)
      (some stored_connection) plain-Decrypts key_reads key_found refl refl refl

abbrev written : TokenHolder
written = record { token = "renewed"; wrote = true }

abbrev renewed : WrappedToken
renewed = record { creation_timestamp = pos 0; token = "renewed" }

save_token-read_example :
    (t : Session) × (save_token plain_outside plain_vendor 1 written true ready ≡ (ok tt, t))
    × (read_connection plain_outside 1 t
        ≡ (refreshed 1 stored_connection renewed 1 (some "hash"), t))
save_token-read_example =
    save_token-read plain_outside plain_vendor 1 written renewed stored_connection ready ("dek", 1)
      (some "hash") plain-Decrypts refl key_reads key_found refl refl
