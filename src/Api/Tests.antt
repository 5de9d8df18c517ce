-- ===== src/Api/Tests.antt =====
-- A request for a sync, ten seconds after the last run started, and an hour after it.
use morai_trading_dashboard.Identity.Rls.{
  roles_named, app_role, with_app_role, create_app_role, Catalogue,
}
use morai_trading_dashboard.Api.App.{lifespan-create_app_role, lifespan}
use morai_trading_dashboard.Api.Connections.Callback.{callback-own, others}
use morai_trading_dashboard.Ledger.Keys.{current_dek}
use morai_trading_dashboard.Vendor.Client.{plain_vendor, ExchangedToken}
use morai_trading_dashboard.Identity.Tokens.{oauth_state, matches_token, consume_token}
use morai_trading_dashboard.Db.{SetupToken}
use morai_trading_dashboard.Fixtures.{run_db}
use morai_trading_dashboard.Api.Connections.Cooldown.{sync-cooldown}
use morai_trading_dashboard.Crypto.{encrypt_field, unwrap_dek, decrypt_field}
use morai_trading_dashboard.Api.Connections.{callback, default_cooldown, sync}
use morai_trading_dashboard.Ingest.Runs.{
  SyncRunRecord, read_status, read_trigger, read_run, read_runs, read_sync_runs,
}
use morai_trading_dashboard.Identity.Sessions.{AuthenticatedUser, get_current_user}
use morai_trading_dashboard.Vendor.Connections.{
  put_connection, upsert_connection, dek_for_version, read_connection, ConnectionRecord,
}
use morai_trading_dashboard.Prelude.{
  not, any, arith, true, keep, String, [], ◌∷◌, http_exception, seconds, false, none, some, List,
  ◌≡◌, refl, nat_eq, text_eq, ok, err,
}
use morai_trading_dashboard.Outside.{plain_outside}
use morai_trading_dashboard.Db.Session.{require_rls_context, null, user, Session}

abbrev asked : Session
asked = record { db = run_db; committed = run_db; setting = null; admin = false; draws = 0 }

abbrev let_in : Session
let_in = record asked { setting = user 1 }

abbrev caller : AuthenticatedUser
caller = record { user_id = 1; is_admin = false }

abbrev c : ConnectionRecord
c = record {
  user_id = 1;
  account_hash = "hash";
  token = "t";
  token_created_at = 5;
  last_synced_at = none;
  reauth_notified_at = none;
  key_version = 1;
}

is_let_in : get_current_user plain_outside (seconds 10) (some "cookie") asked ≡ (ok caller, let_in)
unfolding get_current_user
is_let_in = refl

has_connection : read_connection plain_outside 1 let_in ≡ (ok (some c), let_in)
unfolding read_connection dek_for_version decrypt_field unwrap_dek
has_connection = refl

latest : (recs : List SyncRunRecord) × (read_sync_runs 1 1 let_in ≡ (ok recs, let_in))
unfolding read_sync_runs read_runs read_run read_trigger read_status
latest = (_, refl)

sync-cooldown_example :
    (sync plain_outside default_cooldown (seconds 10) (some "cookie") asked
      ≡ (err (http_exception 429), let_in))
    × (let_in.db ≡ asked.db)
sync-cooldown_example =
    sync-cooldown plain_outside default_cooldown (seconds 10) (some "cookie") asked let_in caller c
      latest.0 is_let_in has_connection latest.1

-- A browser that comes back with its state, for a user who had a connection before.
abbrev waiting : Session
waiting = record asked {
  db = record run_db {
    setup_tokens =
        (record { token_hash = "state"; user_id = 1; purpose = "oauth_state"; expires_at = 900 })
        ∷ [];
  };
}

came_back :
    (t : Session) × (callback plain_outside plain_vendor 80 "url" "state" waiting ≡ (ok tt, t))
unfolding callback consume_token require_rls_context current_dek unwrap_dek upsert_connection
    encrypt_field put_connection
came_back = (_, refl)

callback-own_example :
    (tok : SetupToken) × (x : ExchangedToken) × (hash : String) × (keep
        (matches_token plain_outside 80 "state" oauth_state)
        waiting.db.setup_tokens
      ≡ tok ∷ [])
    × (plain_vendor.exchange_callback "url" "state" ≡ ok x)
    × (plain_vendor.get_account_numbers x ≡ ok (hash ∷ []))
    × (others tok.user_id came_back.0.committed.schwab_connections
        ≡ others tok.user_id waiting.db.schwab_connections)
callback-own_example =
    callback-own plain_outside plain_vendor 80 "url" "state" waiting came_back.0 came_back.1

abbrev server : Catalogue
server = record {
  pg_roles =
      (record { rolname = "postgres"; rolsuper = true; rolbypassrls = true; rolcanlogin = true })
      ∷ [];
  current_user = "postgres";
}

abbrev migrated : Catalogue
migrated = with_app_role server

migrates : create_app_role (some "pw") server ≡ ok migrated
unfolding create_app_role
migrates = refl

abbrev booting : Session
booting = record { db = run_db; committed = run_db; setting = null; admin = false; draws = 0 }

lifespan-create_app_role_example :
    ((lifespan (record migrated { current_user = app_role }) booting).0 ≡ ok tt)
    × (any (λ r. not r.rolcanlogin) (roles_named app_role migrated)
        ≡ any (λ r. not r.rolcanlogin) (roles_named app_role server))
lifespan-create_app_role_example =
    lifespan-create_app_role (some "pw") server migrated booting migrates (omega arith)
