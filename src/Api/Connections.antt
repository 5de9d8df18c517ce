-- ===== src/Api/Connections.antt =====
-- The routes of the broker connection (src/morai/api/routes_connections.py). A request sees one time.
pub mod Cooldown
pub mod Callback
use morai_trading_dashboard.Vendor.Connections.{upsert_connection, read_connection}
use morai_trading_dashboard.Identity.Tokens.{oauth_state, consume_token, issue_token}
use morai_trading_dashboard.Vendor.Client.{Vendor}
use morai_trading_dashboard.Identity.Sessions.{get_current_user}
use morai_trading_dashboard.Ingest.Runs.{
  sync_error_text, status_text, read_sync_runs, trigger_text, SyncRunRecord,
}
use morai_trading_dashboard.Vendor.Health.{derive_connection_health, ConnectionHealth}
use morai_trading_dashboard.Prelude.{
  or_raise, ltb, http_exception, minutes, ℕ, zero, suc, ◌+◌, ◌≤◌, ◌<◌, String, Bool, true, false,
  ◌&&◌, ◌||◌, not, Option, none, some, List, [], ◌∷◌, ◌++◌, map, ◌≡◌, refl, sym, ap, ◌∙◌, ◌⊎◌, inl,
  inr, arith, if◌then◌else◌, Eq, ◌==◌, nat_eq, text_eq, Result, ok, err, Instant, Duration, Uuid,
  keep, any, length, Bool-cases, Option-cases, Result-cases, beq_refl,
}
use morai_trading_dashboard.Outside.{Outside}
use morai_trading_dashboard.Db.{Database, User, LoginSession, SetupToken, AuditLog, Position, Bytes}
use morai_trading_dashboard.Db.Session.{
  Session, bind-ok, bind-err, Action, ◌>>=◌, ◌>>◌, pure, raise, lift, query, execute, raise_when,
  commit, rollback, set_user, set_admin, permits, permits_user, get_session, draw,
  require_rls_context, Setting,
}

abbrev pub oauth_state_ttl : Duration
oauth_state_ttl = minutes 15

abbrev pub sync_runs_limit : ℕ
sync_runs_limit = 50

-- `schwab_sync_cooldown_seconds`
abbrev pub default_cooldown : Duration
default_cooldown = minutes 1

-- The authorize URL.
unfoldable pub connect : Outside → Vendor → Instant → Option String → Action String
connect o v now cookie = do
  caller ← get_current_user o now cookie
  raw_state ← issue_token o now caller.user_id oauth_state oauth_state_ttl
  commit
  pure (v.build_authorize_url raw_state)

-- `len(account_entries) != 1`
abbrev pub only_account : List String → Result String
only_account [] = err (http_exception 409)
only_account (hash ∷ []) = ok hash
only_account (a ∷ b ∷ r) = err (http_exception 409)

unfoldable pub callback : Outside → Vendor → Instant → String → String → Action (Unit {0})
callback o v now url state = do
  consumed ← consume_token o now state oauth_state
  user_id ← lift (or_raise consumed (http_exception 400))
  set_user user_id
  context ← require_rls_context
  exchanged ← lift (v.exchange_callback url state)
  accounts ← lift (v.get_account_numbers exchanged)
  account_hash ← lift (only_account accounts)
  upsert_connection o user_id exchanged account_hash
  commit

pub record ConnectionResponse : Type 0 where
  pub health : ConnectionHealth
  pub expires_at : Instant
  pub last_synced_at : Option Instant
  pub reauth_notified_at : Option Instant

unfoldable pub connection : Outside → Instant → Option String → Action ConnectionResponse
connection o now cookie = do
  caller ← get_current_user o now cookie
  found ← read_connection o caller.user_id
  c ← lift (or_raise found (http_exception 404))
  let derived = derive_connection_health c.token_created_at now
  pure (record {
    health = derived.0;
    expires_at = derived.1;
    last_synced_at = c.last_synced_at;
    reauth_notified_at = c.reauth_notified_at;
  })

-- `now - recent[0].started_at < cooldown`, of the first record if there is one.
abbrev pub cooling : Instant → Duration → List SyncRunRecord → Bool
cooling now cooldown [] = false
cooling now cooldown (r ∷ rest) = ltb now (r.started_at + cooldown)

-- The user whose job is deferred.
unfoldable pub sync : Outside → Duration → Instant → Option String → Action Uuid
sync o cooldown now cookie = do
  caller ← get_current_user o now cookie
  found ← read_connection o caller.user_id
  c ← lift (or_raise found (http_exception 404))
  recent ← read_sync_runs caller.user_id 1
  raise_when (cooling now cooldown recent) (http_exception 429)
  pure caller.user_id

pub record SyncRunResponse : Type 0 where
  pub started_at : Instant
  pub finished_at : Instant
  pub trigger : String
  pub status : String
  pub fills_landed : Option ℕ
  pub broker_transactions_landed : Option ℕ
  pub error_code : Option String

abbrev pub run_response : SyncRunRecord → SyncRunResponse
run_response r = record {
  started_at = r.started_at;
  finished_at = r.finished_at;
  trigger = trigger_text r.trigger;
  status = status_text r.status;
  fills_landed = r.fills_landed;
  broker_transactions_landed = r.broker_transactions_landed;
  error_code = elim r.error_code [ none ↦ none | some e ↦ some (sync_error_text e) ];
}

unfoldable pub sync_runs : Outside → Instant → Option String → Action (List SyncRunResponse)
sync_runs o now cookie = do
  caller ← get_current_user o now cookie
  records ← read_sync_runs caller.user_id sync_runs_limit
  pure (map run_response records)
