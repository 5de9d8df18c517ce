-- ===== src/Ingest/Runs.antt =====
-- The record of the sync runs (src/morai/ingest/sync_runs.py).
pub mod Recent
pub mod Newest
use morai_trading_dashboard.Prelude.{connection_not_found, validation_error, http_status_error}
use morai_trading_dashboard.Prelude.{
  bind, sorted, leb, integrity_error, http_status_error, insufficient_privilege, value_error,
  map_ok, Error, take, ℕ, zero, suc, ◌+◌, ◌≤◌, ◌<◌, String, Bool, true, false, ◌&&◌, ◌||◌, not,
  Option, none, some, List, [], ◌∷◌, ◌++◌, map, ◌≡◌, refl, sym, ap, ◌∙◌, ◌⊎◌, inl, inr, arith,
  if◌then◌else◌, Eq, ◌==◌, nat_eq, text_eq, Result, ok, err, Instant, Duration, Uuid, keep, any,
  length, Bool-cases, Option-cases, Result-cases, beq_refl,
}
use morai_trading_dashboard.Outside.{Outside}
use morai_trading_dashboard.Db.{
  SyncRun, Database, User, LoginSession, SetupToken, AuditLog, Position, Bytes,
}
use morai_trading_dashboard.Db.Session.{
  Session, bind-ok, bind-err, Action, ◌>>=◌, ◌>>◌, pure, raise, lift, query, execute, raise_when,
  commit, rollback, set_user, set_admin, permits, permits_user, get_session, draw,
  require_rls_context, Setting,
}

pub data SyncTrigger : Type 0 where
  scheduled manual : SyncTrigger

pub data SyncStatus : Type 0 where
  succeeded failed : SyncStatus

pub data SyncError : Type 0 where
  no_connection vendor_auth_failed vendor_rate_limited vendor_payload_unparseable unknown_error :
      SyncError

abbrev pub trigger_text : SyncTrigger → String
trigger_text scheduled = "scheduled"
trigger_text manual = "manual"

abbrev pub status_text : SyncStatus → String
status_text succeeded = "succeeded"
status_text failed = "failed"

abbrev pub sync_error_text : SyncError → String
sync_error_text no_connection = "connection_not_found"
sync_error_text vendor_auth_failed = "vendor_auth_failed"
sync_error_text vendor_rate_limited = "vendor_rate_limited"
sync_error_text vendor_payload_unparseable = "vendor_payload_unparseable"
sync_error_text unknown_error = "unknown"

-- `SyncTrigger(value)`, and so on: a ValueError for any other text.
unfoldable pub read_trigger : String → Result SyncTrigger
read_trigger t =
    if t == "scheduled" then ok scheduled else if t == "manual" then ok manual else err value_error

unfoldable pub read_status : String → Result SyncStatus
read_status t =
    if t == "succeeded" then ok succeeded else if t == "failed" then ok failed else err value_error

unfoldable pub read_sync_error : String → Result SyncError
read_sync_error t =
    if t == "connection_not_found"
    then ok no_connection
    else if t == "vendor_auth_failed"
    then ok vendor_auth_failed
    else if t == "vendor_rate_limited"
    then ok vendor_rate_limited
    else if t == "vendor_payload_unparseable"
    then ok vendor_payload_unparseable
    else if t == "unknown"
    then ok unknown_error
    else err value_error

abbrev classify_status : ℕ → SyncError
classify_status code =
    if code == 401 || code == 403
    then vendor_auth_failed
    else if code == 429
    then vendor_rate_limited
    else unknown_error

unfoldable pub classify_sync_error : Error → SyncError
classify_sync_error connection_not_found = no_connection
classify_sync_error validation_error = vendor_payload_unparseable
classify_sync_error (http_status_error code) = classify_status code
classify_sync_error _ = unknown_error

pub record SyncRunRecord : Type 0 where
  pub id : Uuid
  pub user_id : Uuid
  pub started_at : Instant
  pub finished_at : Instant
  pub trigger : SyncTrigger
  pub status : SyncStatus
  pub fills_landed : Option ℕ
  pub broker_transactions_landed : Option ℕ
  pub error_code : Option SyncError

-- The columns of a run that its caller gives.
pub record RunOutcome : Type 0 where
  pub started_at : Instant
  pub finished_at : Instant
  pub trigger : SyncTrigger
  pub status : SyncStatus
  pub fills_landed : Option ℕ
  pub broker_transactions_landed : Option ℕ
  pub error_code : Option SyncError

abbrev pub run_row : Uuid → Uuid → RunOutcome → SyncRun
run_row id user_id run = record {
  id = id;
  user_id = user_id;
  started_at = run.started_at;
  finished_at = run.finished_at;
  trigger = trigger_text run.trigger;
  status = status_text run.status;
  fills_landed = run.fills_landed;
  broker_transactions_landed = run.broker_transactions_landed;
  error_code = elim run.error_code [ none ↦ none | some e ↦ some (sync_error_text e) ];
}

-- The policy checks the row, and then the foreign key to `users`.
unfoldable pub record_sync_run : Outside → Uuid → RunOutcome → Action (Unit {0})
record_sync_run o user_id run = do
  id ← draw o.new_uuid
  s ← get_session
  raise_when (not (permits s user_id)) insufficient_privilege
  raise_when (not (any (λ (x : User). x.id == user_id) s.db.users)) integrity_error
  execute (λ db. record db { sync_runs = db.sync_runs ++ run_row id user_id run ∷ [] })

abbrev pub read_error_code : Option String → Result (Option SyncError)
read_error_code none = ok none
read_error_code (some code) = map_ok some (read_sync_error code)

unfoldable pub read_run : SyncRun → Result SyncRunRecord
read_run row = bind (read_trigger row.trigger) (λ trigger. bind (read_status row.status) (λ status.
    map_ok
      (λ error_code. record {
        id = row.id;
        user_id = row.user_id;
        started_at = row.started_at;
        finished_at = row.finished_at;
        trigger = trigger;
        status = status;
        fills_landed = row.fills_landed;
        broker_transactions_landed = row.broker_transactions_landed;
        error_code = error_code;
      })
      (read_error_code row.error_code)))

unfoldable pub read_runs : List SyncRun → Result (List SyncRunRecord)
read_runs [] = ok []
read_runs (row ∷ rows) = bind (read_run row) (λ r. map_ok (λ rest. r ∷ rest) (read_runs rows))

-- `ORDER BY started_at DESC`
abbrev pub later_first : SyncRun → SyncRun → Bool
later_first a b = leb b.started_at a.started_at

abbrev pub own_runs : Session → Uuid → List SyncRun → List SyncRun
own_runs s user_id rows = keep (λ r. permits s r.user_id && r.user_id == user_id) rows

unfoldable pub read_sync_runs : Uuid → ℕ → Action (List SyncRunRecord)
read_sync_runs user_id limit = do
  s ← get_session
  lift (read_runs (take limit (sorted later_first (own_runs s user_id s.db.sync_runs))))
