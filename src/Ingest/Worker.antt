-- ===== src/Ingest/Worker.antt =====
-- `sync_user_task` (src/morai/worker/app.py): a sync, and the record of its run either way.
pub mod Recorded
pub mod Guarded
use morai_trading_dashboard.Identity.Rls.{assert_connection_cannot_bypass_rls, Catalogue}
use morai_trading_dashboard.Vendor.Connections.{update_connection}
use morai_trading_dashboard.Ingest.UserSync.{sync_user, SyncOutcome}
use morai_trading_dashboard.Ingest.Windows.{SyncSettings}
use morai_trading_dashboard.Ingest.Runs.{
  scheduled, manual, trigger_text, classify_sync_error, succeeded, failed, RunOutcome,
  record_sync_run, read_trigger, SyncTrigger,
}
use morai_trading_dashboard.Vendor.Client.{Vendor}
use morai_trading_dashboard.Prelude.{
  runtime_error, Error, ℕ, zero, suc, ◌+◌, ◌≤◌, ◌<◌, String, Bool, true, false, ◌&&◌, ◌||◌, not,
  Option, none, some, List, [], ◌∷◌, ◌++◌, map, ◌≡◌, refl, sym, ap, ◌∙◌, ◌⊎◌, inl, inr, arith,
  if◌then◌else◌, Eq, ◌==◌, nat_eq, text_eq, Result, ok, err, Instant, Duration, Uuid, keep, any,
  length, Bool-cases, Option-cases, Result-cases, beq_refl,
}
use morai_trading_dashboard.Outside.{Outside}
use morai_trading_dashboard.Db.{Database, User, LoginSession, SetupToken, AuditLog, Position, Bytes}
use morai_trading_dashboard.Db.Session.{
  open_session, null, Session, bind-ok, bind-err, Action, ◌>>=◌, ◌>>◌, pure, raise, lift, query,
  execute, raise_when, commit, rollback, set_user, set_admin, permits, permits_user, get_session,
  draw, require_rls_context, Setting,
}

abbrev pub failed_run : Instant → Instant → SyncTrigger → Error → RunOutcome
failed_run started_at finished_at trigger e = record {
  started_at = started_at;
  finished_at = finished_at;
  trigger = trigger;
  status = failed;
  fills_landed = none;
  broker_transactions_landed = none;
  error_code = some (classify_sync_error e);
}

abbrev pub succeeded_run : Instant → Instant → SyncTrigger → SyncOutcome → RunOutcome
succeeded_run started_at finished_at trigger outcome = record {
  started_at = started_at;
  finished_at = finished_at;
  trigger = trigger;
  status = succeeded;
  fills_landed = some outcome.fills_landed;
  broker_transactions_landed = some outcome.broker_transactions_landed;
  error_code = none;
}

-- The branch `except Exception as exc`: a second session records the failed run. `parsed` is what `UUID(user_id)`
-- gives; where it raises, it does so after the context was set, which nothing reads then.
abbrev pub after_failure :
    Outside → Result Uuid → Instant → Instant → SyncTrigger → Error → Action (Unit {0})
after_failure o parsed started_at finished_at trigger e = do
  rollback
  open_session
  user_id ← lift parsed
  set_user user_id
  record_sync_run o user_id (failed_run started_at finished_at trigger e)
  commit
  raise e

abbrev pub after_success :
    Outside → Result Uuid → Instant → Instant → SyncTrigger → SyncOutcome → Action (Unit {0})
after_success o parsed started_at finished_at trigger outcome = do
  user_id ← lift parsed
  record_sync_run o user_id (succeeded_run started_at finished_at trigger outcome)
  update_connection user_id (λ c. record c { last_synced_at = some started_at })
  commit

-- `try` and `except` around the sync.
abbrev pub finish_run :
    Outside
    → Result Uuid
    → Instant
    → Instant
    → SyncTrigger
    → Result SyncOutcome × Session
    → Result (Unit {0}) × Session
finish_run o parsed started_at finished_at trigger (ok outcome, s) =
    after_success o parsed started_at finished_at trigger outcome s
finish_run o parsed started_at finished_at trigger (err e, s) =
    after_failure o parsed started_at finished_at trigger e s

-- `run_sync_user(session, UUID(user_id), auth=get_schwab_auth(), now=started_at)`, inside the `try`: the id may be
-- malformed, and `get_schwab_auth` may find no credentials.
abbrev pub run_sync_user :
    Outside → Result Vendor → SyncSettings → Result Uuid → Instant → Action SyncOutcome
run_sync_user o auth settings parsed started_at = do
  user_id ← lift parsed
  v ← lift auth
  sync_user o v settings user_id started_at

-- `auth` is what `get_schwab_auth()` gives, `parsed` what `UUID(user_id)` gives, and `catalogue` what the server tells of the roles and of the connection's user.
unfoldable pub sync_user_task :
    Outside
    → Result Vendor
    → SyncSettings
    → Catalogue
    → Result Uuid
    → String
    → Instant
    → Instant
    → Action (Unit {0})
sync_user_task o auth settings catalogue parsed trigger started_at finished_at = do
  sync_trigger ← lift (read_trigger trigger)
  open_session
  assert_connection_cannot_bypass_rls catalogue
  λ s.
      finish_run o parsed started_at finished_at sync_trigger
        (run_sync_user o auth settings parsed started_at s)

-- `sync_all_connected_users`: the users whose job is deferred, on a session that no policy confines.
unfoldable pub sync_all_connected_users : Action (List Uuid)
sync_all_connected_users = query (λ db. map (λ c. c.user_id) db.schwab_connections)

-- A deferred call of `sync_user_task`.
pub record SyncJob : Type 0 where
  pub user_id : Uuid
  pub trigger : String

-- `trigger` of a job that is deferred without one is the default of the task.
abbrev pub scheduled_job : Uuid → SyncJob
scheduled_job user_id = record { user_id = user_id; trigger = trigger_text scheduled }

-- The jobs that a tick defers.
unfoldable pub sync_all_connected_users_task : Action (List SyncJob)
sync_all_connected_users_task = do
  open_session
  user_ids ← sync_all_connected_users
  commit
  pure (map scheduled_job user_ids)

-- `defer_manual_sync` of src/morai/api/job_queue.py.
abbrev pub defer_manual_sync : Uuid → SyncJob
defer_manual_sync user_id = record { user_id = user_id; trigger = trigger_text manual }
