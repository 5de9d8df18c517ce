-- ===== src/Ingest/Runs/Newest.antt =====
-- A recorded run, as the database checks it and as the next read lists it (src/morai/ingest/sync_runs.py).
use morai_trading_dashboard.Ingest.Runs.{
  scheduled, manual, succeeded, failed, no_connection, vendor_auth_failed, vendor_rate_limited,
  vendor_payload_unparseable, unknown_error, sync_error_text, later_first, read_error_code,
  status_text, read_runs, trigger_text, SyncTrigger, read_sync_runs, SyncStatus, run_row, own_runs,
  SyncError, SyncRunRecord, read_sync_error, record_sync_run, read_run, RunOutcome, read_trigger,
  read_status,
}
use morai_trading_dashboard.Prelude.{
  take, insert_sorted, sorted, keep-append, ltb, ℕ, suc, Bool, true, false, ◌&&◌, ◌||◌, not, Option,
  none, some, List, [], ◌∷◌, ◌++◌, ◌≡◌, refl, ap, ◌∙◌, arith, ◌==◌, nat_eq, text_eq, ok, Uuid, any,
  beq_refl,
}
use morai_trading_dashboard.Outside.{Outside}
use morai_trading_dashboard.Db.{SyncRun, User}
use morai_trading_dashboard.Db.Session.{Session, permits}

-- The CHECK constraints of `sync_runs` (alembic/versions/0012_sync_runs.py).
pub accepts_run : SyncRun → Bool
accepts_run row =
    (row.trigger == "scheduled" || row.trigger == "manual")
    && (row.status == "succeeded" || row.status == "failed")

-- The record of a run.
abbrev pub run_record : Uuid → Uuid → RunOutcome → SyncRunRecord
run_record id user_id run = record {
  id = id;
  user_id = user_id;
  started_at = run.started_at;
  finished_at = run.finished_at;
  trigger = run.trigger;
  status = run.status;
  fills_landed = run.fills_landed;
  broker_transactions_landed = run.broker_transactions_landed;
  error_code = run.error_code;
}

known_trigger :
    (t : SyncTrigger) → (trigger_text t == "scheduled" || trigger_text t == "manual") ≡ true
known_trigger scheduled = refl
known_trigger manual = refl

known_status : (t : SyncStatus) → (status_text t == "succeeded" || status_text t == "failed") ≡ true
known_status succeeded = refl
known_status failed = refl

accepts_run-run_row :
    (id user_id : Uuid) (run : RunOutcome) → accepts_run (run_row id user_id run) ≡ true
unfolding accepts_run
accepts_run-run_row id user_id run = rw (known_trigger run.trigger, known_status run.status) refl

read_trigger-text : (t : SyncTrigger) → read_trigger (trigger_text t) ≡ ok t
unfolding read_trigger
read_trigger-text scheduled = refl
read_trigger-text manual = refl

read_status-text : (t : SyncStatus) → read_status (status_text t) ≡ ok t
unfolding read_status
read_status-text succeeded = refl
read_status-text failed = refl

read_error_code-text :
    (e : Option SyncError)
    → read_error_code (elim e [ none ↦ none | some x ↦ some (sync_error_text x) ]) ≡ ok e
unfolding read_sync_error
read_error_code-text none = refl
read_error_code-text (some no_connection) = refl
read_error_code-text (some vendor_auth_failed) = refl
read_error_code-text (some vendor_rate_limited) = refl
read_error_code-text (some vendor_payload_unparseable) = refl
read_error_code-text (some unknown_error) = refl

read_run-run_row :
    (id user_id : Uuid) (run : RunOutcome)
    → read_run (run_row id user_id run) ≡ ok (run_record id user_id run)
unfolding read_run
read_run-run_row id user_id run =
    rw
      (
        read_trigger-text run.trigger,
        read_status-text run.status,
        read_error_code-text run.error_code,
      )
      refl

-- A run that started later than all others is sorted before them.
sorted-later :
    (runs : List SyncRun) (new : SyncRun)
    → any (λ r. not (ltb r.started_at new.started_at)) runs ≡ false
    → sorted later_first (runs ++ new ∷ []) ≡ new ∷ sorted later_first runs
sorted-later [] new h = refl
sorted-later (r ∷ runs) new h =
    ap (insert_sorted later_first r) (sorted-later runs new (ground (arith, h))) ∙ ground (arith, h)

own_runs-append :
    (s : Session) (user_id : Uuid) (rows : List SyncRun) (row : SyncRun)
    → row.user_id ≡ user_id
    → permits s user_id ≡ true
    → own_runs s user_id (rows ++ row ∷ []) ≡ own_runs s user_id rows ++ row ∷ []
own_runs-append s user_id rows row own h =
    keep-append (λ r. permits s r.user_id && r.user_id == user_id) rows (row ∷ [])
    ∙ ap (λ tail. own_runs s user_id rows ++ tail) (ground (arith, own, h, beq_refl user_id))

-- Where the policy permits a user who exists, and the runs of the user can be read and all started before a
-- new run, recording the new run succeeds, its row satisfies the CHECK constraints of the table, and a read
-- of one run more lists the new run as it was recorded, and then the runs of before.
pub record_sync_run-listed :
    (o : Outside) (user_id : Uuid) (run : RunOutcome) (n : ℕ) (s : Session)
    (recs : List SyncRunRecord)
    → permits s user_id ≡ true
    → any (λ (x : User). x.id == user_id) s.db.users ≡ true
    → any (λ r. not (ltb r.started_at run.started_at)) (own_runs s user_id s.db.sync_runs) ≡ false
    → read_sync_runs user_id n s ≡ (ok recs, s)
    → (t : Session) × (id : Uuid) × (record_sync_run o user_id run s ≡ (ok tt, t))
      × (accepts_run (run_row id user_id run) ≡ true)
      × (read_sync_runs user_id (suc n) t ≡ (ok (run_record id user_id run ∷ recs), t))
unfolding record_sync_run read_sync_runs read_runs
record_sync_run-listed o user_id run n s recs may exists older before =
    let id = o.new_uuid s.draws in
    let row = run_row id user_id run in
    let t = record s {
      db = record s.db { sync_runs = s.db.sync_runs ++ row ∷ [] };
      draws = suc s.draws;
    } in
    let listed =
      ap (sorted later_first) (own_runs-append s user_id s.db.sync_runs row refl may)
      ∙ sorted-later (own_runs s user_id s.db.sync_runs) row older in
    (
      record s { db = record s.db { sync_runs = s.db.sync_runs ++ row ∷ [] }; draws = suc s.draws },
      id,
      rw (may, exists) refl,
      accepts_run-run_row id user_id run,
      ap (λ l. (read_runs (take (suc n) l), t)) listed
          ∙ rw (read_run-run_row id user_id run, ap (λ p. p.0) before) refl,
    )
