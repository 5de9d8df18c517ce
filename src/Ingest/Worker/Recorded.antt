-- ===== src/Ingest/Worker/Recorded.antt =====
-- Every sync leaves the record of its run (src/morai/worker/app.py).
use morai_trading_dashboard.Identity.Rls.{
  assert-Confined, assert_connection_cannot_bypass_rls, can_bypass, roles_named, Role, Catalogue,
}
use morai_trading_dashboard.Vendor.Connections.{update_connection}
use morai_trading_dashboard.Ingest.Windows.{SyncSettings}
use morai_trading_dashboard.Vendor.Client.{Vendor}
use morai_trading_dashboard.Ingest.UserSync.{sync_user, SyncOutcome}
use morai_trading_dashboard.Ingest.Worker.{
  finish_run, run_sync_user, failed_run, succeeded_run, after_success, after_failure,
  sync_user_task,
}
use morai_trading_dashboard.Ingest.Runs.{
  read_trigger, classify_sync_error, sync_error_text, scheduled, manual, run_row, RunOutcome,
  SyncTrigger, record_sync_run,
}
use morai_trading_dashboard.Ingest.UserSync.Confined.{sync_user-Confined}
use morai_trading_dashboard.Ingest.UserSync.Writes.{Confined}
use morai_trading_dashboard.Prelude.{
  none, connection_not_found, validation_error, http_status_error, beq_sym, integrity_error,
  insufficient_privilege, All, Error, ◌≢◌, suc, String, true, false, ◌&&◌, not, some, List, [], ◌∷◌,
  ◌++◌, map, ◌≡◌, refl, ap, ◌∙◌, ◌⊎◌, inl, inr, arith, if◌then◌else◌, ◌==◌, nat_eq, text_eq, Result,
  ok, err, Instant, Uuid, any, Bool-cases, beq_refl,
}
use morai_trading_dashboard.Outside.{Outside}
use morai_trading_dashboard.Db.{SyncRun, SchwabConnection, Database, User}
use morai_trading_dashboard.Db.Session.{
  open_session, continue_with, null, user, Session, bind-ok, Action, ◌>>◌, raise, execute,
  raise_when, commit, permits,
}

-- A run of a user who exists is recorded, in the context of the user.
record_sync_run-lands :
    (o : Outside) (u : Uuid) (run : RunOutcome) (s : Session)
    → s.setting ≡ user u
    → any (λ (x : User). x.id == u) s.db.users ≡ true
    → record_sync_run o u run s ≡ (
      ok tt,
      record s {
        db = record s.db { sync_runs = s.db.sync_runs ++ run_row (o.new_uuid s.draws) u run ∷ [] };
        draws = suc s.draws;
      },
    )
unfolding record_sync_run
record_sync_run-lands o u run s g known =
    let s₁ = record s { draws = suc s.draws } in
    let row = run_row (o.new_uuid s.draws) u run in
    let allowed : permits s₁ u ≡ true =
      ap (λ g. permits (record s₁ { setting = g }) u) g ∙ beq_refl u in
    let insert : Action (Unit {0}) =
      execute (λ db. record db { sync_runs = db.sync_runs ++ row ∷ [] }) in
    bind-ok (raise_when (not (permits s₁ u)) insufficient_privilege)
      (λ done.
        raise_when (not (any (λ (x : User). x.id == u) s.db.users)) integrity_error >> insert)
      s₁ s₁ tt (ap (λ b. raise_when (not b) insufficient_privilege s₁) allowed)
    ∙ bind-ok (raise_when (not (any (λ (x : User). x.id == u) s.db.users)) integrity_error)
        (λ done. insert) s₁ s₁ tt (ap (λ b. raise_when (not b) integrity_error s₁) known)

after_failure-records :
    (o : Outside) (u : Uuid) (started finished : Instant) (tr : SyncTrigger) (e : Error)
    (s : Session)
    → any (λ (x : User). x.id == u) s.committed.users ≡ true
    → (id : Uuid) × (t : Session) × (after_failure o (ok u) started finished tr e s ≡ (err e, t))
      × (t.committed ≡ record s.committed {
        sync_runs = s.committed.sync_runs ++ run_row id u (failed_run started finished tr e) ∷ [];
      })
after_failure-records o u started finished tr e s known =
    let s₁ = record s { db = s.committed; setting = user u; admin = false } in
    (
      o.new_uuid s.draws,
      _,
      bind-ok (record_sync_run o u (failed_run started finished tr e)) (λ done. commit >> raise e)
          s₁ _ tt (record_sync_run-lands o u (failed_run started finished tr e) s₁ refl known),
      refl,
    )

-- A connection of the user has the time of the sync.
abbrev pub Stamped : Uuid → Instant → SchwabConnection → Type 0
Stamped u at c = (c.user_id ≢ u) ⊎ (c.last_synced_at ≡ some at)

stamped :
    (u : Uuid) (at : Instant) (s : Session) (cs : List SchwabConnection)
    → s.setting ≡ user u
    → All (Stamped u at) (
        map
          (λ c.
            if permits s c.user_id && c.user_id == u
            then record c { last_synced_at = some at }
            else c)
          cs)
stamped u at s [] g = tt
stamped u at s (c ∷ cs) g = elim (Bool-cases (c.user_id == u)) [
  | inl own ↦
      let shown : (permits s c.user_id && c.user_id == u) ≡ true =
        ap (λ g. permits (record s { setting = g }) c.user_id && c.user_id == u) g
        ∙ ground (arith, own, beq_sym u c.user_id) in
      (rw shown (inr refl), stamped u at s cs g)
  | inr other ↦
      let hidden : (permits s c.user_id && c.user_id == u) ≡ false = ground (arith, other) in
      (rw hidden (inl λ p. ground (arith, other, p)), stamped u at s cs g)
]

after_success-records :
    (o : Outside) (u : Uuid) (started finished : Instant) (tr : SyncTrigger) (outcome : SyncOutcome)
    (s : Session)
    → s.setting ≡ user u
    → any (λ (x : User). x.id == u) s.db.users ≡ true
    → (id : Uuid) × (t : Session) × (after_success o (ok u) started finished tr outcome s
        ≡ (ok tt, t))
      × (t.committed.sync_runs
          ≡ s.db.sync_runs ++ run_row id u (succeeded_run started finished tr outcome) ∷ [])
      × All (Stamped u started) t.committed.schwab_connections
after_success-records o u started finished tr outcome s g known =
    let run = succeeded_run started finished tr outcome in
    (
      o.new_uuid s.draws,
      _,
      bind-ok (record_sync_run o u run)
          (λ done. update_connection u (λ c. record c { last_synced_at = some started }) >> commit)
          s _ tt (record_sync_run-lands o u run s g known),
      refl,
      stamped u started s s.db.schwab_connections g,
    )

-- The columns of the record of a run that succeeded, and of one that failed.
abbrev pub succeeded_row : Uuid → Uuid → Instant → Instant → SyncTrigger → SyncOutcome → SyncRun
succeeded_row id u started finished tr outcome = record {
  id = id;
  user_id = u;
  started_at = started;
  finished_at = finished;
  trigger = elim tr [ scheduled ↦ "scheduled" | manual ↦ "manual" ];
  status = "succeeded";
  fills_landed = some outcome.fills_landed;
  broker_transactions_landed = some outcome.broker_transactions_landed;
  error_code = none;
}

abbrev pub stored_code : Error → String
stored_code connection_not_found = "connection_not_found"
stored_code validation_error = "vendor_payload_unparseable"
stored_code (http_status_error code) =
    if code == 401
    then "vendor_auth_failed"
    else if code == 403
    then "vendor_auth_failed"
    else if code == 429
    then "vendor_rate_limited"
    else "unknown"
stored_code _ = "unknown"

abbrev pub failed_row : Uuid → Uuid → Instant → Instant → SyncTrigger → Error → SyncRun
failed_row id u started finished tr e = record {
  id = id;
  user_id = u;
  started_at = started;
  finished_at = finished;
  trigger = elim tr [ scheduled ↦ "scheduled" | manual ↦ "manual" ];
  status = "failed";
  fills_landed = none;
  broker_transactions_landed = none;
  error_code = some (stored_code e);
}

classify_sync_error-stored_code :
    (e : Error) → sync_error_text (classify_sync_error e) ≡ stored_code e
unfolding classify_sync_error
classify_sync_error-stored_code e = ground arith

failed_run-failed_row :
    (id u : Uuid) (started finished : Instant) (tr : SyncTrigger) (e : Error)
    → run_row id u (failed_run started finished tr e) ≡ failed_row id u started finished tr e
failed_run-failed_row id u started finished scheduled e =
    ap (λ code. record (failed_row id u started finished scheduled e) { error_code = some code })
      (classify_sync_error-stored_code e)
failed_run-failed_row id u started finished manual e =
    ap (λ code. record (failed_row id u started finished manual e) { error_code = some code })
      (classify_sync_error-stored_code e)

succeeded_run-succeeded_row :
    (id u : Uuid) (started finished : Instant) (tr : SyncTrigger) (outcome : SyncOutcome)
    → run_row id u (succeeded_run started finished tr outcome)
      ≡ succeeded_row id u started finished tr outcome
succeeded_run-succeeded_row id u started finished scheduled outcome = refl
succeeded_run-succeeded_row id u started finished manual outcome = refl

-- The two ends of a task that began on `s`.
abbrev pub Recorded :
    Uuid
    → Instant
    → Instant
    → SyncTrigger
    → Session
    → Result SyncOutcome
    → Result (Unit {0}) × Session
    → Type 0
Recorded u started finished tr s synced run =
    ((outcome : SyncOutcome) × (rows : List SyncRun) × (id : Uuid) × (t : Session) × (synced
        ≡ ok outcome)
      × (run ≡ (ok tt, t))
      × (t.committed.sync_runs ≡ rows ++ succeeded_row id u started finished tr outcome ∷ [])
      × All (Stamped u started) t.committed.schwab_connections)
    ⊎ ((e : Error) × (id : Uuid) × (t : Session) × (synced ≡ err e)
        × (run ≡ (err e, t))
        × (t.committed ≡ record s.committed {
          sync_runs = s.committed.sync_runs ++ failed_row id u started finished tr e ∷ [];
        }))

failure-records :
    (o : Outside) (u : Uuid) (started finished : Instant) (tr : SyncTrigger) (e : Error)
    (s t : Session) (run : Result (Unit {0}) × Session)
    → run ≡ after_failure o (ok u) started finished tr e t
    → any (λ (x : User). x.id == u) s.committed.users ≡ true
    → t.committed ≡ s.committed
    → Recorded u started finished tr s (err e) run
failure-records o u started finished tr e s t run h known c =
    let (id, t', e', rows) =
      after_failure-records o u started finished tr e t
        (ap (λ (db : Database). any (λ (x : User). x.id == u) db.users) c ∙ known) in
    inr (
      e,
      id,
      t',
      refl,
      h ∙ e',
      rows
          ∙ ap
              (λ (db : Database). (record db {
                sync_runs = db.sync_runs ++ run_row id u (failed_run started finished tr e) ∷ [];
              }))
              c
          ∙ ap (λ row. record s.committed { sync_runs = s.committed.sync_runs ++ row ∷ [] })
              (failed_run-failed_row id u started finished tr e),
    )

finish_run-records :
    (o : Outside) (u : Uuid) (started finished : Instant) (tr : SyncTrigger) (s : Session)
    (run : Result (Unit {0}) × Session) (p : Result SyncOutcome × Session)
    → run ≡ finish_run o (ok u) started finished tr p
    → any (λ (x : User). x.id == u) s.committed.users ≡ true
    → Confined (record s { db = s.committed; setting = user u; admin = false }) p.1
    → Recorded u started finished tr s p.0 run
finish_run-records o u started finished tr s run (ok outcome, t) e known (c, g, us) =
    let (id, t', e', rows, stamps) =
      after_success-records o u started finished tr outcome t g
        (ap (λ l. any (λ (x : User). x.id == u) l) us ∙ known) in
    inl (
      outcome,
      t.db.sync_runs,
      id,
      t',
      refl,
      e ∙ e',
      rows
          ∙ ap (λ row. t.db.sync_runs ++ row ∷ [])
              (succeeded_run-succeeded_row id u started finished tr outcome),
      stamps,
    )
finish_run-records o u started finished tr s run (err x, t) e known (c, g, us) =
    failure-records o u started finished tr x s t run e known c

-- The sync of a task: with the brokerage, or the error that kept it away.
run_sync_user-records :
    (o : Outside) (auth : Result Vendor) (settings : SyncSettings) (u : Uuid)
    (started finished : Instant) (tr : SyncTrigger) (s : Session)
    (run : Result (Unit {0}) × Session)
    → run
      ≡ finish_run o (ok u) started finished tr (
          run_sync_user o auth settings
            (ok u)
            started
            (record s { db = s.committed; setting = null; admin = false }))
    → any (λ (x : User). x.id == u) s.committed.users ≡ true
    → Recorded u started finished tr s
        (run_sync_user o auth settings
          (ok u)
          started
          (record s { db = s.committed; setting = null; admin = false })).0
        run
run_sync_user-records o (ok v) settings u started finished tr s run h known =
    let s₀ = record s { db = s.committed; setting = null; admin = false } in
    finish_run-records o u started finished tr s run (sync_user o v settings u started s₀) h known
      (sync_user-Confined o v settings u started s₀)
run_sync_user-records o (err e) settings u started finished tr s run h known =
    failure-records o u started finished tr e s
      (record s { db = s.committed; setting = null; admin = false }) run h known refl

-- A task with a known trigger for a user who exists, on a role that the policies confine, ends in one of
-- two ways: either the sync returns, and the task returns and has committed the record of a run that
-- succeeded with the counts of the sync, and the time of the sync on the user's connection; or the sync
-- raises, and the task raises the same error and has committed nothing but the record of a run that failed,
-- with the class of that error.
pub sync_user_task-records :
    (o : Outside) (auth : Result Vendor) (settings : SyncSettings) (u : Uuid) (trigger : String)
    (started finished : Instant) (s : Session) (tr : SyncTrigger) (catalogue : Catalogue) (r : Role)
    → read_trigger trigger ≡ ok tr
    → roles_named catalogue.current_user catalogue ≡ r ∷ []
    → can_bypass r ≡ false
    → any (λ (x : User). x.id == u) s.committed.users ≡ true
    → Recorded u started finished tr s
        (run_sync_user o auth settings
          (ok u)
          started
          (record s { db = s.committed; setting = null; admin = false })).0
        (sync_user_task o auth settings catalogue (ok u) trigger started finished s)
unfolding sync_user_task
sync_user_task-records o auth settings u trigger started finished s tr catalogue r e one confined
      known =
    let s₀ = record s { db = s.committed; setting = null; admin = false } in
    let task = λ (x : Session).
      finish_run o (ok u) started finished tr (run_sync_user o auth settings (ok u) started x) in
    run_sync_user-records o auth settings u started finished tr s
      (sync_user_task o auth settings catalogue (ok u) trigger started finished s)
      (ap
          (continue_with (λ sync_trigger.
            open_session
            >> (assert_connection_cannot_bypass_rls catalogue >> λ x.
                finish_run o (ok u) started finished sync_trigger
                  (run_sync_user o auth settings (ok u) started x))))
          (ap (λ x. (x, s)) e)
        ∙ ap (continue_with (λ _. task)) (assert-Confined catalogue s₀ r one confined))
      known
