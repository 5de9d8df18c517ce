-- ===== src/Ingest/Worker/Guarded.antt =====
-- A task on a role that the policies do not confine (src/morai/worker/app.py).
use morai_trading_dashboard.Identity.Rls.{
  assert-refuses, assert_connection_cannot_bypass_rls, can_bypass, roles_named, Role, Catalogue,
}
use morai_trading_dashboard.Ingest.Windows.{SyncSettings}
use morai_trading_dashboard.Vendor.Client.{Vendor}
use morai_trading_dashboard.Ingest.Worker.{finish_run, run_sync_user, sync_user_task}
use morai_trading_dashboard.Ingest.Runs.{read_trigger, SyncTrigger}
use morai_trading_dashboard.Prelude.{
  Result, runtime_error, String, true, false, [], ◌∷◌, ◌≡◌, ap, ◌∙◌, nat_eq, text_eq, ok, err,
  Instant, Uuid,
}
use morai_trading_dashboard.Outside.{Outside}
use morai_trading_dashboard.Db.Session.{open_session, continue_with, null, Session, ◌>>◌}

-- On a role that can bypass the policies, a task with a known trigger ends in a RuntimeError before it reads
-- or writes a table: it only has begun a session.
pub sync_user_task-refuses :
    (o : Outside) (auth : Result Vendor) (settings : SyncSettings) (parsed : Result Uuid)
    (trigger : String) (started finished : Instant) (s : Session) (tr : SyncTrigger)
    (catalogue : Catalogue) (r : Role)
    → read_trigger trigger ≡ ok tr
    → roles_named catalogue.current_user catalogue ≡ r ∷ []
    → can_bypass r ≡ true
    → sync_user_task o auth settings catalogue parsed trigger started finished s
      ≡ (err runtime_error, record s { db = s.committed; setting = null; admin = false })
unfolding sync_user_task
sync_user_task-refuses o auth settings parsed trigger started finished s tr catalogue r e one h =
    ap
      (continue_with (λ sync_trigger.
        open_session
        >> (assert_connection_cannot_bypass_rls catalogue >> λ x.
            finish_run o parsed started finished sync_trigger
              (run_sync_user o auth settings parsed started x))))
      (ap (λ x. (x, s)) e)
    ∙ ap
        (continue_with (λ _. λ (x : Session).
          finish_run o parsed started finished tr (run_sync_user o auth settings parsed started x)))
        (assert-refuses catalogue _ r one h)
