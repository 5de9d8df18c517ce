-- ===== src/Api/Connections/Cooldown.antt =====
-- The cooldown of POST /schwab/sync (src/morai/api/routes_connections.py).
use morai_trading_dashboard.Identity.Routes.Access.{get_current_user-ok}
use morai_trading_dashboard.Ingest.Runs.Recent.{
  read_run-keeps, any-sorted, read_runs-inv, first_test, recently,
}
use morai_trading_dashboard.Vendor.Connections.{read_connection, ConnectionRecord}
use morai_trading_dashboard.Identity.Sessions.{get_current_user, AuthenticatedUser}
use morai_trading_dashboard.Ingest.Runs.{
  later_first, own_runs, SyncRunRecord, read_sync_runs, read_runs,
}
use morai_trading_dashboard.Api.Connections.{cooling, sync}
use morai_trading_dashboard.Prelude.{
  ltb, ok-inj, sorted, take, or_raise, http_exception, ◌+◌, String, Bool, true, false, Option, some,
  List, [], ◌∷◌, ◌≡◌, refl, sym, ap, ◌∙◌, if◌then◌else◌, nat_eq, text_eq, Result, ok, err, Instant,
  Duration, Uuid, any,
}
use morai_trading_dashboard.Outside.{Outside}
use morai_trading_dashboard.Db.{SyncRun}
use morai_trading_dashboard.Db.Session.{
  Session, bind-ok, Action, ◌>>=◌, ◌>>◌, pure, lift, raise_when,
}

-- The first record says what the first row does.
cooling-first :
    (now : Instant) (cooldown : Duration) (rows : List SyncRun) (recs : List SyncRunRecord)
    → read_runs (take 1 rows) ≡ ok recs
    → cooling now cooldown recs ≡ first_test (recently now cooldown) rows
unfolding read_runs
cooling-first now cooldown [] recs h = ap (cooling now cooldown) (sym (ok-inj h))
cooling-first now cooldown (row ∷ rows) recs h =
    let (r, rest, e, e', same) = read_runs-inv row [] recs h in
    let (who, at) = read_run-keeps row r e in
    ap (cooling now cooldown) (sym same) ∙ ap (λ t. ltb now (t + cooldown)) at

read_sync_runs-first :
    (u : Uuid) (s : Session) (recs : List SyncRunRecord)
    → read_sync_runs u 1 s ≡ (ok recs, s)
    → read_runs (take 1 (sorted later_first (own_runs s u s.db.sync_runs))) ≡ ok recs
unfolding read_sync_runs
read_sync_runs-first u s recs h = ap (λ (p : Result (List SyncRunRecord) × Session). p.0) h

decide :
    (b : Bool) (u : Uuid) (t : Session)
    → (raise_when b (http_exception 429) >> pure u) t
      ≡ (if b then err (http_exception 429) else ok u, t)
decide true u t = refl
decide false u t = refl

-- `sync` after its first step, and after its second.
abbrev after_read : Duration → Instant → AuthenticatedUser → Option ConnectionRecord → Action Uuid
after_read cooldown now caller found = do
  c ← lift (or_raise found (http_exception 404))
  recent ← read_sync_runs caller.user_id 1
  raise_when (cooling now cooldown recent) (http_exception 429)
  pure caller.user_id

abbrev after_caller : Outside → Duration → Instant → AuthenticatedUser → Action Uuid
after_caller o cooldown now caller =
    read_connection o caller.user_id >>= after_read cooldown now caller

-- A request for a sync of a user with a connection, whose runs can be read, is refused with status 429 if a recorded run of the user
-- started less than the cooldown ago, and otherwise defers the job of this user; in both cases it writes nothing.
pub sync-cooldown :
    (o : Outside) (cooldown : Duration) (now : Instant) (cookie : Option String) (s t : Session)
    (caller : AuthenticatedUser) (c : ConnectionRecord) (recent : List SyncRunRecord)
    → get_current_user o now cookie s ≡ (ok caller, t)
    → read_connection o caller.user_id t ≡ (ok (some c), t)
    → read_sync_runs caller.user_id 1 t ≡ (ok recent, t)
    → let throttled = any (recently now cooldown) (own_runs t caller.user_id t.db.sync_runs) in
      (sync o cooldown now cookie s
        ≡ (if throttled then err (http_exception 429) else ok caller.user_id, t))
      × (t.db ≡ s.db)
unfolding sync
sync-cooldown o cooldown now cookie s t caller c recent e f r =
    let (cookie_text, row, is_cookie, found, own, set, same_db) =
      get_current_user-ok o now cookie s t caller e in
    let shown = own_runs t caller.user_id t.db.sync_runs in
    let check : cooling now cooldown recent ≡ any (recently now cooldown) shown =
      cooling-first now cooldown (sorted later_first shown) recent
        (read_sync_runs-first caller.user_id t recent r)
      ∙ sym (any-sorted now cooldown shown) in
    (
      bind-ok (get_current_user o now cookie) (after_caller o cooldown now) s t caller e
          ∙ bind-ok (read_connection o caller.user_id) (after_read cooldown now caller) t t (some c)
              f
          ∙ bind-ok (read_sync_runs caller.user_id 1)
              (λ recent.
                raise_when (cooling now cooldown recent) (http_exception 429)
                >> pure caller.user_id)
              t t recent r
          ∙ ap (λ b. (raise_when b (http_exception 429) >> pure caller.user_id) t) check
          ∙ decide (any (recently now cooldown) shown) caller.user_id t,
      same_db,
    )
