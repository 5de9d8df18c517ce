-- ===== src/Identity/Account/Erasure.antt =====
-- The database after `delete_account` (src/morai/identity/account.py).
use morai_trading_dashboard.Prelude.{
  any-imp, any-no, any-keep, Bool, false, ◌&&◌, ◌||◌, not, List, ◌≡◌, refl, ◌∙◌, arith, ◌==◌,
  nat_eq, text_eq, ok, Uuid, keep, any,
}
use morai_trading_dashboard.Db.{Database, Position}
use morai_trading_dashboard.Db.Session.{user, Session, permits_user}
use morai_trading_dashboard.Identity.Account.{
  has_child, delete_account, position_in_use, without, delete_key_and_children,
  delete_fills_and_identity,
}
use morai_trading_dashboard.Identity.Account.Deletion.{
  stripped, positions_used, delete_user-ok, delete_account-steps,
}

-- The events and legs that name a position of the user and belong to someone else.
abbrev pub stray : Database → Uuid → Position → Bool
stray db u p =
    p.user_id == u
    && (any (λ e. e.position_id == p.id && not (e.user_id == u)) db.events
        || any (λ l. l.position_id == p.id && not (l.user_id == u)) db.legs)

-- A session in the context of a user.
abbrev as_user : Session → Uuid → Session
as_user t u = record t { setting = user u }

any-without :
    {A : Type 0} (t : Session) (u : Uuid) (owner : A → Uuid) (rows : List A)
    → any (λ r. owner r == u) (without (as_user t u) u owner rows) ≡ false
any-without t u owner rows =
    any-keep (λ r. owner r == u) (λ r. not (u == owner r && owner r == u)) rows
    ∙ any-no (λ r. not (u == owner r && owner r == u) && owner r == u) rows (λ r. ground arith)

any-removed :
    {A : Type 0} (u : Uuid) (owner : A → Uuid) (rows : List A)
    → any (λ r. owner r == u) (keep (λ r. not (owner r == u)) rows) ≡ false
any-removed u owner rows =
    any-keep (λ r. owner r == u) (λ r. not (owner r == u)) rows
    ∙ any-no (λ r. not (owner r == u) && owner r == u) rows (λ r. ground arith)

stray-used :
    (t : Session) (u : Uuid)
    → any (stray t.db u) t.db.positions ≡ false
    → positions_used (as_user t u) u ≡ false
unfolding delete_key_and_children
stray-used t u h =
    any-keep (position_in_use (delete_key_and_children (as_user t u) u t.db))
      (λ p. u == p.user_id && p.user_id == u) t.db.positions
    ∙ any-imp
        (λ p.
          (u == p.user_id && p.user_id == u)
          && position_in_use (delete_key_and_children (as_user t u) u t.db) p)
        (stray t.db u) t.db.positions
        (λ p m. ground (
          arith,
          m,
          any-keep (λ e. e.position_id == p.id) (λ e. not (u == e.user_id && e.user_id == u))
              t.db.events,
          any-keep (λ l. l.position_id == p.id) (λ l. not (u == l.user_id && l.user_id == u))
              t.db.legs,
        ))
        h

has_child-stripped :
    (t : Session) (u : Uuid)
    → any (λ r. r.reader_id == u || r.subject_id == u) t.db.audit_log ≡ false
    → has_child (stripped (as_user t u) u) u ≡ false
unfolding has_child delete_key_and_children delete_fills_and_identity
has_child-stripped t u h =
    rw
      (
        h,
        any-removed u (λ r. r.user_id) t.db.sessions,
        any-removed u (λ r. r.user_id) t.db.setup_tokens,
        any-without t u (λ r. r.user_id) t.db.user_data_keys,
        any-without t u (λ r. r.user_id) t.db.fills,
        any-without t u (λ r. r.user_id) t.db.positions,
        any-without t u (λ r. r.user_id) t.db.legs,
        any-without t u (λ r. r.user_id) t.db.events,
        any-without t u (λ r. r.user_id) t.db.schwab_connections,
        any-without t u (λ r. r.user_id) t.db.broker_transactions,
        any-without t u (λ r. r.user_id) t.db.sync_runs,
      )
      refl

delete_account-run :
    (t : Session) (u : Uuid)
    → any (λ r. r.reader_id == u || r.subject_id == u) t.db.audit_log ≡ false
    → any (stray t.db u) t.db.positions ≡ false
    → let s = as_user t u in
      delete_account u s ≡ (
        ok tt,
        record s {
          db = record (stripped s u) {
            users = keep (λ x. not (permits_user s x.id && x.id == u)) t.db.users;
          };
        },
      )
unfolding delete_key_and_children delete_fills_and_identity
delete_account-run t u audit owned =
    delete_account-steps u (as_user t u) (stray-used t u owned)
    ∙ delete_user-ok (as_user t u) (record (as_user t u) { db = stripped (as_user t u) u }) u
        (ground (arith, has_child-stripped t u audit))

-- In the context of a user whom no audit record names, and whose positions no one else's events or legs name,
-- the deletion succeeds and leaves neither the user nor a row of any table that names the user.
pub delete_account-erases :
    (t : Session) (u : Uuid)
    → any (λ r. r.reader_id == u || r.subject_id == u) t.db.audit_log ≡ false
    → any (stray t.db u) t.db.positions ≡ false
    → let after = delete_account u (record t { setting = user u }) in
      (after.0 ≡ ok tt)
      × ((has_child after.1.db u ≡ false) × (any (λ x. x.id == u) after.1.db.users ≡ false))
unfolding has_child
delete_account-erases t u audit owned = rw (delete_account-run t u audit owned) (
  refl,
  (
    has_child-stripped t u audit,
    any-keep (λ x. x.id == u) (λ x. not ((u == x.id || t.admin) && x.id == u)) t.db.users
        ∙ any-no (λ x. not ((u == x.id || t.admin) && x.id == u) && x.id == u) t.db.users
            (λ x. ground arith),
  ),
)
