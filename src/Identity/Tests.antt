-- ===== src/Identity/Tests.antt =====
-- Two users with a position each, a login session of the first, and an audit record on the second.
use morai_trading_dashboard.Prelude.{
  true, ◌≡◌, String, false, none, some, List, [], ◌∷◌, map, refl, ok, err, Uuid, any, keep, ◌==◌,
  nat_eq, arith, integrity_error, http_exception,
}
use morai_trading_dashboard.Outside.{plain_outside}
use morai_trading_dashboard.Db.{Database, User, LoginSession, Position}
use morai_trading_dashboard.Db.Session.{Session, null, user}
use morai_trading_dashboard.Identity.Tokens.{setup, issue_token, consume_token}
use morai_trading_dashboard.Identity.Tokens.SingleUse.{consume_token-once}
use morai_trading_dashboard.Identity.Sessions.{AuthenticatedUser, get_current_user, matches_cookie}
use morai_trading_dashboard.Identity.Account.{delete_account, has_child}
use morai_trading_dashboard.Identity.Account.Deletion.{delete_account-audited}
use morai_trading_dashboard.Identity.Account.Erasure.{delete_account-erases}
use morai_trading_dashboard.Identity.Routes.Audit.{reset_password-audited}
use morai_trading_dashboard.Identity.Sessions.{get_current_admin}
use morai_trading_dashboard.Identity.Account.{open_audited_read, get_user_for_management}
use morai_trading_dashboard.Identity.Routes.{
  reset_password, PositionResponse, position_response, list_positions, logout,
}
use morai_trading_dashboard.Identity.Routes.Access.{
  get_current_user-ok, list_positions-own, logout-revokes,
}

abbrev user_of : Uuid → String → User
user_of id name = record { id = id; username = name; password_hash = none; is_admin = false }

abbrev position_of_user : Uuid → Uuid → Position
position_of_user id owner = record { id = id; user_id = owner; opened_at = none; closed_at = none }

abbrev login_row : LoginSession
login_row = record { token_hash = "cookie"; user_id = 1; expires_at = 100 }

abbrev root : User
root = record (user_of 3 "root") { is_admin = true }

abbrev root_row : LoginSession
root_row = record { token_hash = "root"; user_id = 3; expires_at = 100 }

abbrev small_db : Database
small_db = record {
  users = user_of 1 "ann" ∷ user_of 2 "bob" ∷ root ∷ [];
  sessions = login_row ∷ root_row ∷ [];
  setup_tokens = [];
  audit_log = (record { reader_id = 3; subject_id = 2 }) ∷ [];
  user_data_keys = [];
  fills = [];
  positions = position_of_user 10 1 ∷ position_of_user 20 2 ∷ [];
  legs = [];
  events = [];
  schwab_connections = [];
  broker_transactions = [];
  sync_runs = [];
}

abbrev fresh : Session
fresh = record { db = small_db; committed = small_db; setting = null; admin = false; draws = 0 }

abbrev ann : AuthenticatedUser
ann = record { user_id = 1; is_admin = false }

abbrev as_ann : Session
as_ann = record fresh { setting = user 1 }

ann_enters : get_current_user plain_outside 5 (some "cookie") fresh ≡ (ok ann, as_ann)
unfolding get_current_user
ann_enters = refl

get_current_user-ok_example :
    (c : String) × (row : LoginSession) × (some "cookie" ≡ some c)
    × (keep (matches_cookie plain_outside 5 c) small_db.sessions ≡ row ∷ [])
    × (1 ≡ row.user_id)
    × (user 1 ≡ user 1)
    × (small_db ≡ small_db)
get_current_user-ok_example =
    get_current_user-ok plain_outside 5 (some "cookie") fresh as_ann ann ann_enters

abbrev ann_positions : List PositionResponse
ann_positions = (record { position_id = 10; opened_at = none }) ∷ []

ann_lists : list_positions plain_outside 5 (some "cookie") fresh ≡ (ok ann_positions, as_ann)
unfolding list_positions get_current_user
ann_lists = refl

list_positions-own_example :
    (u : AuthenticatedUser) × (r : Session) × (get_current_user plain_outside 5
        (some "cookie")
        fresh
      ≡ (ok u, r))
    × (ann_positions
        ≡ map position_response (keep (λ p. u.user_id == p.user_id) small_db.positions))
list_positions-own_example =
    list_positions-own plain_outside 5 (some "cookie") fresh as_ann ann_positions ann_lists

abbrev logged_out : Session
logged_out = (logout plain_outside 5 (some "cookie") fresh).1

abbrev next_request : Session
next_request = record fresh { db = logged_out.committed; committed = logged_out.committed }

ann_leaves : logout plain_outside 5 (some "cookie") fresh ≡ (ok tt, logged_out)
unfolding logout get_current_user
ann_leaves = refl

logout-revokes_example :
    (get_current_user plain_outside 6 (some "cookie") next_request).0 ≡ err (http_exception 401)
logout-revokes_example =
    logout-revokes plain_outside 5 6 "cookie" fresh logged_out next_request ann_leaves refl

abbrev with_token : Session
with_token = (issue_token plain_outside 5 1 setup 10 fresh).1

consume_token-once_example :
    (consume_token plain_outside 9
      (plain_outside.token_urlsafe 0)
      setup
      (consume_token plain_outside 8 (plain_outside.token_urlsafe 0) setup with_token).1).0
    ≡ ok none
consume_token-once_example =
    consume_token-once plain_outside 8 9 (plain_outside.token_urlsafe 0) setup with_token
      (omega arith)

delete_account-audited_example :
    (delete_account 2 (record fresh { setting = user 2 })).0 ≡ err integrity_error
delete_account-audited_example =
    delete_account-audited 2 (record fresh { setting = user 2 }) refl refl

delete_account-erases_example :
    let after = delete_account 1 (record fresh { setting = user 1 }) in
    (after.0 ≡ ok tt)
    × ((has_child after.1.db 1 ≡ false) × (any (λ x. x.id == 1) after.1.db.users ≡ false))
delete_account-erases_example = delete_account-erases fresh 1 refl refl

abbrev after_reset : Session
after_reset = (reset_password plain_outside 5 (some "root") 1 fresh).1

root_resets : reset_password plain_outside 5 (some "root") 1 fresh ≡ (ok "token", after_reset)
unfolding reset_password get_current_admin get_current_user open_audited_read
    get_user_for_management issue_token
root_resets = refl

reset_password-audited_example :
    (admin : AuthenticatedUser) × (r : Session) × (get_current_admin plain_outside 5
        (some "root")
        fresh
      ≡ (ok admin, r))
    × (admin.is_admin ≡ true)
    × (after_reset.committed.audit_log
        ≡ record { reader_id = admin.user_id; subject_id = 1 } ∷ small_db.audit_log)
reset_password-audited_example =
    reset_password-audited plain_outside 5 (some "root") 1 fresh after_reset "token" root_resets
