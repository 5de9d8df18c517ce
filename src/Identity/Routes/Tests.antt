-- ===== src/Identity/Routes/Tests.antt =====
-- A user who sets a password with a token, and logs in.
use morai_trading_dashboard.Identity.Routes.Invite.{create_user-invites}
use morai_trading_dashboard.Crypto.{wrap_dek, generate_dek}
use morai_trading_dashboard.Ledger.Keys.{provision_data_key}
use morai_trading_dashboard.Identity.Routes.Login.{set_up-login}
use morai_trading_dashboard.Identity.Sessions.{
  get_current_admin, AuthenticatedUser, get_current_user,
}
use morai_trading_dashboard.Fixtures.{run_db}
use morai_trading_dashboard.Identity.Tokens.{issue_token, consume_token}
use morai_trading_dashboard.Identity.Routes.{create_user, consume_either, set_up, login}
use morai_trading_dashboard.Prelude.{
  nat_eq, text_eq, ◌==◌, keep, true, String, Bool, false, none, some, [], ◌∷◌, ◌≡◌, refl, arith,
  nat_eq, text_eq, ok, beq_refl,
}
use morai_trading_dashboard.Outside.{plain_outside, Verifies}
use morai_trading_dashboard.Db.{UserDataKey, Database, User}
use morai_trading_dashboard.Db.Session.{open_session, null, Session, require_rls_context}

abbrev ada : User
ada = record { id = 1; username = "ada"; password_hash = none; is_admin = false }

abbrev invited_db : Database
invited_db = record run_db {
  sessions = [];
  setup_tokens =
      (record { token_hash = "invite"; user_id = 1; purpose = "setup"; expires_at = 100 }) ∷ [];
}

abbrev invited : Session
invited = record {
  db = invited_db;
  committed = invited_db;
  setting = null;
  admin = false;
  draws = 0;
}

abbrev set : Session
set = (set_up plain_outside 5 "invite" "pass" invited).1

sets : set_up plain_outside 5 "invite" "pass" invited ≡ (ok tt, set)
unfolding set_up consume_token require_rls_context
sets = refl

consumes : (consume_either plain_outside 5 "invite" invited).0 ≡ ok (some 1)
unfolding consume_token
consumes = refl

plain-Verifies : Verifies plain_outside
plain-Verifies salt password = ground (arith, beq_refl password)

set_up-login_example :
    (raw : String) × (w : Session) × (admin : Bool) × (login plain_outside 9 "ada" "pass"
        (open_session set).1
      ≡ (ok raw, w))
    × ((get_current_user plain_outside 50 (some raw) (open_session w).1).0
        ≡ ok (record { user_id = 1; is_admin = admin }))
unfolding set_up consume_token require_rls_context
set_up-login_example =
    set_up-login plain_outside 5 9 50 "invite" "pass" "ada" invited set (open_session set).1 ada
      plain-Verifies sets consumes refl refl (λ n. refl) (omega arith)

abbrev admin_db : Database
admin_db = record run_db {
  users = (record { id = 3; username = "root"; password_hash = none; is_admin = true }) ∷ [];
  sessions = (record { token_hash = "root"; user_id = 3; expires_at = 100 }) ∷ [];
}

abbrev managing : Session
managing = record { db = admin_db; committed = admin_db; setting = null; admin = false; draws = 0 }

abbrev created : Session
created = (create_user plain_outside 5 (some "root") "cyd" managing).1

creates : create_user plain_outside 5 (some "root") "cyd" managing ≡ (ok (1000, "token"), created)
unfolding create_user get_current_admin get_current_user issue_token require_rls_context
    provision_data_key generate_dek wrap_dek
creates = refl

create_user-invites_example :
    (admin : AuthenticatedUser) × (key : UserDataKey) × (entered : Session) × (invited : User)
    × (get_current_admin plain_outside 5 (some "root") managing ≡ (ok admin, entered))
    × (admin.is_admin ≡ true)
    × (keep (λ u. u.username == "cyd") created.committed.users ≡ invited ∷ [])
    × (invited.id ≡ 1000)
    × (invited.password_hash ≡ none)
    × (invited.is_admin ≡ false)
    × (created.committed.user_data_keys ≡ key ∷ admin_db.user_data_keys)
    × (key.user_id ≡ 1000)
    × ((consume_either plain_outside 8 "token" (open_session created).1).0 ≡ ok (some 1000))
create_user-invites_example =
    create_user-invites plain_outside 5 8 (some "root") "cyd" "token" 1000 managing created
      (open_session created).1 creates refl (omega arith) refl
