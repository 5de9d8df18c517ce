-- ===== src/Identity/Routes.antt =====
-- The routes of src/morai/api/routes_identity.py. A request is one call on a fresh session, whose uncommitted
-- writes are lost when it raises; a set cookie is the value that the route returns.
pub mod Access
pub mod Audit
pub mod SetUp
pub mod Login
pub mod Invite
mod Tests
use morai_trading_dashboard.Identity.Passwords.{needs_rehash, hash_password, verify_password}
use morai_trading_dashboard.Prelude.{
  bind, integrity_error, Error, runtime_error, or_raise, insufficient_privilege, days, hours,
  one_or_none, http_exception, ℕ, zero, suc, ◌+◌, ◌≤◌, ◌<◌, String, Bool, true, false, ◌&&◌, ◌||◌,
  not, Option, none, some, List, [], ◌∷◌, ◌++◌, map, ◌≡◌, refl, sym, ap, ◌∙◌, ◌⊎◌, inl, inr, arith,
  if◌then◌else◌, Eq, ◌==◌, nat_eq, text_eq, Result, ok, err, Instant, Duration, Uuid, keep, any,
  length, Bool-cases, Option-cases, Result-cases, beq_refl,
}
use morai_trading_dashboard.Outside.{Outside}
use morai_trading_dashboard.Db.{Database, User, LoginSession, SetupToken, AuditLog, Position, Bytes}
use morai_trading_dashboard.Db.Session.{
  Session, bind-ok, bind-err, Action, ◌>>=◌, ◌>>◌, pure, raise, lift, query, execute, raise_when,
  commit, rollback, set_user, set_admin, permits, permits_user, get_session, draw,
  require_rls_context, Setting,
}
use morai_trading_dashboard.Identity.Tokens.{
  TokenPurpose, setup, password_reset, generate_token, hash_token, issue_token, consume_token,
}
use morai_trading_dashboard.Identity.Sessions.{
  AuthenticatedUser, get_current_user, get_current_admin, select_user, one_row,
}
use morai_trading_dashboard.Identity.Account.{
  AuditedRead, open_audited_read, get_user_for_management, delete_account,
}
use morai_trading_dashboard.Ledger.Keys.{provision_data_key}

abbrev pub setup_token_ttl : Duration
setup_token_ttl = days 7

abbrev pub reset_token_ttl : Duration
reset_token_ttl = hours 1

abbrev pub session_cookie_ttl : Duration
session_cookie_ttl = days 30

pub record PositionResponse : Type 0 where
  pub position_id : Uuid
  pub opened_at : Option Instant

abbrev pub position_response : Position → PositionResponse
position_response p = record { position_id = p.id; opened_at = p.opened_at }

-- No filter by user: the policy of `positions` is the filter.
unfoldable pub list_positions : Outside → Instant → Option String → Action (List PositionResponse)
list_positions o now cookie = do
  user ← get_current_user o now cookie
  s ← get_session
  rows ← query (λ db. keep (λ p. permits s p.user_id) db.positions)
  pure (map position_response rows)

unfoldable pub get_position : Outside → Instant → Option String → Uuid → Action PositionResponse
get_position o now cookie position_id = do
  user ← get_current_user o now cookie
  s ← get_session
  rows ← query (λ db. keep (λ p. permits s p.user_id && p.id == position_id) db.positions)
  found ← lift (one_or_none rows)
  row ← lift (or_raise found (http_exception 404))
  pure (position_response row)

abbrev pub new_user : Uuid → String → User
new_user id username = record {
  id = id;
  username = username;
  password_hash = none;
  is_admin = false;
}

abbrev insert_user : User → Action User
insert_user user = do
  s ← get_session
  raise_when (not (permits_user s user.id)) insufficient_privilege
  execute (λ db. record db { users = user ∷ db.users })
  pure user

-- The flush of a new user; a name that is taken is a conflict, after a rollback.
abbrev pub add_user : Outside → String → Action User
add_user o username = do
  id ← draw o.new_uuid
  taken ← query (λ db. any (λ u. u.username == username) db.users)
  if taken then rollback >> raise (http_exception 409) else insert_user (new_user id username)

unfoldable pub create_user : Outside → Instant → Option String → String → Action (Uuid × String)
create_user o now cookie username = do
  admin ← get_current_admin o now cookie
  user ← add_user o username
  raw_token ← issue_token o now user.id setup setup_token_ttl
  set_user user.id
  context ← require_rls_context
  provision_data_key o user.id
  commit
  pure (user.id, raw_token)

abbrev pub audited_or_404 : Result AuditedRead × Session → Result AuditedRead × Session
audited_or_404 (ok proof, t) = (ok proof, t)
audited_or_404 (err integrity_error, t) = (rollback >> raise (http_exception 404)) t
audited_or_404 (err e, t) = (err e, t)

-- After the audited read.
abbrev pub issue_reset : Outside → Instant → Option User → Action String
issue_reset o now none = rollback >> raise (http_exception 404)
issue_reset o now (some target) = do
  raw_token ← issue_token o now target.id password_reset reset_token_ttl
  commit
  pure raw_token

unfoldable pub reset_password : Outside → Instant → Option String → Uuid → Action String
reset_password o now cookie user_id = do
  admin ← get_current_admin o now cookie
  proof ← (λ s. audited_or_404 (open_audited_read admin.user_id user_id s))
  target ← get_user_for_management proof
  issue_reset o now target

-- `update(User).where(User.id == id).values(password_hash=hash_password(password))`, and the check that it
-- matched one row.
abbrev pub set_password : Outside → Uuid → String → Action (Unit {0})
set_password o user_id password = do
  salt ← draw (λ n. n)
  s ← get_session
  matched ← query (λ db. length (keep (λ u. permits_user s u.id && u.id == user_id) db.users))
  execute (λ db. record db {
    users =
        map
          (λ u.
            if permits_user s u.id && u.id == user_id
            then (record u { password_hash = some (hash_password o salt password) })
            else u)
          db.users;
  })
  raise_when (not (matched == 1)) runtime_error

-- `SETUP` first, then `PASSWORD_RESET`.
abbrev pub consume_either : Outside → Instant → String → Action (Option Uuid)
consume_either o now token = do
  first ← consume_token o now token setup
  elim first [
    | some user_id ↦ pure (some user_id)
    | none ↦ consume_token o now token password_reset
  ]

unfoldable pub set_up : Outside → Instant → String → String → Action (Unit {0})
set_up o now token password = do
  consumed ← consume_either o now token
  user_id ← lift (or_raise consumed (http_exception 400))
  set_user user_id
  context ← require_rls_context
  set_password o user_id password
  commit

abbrev invalid_credentials : Error
invalid_credentials = http_exception 401

-- `_DUMMY_LOGIN_HASH`, made with the first salt when the module is imported.
abbrev dummy_login_hash : Outside → String
dummy_login_hash o = hash_password o 0 "not-a-real-password -- timing control only"

-- Where there is no hash, one verification against the dummy hash is paid, and its answer dropped.
abbrev refused : Outside → String → Result (Uuid × String)
refused o password =
    bind (verify_password o (dummy_login_hash o) password) λ _. err invalid_credentials

-- The hash to verify against, of the one row that `login_lookup` returns.
abbrev pub stored_hash : Outside → String → Option User → Result (Uuid × String)
stored_hash o password none = refused o password
stored_hash o password (some u) = elim u.password_hash [
  | none ↦ refused o password
  | some h ↦ ok (u.id, h)
]

abbrev pub rehash : Outside → Uuid → String → String → Action (Unit {0})
rehash o user_id stored password =
    if needs_rehash o stored then set_password o user_id password else pure tt

-- The row of a new login session; the raw token is the value of the cookie `morai_session`.
abbrev pub session_row : Outside → Instant → String → Uuid → LoginSession
session_row o now raw_token user_id = record {
  token_hash = hash_token o raw_token;
  user_id = user_id;
  expires_at = now + session_cookie_ttl;
}

abbrev pub start_session : Outside → Instant → Uuid → Action String
start_session o now user_id = do
  raw_token ← generate_token o
  execute (λ db. record db { sessions = session_row o now raw_token user_id ∷ db.sessions })
  commit
  pure raw_token

-- The function `login_lookup` of the database, which no policy confines.
abbrev pub login_lookup : String → Database → List User
login_lookup username db = keep (λ u. u.username == username) db.users

unfoldable pub login : Outside → Instant → String → String → Action String
login o now username password = do
  rows ← query (login_lookup username)
  row ← lift (one_or_none rows)
  found ← lift (stored_hash o password row)
  matches ← lift (verify_password o found.1 password)
  raise_when (not matches) invalid_credentials
  set_user found.0
  rehash o found.0 found.1 password
  start_session o now found.0

abbrev pub delete_session : Outside → String → Action (Unit {0})
delete_session o cookie = execute (λ db. record db {
  sessions = keep (λ r. not (r.token_hash == hash_token o cookie)) db.sessions;
})

unfoldable pub logout : Outside → Instant → Option String → Action (Unit {0})
logout o now cookie = do
  user ← get_current_user o now cookie
  token ← lift (or_raise cookie (http_exception 401))
  delete_session o token
  commit

pub record MeResponse : Type 0 where
  pub user_id : Uuid
  pub username : String
  pub is_admin : Bool

unfoldable pub me : Outside → Instant → Option String → Action MeResponse
me o now cookie = do
  user ← get_current_user o now cookie
  rows ← select_user user.user_id
  row ← lift (one_row rows)
  pure (record { user_id = row.id; username = row.username; is_admin = row.is_admin })

unfoldable pub delete_me : Outside → Instant → Option String → Action (Unit {0})
delete_me o now cookie = do
  user ← get_current_user o now cookie
  delete_account user.user_id
  commit
