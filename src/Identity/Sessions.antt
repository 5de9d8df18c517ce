-- ===== src/Identity/Sessions.antt =====
-- The authentication of a request (src/morai/identity/sessions.py).
use morai_trading_dashboard.Prelude.{
  multiple_results_found, or_raise, one_or_none, http_exception, no_result_found, ltb, Error,
  String, Bool, true, false, ◌&&◌, not, Option, none, some, List, [], ◌∷◌, ◌==◌, nat_eq, text_eq,
  Result, ok, err, Instant, Uuid, keep,
}
use morai_trading_dashboard.Outside.{Outside}
use morai_trading_dashboard.Db.{User, LoginSession}
use morai_trading_dashboard.Db.Session.{
  Action, ◌>>=◌, ◌>>◌, pure, raise, lift, query, raise_when, set_user, set_admin, permits_user,
  get_session,
}
use morai_trading_dashboard.Identity.Tokens.{hash_token}

pub record AuthenticatedUser : Type 0 where
  pub user_id : Uuid
  pub is_admin : Bool

abbrev not_authenticated : Error
not_authenticated = http_exception 401

-- The live rows of a cookie.
abbrev pub matches_cookie : Outside → Instant → String → LoginSession → Bool
matches_cookie o now cookie row = row.token_hash == hash_token o cookie && ltb now row.expires_at

-- `scalar_one()`
abbrev pub one_row {ℓ} : {A : Type ℓ} → List A → Result A
one_row [] = err no_result_found
one_row (a ∷ []) = ok a
one_row (a ∷ b ∷ r) = err multiple_results_found

-- `select(User).where(User.id == id)`, under the policy of `users`.
abbrev pub select_user : Uuid → Action (List User)
select_user id = do
  s ← get_session
  query (λ db. keep (λ u. permits_user s u.id && u.id == id) db.users)

abbrev pub admin_setting : Bool → Action (Unit {0})
admin_setting true = set_admin
admin_setting false = pure tt

-- After the row of the cookie is found.
abbrev pub authenticate : LoginSession → Action AuthenticatedUser
authenticate row = do
  set_user row.user_id
  users ← select_user row.user_id
  caller ← lift (one_row users)
  admin_setting caller.is_admin
  pure (record { user_id = row.user_id; is_admin = caller.is_admin })

unfoldable pub get_current_user : Outside → Instant → Option String → Action AuthenticatedUser
get_current_user o now none = raise not_authenticated
get_current_user o now (some cookie) = do
  rows ← query (λ db. keep (matches_cookie o now cookie) db.sessions)
  found ← lift (one_or_none rows)
  row ← lift (or_raise found not_authenticated)
  authenticate row

unfoldable pub get_current_admin : Outside → Instant → Option String → Action AuthenticatedUser
get_current_admin o now cookie = do
  user ← get_current_user o now cookie
  raise_when (not user.is_admin) (http_exception 404)
  pure user
