-- ===== src/Identity/Routes/Login.antt =====
-- A login with a password, and the request that follows it (src/morai/api/routes_identity.py).
use morai_trading_dashboard.Identity.Tokens.{hash_token}
use morai_trading_dashboard.Identity.Sessions.{
  admin_setting, one_row, AuthenticatedUser, authenticate, matches_cookie, get_current_user,
}
use morai_trading_dashboard.Identity.Passwords.{verify_password}
use morai_trading_dashboard.Identity.Routes.SetUp.{
  set_up-left, permits-own, with_hash, keep-map, set_password-own, with_password, is_user,
}
use morai_trading_dashboard.Identity.Routes.{
  session_cookie_ttl, consume_either, set_up, start_session, session_row, rehash, login,
}
use morai_trading_dashboard.Prelude.{
  beq_refl, map, ◌+◌, http_exception, ◌<◌, or_raise, one_or_none, any-imp, keep-none_any, Bool,
  false, any, true, List, length-map, ℕ, String, some, [], ◌∷◌, ◌≡◌, refl, ap, ◌∙◌, inl, inr, arith,
  ◌==◌, nat_eq, text_eq, ok, Instant, Uuid, keep, length, Bool-cases,
}
use morai_trading_dashboard.Outside.{Verifies, verified, Outside}
use morai_trading_dashboard.Db.{Database, LoginSession, User}
use morai_trading_dashboard.Db.Session.{
  ◌>>=◌, ◌>>◌, pure, open_session, lift, Action, continue_with, user, Session,
}

with_hash-count :
    (h : String) (user_id : Uuid) (us : List User)
    → length (keep (is_user user_id) (map (with_hash h user_id) us))
      ≡ length (keep (is_user user_id) us)
with_hash-count h user_id us =
    ap length (
      keep-map (is_user user_id) (is_user user_id) (with_hash h user_id) us
        (λ (u : User). ground arith))
    ∙ length-map (with_hash h user_id) (keep (is_user user_id) us)

rehash-keeps :
    (o : Outside) (user_id : Uuid) (stored password : String) (s : Session)
    → s.setting ≡ user user_id
    → length (keep (is_user user_id) s.db.users) ≡ 1
    → (t : Session) × (rehash o user_id stored password s ≡ (ok tt, t))
      × (t.db.sessions ≡ s.db.sessions)
      × (length (keep (is_user user_id) t.db.users) ≡ 1)
rehash-keeps o user_id stored password s h one = elim (Bool-cases (o.argon2_stale stored)) [
  | inl stale ↦ (
    with_password o user_id password s,
    rw stale (set_password-own o user_id password s h one),
    refl,
    with_hash-count (o.argon2_hash s.draws password) user_id s.db.users ∙ one,
  )
  | inr fresh ↦ (s, rw fresh refl, refl, one)
]

pub login-password :
    (o : Outside) (now : Instant) (username password : String) (r : Session) (found : User)
    (h : String)
    → keep (λ u. u.username == username) r.db.users ≡ found ∷ []
    → found.password_hash ≡ some h
    → o.argon2_verify h password ≡ verified
    → length (keep (is_user found.id) r.db.users) ≡ 1
    → (n : ℕ) × (w : Session) × (login o now username password r ≡ (ok (o.token_urlsafe n), w))
      × (w.committed.sessions ≡ session_row o now (o.token_urlsafe n) found.id ∷ r.db.sessions)
      × (length (keep (is_user found.id) w.committed.users) ≡ 1)
unfolding login verify_password
login-password o now username password r found h row hashed checks one =
    let mine = record r { setting = user found.id } in
    let (t, e, same, still) = rehash-keeps o found.id h password mine refl one in
    (
      t.draws,
      (start_session o now found.id t).1,
      rw (row, hashed, checks) (ap (continue_with (λ _. start_session o now found.id)) e),
      ap (λ l. session_row o now (o.token_urlsafe t.draws) found.id ∷ l) same,
      still,
    )

length-one {ℓ} : {A : Type ℓ} (xs : List A) → length xs ≡ 1 → (x : A) × (xs ≡ x ∷ [])
length-one [] h = absurd (omega (arith, h))
length-one (x ∷ []) h = (x, refl)
length-one (x ∷ y ∷ xs) h = absurd (omega (arith, h))

-- The one row of a cookie that is new.
matching_rows :
    (o : Outside) (at : Instant) (raw : String) (row : LoginSession) (older : List LoginSession)
    → matches_cookie o at raw row ≡ true
    → any (λ (x : LoginSession). x.token_hash == hash_token o raw) older ≡ false
    → keep (matches_cookie o at raw) (row ∷ older) ≡ row ∷ []
matching_rows o at raw row older new fresh =
    rw
      (
        new,
        keep-none_any (matches_cookie o at raw) older (
            any-imp (matches_cookie o at raw)
              (λ (x : LoginSession). x.token_hash == hash_token o raw) older
              (λ x m. ground (arith, m)) fresh),
      )
      refl

-- The rest of `authenticate`, with the rows of the user.
abbrev caller_of : Uuid → List User → Action AuthenticatedUser
caller_of user_id users = do
  caller ← lift (one_row users)
  admin_setting caller.is_admin
  pure (record { user_id = user_id; is_admin = caller.is_admin })

admin_setting-ok {ℓ} :
    {A : Type ℓ} (b : Bool) (a : A) (s : Session) → ((admin_setting b >> pure a) s).0 ≡ ok a
admin_setting-ok true a s = refl
admin_setting-ok false a s = refl

authenticate-one :
    (row : LoginSession) (s : Session) (u : User)
    → keep (is_user row.user_id) s.db.users ≡ u ∷ []
    → (authenticate row s).0 ≡ ok (record { user_id = row.user_id; is_admin = u.is_admin })
authenticate-one row s u e =
    let mine = record s { setting = user row.user_id } in
    ap (λ p. (caller_of row.user_id (keep p s.db.users) mine).0) (permits-own mine row.user_id refl)
    ∙ ap (λ us. (caller_of row.user_id us mine).0) e
    ∙ admin_setting-ok u.is_admin (record { user_id = row.user_id; is_admin = u.is_admin }) mine

-- A request with the cookie of the newest login session is let in.
get_current_user-enters :
    (o : Outside) (at : Instant) (raw : String) (s : Session) (row : LoginSession)
    (older : List LoginSession)
    → s.db.sessions ≡ row ∷ older
    → matches_cookie o at raw row ≡ true
    → any (λ (x : LoginSession). x.token_hash == hash_token o raw) older ≡ false
    → length (keep (is_user row.user_id) s.db.users) ≡ 1
    → (admin : Bool) × ((get_current_user o at (some raw) s).0
        ≡ ok (record { user_id = row.user_id; is_admin = admin }))
unfolding get_current_user
get_current_user-enters o at raw s row older h new fresh one =
    let (u, e) = length-one (keep (is_user row.user_id) s.db.users) one in
    let rest = λ (rows : List LoginSession).
      (lift (one_or_none rows) >>= λ found.
      (lift (or_raise found (http_exception 401)) >>= authenticate)) in
    (
      u.is_admin,
      ap (λ rows. (rest rows s).0)
            (ap (keep (matches_cookie o at raw)) h ∙ matching_rows o at raw row older new fresh)
          ∙ authenticate-one row s u e,
    )

-- Where a password verifies against its own hash, a name is taken once, no login session has the hash of a
-- token that can be drawn, after a set-up of the user of this name, a login with the name and the password
-- that was set succeeds, and a request with its cookie, before the cookie expires, acts for the user.
pub set_up-login :
    (o : Outside) (now later at : Instant) (token password username : String) (s t r : Session)
    (found : User)
    → Verifies o
    → set_up o now token password s ≡ (ok tt, t)
    → (consume_either o now token s).0 ≡ ok (some found.id)
    → keep (λ u. u.username == username) s.db.users ≡ found ∷ []
    → r.db ≡ t.committed
    → ((n : ℕ)
        → any (λ (x : LoginSession). x.token_hash == hash_token o (o.token_urlsafe n)) r.db.sessions
          ≡ false)
    → at < later + session_cookie_ttl
    → (raw : String) × (w : Session) × (admin : Bool) × (login o later username password r
        ≡ (ok raw, w))
      × ((get_current_user o at (some raw) (open_session w).1).0
          ≡ ok (record { user_id = found.id; is_admin = admin }))
set_up-login o now later at token password username s t r found checks e consumed row same fresh
      soon =
    let (salt, users, one) = set_up-left o now token password s t found.id e consumed in
    let h = o.argon2_hash salt password in
    let given = record found { password_hash = some h } in
    let table = ap (λ (db : Database). db.users) same ∙ users in
    let (n, w, logged_in, sessions, still) =
      login-password o later username password r given h
        (ap (keep (λ (u : User). u.username == username)) table
          ∙ keep-map (λ (u : User). u.username == username) (λ (u : User). u.username == username)
              (with_hash h found.id) s.db.users (λ (u : User). ground arith)
          ∙ ap (map (with_hash h found.id)) row
          ∙ rw (beq_refl found.id) refl)
        refl (checks salt password)
        (ap (λ us. length (keep (is_user found.id) us)) table
          ∙ with_hash-count h found.id s.db.users
          ∙ one) in
    let (admin, enters) =
      get_current_user-enters o at (o.token_urlsafe n) (open_session w).1
        (session_row o later (o.token_urlsafe n) found.id) r.db.sessions sessions
        (ground (arith, soon, beq_refl (hash_token o (o.token_urlsafe n)))) (fresh n) still in
    (o.token_urlsafe n, w, admin, logged_in, enters)
