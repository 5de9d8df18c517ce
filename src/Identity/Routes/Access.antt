-- ===== src/Identity/Routes/Access.antt =====
-- Who a request acts for, what it reads, and logout (src/morai/identity/sessions.py and
-- src/morai/api/routes_identity.py).
use morai_trading_dashboard.Prelude.{
  keep-rejected, http_exception, one_or_none, ok-inj, Error, or_raise, String, Bool, true, false,
  ◌&&◌, Option, none, some, List, [], ◌∷◌, map, ◌≡◌, refl, sym, ap, ◌∙◌, inl, inr, arith, ◌==◌,
  nat_eq, text_eq, ok, err, Instant, keep, Bool-cases,
}
use morai_trading_dashboard.Outside.{Outside}
use morai_trading_dashboard.Db.{LoginSession}
use morai_trading_dashboard.Db.Session.{
  continue_with-ok, user, Session, ◌>>=◌, ◌>>◌, pure, lift, query, commit, permits, permits_user,
  get_session, user,
}
use morai_trading_dashboard.Identity.Tokens.{hash_token}
use morai_trading_dashboard.Identity.Sessions.{
  AuthenticatedUser, get_current_user, matches_cookie, authenticate, admin_setting, one_row,
}
use morai_trading_dashboard.Identity.Routes.{
  delete_session, PositionResponse, position_response, list_positions, logout,
}

admin_setting-keeps :
    (b : Bool) (s t : Session) (x : Unit {0})
    → admin_setting b s ≡ (ok x, t)
    → (t.db ≡ s.db) × (t.setting ≡ s.setting)
admin_setting-keeps true s t x h = (ap (λ r. r.1.db) (sym h), ap (λ r. r.1.setting) (sym h))
admin_setting-keeps false s t x h = (ap (λ r. r.1.db) (sym h), ap (λ r. r.1.setting) (sym h))

-- A row among those that a test keeps.
keep-one : {A : Type 0} → (p : A → Bool) (a : A) (xs : List A) → keep p xs ≡ a ∷ [] → p a ≡ true
keep-one p a [] h = cc
keep-one p a (x ∷ xs) h = elim (Bool-cases (p x)) [
  | inl y ↦ ground (arith, y, h, λ (e : x ≡ a). ap p e)
  | inr n ↦ ground (arith, n, keep-one p a xs, h)
]

authenticate-ok :
    (row : LoginSession) (s t : Session) (u : AuthenticatedUser)
    → authenticate row s ≡ (ok u, t)
    → (u.user_id ≡ row.user_id) × (t.setting ≡ user row.user_id) × (t.db ≡ s.db)
authenticate-ok row s t u h =
    let s₁ = record s { setting = user row.user_id } in
    let (caller, r, e, k) =
      continue_with-ok
        (λ caller.
          admin_setting caller.is_admin
          >> pure (record { user_id = row.user_id; is_admin = caller.is_admin }))
        (lift (one_row (keep (λ u. permits_user s₁ u.id && u.id == row.user_id) s.db.users)) s₁) u t
        h in
    let (x, r', e', k') =
      continue_with-ok (λ _. pure (record { user_id = row.user_id; is_admin = caller.is_admin }))
        (admin_setting caller.is_admin r) u t k in
    let (same_db, same_setting) = admin_setting-keeps caller.is_admin r r' x e' in
    (
      ap (λ v. v.user_id) (sym (ok-inj (ap (λ p. p.0) k'))),
      ap (λ p. p.1.setting) (sym k') ∙ same_setting ∙ ap (λ p. p.1.setting) (sym e),
      ap (λ p. p.1.db) (sym k') ∙ same_db ∙ ap (λ p. p.1.db) (sym e),
    )

one_or_none-some : {A : Type 0} → (xs : List A) (a : A) → one_or_none xs ≡ ok (some a) → xs ≡ a ∷ []
one_or_none-some [] a h = cc
one_or_none-some (x ∷ []) a h = cc
one_or_none-some (x ∷ y ∷ xs) a h = cc

or_raise-ok : {A : Type 0} → (o : Option A) (e : Error) (a : A) → or_raise o e ≡ ok a → o ≡ some a
or_raise-ok none e a h = cc
or_raise-ok (some b) e a h = cc

pub get_current_user-ok :
    (o : Outside) (now : Instant) (cookie : Option String) (s t : Session) (u : AuthenticatedUser)
    → get_current_user o now cookie s ≡ (ok u, t)
    → (c : String) × (row : LoginSession) × (cookie ≡ some c)
      × (keep (matches_cookie o now c) s.db.sessions ≡ row ∷ [])
      × (u.user_id ≡ row.user_id)
      × (t.setting ≡ user u.user_id)
      × (t.db ≡ s.db)
unfolding get_current_user
get_current_user-ok o now none s t u h = cc
get_current_user-ok o now (some c) s t u h =
    let rows = keep (matches_cookie o now c) s.db.sessions in
    let (found, r, e, k) =
      continue_with-ok (λ found. lift (or_raise found (http_exception 401)) >>= authenticate)
        (lift (one_or_none rows) s) u t h in
    let (row, r', e', k') =
      continue_with-ok authenticate (lift (or_raise found (http_exception 401)) r) u t k in
    let (id, setting, db) = authenticate-ok row r' t u k' in
    let one =
      one_or_none-some rows row
        (ap (λ p. p.0) e ∙ ap ok (or_raise-ok found (http_exception 401) row (ap (λ p. p.0) e'))) in
    (
      c,
      row,
      refl,
      one,
      id,
      setting ∙ ap user (sym id),
      db ∙ ap (λ p. p.1.db) (sym e') ∙ ap (λ p. p.1.db) (sym e),
    )

-- The positions that a request lists are those of the user it acts for, all of them and no others.
pub list_positions-own :
    (o : Outside) (now : Instant) (cookie : Option String) (s t : Session)
    (rs : List PositionResponse)
    → list_positions o now cookie s ≡ (ok rs, t)
    → (u : AuthenticatedUser) × (r : Session) × (get_current_user o now cookie s ≡ (ok u, r))
      × (rs ≡ map position_response (keep (λ p. u.user_id == p.user_id) s.db.positions))
unfolding list_positions
list_positions-own o now cookie s t rs h =
    let (u, r, e, k) =
      continue_with-ok
        (λ user. get_session >>= λ s.
          query (λ db. keep (λ p. permits s p.user_id) db.positions) >>= λ rows.
          pure (map position_response rows))
        (get_current_user o now cookie s) rs t h in
    let (c, row, f, m, id, setting, db) = get_current_user-ok o now cookie s r u e in
    (
      u,
      r,
      e,
      sym (ok-inj (ap (λ p. p.0) k))
          ∙ ap
              (λ st.
                map position_response
                  (keep (λ p. permits (record r { setting = st }) p.user_id) r.db.positions))
              setting
          ∙ ap (λ d. map position_response (keep (λ p. u.user_id == p.user_id) d.positions)) db,
    )

get_current_user-refuses :
    (o : Outside) (now : Instant) (c : String) (s : Session)
    → keep (matches_cookie o now c) s.db.sessions ≡ []
    → (get_current_user o now (some c) s).0 ≡ err (http_exception 401)
unfolding get_current_user
get_current_user-refuses o now c s h = rw h refl

-- After a logout, no request on what it committed is let in with the cookie, whatever the time.
pub logout-revokes :
    (o : Outside) (now later : Instant) (c : String) (s t next : Session)
    → logout o now (some c) s ≡ (ok tt, t)
    → next.db ≡ t.committed
    → (get_current_user o later (some c) next).0 ≡ err (http_exception 401)
unfolding logout
logout-revokes o now later c s t next h fresh =
    let (u, r, e, k) =
      continue_with-ok
        (λ user. lift (or_raise (some c) (http_exception 401)) >>= λ token.
          delete_session o token >> commit)
        (get_current_user o now (some c) s) tt t h in
    get_current_user-refuses o later c next (
      ap (λ db. keep (matches_cookie o later c) db.sessions)
        (fresh ∙ ap (λ p. p.1.committed) (sym k))
      ∙ keep-rejected (matches_cookie o later c) (λ r. r.token_hash == hash_token o c) r.db.sessions
          (λ x m. ground (arith, m)))
