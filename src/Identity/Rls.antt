-- ===== src/Identity/Rls.antt =====
-- The check of the connection's role (src/morai/identity/rls.py), and the role that
-- alembic/versions/0003_identity_and_rls.py creates.
use morai_trading_dashboard.Identity.Sessions.{one_row}
use morai_trading_dashboard.Prelude.{
  bind, or_raise, raise_if, runtime_error, ◌≤◌, String, Bool, true, false, ◌||◌, not, Option, List,
  [], ◌∷◌, ◌≡◌, refl, sym, ap, ◌∙◌, arith, if◌then◌else◌, ◌==◌, nat_eq, text_eq, Result, ok, err,
  keep, any, length,
}
use morai_trading_dashboard.Db.Session.{Session, Action, ◌>>=◌, lift, raise_when}

pub record Role : Type 0 where
  pub rolname : String
  pub rolsuper : Bool
  pub rolbypassrls : Bool
  pub rolcanlogin : Bool

-- `pg_roles` and `current_user` of a connection.
pub record Catalogue : Type 0 where
  pub pg_roles : List Role
  pub current_user : String

abbrev pub roles_named : String → Catalogue → List Role
roles_named name c = keep (λ r. r.rolname == name) c.pg_roles

abbrev pub can_bypass : Role → Bool
can_bypass r = r.rolsuper || r.rolbypassrls

unfoldable pub assert_connection_cannot_bypass_rls : Catalogue → Action (Unit {0})
assert_connection_cannot_bypass_rls c = do
  row ← lift (one_row (roles_named c.current_user c))
  raise_when (can_bypass row) runtime_error

abbrev pub app_role : String
app_role = "morai_app"

-- `CREATE ROLE morai_app WITH LOGIN NOSUPERUSER NOBYPASSRLS`
abbrev pub new_app_role : Role
new_app_role = record {
  rolname = app_role;
  rolsuper = false;
  rolbypassrls = false;
  rolcanlogin = true;
}

-- A role that is there already keeps its flags: only its password is altered.
abbrev pub with_app_role : Catalogue → Catalogue
with_app_role c =
    if any (λ r. r.rolname == app_role) c.pg_roles
    then c
    else (record c { pg_roles = new_app_role ∷ c.pg_roles })

-- The first statements of the migration, with `MORAI_APP_DB_PASSWORD` of its environment.
unfoldable pub create_app_role : Option String → Catalogue → Result Catalogue
create_app_role password c = bind (one_row (roles_named c.current_user c)) λ row.
    bind (raise_if (not row.rolsuper) runtime_error)
      λ _. bind (or_raise password runtime_error) λ value. ok (with_app_role c)

create_app_role-ok :
    (password : Option String) (c d : Catalogue)
    → create_app_role password c ≡ ok d
    → with_app_role c ≡ d
unfolding create_app_role
create_app_role-ok password c d h = ground (arith, h)

-- The check by the one role of the connection.
pub assert-Confined :
    (c : Catalogue) (s : Session) (r : Role)
    → roles_named c.current_user c ≡ r ∷ []
    → can_bypass r ≡ false
    → assert_connection_cannot_bypass_rls c s ≡ (ok tt, s)
unfolding assert_connection_cannot_bypass_rls
assert-Confined c s r one h = rw (one, h) refl

pub assert-refuses :
    (c : Catalogue) (s : Session) (r : Role)
    → roles_named c.current_user c ≡ r ∷ []
    → can_bypass r ≡ true
    → assert_connection_cannot_bypass_rls c s ≡ (err runtime_error, s)
unfolding assert_connection_cannot_bypass_rls
assert-refuses c s r one h = rw (one, h) refl

any-named :
    (rows : List Role)
    → any (λ r. r.rolname == app_role) rows
      ≡ any (λ (r : Role). true) (keep (λ r. r.rolname == app_role) rows)
any-named [] = refl
any-named (r ∷ rows) = ground (arith, any-named rows)

-- The check of one role, or of two.
abbrev asserted : List Role → Result (Unit {0})
asserted rows = bind (one_row rows) λ row. raise_if (can_bypass row) runtime_error

assert-asserted :
    (c : Catalogue) (s : Session)
    → assert_connection_cannot_bypass_rls c s ≡ (asserted (roles_named c.current_user c), s)
unfolding assert_connection_cannot_bypass_rls
assert-asserted c s = ground arith

asserted-one :
    (rows : List Role)
    → length rows ≤ 1
    → asserted (if any (λ (r : Role). true) rows then rows else new_app_role ∷ rows)
      ≡ (if any can_bypass rows then err runtime_error else ok tt)
asserted-one [] h = refl
asserted-one (r ∷ []) h = ground arith
asserted-one (r ∷ q ∷ rows) h = absurd (omega (arith, h))

named-with_app_role :
    (c : Catalogue)
    → roles_named app_role (with_app_role c) ≡ (
        if any (λ (r : Role). true) (roles_named app_role c)
        then roles_named app_role c
        else new_app_role ∷ roles_named app_role c)
named-with_app_role c = ground (arith, any-named c.pg_roles)

-- A connection as the application's role after the migration is refused exactly where that role was there
-- before with a flag that bypasses the policies.
pub create_app_role-asserted :
    (password : Option String) (c d : Catalogue) (s : Session)
    → create_app_role password c ≡ ok d
    → length (roles_named app_role c) ≤ 1
    → assert_connection_cannot_bypass_rls (record d { current_user = app_role }) s
      ≡ ((if any can_bypass (roles_named app_role c) then err runtime_error else ok tt), s)
unfolding create_app_role assert_connection_cannot_bypass_rls
create_app_role-asserted password c d s h few =
    assert-asserted (record d { current_user = app_role }) s
    ∙ ap (λ r. (r, s))
        (ap (λ e. asserted (roles_named app_role e)) (sym (create_app_role-ok password c d h))
          ∙ ap asserted (named-with_app_role c)
          ∙ asserted-one (roles_named app_role c) few)

locked_out-named :
    (rows : List Role)
    → any
        (λ r. not r.rolcanlogin)
        (if any (λ (r : Role). true) rows then rows else new_app_role ∷ rows)
      ≡ any (λ r. not r.rolcanlogin) rows
locked_out-named [] = refl
locked_out-named (r ∷ rows) = refl

-- The migration lets a role log in that it creates, and none that was there.
pub create_app_role-locked_out :
    (password : Option String) (c d : Catalogue)
    → create_app_role password c ≡ ok d
    → any (λ r. not r.rolcanlogin) (roles_named app_role d)
      ≡ any (λ r. not r.rolcanlogin) (roles_named app_role c)
create_app_role-locked_out password c d h =
    ap (λ e. any (λ r. not r.rolcanlogin) (roles_named app_role e))
      (sym (create_app_role-ok password c d h))
    ∙ ap (any (λ r. not r.rolcanlogin)) (named-with_app_role c)
    ∙ locked_out-named (roles_named app_role c)
