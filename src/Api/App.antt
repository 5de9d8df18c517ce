-- ===== src/Api/App.antt =====
-- The start of the web process and its liveness probe (src/morai/api/app.py).
use morai_trading_dashboard.Identity.Rls.{
  create_app_role-asserted, create_app_role-locked_out, can_bypass, app_role, roles_named,
  assert_connection_cannot_bypass_rls, create_app_role, Catalogue,
}
use morai_trading_dashboard.Prelude.{
  not, runtime_error, ◌≤◌, String, false, Option, ◌≡◌, ap, if◌then◌else◌, nat_eq, text_eq, ok, err,
  any, length,
}
use morai_trading_dashboard.Db.Session.{null, open_session, Session, Action, ◌>>◌, pure}

-- Up to the `yield`: a session of the pool, and the check of its role.
unfoldable pub lifespan : Catalogue → Action (Unit {0})
lifespan catalogue = open_session >> assert_connection_cannot_bypass_rls catalogue

pub record HealthResponse : Type 0 where
  pub status : String

abbrev pub health : Action HealthResponse
health = pure (record { status = "ok" })

pub lifespan-create_app_role :
    (password : Option String) (c d : Catalogue) (s : Session)
    → create_app_role password c ≡ ok d
    → length (roles_named app_role c) ≤ 1
    → ((lifespan (record d { current_user = app_role }) s).0
        ≡ (if any can_bypass (roles_named app_role c) then err runtime_error else ok tt))
      × (any (λ r. not r.rolcanlogin) (roles_named app_role d)
          ≡ any (λ r. not r.rolcanlogin) (roles_named app_role c))
unfolding lifespan
lifespan-create_app_role password c d s h few = (
  ap (λ p. p.0)
      (create_app_role-asserted password c d
        (record s { db = s.committed; setting = null; admin = false }) h few),
  create_app_role-locked_out password c d h,
)
