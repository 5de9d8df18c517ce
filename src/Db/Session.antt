-- ===== src/Db/Session.antt =====
-- One database session: what its transaction sees, what is committed, the transaction-local setting
-- settings `app.current_user_id` and `app.is_admin`, and how many random values were drawn.
use morai_trading_dashboard.Prelude.{
  ◌≡◌, refl, ap, ℕ, suc, Bool, true, false, ◌==◌, nat_eq, ◌||◌, Uuid, Result, ok, err, Error,
  value_error, rls_context_missing,
}
use morai_trading_dashboard.Db.{Database}

-- `current_setting('app.current_user_id', true)`: NULL before the first `set_config` on a
-- connection, the empty text after the transaction that set it has ended.
pub data Setting : Type 0 where
  null blank : Setting
  user : Uuid → Setting

pub record Session : Type 0 where
  pub db : Database
  pub committed : Database
  pub setting : Setting
  pub admin : Bool
  pub draws : ℕ

-- A call on the session. What it wrote before a raise stays in its transaction.
abbrev pub Action {ℓ} : Type ℓ → Type ℓ
Action A = Session → Result A × Session

module _ {ℓ κ} {A : Type ℓ} {B : Type κ} where
  abbrev pub continue_with : (A → Action B) → Result A × Session → Result B × Session
  continue_with f (ok a, t) = f a t
  continue_with f (err e, t) = (err e, t)

  -- A bind that returns: both of its parts did.
  pub continue_with-ok :
      (f : A → Action B) (p : Result A × Session) (b : B) (t : Session)
      → continue_with f p ≡ (ok b, t)
      → (a : A) × (r : Session) × (p ≡ (ok a, r)) × (f a r ≡ (ok b, t))
  continue_with-ok f (ok a, r) b t h = (a, r, refl, h)
  continue_with-ok f (err e, r) b t h = cc

infixl 5 ◌>>=◌ ◌>>◌
abbrev pub ◌>>=◌ {ℓ κ} : {A : Type ℓ} {B : Type κ} → Action A → (A → Action B) → Action B
◌>>=◌ m f s = continue_with f (m s)

abbrev pub ◌>>◌ {ℓ} : {B : Type ℓ} → Action (Unit {0}) → Action B → Action B
m >> k = m >>= λ _. k

module _ {ℓ κ} {A : Type ℓ} {B : Type κ} (m : Action A) (f : A → Action B) (s t : Session) where
  -- The run of a bind, after the run of its first part.
  pub bind-ok : (a : A) → m s ≡ (ok a, t) → (m >>= f) s ≡ f a t
  bind-ok a h = ap (continue_with f) h

  pub bind-err : (e : Error) → m s ≡ (err e, t) → (m >>= f) s ≡ (err e, t)
  bind-err e h = ap (continue_with f) h

module _ {ℓ} {A : Type ℓ} where
  abbrev pub pure : A → Action A
  pure a s = (ok a, s)

  abbrev pub raise : Error → Action A
  raise e s = (err e, s)

  abbrev pub lift : Result A → Action A
  lift r s = (r, s)

  -- A read of the tables.
  abbrev pub query : (Database → A) → Action A
  query f s = (ok (f s.db), s)

abbrev pub execute : (Database → Database) → Action (Unit {0})
execute f s = (ok tt, record s { db = f s.db })

abbrev pub raise_when : Bool → Error → Action (Unit {0})
raise_when true e = raise e
raise_when false e = pure tt

abbrev pub end_setting : Setting → Setting
end_setting null = null
end_setting _ = blank

abbrev pub commit : Action (Unit {0})
commit s = (ok tt, record s { committed = s.db; setting = end_setting s.setting; admin = false })

abbrev pub rollback : Action (Unit {0})
rollback s = (ok tt, record s { db = s.committed; setting = end_setting s.setting; admin = false })

-- A new session of the pool: nothing but what is committed.
abbrev pub open_session : Action (Unit {0})
open_session s = (ok tt, record s { db = s.committed; setting = null; admin = false })

-- `SELECT set_config('app.current_user_id', :uid, true)`
abbrev pub set_user : Uuid → Action (Unit {0})
set_user u s = (ok tt, record s { setting = user u })

-- `SELECT set_config('app.is_admin', 'true', true)`
abbrev pub set_admin : Action (Unit {0})
set_admin s = (ok tt, record s { admin = true })

-- The policy `user_id = current_setting('app.current_user_id', true)::uuid` of a table. Without a user
-- no row passes; a blank setting makes the cast fail, and no route reads a protected table then.
abbrev pub permits : Session → Uuid → Bool
permits s owner = elim s.setting [ null ↦ false | blank ↦ false | user u ↦ u == owner ]

-- The policy `self_or_admin` of `users`.
abbrev pub permits_user : Session → Uuid → Bool
permits_user s id = permits s id || s.admin

abbrev pub get_session : Action Session
get_session s = (ok s, s)

-- The next random value of a source.
abbrev pub draw {ℓ} : {A : Type ℓ} → (ℕ → A) → Action A
draw source s = (ok (source s.draws), record s { draws = suc s.draws })

-- `UUID('')` raises a ValueError: the error for a missing context is raised only on NULL.
abbrev context_of : Setting → Result Uuid
context_of null = err rls_context_missing
context_of blank = err value_error
context_of (user u) = ok u

unfoldable pub require_rls_context : Action Uuid
require_rls_context s = (context_of s.setting, s)
