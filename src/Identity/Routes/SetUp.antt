-- ===== src/Identity/Routes/SetUp.antt =====
-- A password that is set, and the login with it (src/morai/api/routes_identity.py).
use morai_trading_dashboard.Identity.Routes.{set_up, set_password, consume_either}
use morai_trading_dashboard.Identity.Tokens.{password_reset, setup, TokenPurpose, consume_token}
use mathlib.Core.Path.{fun_ext}
use morai_trading_dashboard.Prelude.{
  http_exception, or_raise, beq→eq, runtime_error, beq_sym, ℕ, suc, String, Bool, ◌&&◌, not, Option,
  none, some, List, [], ◌∷◌, map, ◌≡◌, refl, sym, ap, ◌∙◌, inl, inr, arith, if◌then◌else◌, ◌==◌,
  nat_eq, text_eq, Result, ok, err, Instant, Uuid, keep, length, Bool-cases,
}
use morai_trading_dashboard.Outside.{Outside}
use morai_trading_dashboard.Db.{Database, User}
use morai_trading_dashboard.Db.Session.{
  continue_with, continue_with-ok, user, Session, Action, ◌>>=◌, ◌>>◌, pure, lift, raise_when,
  commit, set_user, permits_user, require_rls_context,
}

abbrev pub with_hash : String → Uuid → User → User
with_hash h user_id u = if u.id == user_id then (record u { password_hash = some h }) else u

-- What `set_password` leaves in the context of the user.
abbrev pub with_password : Outside → Uuid → String → Session → Session
with_password o user_id password s = record s {
  db = record s.db { users = map (with_hash (o.argon2_hash s.draws password) user_id) s.db.users };
  draws = suc s.draws;
}

abbrev pub is_user : Uuid → User → Bool
is_user user_id u = u.id == user_id

pub permits-own :
    (s : Session) (user_id : Uuid)
    → s.setting ≡ user user_id
    → (λ (u : User). permits_user s u.id && u.id == user_id) ≡ is_user user_id
permits-own s user_id h = fun_ext λ u. ground (arith, h, beq_sym u.id user_id)

-- `set_password`, by the rows that its UPDATE matches.
abbrev set_matching : Outside → String → (User → Bool) → Action (Unit {0})
set_matching o password p s =
    raise_when (not (length (keep p s.db.users) == 1)) runtime_error (record s {
      db = record s.db {
        users =
            map
              (λ (u : User).
                if p u
                then (record u { password_hash = some (o.argon2_hash s.draws password) })
                else u)
              s.db.users;
      };
      draws = suc s.draws;
    })

set_password-matching :
    (o : Outside) (user_id : Uuid) (password : String) (s : Session)
    → s.setting ≡ user user_id
    → set_password o user_id password s ≡ set_matching o password (is_user user_id) s
set_password-matching o user_id password s h =
    ap (λ p. set_matching o password p s) (permits-own s user_id h)

pub set_password-own :
    (o : Outside) (user_id : Uuid) (password : String) (s : Session)
    → s.setting ≡ user user_id
    → length (keep (is_user user_id) s.db.users) ≡ 1
    → set_password o user_id password s ≡ (ok tt, with_password o user_id password s)
set_password-own o user_id password s h one =
    set_password-matching o user_id password s h
    ∙ ap (λ n. raise_when (not (n == 1)) runtime_error (with_password o user_id password s)) one

set_password-one :
    (o : Outside) (user_id : Uuid) (password : String) (s t : Session)
    → s.setting ≡ user user_id
    → set_password o user_id password s ≡ (ok tt, t)
    → length (keep (is_user user_id) s.db.users) ≡ 1
set_password-one o user_id password s t h e =
    let done = sym (set_password-matching o user_id password s h) ∙ e in
    elim (Bool-cases (length (keep (is_user user_id) s.db.users) == 1)) [
      | inl same ↦ beq→eq _ 1 same
      | inr other ↦ ground (arith, ap (λ p. p.0) done, other)
    ]

consume_token-users :
    (o : Outside) (now : Instant) (raw : String) (purpose : TokenPurpose) (s : Session)
    → (consume_token o now raw purpose s).1.db.users ≡ s.db.users
unfolding consume_token
consume_token-users o now raw purpose s = ground arith

-- After the first of the two.
either-users :
    (o : Outside) (now : Instant) (raw : String) (db : Database)
    (p : Result (Option Uuid) × Session)
    → p.1.db.users ≡ db.users
    → (continue_with
        (λ first. elim first [
          | some user_id ↦ pure (some user_id)
          | none ↦ consume_token o now raw password_reset
        ])
        p).1.db.users
      ≡ db.users
either-users o now raw db (err e, t) h = h
either-users o now raw db (ok (some u), t) h = h
either-users o now raw db (ok none, t) h = consume_token-users o now raw password_reset t ∙ h

consume_either-users :
    (o : Outside) (now : Instant) (raw : String) (s : Session)
    → (consume_either o now raw s).1.db.users ≡ s.db.users
consume_either-users o now raw s =
    either-users o now raw s.db (consume_token o now raw setup s)
      (consume_token-users o now raw setup s)

pub keep-map {ℓ κ} :
    {A : Type ℓ} {B : Type κ} (p : B → Bool) (q : A → Bool) (f : A → B) (xs : List A)
    → ((x : A) → p (f x) ≡ q x)
    → keep p (map f xs) ≡ map f (keep q xs)
keep-map p q f [] h = refl
keep-map p q f (x ∷ xs) h = ground (arith, h x, keep-map p q f xs h)

-- A set-up that returns: what it left.
pub set_up-left :
    (o : Outside) (now : Instant) (token password : String) (s t : Session) (user_id : Uuid)
    → set_up o now token password s ≡ (ok tt, t)
    → (consume_either o now token s).0 ≡ ok (some user_id)
    → (salt : ℕ) × (t.committed.users
        ≡ map (with_hash (o.argon2_hash salt password) user_id) s.db.users)
      × (length (keep (is_user user_id) s.db.users) ≡ 1)
unfolding set_up require_rls_context
set_up-left o now token password s t user_id e c =
    let consumed = (consume_either o now token s).1 in
    let mine = record consumed { setting = user user_id } in
    let same_users = consume_either-users o now token s in
    let rest = λ (first : Option Uuid).
      (lift (or_raise first (http_exception 400)) >>= λ id.
      (set_user id
        >> (require_rls_context >>= λ context. (set_password o id password >> commit)))) in
    let entered = sym (ap (λ r. continue_with rest (r, consumed)) c) ∙ e in
    let (a, r, written, committed) =
      continue_with-ok (λ (_ : Unit {0}). commit) (set_password o user_id password mine) tt t
        entered in
    let one = set_password-one o user_id password mine r refl written in
    (
      consumed.draws,
      sym (ap (λ p. p.1.committed.users) committed)
          ∙ ap (λ p. p.1.db.users) (sym written ∙ set_password-own o user_id password mine refl one)
          ∙ ap (map (with_hash (o.argon2_hash consumed.draws password) user_id)) same_users,
      ap (λ l. length (keep (is_user user_id) l)) (sym same_users) ∙ one,
    )
