-- ===== src/Identity/Routes/Audit.antt =====
-- The audit of a password reset (src/morai/api/routes_identity.py, src/morai/identity/audit.py).
use morai_trading_dashboard.Prelude.{
  ok-inj, integrity_error, http_exception, Error, String, Bool, true, false, ◌&&◌, not, Option,
  none, some, ◌∷◌, ◌≡◌, refl, sym, ap, ◌∙◌, inl, inr, arith, ◌==◌, nat_eq, text_eq, ok, err,
  Instant, Uuid, any, Bool-cases,
}
use morai_trading_dashboard.Outside.{Outside}
use morai_trading_dashboard.Db.{Database, User, AuditLog}
use morai_trading_dashboard.Db.Session.{continue_with-ok, Session, ◌>>=◌, ◌>>◌, pure, raise_when}
use morai_trading_dashboard.Identity.Tokens.{issue_token}
use morai_trading_dashboard.Identity.Sessions.{
  AuthenticatedUser, get_current_user, get_current_admin,
}
use morai_trading_dashboard.Identity.Account.{
  AuditedRead, open_audited_read, get_user_for_management,
}
use morai_trading_dashboard.Identity.Routes.{reset_password, audited_or_404, issue_reset}
use morai_trading_dashboard.Identity.Routes.Access.{get_current_user-ok}

pub raise_when-ok :
    (b : Bool) (e : Error) (s t : Session) (x : Unit {0})
    → raise_when b e s ≡ (ok x, t)
    → (b ≡ false) × (t.db ≡ s.db)
raise_when-ok true e s t x h = cc
raise_when-ok false e s t x h = (refl, ap (λ p. p.1.db) (sym h))

pub get_current_admin-ok :
    (o : Outside) (now : Instant) (cookie : Option String) (s t : Session) (u : AuthenticatedUser)
    → get_current_admin o now cookie s ≡ (ok u, t)
    → (u.is_admin ≡ true) × (t.db ≡ s.db)
unfolding get_current_admin
get_current_admin-ok o now cookie s t u h =
    let (v, r, e, k) =
      continue_with-ok (λ v. raise_when (not v.is_admin) (http_exception 404) >> pure v)
        (get_current_user o now cookie s) u t h in
    let (x, r', e', k') =
      continue_with-ok (λ _. pure v) (raise_when (not v.is_admin) (http_exception 404) r) u t k in
    let (is_yes, d') = raise_when-ok (not v.is_admin) (http_exception 404) r r' x e' in
    let (c, row, f, m, i, g, d) = get_current_user-ok o now cookie s r v e in
    (
      ap (λ w. w.is_admin) (sym (ok-inj (ap (λ p. p.0) k'))) ∙ ground (arith, is_yes),
      ap (λ p. p.1.db) (sym k') ∙ d' ∙ d,
    )

abbrev read_of : Uuid → Uuid → AuditLog
read_of reader_id subject_id = record { reader_id = reader_id; subject_id = subject_id }

abbrev both_known : Uuid → Uuid → Database → Bool
both_known reader subject db =
    any (λ u. u.id == reader) db.users && any (λ u. u.id == subject) db.users

abbrev with_read : Uuid → Uuid → Session → Session
with_read reader subject s = record s {
  db = record s.db { audit_log = read_of reader subject ∷ s.db.audit_log };
}

open-known :
    (reader subject : Uuid) (s : Session)
    → both_known reader subject s.db ≡ true
    → open_audited_read reader subject s
      ≡ (ok (record { reader_id = reader; subject_id = subject }), with_read reader subject s)
unfolding open_audited_read
open-known reader subject s h = rw h refl

open-unknown :
    (reader subject : Uuid) (s : Session)
    → both_known reader subject s.db ≡ false
    → open_audited_read reader subject s ≡ (err integrity_error, s)
unfolding open_audited_read
open-unknown reader subject s h = rw h refl

audited-ok :
    (reader subject : Uuid) (s t : Session) (proof : AuditedRead)
    → audited_or_404 (open_audited_read reader subject s) ≡ (ok proof, t)
    → t.db.audit_log ≡ read_of reader subject ∷ s.db.audit_log
audited-ok reader subject s t proof h = elim (Bool-cases (both_known reader subject s.db)) [
  | inl known ↦
      ap (λ p. p.1.db.audit_log) (sym h ∙ ap audited_or_404 (open-known reader subject s known))
  | inr unknown ↦
      let refused : err (http_exception 404) ≡ ok proof =
        ap (λ p. p.0) (sym (ap audited_or_404 (open-unknown reader subject s unknown)) ∙ h) in
      cc
]

issue_reset-ok :
    (o : Outside) (now : Instant) (target : Option User) (s t : Session) (raw : String)
    → issue_reset o now target s ≡ (ok raw, t)
    → t.committed.audit_log ≡ s.db.audit_log
unfolding issue_token
issue_reset-ok o now none s t raw h = cc
issue_reset-ok o now (some u) s t raw h = ap (λ p. p.1.committed.audit_log) (sym h)

managed-ok :
    (proof : AuditedRead) (s t : Session) (target : Option User)
    → get_user_for_management proof s ≡ (ok target, t)
    → t.db ≡ s.db
unfolding get_user_for_management
managed-ok proof s t target h = ap (λ p. p.1.db) (sym h)

-- A password reset that returns a token was asked for by an administrator, and committed the audit record of this
-- administrator's read of the user.
pub reset_password-audited :
    (o : Outside) (now : Instant) (cookie : Option String) (user_id : Uuid) (s t : Session)
    (raw : String)
    → reset_password o now cookie user_id s ≡ (ok raw, t)
    → (admin : AuthenticatedUser) × (r : Session) × (get_current_admin o now cookie s
        ≡ (ok admin, r))
      × (admin.is_admin ≡ true)
      × (t.committed.audit_log
          ≡ record { reader_id = admin.user_id; subject_id = user_id } ∷ s.db.audit_log)
unfolding reset_password
reset_password-audited o now cookie user_id s t raw h =
    let (admin, r, e, k) =
      continue_with-ok
        (λ admin. (λ s. audited_or_404 (open_audited_read admin.user_id user_id s)) >>= λ proof.
          get_user_for_management proof >>= λ target. issue_reset o now target)
        (get_current_admin o now cookie s) raw t h in
    let (proof, r₂, e₂, k₂) =
      continue_with-ok
        (λ proof. get_user_for_management proof >>= λ target. issue_reset o now target)
        (audited_or_404 (open_audited_read admin.user_id user_id r)) raw t k in
    let (target, r₃, e₃, k₃) =
      continue_with-ok (λ target. issue_reset o now target) (get_user_for_management proof r₂) raw t
        k₂ in
    let (is_yes, d) = get_current_admin-ok o now cookie s r admin e in
    (
      admin,
      r,
      e,
      is_yes,
      issue_reset-ok o now target r₃ t raw k₃
          ∙ ap (λ d. d.audit_log) (managed-ok proof r₂ r₃ target e₃)
          ∙ audited-ok admin.user_id user_id r r₂ proof e₂
          ∙ ap (λ d. read_of admin.user_id user_id ∷ d.audit_log) d,
    )
