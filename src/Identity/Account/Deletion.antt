-- ===== src/Identity/Account/Deletion.antt =====
-- The statements of `delete_account` (src/morai/identity/account.py).
use morai_trading_dashboard.Prelude.{
  integrity_error, Bool, true, false, ◌&&◌, ◌||◌, not, ◌≡◌, refl, ap, ◌∙◌, inl, inr, arith, ◌==◌,
  nat_eq, text_eq, ok, err, Uuid, keep, any, Bool-cases,
}
use morai_trading_dashboard.Db.{Database}
use morai_trading_dashboard.Db.Session.{
  bind-ok, bind-err, Session, Action, ◌>>◌, execute, permits, permits_user,
}
use morai_trading_dashboard.Identity.Account.{
  delete_fills_and_identity, delete_key_and_children, has_child, delete_account, delete_user,
  delete_positions, without, position_in_use,
}

has_child-audited :
    (db : Database) (id : Uuid)
    → any (λ r. r.reader_id == id || r.subject_id == id) db.audit_log ≡ true
    → has_child db id ≡ true
unfolding has_child
has_child-audited db id h = ground (arith, h)

-- Whether an event or leg that the deletion left still names one of the user's positions.
abbrev pub positions_used : Session → Uuid → Bool
positions_used s u =
    any (position_in_use (delete_key_and_children s u s.db)) (
      keep (λ p. permits s p.user_id && p.user_id == u)
        (delete_key_and_children s u s.db).positions)

-- The database before the last statement.
abbrev pub stripped : Session → Uuid → Database
stripped s u =
    let db = delete_key_and_children s u s.db in
    delete_fills_and_identity s u
      (record db { positions = without s u (λ p. p.user_id) db.positions })

delete_positions-ok :
    (s t : Session) (u : Uuid)
    → any (position_in_use t.db) (keep (λ p. permits s p.user_id && p.user_id == u) t.db.positions)
      ≡ false
    → delete_positions s u t ≡ (
      ok tt,
      record t { db = record t.db { positions = without s u (λ p. p.user_id) t.db.positions } },
    )
delete_positions-ok s t u h = rw h refl

delete_positions-err :
    (s t : Session) (u : Uuid)
    → any (position_in_use t.db) (keep (λ p. permits s p.user_id && p.user_id == u) t.db.positions)
      ≡ true
    → delete_positions s u t ≡ (err integrity_error, t)
delete_positions-err s t u h = rw h refl

abbrev user_dangles : Session → Uuid → Database → Bool
user_dangles s u db = any (λ x. permits_user s x.id && x.id == u) db.users && has_child db u

delete_user-err :
    (s t : Session) (u : Uuid)
    → user_dangles s u t.db ≡ true
    → delete_user s u t ≡ (err integrity_error, t)
unfolding delete_user
delete_user-err s t u h = rw h refl

pub delete_user-ok :
    (s t : Session) (u : Uuid)
    → user_dangles s u t.db ≡ false
    → delete_user s u t ≡ (
      ok tt,
      record t {
        db = record t.db { users = keep (λ x. not (permits_user s x.id && x.id == u)) t.db.users };
      },
    )
unfolding delete_user
delete_user-ok s t u h = rw h refl

module _ (u : Uuid) (s : Session) where
  abbrev last_steps : Action (Unit {0})
  last_steps = execute (delete_fills_and_identity s u) >> delete_user s u

  abbrev before_positions : Session
  before_positions = record s { db = delete_key_and_children s u s.db }

  abbrev after_positions : Session
  after_positions = record s {
    db = record before_positions.db {
      positions = without s u (λ p. p.user_id) before_positions.db.positions;
    };
  }

  delete_account-starts : delete_account u s ≡ (delete_positions s u >> last_steps) before_positions
  unfolding delete_account
  delete_account-starts = refl

  delete_account-positions :
      positions_used s u ≡ true → delete_account u s ≡ (err integrity_error, before_positions)
  delete_account-positions h =
      delete_account-starts
      ∙ bind-err (delete_positions s u) (λ _. last_steps) before_positions before_positions
          integrity_error (delete_positions-err s before_positions u h)

  pub delete_account-steps :
      positions_used s u ≡ false
      → delete_account u s ≡ delete_user s u (record s { db = stripped s u })
  delete_account-steps h =
      delete_account-starts
      ∙ bind-ok (delete_positions s u) (λ _. last_steps) before_positions after_positions tt
          (delete_positions-ok s before_positions u h)

-- The deletion of a visible user whom an audit record names, as the reader or as the subject, is refused.
pub delete_account-audited :
    (u : Uuid) (s : Session)
    → any (λ x. permits_user s x.id && x.id == u) s.db.users ≡ true
    → any (λ r. r.reader_id == u || r.subject_id == u) s.db.audit_log ≡ true
    → (delete_account u s).0 ≡ err integrity_error
unfolding delete_key_and_children delete_fills_and_identity
delete_account-audited u s visible audited = elim (Bool-cases (positions_used s u)) [
  | inl used ↦ ap (λ r. r.0) (delete_account-positions u s used)
  | inr free ↦
      ap (λ r. r.0)
        (delete_account-steps u s free
          ∙ delete_user-err s (record s { db = stripped s u }) u
              (rw (visible, has_child-audited (stripped s u) u audited) refl))
]
