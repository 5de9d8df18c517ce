-- ===== src/Identity/Account.antt =====
-- Audited reads of another user's row, and the deletion of an account (src/morai/identity/audit.py,
-- src/morai/identity/account.py). A delete passes over the rows that a policy hides; a foreign key that a
-- delete would leave dangling refuses it.
pub mod Deletion
pub mod Erasure
use morai_trading_dashboard.Prelude.{
  integrity_error, one_or_none, ℕ, zero, suc, ◌+◌, ◌≤◌, ◌<◌, String, Bool, true, false, ◌&&◌, ◌||◌,
  not, Option, none, some, List, [], ◌∷◌, ◌++◌, map, ◌≡◌, refl, sym, ap, ◌∙◌, ◌⊎◌, inl, inr, arith,
  if◌then◌else◌, Eq, ◌==◌, nat_eq, text_eq, Result, ok, err, Instant, Duration, Uuid, keep, any,
  length, Bool-cases, Option-cases, Result-cases, beq_refl,
}
use morai_trading_dashboard.Outside.{Outside}
use morai_trading_dashboard.Db.{Database, User, LoginSession, SetupToken, AuditLog, Position, Bytes}
use morai_trading_dashboard.Db.Session.{
  Session, Action, ◌>>=◌, ◌>>◌, pure, raise, lift, query, execute, raise_when, commit, rollback,
  set_user, set_admin, permits, permits_user, get_session, draw, require_rls_context, Setting,
}
use morai_trading_dashboard.Identity.Sessions.{select_user}

-- Only `open_audited_read` makes one.
pub record AuditedRead : Type 0 where
  pub reader_id : Uuid
  pub subject_id : Uuid

abbrev is_user : Uuid → User → Bool
is_user id u = u.id == id

-- The INSERT fails when a foreign key names no user.
unfoldable pub open_audited_read : Uuid → Uuid → Action AuditedRead
open_audited_read reader_id subject_id = do
  known ← query (λ db. any (is_user reader_id) db.users && any (is_user subject_id) db.users)
  raise_when (not known) integrity_error
  execute (λ db. record db {
    audit_log = (record { reader_id = reader_id; subject_id = subject_id }) ∷ db.audit_log;
  })
  pure (record { reader_id = reader_id; subject_id = subject_id })

unfoldable pub get_user_for_management : AuditedRead → Action (Option User)
get_user_for_management proof = do users ← select_user proof.subject_id; lift (one_or_none users)

-- `delete(Table).where(Table.user_id == user_id)` on a table with the policy of its owner.
abbrev pub without {ℓ} : {A : Type ℓ} → Session → Uuid → (A → Uuid) → List A → List A
without s user_id owner rows = keep (λ r. not (permits s (owner r) && owner r == user_id)) rows

-- The events, and the legs, that name a position of the list.
abbrev pub position_in_use : Database → Position → Bool
position_in_use db p =
    any (λ e. e.position_id == p.id) db.events || any (λ l. l.position_id == p.id) db.legs

abbrev pub delete_positions : Session → Uuid → Action (Unit {0})
delete_positions s user_id = do
  used ← query (λ db.
      any (position_in_use db)
        (keep (λ p. permits s p.user_id && p.user_id == user_id) db.positions))
  raise_when used integrity_error
  execute (λ db. record db { positions = without s user_id (λ p. p.user_id) db.positions })

-- Whether a row of a table with a foreign key to `users` names the user.
pub has_child : Database → Uuid → Bool
has_child db id =
    any (λ r. r.user_id == id) db.sessions
    || (any (λ r. r.user_id == id) db.setup_tokens
        || (any (λ r. r.reader_id == id || r.subject_id == id) db.audit_log
            || (any (λ r. r.user_id == id) db.user_data_keys
                || (any (λ r. r.user_id == id) db.fills
                    || (any (λ r. r.user_id == id) db.positions
                        || (any (λ r. r.user_id == id) db.legs
                            || (any (λ r. r.user_id == id) db.events
                                || (any (λ r. r.user_id == id) db.schwab_connections
                                    || (any (λ r. r.user_id == id) db.broker_transactions
                                        || any (λ r. r.user_id == id) db.sync_runs)))))))))

abbrev pub delete_user : Session → Uuid → Action (Unit {0})
unfolding has_child
delete_user s user_id = do
  dangling ←
      query
        (λ db. any (λ u. permits_user s u.id && u.id == user_id) db.users && has_child db user_id)
  raise_when dangling integrity_error
  execute (λ db. record db {
    users = keep (λ u. not (permits_user s u.id && u.id == user_id)) db.users;
  })

-- The statements before and after the one on positions; none of them can fail.
pub delete_key_and_children : Session → Uuid → Database → Database
delete_key_and_children s user_id db = record db {
  user_data_keys = without s user_id (λ r. r.user_id) db.user_data_keys;
  events = without s user_id (λ r. r.user_id) db.events;
  legs = without s user_id (λ r. r.user_id) db.legs;
}

pub delete_fills_and_identity : Session → Uuid → Database → Database
delete_fills_and_identity s user_id db = record db {
  fills = without s user_id (λ r. r.user_id) db.fills;
  broker_transactions = without s user_id (λ r. r.user_id) db.broker_transactions;
  sessions = keep (λ r. not (r.user_id == user_id)) db.sessions;
  setup_tokens = keep (λ r. not (r.user_id == user_id)) db.setup_tokens;
  schwab_connections = without s user_id (λ r. r.user_id) db.schwab_connections;
  sync_runs = without s user_id (λ r. r.user_id) db.sync_runs;
}

unfoldable pub delete_account : Uuid → Action (Unit {0})
unfolding delete_key_and_children delete_fills_and_identity delete_user
delete_account user_id = do
  s ← get_session
  execute (delete_key_and_children s user_id)
  delete_positions s user_id
  execute (delete_fills_and_identity s user_id)
  delete_user s user_id
