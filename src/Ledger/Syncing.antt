-- ===== src/Ledger/Syncing.antt =====
-- `sync_events` (src/morai/ledger/pairing.py): resolve, read, derive, and store what is not stored yet. The
-- advisory lock of the user is held to the end of the transaction; a session alone never waits for it.
pub mod Again
mod Tests
use morai_trading_dashboard.Ledger.Events.{read_events, insert_events}
use morai_trading_dashboard.Ledger.Fills.{read_fills}
use morai_trading_dashboard.Ledger.Resolve.{resolve_fill_positions}
use morai_trading_dashboard.Ledger.Records.{EventWrite, FillRecord, EventRecord}
use morai_trading_dashboard.Ledger.Pairing.{
  derive_events, event_type_text, Platform, DerivedEvent, Resolutions, Derivation,
}
use morai_trading_dashboard.Prelude.{
  contains, ℕ, zero, suc, ◌+◌, ◌≤◌, ◌<◌, String, Bool, true, false, ◌&&◌, ◌||◌, not, Option, none,
  some, List, [], ◌∷◌, ◌++◌, map, ◌≡◌, refl, sym, ap, ◌∙◌, ◌⊎◌, inl, inr, arith, if◌then◌else◌, Eq,
  ◌==◌, nat_eq, text_eq, Result, ok, err, Instant, Duration, Uuid, keep, any, length, Bool-cases,
  Option-cases, Result-cases, beq_refl,
}
use morai_trading_dashboard.Outside.{Outside}
use morai_trading_dashboard.Db.{
  Leg, Database, User, LoginSession, SetupToken, AuditLog, Position, Bytes,
}
use morai_trading_dashboard.Db.Session.{
  Session, bind-ok, bind-err, Action, ◌>>=◌, ◌>>◌, pure, raise, lift, query, execute, raise_when,
  commit, rollback, set_user, set_admin, permits, permits_user, get_session, draw,
  require_rls_context, Setting,
}

abbrev pub platform : Outside → Platform
platform o = record { sha256_hex = o.sha256_hex; epoch_micros = o.epoch_micros }

-- `if order_ids is not None`
abbrev pub narrow : Option (List String) → List FillRecord → List FillRecord
narrow none fills = fills
narrow (some order_ids) fills = keep (λ f. contains f.order_id order_ids) fills

-- The tables as the policies show them to the statement.
abbrev pub resolutions_of : Uuid → Session → Database → Resolutions
resolutions_of user_id s db =
    resolve_fill_positions user_id (keep (λ f. permits s f.user_id) db.fills)
      (keep (λ (l : Leg). permits s l.user_id) db.legs)

abbrev pub same_triple : DerivedEvent → EventRecord → Bool
same_triple e r =
    e.position_id == r.position_id
    && (event_type_text e.event_type == r.event_type
        && elim r.fill_ids_hash [ none ↦ false | some digest ↦ e.fill_ids_hash == digest ])

abbrev pub draft_of : DerivedEvent → EventWrite
draft_of e = record {
  position_id = e.position_id;
  event_type = event_type_text e.event_type;
  event_time = e.event_time;
  fill_ids_hash = some e.fill_ids_hash;
  open_debit_usd = e.open_debit_usd;
  close_credit_usd = e.close_credit_usd;
}

-- The events whose triple is not among the existing ones.
abbrev pub unstored : List EventRecord → List DerivedEvent → List DerivedEvent
unstored existing events = keep (λ e. not (any (same_triple e) existing)) events

-- `if drafts`
abbrev pub store_drafts : Outside → Uuid → List EventWrite → Action (Unit {0})
store_drafts o user_id [] = pure tt
store_drafts o user_id (draft ∷ drafts) = insert_events o user_id (draft ∷ drafts)

unfoldable pub sync_events : Outside → Uuid → Option (List String) → Action Derivation
sync_events o user_id order_ids = do
  s ← get_session
  resolutions ← query (λ db. resolutions_of user_id s db)
  fills ← read_fills o user_id
  existing ← read_events o user_id
  let derivation = derive_events (platform o) (narrow order_ids fills) resolutions
  store_drafts o user_id (map draft_of (unstored existing derivation.events))
  pure derivation
