-- ===== src/Ledger/Events.antt =====
-- The storage of events (src/morai/ledger/events.py): `insert_events` and `read_events`.
pub mod Adding
pub mod Storing
pub mod Roundtrip
mod Tests
use morai_trading_dashboard.Ledger.Columns.{
  nonce_of, decrypt_decimal, encrypt_decimal, ciphertext_of,
}
use morai_trading_dashboard.Money.{Decimal}
use morai_trading_dashboard.Ledger.Keys.{current_dek}
use morai_trading_dashboard.Ledger.Reading.{fetch_dek, read_rows}
use morai_trading_dashboard.Ledger.Records.{EventWrite, EventRecord}
use morai_trading_dashboard.Prelude.{
  map_ok, drop, integrity_error, bind, insufficient_privilege, value_error, int_text, is_some, take,
  ◌<>◌, ℕ, zero, suc, ◌+◌, ◌≤◌, ◌<◌, String, Bool, true, false, ◌&&◌, ◌||◌, not, Option, none, some,
  List, [], ◌∷◌, ◌++◌, map, ◌≡◌, refl, sym, ap, ◌∙◌, ◌⊎◌, inl, inr, arith, if◌then◌else◌, Eq, ◌==◌,
  nat_eq, text_eq, Result, ok, err, Instant, Duration, Uuid, keep, any, length, Bool-cases,
  Option-cases, Result-cases, beq_refl,
}
use morai_trading_dashboard.Outside.{Outside}
use morai_trading_dashboard.Db.{
  Event, Database, User, LoginSession, SetupToken, AuditLog, Position, Bytes,
}
use morai_trading_dashboard.Db.Session.{
  Session, bind-ok, bind-err, Action, ◌>>=◌, ◌>>◌, pure, raise, lift, query, execute, raise_when,
  commit, rollback, set_user, set_admin, permits, permits_user, get_session, draw,
  require_rls_context, Setting,
}

unfoldable pub event_associated_data : String → Uuid → Bytes
event_associated_data column event_id = "events:" <> column <> ":" <> int_text event_id

-- A ROLL without one of its two amounts.
abbrev pub half_roll : EventWrite → Bool
half_roll e =
    e.event_type == "ROLL" && (not (is_some e.open_debit_usd) || not (is_some e.close_credit_usd))

abbrev pub event_row :
    Uuid → ℕ → EventWrite → Uuid → Option (Bytes × Bytes) → Option (Bytes × Bytes) → Event
event_row user_id key_version e event_id debit credit = record {
  id = event_id;
  user_id = user_id;
  position_id = e.position_id;
  event_type = e.event_type;
  event_time = e.event_time;
  fill_ids_hash = e.fill_ids_hash;
  open_debit_usd_ciphertext = ciphertext_of debit;
  open_debit_usd_nonce = nonce_of debit;
  close_credit_usd_ciphertext = ciphertext_of credit;
  close_credit_usd_nonce = nonce_of credit;
  key_version = key_version;
}

-- The body of the loop over a chunk, up to `session.add`.
abbrev pub make_event : Outside → Bytes → ℕ → Uuid → EventWrite → Action Event
make_event o dek key_version user_id e = do
  raise_when (half_roll e) value_error
  event_id ← draw o.new_uuid
  debit ← encrypt_decimal o dek (event_associated_data "open_debit_usd" event_id) e.open_debit_usd
  credit ←
      encrypt_decimal o dek (event_associated_data "close_credit_usd" event_id) e.close_credit_usd
  pure (event_row user_id key_version e event_id debit credit)

-- The loop over a chunk: the rows that wait in the session for the flush.
pub add_events : Outside → Bytes → ℕ → Uuid → List EventWrite → Action (List Event)
add_events o dek key_version user_id [] = pure []
add_events o dek key_version user_id (e ∷ events) = do
  row ← make_event o dek key_version user_id e
  rest ← add_events o dek key_version user_id events
  pure (row ∷ rest)

-- The CHECK constraints and foreign keys of the table. Its primary key is left out: an id is a random UUID of
-- its own draw.
abbrev pub known_type : String → Bool
known_type t = t == "OPEN" || (t == "CLOSE" || (t == "ROLL" || t == "SETTLEMENT"))

abbrev pub refers : Database → Uuid → Uuid → Bool
refers db user_id position_id =
    any (λ p. p.id == position_id) db.positions && any (λ (x : User). x.id == user_id) db.users

abbrev pub roll_has_both_legs : Event → Bool
roll_has_both_legs r =
    not (r.event_type == "ROLL")
    || (is_some r.open_debit_usd_ciphertext && is_some r.close_credit_usd_ciphertext)

abbrev pub accepts : Database → Event → Bool
accepts db r =
    known_type r.event_type && (roll_has_both_legs r && refers db r.user_id r.position_id)

-- `session.flush()`: the policy of the table checks the rows, and then its constraints.
abbrev pub flush_events : Uuid → List Event → Action (Unit {0})
flush_events user_id rows = do
  s ← get_session
  raise_when (not (permits s user_id)) insufficient_privilege
  refused ← query (λ db. any (λ r. not (accepts db r)) rows)
  raise_when refused integrity_error
  execute (λ db. record db { events = db.events ++ rows })

abbrev pub event_chunk_size : ℕ
event_chunk_size = 2000

-- The loop over the chunks; each takes one event at least, so as much fuel as there are events is enough.
pub insert_event_chunks : ℕ → Outside → Bytes → ℕ → Uuid → List EventWrite → Action (Unit {0})
unfolding add_events
insert_event_chunks fuel o dek key_version user_id [] = pure tt
insert_event_chunks zero o dek key_version user_id (e ∷ events) = pure tt
insert_event_chunks (suc fuel) o dek key_version user_id (e ∷ events) = do
  rows ← add_events o dek key_version user_id (take event_chunk_size (e ∷ events))
  flush_events user_id rows
  insert_event_chunks fuel o dek key_version user_id (drop event_chunk_size (e ∷ events))

-- The data key is read first, also for no events.
unfoldable pub insert_events : Outside → Uuid → List EventWrite → Action (Unit {0})
unfolding insert_event_chunks
insert_events o user_id events = do
  (dek, key_version) ← current_dek o user_id
  insert_event_chunks (length events) o dek key_version user_id events

abbrev pub read_event_as : Uuid → Event → Option Decimal → Option Decimal → EventRecord
read_event_as user_id row debit credit = record {
  id = row.id;
  user_id = user_id;
  position_id = row.position_id;
  event_type = row.event_type;
  event_time = row.event_time;
  fill_ids_hash = row.fill_ids_hash;
  open_debit_usd = debit;
  close_credit_usd = credit;
  key_version = row.key_version;
}

unfoldable pub open_event : Outside → Uuid → Bytes → Event → Result EventRecord
open_event o user_id dek row =
    bind
      (decrypt_decimal o dek (event_associated_data "open_debit_usd" row.id)
        row.open_debit_usd_ciphertext row.open_debit_usd_nonce)
      (λ debit. map_ok (read_event_as user_id row debit) (
        decrypt_decimal o dek (event_associated_data "close_credit_usd" row.id)
          row.close_credit_usd_ciphertext row.close_credit_usd_nonce))

-- The SELECT has no ORDER BY: its rows are taken here in the order in which they were inserted.
unfoldable pub read_events : Outside → Uuid → Action (List EventRecord)
read_events o user_id = do
  s ← get_session
  lift (
      read_rows (fetch_dek o s user_id) (λ (r : Event). r.key_version) (open_event o user_id) []
        (keep (λ r. permits s r.user_id && r.user_id == user_id) s.db.events))
