-- ===== src/Ledger/Fills.antt =====
-- The storage of fills (src/morai/ledger/fills.py): `insert_fills` and `read_fills`.
pub mod Sealing
pub mod Landing
pub mod Again
pub mod Reads
pub mod Growth
pub mod Roundtrip
mod Tests
use morai_trading_dashboard.Ledger.Reading.{fetch_dek, read_rows}
use morai_trading_dashboard.Ledger.Columns.{
  ciphertext_of, decrypt_decimal, encrypt_decimal, nonce_of,
}
use morai_trading_dashboard.Prelude.Int.{negsuc, pos, ℤ}
use morai_trading_dashboard.Prelude.{
  keep, map_ok, bind, Result, drop, int_text, ◌<>◌, insufficient_privilege, take, ℕ, zero, suc, ◌+◌,
  String, Bool, ◌&&◌, not, Option, none, some, List, [], ◌∷◌, ◌++◌, if◌then◌else◌, ◌==◌, nat_eq,
  text_eq, Uuid, any, length,
}
use morai_trading_dashboard.Outside.{Outside}
use morai_trading_dashboard.Db.{Bytes}
use morai_trading_dashboard.Db.Session.{
  lift, Action, ◌>>=◌, ◌>>◌, pure, query, execute, raise_when, permits, get_session,
}
use morai_trading_dashboard.Db.{Fill}
use morai_trading_dashboard.Money.{Decimal}
use morai_trading_dashboard.Ledger.Records.{FillRecord, FillKey, fill_key_eq, FillWrite}
use morai_trading_dashboard.Ledger.Keys.{current_dek}
use morai_trading_dashboard.Crypto.{encrypt_field}

abbrev pub write_key : FillWrite → FillKey
write_key f = record {
  order_id = f.order_id;
  occ_symbol = f.occ_symbol;
  leg_index = f.leg_index;
  execution_time = f.execution_time;
}

abbrev signed_text : ℤ → String
signed_text (pos n) = int_text n
signed_text (negsuc n) = "-" <> int_text (n + 1)

-- A user id stands for its own text.
unfoldable pub fill_associated_data : Outside → String → Uuid → FillKey → Bytes
fill_associated_data o column user_id k =
    "fills:"
    <> column
    <> ":"
    <> int_text user_id
    <> ":"
    <> k.order_id
    <> ":"
    <> k.occ_symbol
    <> ":"
    <> int_text k.leg_index
    <> ":"
    <> signed_text (o.epoch_micros k.execution_time)

abbrev pub fill_row : Uuid → ℕ → FillWrite → Option (Bytes × Bytes) → Option (Bytes × Bytes) → Fill
fill_row user_id key_version f quantity price = record {
  user_id = user_id;
  key = write_key f;
  position_effect = f.position_effect;
  side = f.side;
  quantity_ciphertext = ciphertext_of quantity;
  quantity_nonce = nonce_of quantity;
  price_usd_ciphertext = ciphertext_of price;
  price_usd_nonce = nonce_of price;
  key_version = key_version;
}

abbrev pub seal_fill : Outside → Bytes → ℕ → Uuid → FillWrite → Action Fill
seal_fill o dek key_version user_id f = do
  quantity ←
      encrypt_decimal o dek (fill_associated_data o "quantity" user_id (write_key f)) f.quantity
  price ←
      encrypt_decimal o dek (fill_associated_data o "price_usd" user_id (write_key f)) f.price_usd
  pure (fill_row user_id key_version f quantity price)

unfoldable pub seal_fills : Outside → Bytes → ℕ → Uuid → List FillWrite → Action (List Fill)
seal_fills o dek key_version user_id [] = pure []
seal_fills o dek key_version user_id (f ∷ fills) = do
  row ← seal_fill o dek key_version user_id f
  rest ← seal_fills o dek key_version user_id fills
  pure (row ∷ rest)

-- The five columns of the primary key.
abbrev pub same_fill : Fill → Fill → Bool
same_fill a b = a.user_id == b.user_id && a.key == b.key

-- `ON CONFLICT DO NOTHING`, row by row: the rows that land.
pub landed_rows : List Fill → List Fill → List Fill
landed_rows table [] = []
landed_rows table (row ∷ rows) =
    let skipped = landed_rows table rows in
    let kept = row ∷ landed_rows (row ∷ table) rows in
    if any (same_fill row) table then skipped else kept

-- One statement: the policy checks every row that it would insert.
abbrev pub insert_chunk : Uuid → List Fill → Action ℕ
insert_chunk user_id rows = do
  s ← get_session
  new_rows ← query (λ db. landed_rows db.fills rows)
  raise_when (not (permits s user_id)) insufficient_privilege
  execute (λ db. record db { fills = db.fills ++ new_rows })
  pure (length new_rows)

abbrev pub chunk_size : ℕ
chunk_size = 2000

-- The loop over the chunks; each takes one fill at least, so as much fuel as there are fills is enough.
unfoldable pub insert_chunks : ℕ → Outside → Bytes → ℕ → Uuid → List FillWrite → Action ℕ
unfolding seal_fills landed_rows
insert_chunks fuel o dek key_version user_id [] = pure 0
insert_chunks zero o dek key_version user_id (f ∷ fills) = pure 0
insert_chunks (suc fuel) o dek key_version user_id (f ∷ fills) = do
  rows ← seal_fills o dek key_version user_id (take chunk_size (f ∷ fills))
  landed ← insert_chunk user_id rows
  later ← insert_chunks fuel o dek key_version user_id (drop chunk_size (f ∷ fills))
  pure (landed + later)

unfoldable pub insert_fills : Outside → Uuid → List FillWrite → Action ℕ
unfolding insert_chunks
insert_fills o user_id [] = pure 0
insert_fills o user_id (f ∷ fills) = do
  (dek, key_version) ← current_dek o user_id
  insert_chunks (length (f ∷ fills)) o dek key_version user_id (f ∷ fills)

abbrev pub read_as : Uuid → Fill → Option Decimal → Option Decimal → FillRecord
read_as user_id row quantity price = record {
  user_id = user_id;
  order_id = row.key.order_id;
  occ_symbol = row.key.occ_symbol;
  leg_index = row.key.leg_index;
  execution_time = row.key.execution_time;
  position_effect = row.position_effect;
  side = row.side;
  quantity = quantity;
  price_usd = price;
  key_version = row.key_version;
}

unfoldable pub open_fill : Outside → Uuid → Bytes → Fill → Result FillRecord
open_fill o user_id dek row =
    bind
      (decrypt_decimal o dek (fill_associated_data o "quantity" user_id row.key)
        row.quantity_ciphertext row.quantity_nonce)
      (λ quantity. map_ok (read_as user_id row quantity) (
        decrypt_decimal o dek (fill_associated_data o "price_usd" user_id row.key)
          row.price_usd_ciphertext row.price_usd_nonce))

-- The policies of both tables confine what the statements return. The SELECT has no ORDER BY: its rows are
-- taken here in the order in which they landed.
unfoldable pub read_fills : Outside → Uuid → Action (List FillRecord)
read_fills o user_id = do
  s ← get_session
  lift (
      read_rows (fetch_dek o s user_id) (λ (r : Fill). r.key_version) (open_fill o user_id) []
        (keep (λ r. permits s r.user_id && r.user_id == user_id) s.db.fills))
