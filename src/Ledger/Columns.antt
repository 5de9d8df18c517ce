-- ===== src/Ledger/Columns.antt =====
-- Encrypted money columns (src/morai/ledger/fills.py, shared by src/morai/ledger/events.py): a decimal
-- is the UTF-8 of its text, encrypted with the associated data of its column and row.
use morai_trading_dashboard.Prelude.{
  map_ok, bind, invalid_operation, or_raise, suc, Option, none, some, ◌≡◌, refl, nat_eq, text_eq,
  Result, ok,
}
use morai_trading_dashboard.Outside.{Outside}
use morai_trading_dashboard.Db.{Bytes}
use morai_trading_dashboard.Db.Session.{Session, Action, ◌>>=◌, pure}
use morai_trading_dashboard.Outside.{Decrypts}
use morai_trading_dashboard.Money.{Decimal}
use morai_trading_dashboard.Crypto.{encrypt_field, decrypt_field}

-- A column with its nonce; none stays none.
abbrev pub encrypt_decimal :
    Outside → Bytes → Bytes → Option Decimal → Action (Option (Bytes × Bytes))
encrypt_decimal o dek associated_data none = pure none
encrypt_decimal o dek associated_data (some value) = do
  encrypted ← encrypt_field o (o.decimal_text value) dek associated_data
  pure (some encrypted)

abbrev pub ciphertext_of : Option (Bytes × Bytes) → Option Bytes
ciphertext_of none = none
ciphertext_of (some p) = some p.0

abbrev pub nonce_of : Option (Bytes × Bytes) → Option Bytes
nonce_of none = none
nonce_of (some p) = some p.1

abbrev pub decode_decimal : Outside → Bytes → Result Decimal
decode_decimal o value = or_raise (o.read_decimal value) invalid_operation

-- A column is read when both of its halves are there.
unfoldable pub decrypt_decimal :
    Outside → Bytes → Bytes → Option Bytes → Option Bytes → Result (Option Decimal)
decrypt_decimal o dek associated_data none n = ok none
decrypt_decimal o dek associated_data (some ciphertext) none = ok none
decrypt_decimal o dek associated_data (some ciphertext) (some n) =
    bind (decrypt_field o ciphertext n dek associated_data)
      (λ plaintext. map_ok some (decode_decimal o plaintext))

-- The column and the session after an encryption.
abbrev pub encrypted_as :
    Outside → Bytes → Bytes → Option Decimal → Session → Option (Bytes × Bytes)
encrypted_as o dek associated_data none s = none
encrypted_as o dek associated_data (some value) s = some (
  o.aes_encrypt dek (o.urandom s.draws) (o.decimal_text value) (some associated_data),
  o.urandom s.draws,
)

abbrev pub drawn_for : Option Decimal → Session → Session
drawn_for none s = s
drawn_for (some value) s = record s { draws = suc s.draws }

pub encrypt_decimal-run :
    (o : Outside) (dek aad : Bytes) (v : Option Decimal) (s : Session)
    → encrypt_decimal o dek aad v s ≡ (ok (encrypted_as o dek aad v s), drawn_for v s)
unfolding encrypt_field
encrypt_decimal-run o dek aad none s = refl
encrypt_decimal-run o dek aad (some v) s = refl

pub drawn_for-keeps :
    (v : Option Decimal) (s : Session)
    → ((drawn_for v s).db ≡ s.db) × ((drawn_for v s).setting ≡ s.setting)
drawn_for-keeps none s = (refl, refl)
drawn_for-keeps (some v) s = (refl, refl)

-- The decimal of a column, where it has one, is read back from its text.
abbrev pub ReadsBack : Outside → Option Decimal → Type 0
ReadsBack o none = Unit
ReadsBack o (some d) = o.read_decimal (o.decimal_text d) ≡ some d

-- What was encrypted is read back.
pub decrypt_decimal-encrypted_as :
    (o : Outside)
    → Decrypts o
    → (dek aad : Bytes) (v : Option Decimal) (s : Session) → ReadsBack o v
    → let p = encrypted_as o dek aad v s in
      decrypt_decimal o dek aad (ciphertext_of p) (nonce_of p) ≡ ok v
unfolding decrypt_decimal decrypt_field
decrypt_decimal-encrypted_as o law dek aad none s reads = refl
decrypt_decimal-encrypted_as o law dek aad (some v) s reads =
    rw (law dek (o.urandom s.draws) (o.decimal_text v) (some aad), reads) refl
