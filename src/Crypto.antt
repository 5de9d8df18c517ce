-- ===== src/Crypto.antt =====
-- Envelope encryption (src/morai/crypto/envelope.py) and the rotation of the master key
-- (src/morai/crypto/rotation.py).
pub mod Rotation
mod Tests
use morai_trading_dashboard.Prelude.{
  leb, invalid_tag, sorted, ltb, or_raise, ℕ, zero, suc, ◌+◌, ◌≤◌, ◌<◌, String, Bool, true, false,
  ◌&&◌, ◌||◌, not, Option, none, some, List, [], ◌∷◌, ◌++◌, map, ◌≡◌, refl, sym, ap, ◌∙◌, ◌⊎◌, inl,
  inr, arith, if◌then◌else◌, Eq, ◌==◌, nat_eq, text_eq, Result, ok, err, Instant, Duration, Uuid,
  keep, any, length, Bool-cases, Option-cases, Result-cases, beq_refl,
}
use morai_trading_dashboard.Outside.{Outside}
use morai_trading_dashboard.Db.{Database, User, LoginSession, SetupToken, AuditLog, Position, Bytes}
use morai_trading_dashboard.Db.Session.{
  Session, Action, ◌>>=◌, ◌>>◌, pure, raise, lift, query, execute, raise_when, commit, rollback,
  set_user, set_admin, permits, permits_user, get_session, draw, require_rls_context, Setting,
}
use morai_trading_dashboard.Db.{UserDataKey}

unfoldable pub generate_dek : Outside → Action Bytes
generate_dek o = draw o.generate_key

-- The wrapped key and its nonce.
unfoldable pub wrap_dek : Outside → Bytes → Bytes → Action (Bytes × Bytes)
wrap_dek o dek kek = do nonce ← draw o.urandom; pure (o.aes_encrypt kek nonce dek none, nonce)

unfoldable pub unwrap_dek : Outside → Bytes → Bytes → Bytes → Result Bytes
unwrap_dek o wrapped_dek wrap_nonce kek =
    or_raise (o.aes_decrypt kek wrap_nonce wrapped_dek none) invalid_tag

unfoldable pub encrypt_field : Outside → Bytes → Bytes → Bytes → Action (Bytes × Bytes)
encrypt_field o plaintext dek associated_data = do
  nonce ← draw o.urandom
  pure (o.aes_encrypt dek nonce plaintext (some associated_data), nonce)

unfoldable pub decrypt_field : Outside → Bytes → Bytes → Bytes → Bytes → Result Bytes
decrypt_field o ciphertext nonce dek associated_data =
    or_raise (o.aes_decrypt dek nonce ciphertext (some associated_data)) invalid_tag

-- `ORDER BY user_id, key_version`
abbrev pub data_key_leb : UserDataKey → UserDataKey → Bool
data_key_leb a b =
    if ltb a.user_id b.user_id
    then true
    else if ltb b.user_id a.user_id
    then false
    else leb a.key_version b.key_version

abbrev pub rewrap_row : Outside → Bytes → Bytes → UserDataKey → Action UserDataKey
rewrap_row o old_kek new_kek row = do
  dek ← lift (unwrap_dek o row.wrapped_dek row.wrap_nonce old_kek)
  wrapped ← wrap_dek o dek new_kek
  pure (record row { wrapped_dek = wrapped.0; wrap_nonce = wrapped.1 })

-- The loop over the rows.
pub rewrap_rows : Outside → Bytes → Bytes → List UserDataKey → Action (List UserDataKey)
rewrap_rows o old_kek new_kek [] = pure []
rewrap_rows o old_kek new_kek (row ∷ rows) = do
  new_row ← rewrap_row o old_kek new_kek row
  rest ← rewrap_rows o old_kek new_kek rows
  pure (new_row ∷ rest)

-- The rows change in memory; `flush` writes them.
unfoldable pub rotate_kek : Outside → Bytes → Bytes → Action ℕ
unfolding rewrap_rows
rotate_kek o old_kek new_kek = do
  rows ← query (λ db. sorted data_key_leb db.user_data_keys)
  new_rows ← rewrap_rows o old_kek new_kek rows
  execute (λ db. record db { user_data_keys = new_rows })
  pure (length new_rows)
