-- ===== src/Crypto/Rotation.antt =====
-- `rotate_kek` (src/morai/crypto/rotation.py), under the right and a wrong old key.
use morai_trading_dashboard.Prelude.{
  sorted, is_some→some, is_some, invalid_tag, ℕ, suc, Bool, true, false, not, none, some, List, [],
  ◌∷◌, map, ◌≡◌, refl, ◌∙◌, inl, inr, arith, nat_eq, text_eq, Result, ok, err, Uuid, any, length,
  Option-cases,
}
use morai_trading_dashboard.Outside.{Outside}
use morai_trading_dashboard.Db.{Bytes}
use morai_trading_dashboard.Db.Session.{Session, Action, ◌>>=◌, bind-ok, bind-err, pure}
use morai_trading_dashboard.Db.{UserDataKey}
use morai_trading_dashboard.Outside.{Decrypts}
use morai_trading_dashboard.Crypto.{
  unwrap_dek, wrap_dek, rewrap_row, rewrap_rows, rotate_kek, data_key_leb,
}

-- Whose key a row has, its version, and the key that it unwraps to.
abbrev pub unwrapped : Outside → Bytes → UserDataKey → Uuid × (ℕ × Result Bytes)
unwrapped o kek row =
    (row.user_id, (row.key_version, unwrap_dek o row.wrapped_dek row.wrap_nonce kek))

abbrev pub opens : Outside → Bytes → UserDataKey → Bool
opens o kek row = is_some (o.aes_decrypt kek row.wrap_nonce row.wrapped_dek none)

module _ (o : Outside) (old new : Bytes) (row : UserDataKey) (s : Session) where
  abbrev drawn : Session
  drawn = record s { draws = suc s.draws }

  abbrev rewrapped : Bytes → UserDataKey
  rewrapped dek = record row {
    wrapped_dek = o.aes_encrypt new (o.urandom s.draws) dek none;
    wrap_nonce = o.urandom s.draws;
  }

  rewrap_row-ok :
      (dek : Bytes)
      → o.aes_decrypt old row.wrap_nonce row.wrapped_dek none ≡ some dek
      → rewrap_row o old new row s ≡ (ok (rewrapped dek), drawn)
  unfolding unwrap_dek wrap_dek
  rewrap_row-ok dek h = rw h refl

  rewrap_row-err :
      o.aes_decrypt old row.wrap_nonce row.wrapped_dek none ≡ none
      → rewrap_row o old new row s ≡ (err invalid_tag, s)
  unfolding unwrap_dek wrap_dek
  rewrap_row-err h = rw h refl

  unwrapped-rewrapped :
      Decrypts o
      → (dek : Bytes) → o.aes_decrypt old row.wrap_nonce row.wrapped_dek none ≡ some dek
      → unwrapped o new (rewrapped dek) ≡ unwrapped o old row
  unfolding unwrap_dek
  unwrapped-rewrapped law dek h = rw (law new (o.urandom s.draws) dek none, h) refl

abbrev rest_of :
    Outside → Bytes → Bytes → List UserDataKey → UserDataKey → Action (List UserDataKey)
rest_of o old new rows row = rewrap_rows o old new rows >>= λ rest. pure (row ∷ rest)

rewrap_rows-step :
    (o : Outside) (old new : Bytes) (row : UserDataKey) (rows : List UserDataKey) (s : Session)
    → rewrap_rows o old new (row ∷ rows) s ≡ (rewrap_row o old new row >>= rest_of o old new rows) s
unfolding rewrap_rows
rewrap_rows-step o old new row rows s = refl

rewrap_rows-keep :
    (o : Outside)
    → Decrypts o
    → (old new : Bytes) (rows : List UserDataKey) (s : Session)
    → any (λ r. not (opens o old r)) rows ≡ false
    → (out : List UserDataKey) × (t : Session) × (rewrap_rows o old new rows s ≡ (ok out, t))
      × (map (unwrapped o new) out ≡ map (unwrapped o old) rows)
unfolding rewrap_rows
rewrap_rows-keep o law old new [] s h = ([], s, refl, refl)
rewrap_rows-keep o law old new (row ∷ rows) s h =
    let rest : any (λ r. not (opens o old r)) rows ≡ false = ground (arith, h) in
    let first : opens o old row ≡ true = ground (arith, h) in
    let (dek, good) = is_some→some (o.aes_decrypt old row.wrap_nonce row.wrapped_dek none) first in
    let (out, t, e, m) = rewrap_rows-keep o law old new rows (drawn o old new row s) rest in
    (
      rewrapped o old new row s dek ∷ out,
      t,
      bind-ok (rewrap_row o old new row) (rest_of o old new rows) s (drawn o old new row s)
            (rewrapped o old new row s dek) (rewrap_row-ok o old new row s dek good)
          ∙ bind-ok (rewrap_rows o old new rows)
              (λ rest. pure (rewrapped o old new row s dek ∷ rest)) (drawn o old new row s) t out e,
      rw (unwrapped-rewrapped o old new row s law dek good, m) refl,
    )

rewrap_rows-wrong :
    (o : Outside) (old new : Bytes) (rows : List UserDataKey) (s : Session)
    → any (λ r. not (opens o old r)) rows ≡ true
    → (t : Session) × (rewrap_rows o old new rows s ≡ (err invalid_tag, t)) × (t.db ≡ s.db)
unfolding rewrap_rows
rewrap_rows-wrong o old new [] s h = cc
rewrap_rows-wrong o old new (row ∷ rows) s h =
    elim (Option-cases (o.aes_decrypt old row.wrap_nonce row.wrapped_dek none)) [
      | inl bad ↦ (
        s,
        bind-err (rewrap_row o old new row) (rest_of o old new rows) s s invalid_tag
            (rewrap_row-err o old new row s bad),
        refl,
      )
      | inr (dek, good) ↦
          let (t, e, d) =
            rewrap_rows-wrong o old new rows (drawn o old new row s) (ground (arith, h, good)) in
          (
            t,
            bind-ok (rewrap_row o old new row) (rest_of o old new rows) s (drawn o old new row s)
                  (rewrapped o old new row s dek) (rewrap_row-ok o old new row s dek good)
                ∙ bind-err (rewrap_rows o old new rows)
                    (λ rest. pure (rewrapped o old new row s dek ∷ rest)) (drawn o old new row s) t
                    invalid_tag e,
            d,
          )
    ]

-- Where decryption undoes encryption and the old key opens every row, a rotation counts the rows, and
-- each of them then gives under the new key the data key that it gave under the old one, for the same
-- user and version.
pub rotate_kek-keeps :
    (o : Outside)
    → Decrypts o
    → (old new : Bytes) (s : Session)
    → any (λ r. not (opens o old r)) (sorted data_key_leb s.db.user_data_keys) ≡ false
    → let after = rotate_kek o old new s in
      (after.0 ≡ ok (length after.1.db.user_data_keys))
      × (map (unwrapped o new) after.1.db.user_data_keys
          ≡ map (unwrapped o old) (sorted data_key_leb s.db.user_data_keys))
unfolding rotate_kek
rotate_kek-keeps o law old new s h =
    let (out, t, e, m) =
      rewrap_rows-keep o law old new (sorted data_key_leb s.db.user_data_keys) s h in
    rw e (refl, m)

-- A rotation that meets a row which the old key does not open raises InvalidTag and writes nothing.
pub rotate_kek-wrong_key :
    (o : Outside) (old new : Bytes) (s : Session)
    → any (λ r. not (opens o old r)) (sorted data_key_leb s.db.user_data_keys) ≡ true
    → let after = rotate_kek o old new s in (after.0 ≡ err invalid_tag) × (after.1.db ≡ s.db)
unfolding rotate_kek
rotate_kek-wrong_key o old new s h =
    let (t, e, d) = rewrap_rows-wrong o old new (sorted data_key_leb s.db.user_data_keys) s h in
    rw e (refl, d)
