-- ===== src/Ledger/Keys.antt =====
-- The data key of a user (src/morai/ledger/fills.py): made with the account, read for each batch.
use morai_trading_dashboard.Prelude.{
  integrity_error, no_result_found, or_raise, ltb, insufficient_privilege, ℕ, ◌&&◌, not, Option,
  none, some, List, [], ◌∷◌, if◌then◌else◌, ◌==◌, nat_eq, text_eq, Uuid, keep, any,
}
use morai_trading_dashboard.Outside.{Outside}
use morai_trading_dashboard.Db.{Bytes}
use morai_trading_dashboard.Db.Session.{
  Action, ◌>>=◌, ◌>>◌, pure, lift, query, execute, raise_when, permits, get_session,
}
use morai_trading_dashboard.Db.{UserDataKey}
use morai_trading_dashboard.Crypto.{generate_dek, wrap_dek, unwrap_dek}

-- The INSERT needs the context of the user, and no key of version 1.
unfoldable pub provision_data_key : Outside → Uuid → Action (Unit {0})
provision_data_key o user_id = do
  dek ← generate_dek o
  wrapped ← wrap_dek o dek o.master_key
  s ← get_session
  raise_when (not (permits s user_id)) insufficient_privilege
  taken ← query (λ db. any (λ k. k.user_id == user_id && k.key_version == 1) db.user_data_keys)
  raise_when taken integrity_error
  execute (λ db. record db {
    user_data_keys =
        (record {
          user_id = user_id;
          key_version = 1;
          wrapped_dek = wrapped.0;
          wrap_nonce = wrapped.1;
        })
        ∷ db.user_data_keys;
  })

-- `ORDER BY key_version DESC LIMIT 1`
pub newest : List UserDataKey → Option UserDataKey
newest [] = none
newest (k ∷ ks) = elim (newest ks) [
  | none ↦ some k
  | some best ↦ if ltb k.key_version best.key_version then some best else some k
]

unfoldable pub current_dek : Outside → Uuid → Action (Bytes × ℕ)
unfolding newest
current_dek o user_id = do
  s ← get_session
  found ←
      query
        (λ db. newest (keep (λ k. permits s k.user_id && k.user_id == user_id) db.user_data_keys))
  row ← lift (or_raise found no_result_found)
  dek ← lift (unwrap_dek o row.wrapped_dek row.wrap_nonce o.master_key)
  pure (dek, row.key_version)
