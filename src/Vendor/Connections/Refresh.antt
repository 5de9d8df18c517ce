-- ===== src/Vendor/Connections/Refresh.antt =====
-- The token that the brokerage refreshed during a call, saved and read again
-- (src/morai/vendor/connections.py).
use morai_trading_dashboard.Ledger.Keys.{current_dek}
use morai_trading_dashboard.Vendor.Client.{TokenHolder, Vendor, WrappedToken}
use morai_trading_dashboard.Vendor.Connections.Roundtrip.{dek_for_version-result, own}
use morai_trading_dashboard.Vendor.Connections.{
  save_token, open_connection, dek_for_version, ConnectionRecord, connection_associated_data,
  read_connection,
}
use morai_trading_dashboard.Crypto.{encrypt_field, decrypt_field}
use morai_trading_dashboard.Prelude.{
  one_or_none, validation_error, or_raise, invalid_tag, ℕ, suc, String, true, ◌&&◌, Option, none,
  some, List, [], ◌∷◌, map, ◌≡◌, refl, sym, ap, ◌∙◌, inl, inr, if◌then◌else◌, ◌==◌, nat_eq, text_eq,
  Result, ok, err, Uuid, keep, Bool-cases,
}
use morai_trading_dashboard.Outside.{Decrypts, Outside}
use morai_trading_dashboard.Db.{SchwabConnection, Bytes}
use morai_trading_dashboard.Db.Session.{Session, bind-ok, ◌>>=◌, lift, permits}

-- The columns that the UPDATE of a refresh sets.
abbrev refresh_row : Outside → Uuid → Bytes × ℕ → String → ℕ → SchwabConnection → SchwabConnection
refresh_row o u key token draws c = record c {
  token_ciphertext =
      o.aes_encrypt key.0 (o.urandom draws) token
        (some (connection_associated_data "token_ciphertext" u));
  token_nonce = o.urandom draws;
  key_version = key.1;
}

keep-refresh :
    (o : Outside) (s : Session) (u : Uuid) (key : Bytes × ℕ) (token : String) (n : ℕ)
    (cs : List SchwabConnection)
    → keep (own s u) (
        map
          (λ c. if permits s c.user_id && c.user_id == u then refresh_row o u key token n c else c)
          cs)
      ≡ map (refresh_row o u key token n) (keep (own s u) cs)
keep-refresh o s u key token n [] = refl
keep-refresh o s u key token n (c ∷ cs) =
    let renew : SchwabConnection → SchwabConnection = refresh_row o u key token n in
    let rest : List SchwabConnection =
      map (λ c. if permits s c.user_id && c.user_id == u then renew c else c) cs in
    let kept = keep (own s u) in
    let again = keep-refresh o s u key token n cs in
    elim (Bool-cases (own s u c)) [
      | inl mine ↦
          ap (λ b. kept ((if b then renew c else c) ∷ rest)) mine
          ∙ ap (λ b. if b then renew c ∷ kept rest else kept rest) mine
          ∙ ap (λ l. renew c ∷ l) again
          ∙ sym (ap (λ b. map renew (if b then c ∷ kept cs else kept cs)) mine)
      | inr other ↦
          ap (λ b. kept ((if b then renew c else c) ∷ rest)) other
          ∙ ap (λ b. if b then c ∷ kept rest else kept rest) other
          ∙ again
          ∙ sym (ap (λ b. map renew (if b then c ∷ kept cs else kept cs)) other)
    ]

-- What is read of a refreshed row, by what the newest data key makes of its account.
abbrev pub refreshed :
    Uuid → SchwabConnection → WrappedToken → ℕ → Option Bytes → Result (Option ConnectionRecord)
refreshed u c w v none = err invalid_tag
refreshed u c w v (some hash) = ok (
    some (record {
      user_id = u;
      account_hash = hash;
      token = w.token;
      token_created_at = c.token_created_at;
      last_synced_at = c.last_synced_at;
      reauth_notified_at = c.reauth_notified_at;
      key_version = v;
    }))

opened-refresh :
    (o : Outside) (u : Uuid) (c : SchwabConnection) (w : WrappedToken) (key : Bytes × ℕ) (n : ℕ)
    (account : Option Bytes) (t : Session)
    → Decrypts o
    → dek_for_version o u key.1 t ≡ (ok key.0, t)
    → o.aes_decrypt key.0 c.account_hash_nonce c.account_hash_ciphertext
        (some (connection_associated_data "account_hash_ciphertext" u))
      ≡ account
    → open_connection o u (some (refresh_row o u key w.token n c)) t
      ≡ (refreshed u c w key.1 account, t)
unfolding decrypt_field
opened-refresh o u c w key n none t law k a =
    bind-ok (dek_for_version o u key.1) _ t t key.0 k ∙ rw a refl
opened-refresh o u c w key n (some hash) t law k a =
    bind-ok (dek_for_version o u key.1) _ t t key.0 k
    ∙ rw
        (
          a,
          law key.0 (o.urandom n) w.token (some (connection_associated_data "token_ciphertext" u)),
        )
        refl

-- Where decryption undoes encryption, the newest data key of the user is also found by its version, the user has one connection that
-- the policy shows, and the token that the vendor wrote is well-formed, saving it succeeds; a read after it gives the new token with the
-- account and the times as they were, if the newest data key opens the stored account, and raises InvalidTag if it does not.
pub save_token-read :
    (o : Outside) (v : Vendor) (u : Uuid) (h : TokenHolder) (w : WrappedToken)
    (c : SchwabConnection) (s : Session) (key : Bytes × ℕ) (account : Option Bytes)
    → Decrypts o
    → v.read_wrapped h.token ≡ some w
    → current_dek o u s ≡ (ok key, s)
    → dek_for_version o u key.1 s ≡ (ok key.0, s)
    → keep (own s u) s.db.schwab_connections ≡ c ∷ []
    → o.aes_decrypt key.0 c.account_hash_nonce c.account_hash_ciphertext
        (some (connection_associated_data "account_hash_ciphertext" u))
      ≡ account
    → (t : Session) × (save_token o v u h true s ≡ (ok tt, t))
      × (read_connection o u t ≡ (refreshed u c w key.1 account, t))
unfolding read_connection encrypt_field
save_token-read o v u h w c s key account law wrapped e k one a =
    let t = record s {
      db = record s.db {
        schwab_connections =
            map
              (λ c.
                if permits s c.user_id && c.user_id == u
                then refresh_row o u key w.token s.draws c
                else c)
              s.db.schwab_connections;
      };
      draws = suc s.draws;
    } in
    let dek_later : dek_for_version o u key.1 t ≡ (ok key.0, t) =
      dek_for_version-result o u key.1 t
      ∙ ap (λ r. (r, t))
          (ap (λ (p : Result Bytes × Session). p.0)
            (sym (dek_for_version-result o u key.1 s) ∙ k)) in
    (
      t,
      bind-ok (lift (or_raise (v.read_wrapped h.token) validation_error)) _ s s w
            (ap (λ r. (or_raise r validation_error, s)) wrapped)
          ∙ bind-ok (current_dek o u) _ s s key e,
      ap (λ r. (lift r >>= λ row. open_connection o u row) t)
            (ap one_or_none (
              keep-refresh o s u key w.token s.draws s.db.schwab_connections
              ∙ ap (map (refresh_row o u key w.token s.draws)) one))
          ∙ opened-refresh o u c w key s.draws account t law dek_later a,
    )
