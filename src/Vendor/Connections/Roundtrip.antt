-- ===== src/Vendor/Connections/Roundtrip.antt =====
-- `read_connection` after `upsert_connection` (src/morai/vendor/connections.py).
use morai_trading_dashboard.Ledger.Keys.{current_dek}
use morai_trading_dashboard.Vendor.Client.{ExchangedToken}
use morai_trading_dashboard.Crypto.{encrypt_field, decrypt_field, unwrap_dek}
use morai_trading_dashboard.Vendor.Connections.{
  open_connection, connection_associated_data, ConnectionRecord, upsert_connection, read_connection,
  dek_for_version, replace_connection, put_connection,
}
use morai_trading_dashboard.Prelude.{
  integrity_error, insufficient_privilege, connection_data_key_missing, beq→eq, or_raise, bind,
  ok-inj, one_or_none, ℕ, suc, String, Bool, true, false, ◌&&◌, not, Option, none, some, List, [],
  ◌∷◌, ◌≡◌, refl, sym, ap, ◌∙◌, inl, inr, arith, if◌then◌else◌, ◌==◌, nat_eq, text_eq, Result, ok,
  err, Instant, Uuid, keep, any, Bool-cases, beq_refl,
}
use morai_trading_dashboard.Outside.{Decrypts, Outside}
use morai_trading_dashboard.Db.{UserDataKey, SchwabConnection, User, Bytes}
use morai_trading_dashboard.Db.Session.{
  Session, bind-ok, Action, ◌>>=◌, ◌>>◌, lift, execute, raise_when, permits,
}

abbrev pub own : Session → Uuid → SchwabConnection → Bool
own s u c = permits s c.user_id && c.user_id == u

-- The row that an upsert leaves for its user.
abbrev kept_row : SchwabConnection → Option SchwabConnection → SchwabConnection
kept_row new none = new
kept_row new (some old) = replace_connection new old

own-id :
    (s : Session) (u : Uuid) (c : SchwabConnection)
    → permits s u ≡ true
    → own s u c ≡ (c.user_id == u)
own-id s u c allowed = elim (Bool-cases (c.user_id == u)) [
  | inl y ↦ ap (λ x. permits s x && c.user_id == u) (beq→eq c.user_id u y) ∙ ground (arith, allowed)
  | inr n ↦ ground (arith, n)
]

one_or_none-cons :
    {A : Type 0}
    → (a : A) (xs : List A) (found : Option A) → one_or_none (a ∷ xs) ≡ ok found
    → (xs ≡ []) × (found ≡ some a)
one_or_none-cons a [] found h = (refl, sym (ok-inj h))
one_or_none-cons a (x ∷ xs) found h = cc

-- An upsert leaves one row of its user.
keep-put_connection :
    (s : Session) (u : Uuid) (new : SchwabConnection) (table : List SchwabConnection)
    (found : Option SchwabConnection)
    → permits s u ≡ true
    → new.user_id ≡ u
    → one_or_none (keep (own s u) table) ≡ ok found
    → keep (own s u) (put_connection new table) ≡ kept_row new found ∷ []
unfolding put_connection
keep-put_connection s u new [] found allowed i h =
    let mine : own s u new ≡ true =
      ap (λ x. permits s x && x == u) i ∙ ground (arith, allowed, beq_refl u) in
    rw mine (ap (λ f. kept_row new f ∷ []) (ok-inj h))
keep-put_connection s u new (c ∷ table) found allowed i h = elim (Bool-cases (own s u c)) [
  | inl mine ↦
      let id : c.user_id ≡ u = beq→eq c.user_id u (ground (arith, mine)) in
      let hit : (c.user_id == new.user_id) ≡ true =
        ap (λ x. c.user_id == x) i ∙ ground (arith, mine) in
      let (alone, is_c) = one_or_none-cons c (keep (own s u) table) found (
        sym (
          ap (λ b. one_or_none (if b then c ∷ keep (own s u) table else keep (own s u) table)) mine)
        ∙ h) in
      rw (hit, mine)
        (ap (λ l. replace_connection new c ∷ l) alone ∙ ap (λ f. kept_row new f ∷ []) (sym is_c))
  | inr not_mine ↦
      let miss : (c.user_id == new.user_id) ≡ false =
        ap (λ x. c.user_id == x) i ∙ sym (own-id s u c allowed) ∙ not_mine in
      rw (miss, not_mine)
        (keep-put_connection s u new table found allowed i (
          sym (
            ap (λ b. one_or_none (if b then c ∷ keep (own s u) table else keep (own s u) table))
              not_mine)
          ∙ h))
]

abbrev pub dek_result : Outside → Uuid → ℕ → Session → Result Bytes
dek_result o u v s =
    bind
      (one_or_none (
        keep (λ k. permits s k.user_id && (k.user_id == u && k.key_version == v))
          s.db.user_data_keys))
      (λ found.
        bind (or_raise found connection_data_key_missing)
          (λ row. unwrap_dek o row.wrapped_dek row.wrap_nonce o.master_key))

pub dek_for_version-result :
    (o : Outside) (u : Uuid) (v : ℕ) (s : Session)
    → dek_for_version o u v s ≡ (dek_result o u v s, s)
unfolding dek_for_version
dek_for_version-result o u v s = lifted (
    one_or_none (
      keep (λ k. permits s k.user_id && (k.user_id == u && k.key_version == v))
        s.db.user_data_keys))
  where
    lifted :
        (r : Result (Option UserDataKey))
        → (lift r >>= λ found. lift (or_raise found connection_data_key_missing) >>= λ row.
              lift (unwrap_dek o row.wrapped_dek row.wrap_nonce o.master_key))
            s
          ≡ (
            bind r (λ found.
                bind
                  (or_raise found connection_data_key_missing)
                  (λ row. unwrap_dek o row.wrapped_dek row.wrap_nonce o.master_key)),
            s,
          )
    lifted (err e) = refl
    lifted (ok none) = refl
    lifted (ok (some row)) = refl

abbrev pub last_sync_of : Option SchwabConnection → Option Instant
last_sync_of none = none
last_sync_of (some c) = c.last_synced_at

abbrev pub notified_of : Option SchwabConnection → Option Instant
notified_of none = none
notified_of (some c) = c.reauth_notified_at

-- The row that an upsert asks for, after its draws.
abbrev upserted : Outside → Uuid → ExchangedToken → String → Bytes × ℕ → Session → SchwabConnection
upserted o u x hash key s = record {
  user_id = u;
  account_hash_ciphertext =
      o.aes_encrypt key.0 (o.urandom (suc s.draws)) hash
        (some (connection_associated_data "account_hash_ciphertext" u));
  account_hash_nonce = o.urandom (suc s.draws);
  token_ciphertext =
      o.aes_encrypt key.0 (o.urandom s.draws) x.token
        (some (connection_associated_data "token_ciphertext" u));
  token_nonce = o.urandom s.draws;
  key_version = key.1;
  token_created_at = x.created_at;
  last_synced_at = none;
  reauth_notified_at = none;
}

abbrev after_upsert : Outside → Uuid → ExchangedToken → String → Bytes × ℕ → Session → Session
after_upsert o u x hash key s = record s {
  db = record s.db {
    schwab_connections = put_connection (upserted o u x hash key s) s.db.schwab_connections;
  };
  draws = suc (suc s.draws);
}

upsert_connection-run :
    (o : Outside) (u : Uuid) (x : ExchangedToken) (hash : String) (s : Session) (key : Bytes × ℕ)
    → current_dek o u s ≡ (ok key, s)
    → permits s u ≡ true
    → any (λ (a : User). a.id == u) s.db.users ≡ true
    → upsert_connection o u x hash s ≡ (ok tt, after_upsert o u x hash key s)
unfolding upsert_connection encrypt_field
upsert_connection-run o u x hash s key e allowed known =
    let s₁ = record s { draws = suc (suc s.draws) } in
    let put : Action (Unit {0}) = execute (λ db. record db {
      schwab_connections = put_connection (upserted o u x hash key s) db.schwab_connections;
    }) in
    bind-ok (current_dek o u) _ s s key e
    ∙ bind-ok (raise_when (not (permits s₁ u)) insufficient_privilege)
        (λ done.
          raise_when (not (any (λ (a : User). a.id == u) s₁.db.users)) integrity_error >> put)
        s₁ s₁ tt (ap (λ b. raise_when (not b) insufficient_privilege s₁) allowed)
    ∙ bind-ok (raise_when (not (any (λ (a : User). a.id == u) s₁.db.users)) integrity_error)
        (λ done. put) s₁ s₁ tt (ap (λ b. raise_when (not b) integrity_error s₁) known)

-- The record of a connection.
abbrev pub connected :
    Uuid → ExchangedToken → String → ℕ → Option SchwabConnection → ConnectionRecord
connected u x hash v found = record {
  user_id = u;
  account_hash = hash;
  token = x.token;
  token_created_at = x.created_at;
  last_synced_at = last_sync_of found;
  reauth_notified_at = notified_of found;
  key_version = v;
}

opened-kept :
    (o : Outside) (u : Uuid) (x : ExchangedToken) (hash : String) (s : Session) (key : Bytes × ℕ)
    (found : Option SchwabConnection)
    → Decrypts o
    → dek_for_version o u key.1 (after_upsert o u x hash key s)
      ≡ (ok key.0, after_upsert o u x hash key s)
    → open_connection o u
        (some (kept_row (upserted o u x hash key s) found))
        (after_upsert o u x hash key s)
      ≡ (ok (some (connected u x hash key.1 found)), after_upsert o u x hash key s)
unfolding decrypt_field
opened-kept o u x hash s key none law k =
    bind-ok (dek_for_version o u key.1) _ (after_upsert o u x hash key s)
      (after_upsert o u x hash key s) key.0 k
    ∙ rw
        (
          law key.0 (o.urandom (suc s.draws)) hash
              (some (connection_associated_data "account_hash_ciphertext" u)),
          law key.0 (o.urandom s.draws) x.token
              (some (connection_associated_data "token_ciphertext" u)),
        )
        refl
opened-kept o u x hash s key (some c) law k =
    bind-ok (dek_for_version o u key.1) _ (after_upsert o u x hash key s)
      (after_upsert o u x hash key s) key.0 k
    ∙ rw
        (
          law key.0 (o.urandom (suc s.draws)) hash
              (some (connection_associated_data "account_hash_ciphertext" u)),
          law key.0 (o.urandom s.draws) x.token
              (some (connection_associated_data "token_ciphertext" u)),
        )
        refl

-- Where decryption undoes encryption, the newest data key of the user is also found by its version, the policy permits the user, the
-- user exists and has at most one connection, an upsert succeeds, and a read after it gives the account, the token and its time of
-- creation as they were handed in, under the newest key, with the times of the last sync and notice that were there before.
pub upsert_connection-read :
    (o : Outside) (u : Uuid) (x : ExchangedToken) (hash : String) (s : Session) (key : Bytes × ℕ)
    (found : Option SchwabConnection)
    → Decrypts o
    → current_dek o u s ≡ (ok key, s)
    → dek_for_version o u key.1 s ≡ (ok key.0, s)
    → permits s u ≡ true
    → any (λ (a : User). a.id == u) s.db.users ≡ true
    → one_or_none (keep (own s u) s.db.schwab_connections) ≡ ok found
    → (t : Session) × (upsert_connection o u x hash s ≡ (ok tt, t))
      × (read_connection o u t ≡ (ok (some (connected u x hash key.1 found)), t))
unfolding read_connection
upsert_connection-read o u x hash s key found law e k allowed known one =
    let t = after_upsert o u x hash key s in
    let new = upserted o u x hash key s in
    let dek_later : dek_for_version o u key.1 t ≡ (ok key.0, t) =
      dek_for_version-result o u key.1 t
      ∙ ap (λ r. (r, t))
          (ap (λ (p : Result Bytes × Session). p.0)
            (sym (dek_for_version-result o u key.1 s) ∙ k)) in
    (
      t,
      upsert_connection-run o u x hash s key e allowed known,
      ap (λ r. (lift r >>= λ row. open_connection o u row) t)
            (ap one_or_none
              (keep-put_connection s u new s.db.schwab_connections found allowed refl one))
          ∙ opened-kept o u x hash s key found law dek_later,
    )
