-- ===== src/Identity/Routes/Invite.antt =====
-- A new user and the token that invites them (src/morai/api/routes_identity.py).
use morai_trading_dashboard.Identity.Tokens.SingleUse.{consume_token-newest}
use morai_trading_dashboard.Identity.Routes.Audit.{get_current_admin-ok}
use morai_trading_dashboard.Identity.Sessions.{get_current_admin, AuthenticatedUser}
use morai_trading_dashboard.Identity.Tokens.{
  password_reset, consume_token, purpose_text, setup, hash_token, issue_token,
}
use morai_trading_dashboard.Crypto.{generate_dek, wrap_dek}
use morai_trading_dashboard.Ledger.Keys.{provision_data_key}
use morai_trading_dashboard.Identity.Routes.{
  consume_either, setup_token_ttl, create_user, new_user, add_user,
}
use morai_trading_dashboard.Prelude.{
  keep-none_any, insufficient_privilege, integrity_error, ok-inj, suc, ◌+◌, ◌<◌, String, true,
  false, ◌&&◌, Option, none, some, [], ◌∷◌, ◌≡◌, refl, sym, ap, ◌∙◌, inl, inr, arith, ◌==◌, nat_eq,
  text_eq, ok, err, Instant, Uuid, keep, any, Bool-cases, beq_refl,
}
use morai_trading_dashboard.Outside.{Outside}
use morai_trading_dashboard.Db.{UserDataKey, Database, User, SetupToken}
use morai_trading_dashboard.Db.Session.{
  user, continue_with-ok, Session, Action, ◌>>◌, pure, commit, permits, permits_user,
  require_rls_context, continue_with,
}

abbrev with_user : Outside → String → Session → Session
with_user o username s = record s {
  db = record s.db { users = new_user (o.new_uuid s.draws) username ∷ s.db.users };
  draws = suc s.draws;
}

-- What `add_user` inserts.
add_user-ok :
    (o : Outside) (username : String) (s t : Session) (u : User)
    → add_user o username s ≡ (ok u, t)
    → (any (λ (x : User). x.username == username) s.db.users ≡ false)
      × (new_user (o.new_uuid s.draws) username ≡ u)
      × (with_user o username s ≡ t)
add_user-ok o username s t u h =
    elim (Bool-cases (any (λ (x : User). x.username == username) s.db.users)) [
      | inl taken ↦ ground (arith, h, taken)
      | inr free ↦ elim (Bool-cases (permits_user s (o.new_uuid s.draws))) [
        | inl may ↦
            let forward : add_user o username s
                ≡ (ok (new_user (o.new_uuid s.draws) username), with_user o username s) =
              rw (free, may) refl in
            (free, ok-inj (ap (λ p. p.0) (sym forward ∙ h)), ap (λ p. p.1) (sym forward ∙ h))
        | inr not_may ↦ ground (arith, h, free, not_may)
      ]
    ]

abbrev new_key : Outside → Uuid → Session → UserDataKey
new_key o user_id s = record {
  user_id = user_id;
  key_version = 1;
  wrapped_dek = o.aes_encrypt o.master_key (o.urandom (suc s.draws)) (o.generate_key s.draws) none;
  wrap_nonce = o.urandom (suc s.draws);
}

abbrev with_key : Outside → Uuid → Session → Session
with_key o user_id s = record s {
  db = record s.db { user_data_keys = new_key o user_id s ∷ s.db.user_data_keys };
  draws = suc (suc s.draws);
}

-- What `provision_data_key` writes.
provision_data_key-ok :
    (o : Outside) (user_id : Uuid) (s t : Session) (x : Unit {0})
    → provision_data_key o user_id s ≡ (ok x, t)
    → with_key o user_id s ≡ t
unfolding provision_data_key wrap_dek generate_dek
provision_data_key-ok o user_id s t x h = elim (Bool-cases (permits s user_id)) [
  | inl may ↦
      elim (Bool-cases (
        any (λ (k : UserDataKey). k.user_id == user_id && k.key_version == 1)
          s.db.user_data_keys)) [
            | inl taken ↦
                let failed : (provision_data_key o user_id s).0 ≡ err integrity_error =
                  rw (may, taken) refl in
                let refused : err integrity_error ≡ ok x = sym failed ∙ ap (λ p. p.0) h in cc
            | inr free ↦
                let forward : provision_data_key o user_id s ≡ (ok tt, with_key o user_id s) =
                  rw (may, free) refl in
                ap (λ p. p.1) (sym forward ∙ h)
          ]
  | inr not_may ↦
      let failed : (provision_data_key o user_id s).0 ≡ err insufficient_privilege =
        rw not_may refl in
      let refused : err insufficient_privilege ≡ ok x = sym failed ∙ ap (λ p. p.0) h in cc
]

-- `SETUP` is tried first.
consume_either-first :
    (o : Outside) (now : Instant) (raw : String) (s : Session) (id : Uuid)
    → (consume_token o now raw setup s).0 ≡ ok (some id)
    → (consume_either o now raw s).0 ≡ ok (some id)
consume_either-first o now raw s id h =
    ap
      (λ q.
        (continue_with
          (λ first. elim first [
            | some user_id ↦ pure (some user_id)
            | none ↦ consume_token o now raw password_reset
          ])
          (q, (consume_token o now raw setup s).1)).0)
      h

-- The row of the token, and the session in the context of the new user.
abbrev invite_row : Outside → Instant → Uuid → Session → SetupToken
invite_row o now id s = record {
  token_hash = hash_token o (o.token_urlsafe s.draws);
  user_id = id;
  purpose = purpose_text setup;
  expires_at = now + setup_token_ttl;
}

abbrev in_context : Outside → Instant → Uuid → Session → Session
in_context o now id s = record (issue_token o now id setup setup_token_ttl s).1 {
  setting = user id;
}

abbrev finish : Uuid × String → Action (Uuid × String)
finish given = commit >> pure given

-- What the last steps commit, on the session after the insertion of the user.
module _ (o : Outside) (now : Instant) (username raw : String) (u : User) (id : Uuid)
    (s s₁ s₂ t : Session) (is_new : new_user (o.new_uuid s.draws) username ≡ u)
    (at₁ : with_user o username s ≡ s₁) (at₂ : with_key o u.id (in_context o now u.id s₁) ≡ s₂)
    (done : finish (u.id, o.token_urlsafe s₁.draws) s₂ ≡ (ok (id, raw), t)) where
  same_id : u.id ≡ id
  same_id = ap (λ p. p.0) (ok-inj (ap (λ p. p.0) done))

  same_raw : o.token_urlsafe s₁.draws ≡ raw
  same_raw = ap (λ p. p.1) (ok-inj (ap (λ p. p.0) done))

  committed_users : t.committed.users ≡ u ∷ s.db.users
  unfolding issue_token
  committed_users =
      ap (λ p. p.1.committed.users) (sym done)
      ∙ ap (λ (x : Session). x.db.users) (sym at₂)
      ∙ ap (λ (x : Session). x.db.users) (sym at₁)
      ∙ ap (λ v. v ∷ s.db.users) is_new

  committed_tokens : t.committed.setup_tokens ≡ invite_row o now u.id s₁ ∷ s.db.setup_tokens
  unfolding issue_token
  committed_tokens =
      ap (λ p. p.1.committed.setup_tokens) (sym done)
      ∙ ap (λ (x : Session). x.db.setup_tokens) (sym at₂)
      ∙ ap (λ (x : Session). invite_row o now u.id s₁ ∷ x.db.setup_tokens) (sym at₁)

  committed_keys :
      t.committed.user_data_keys ≡ new_key o u.id (in_context o now u.id s₁) ∷ s.db.user_data_keys
  unfolding issue_token
  committed_keys =
      ap (λ p. p.1.committed.user_data_keys) (sym done)
      ∙ ap (λ (x : Session). x.db.user_data_keys) (sym at₂)
      ∙ ap (λ (x : Session). new_key o u.id (in_context o now u.id s₁) ∷ x.db.user_data_keys)
          (sym at₁)

  only_name :
      any (λ (x : User). x.username == username) s.db.users ≡ false
      → keep (λ (x : User). x.username == username) t.committed.users ≡ new_user id username ∷ []
  only_name free =
      ap (keep (λ (x : User). x.username == username))
        (committed_users ∙ ap (λ v. v ∷ s.db.users) (sym is_new))
      ∙ rw (beq_refl username, keep-none_any (λ (x : User). x.username == username) s.db.users free)
          refl
      ∙ ap (λ i. new_user i username ∷ []) (ap (λ (x : User). x.id) is_new ∙ same_id)

  token_works :
      (at : Instant) (r : Session)
      → any (λ (x : SetupToken). x.token_hash == hash_token o raw) s.db.setup_tokens ≡ false
      → at < now + setup_token_ttl
      → r.db ≡ t.committed
      → (consume_either o at raw r).0 ≡ ok (some id)
  token_works at r fresh soon same = consume_either-first o at raw r id (
      consume_token-newest o at raw setup r (invite_row o now u.id s₁) s.db.setup_tokens
        (ap (λ (db : Database). db.setup_tokens) same ∙ committed_tokens)
        (ground (arith, soon, ap (hash_token o) same_raw, beq_refl (hash_token o raw))) fresh
      ∙ ap (λ i. ok (some i)) same_id)

-- A creation of a user that returns a token was asked for by an administrator, and committed the user,
-- under a name that nobody had, without a password and without the rights of an administrator, and a data
-- key of the user; within seven days, and if no older token has its hash, the token lets the user set a
-- password.
pub create_user-invites :
    (o : Outside) (now at : Instant) (cookie : Option String) (username raw : String) (id : Uuid)
    (s t r : Session)
    → create_user o now cookie username s ≡ (ok (id, raw), t)
    → any (λ (x : SetupToken). x.token_hash == hash_token o raw) s.db.setup_tokens ≡ false
    → at < now + setup_token_ttl
    → r.db ≡ t.committed
    → (admin : AuthenticatedUser) × (key : UserDataKey) × (entered : Session) × (invited : User)
      × (get_current_admin o now cookie s ≡ (ok admin, entered))
      × (admin.is_admin ≡ true)
      × (keep (λ u. u.username == username) t.committed.users ≡ invited ∷ [])
      × (invited.id ≡ id)
      × (invited.password_hash ≡ none)
      × (invited.is_admin ≡ false)
      × (t.committed.user_data_keys ≡ key ∷ s.db.user_data_keys)
      × (key.user_id ≡ id)
      × ((consume_either o at raw r).0 ≡ ok (some id))
unfolding create_user require_rls_context issue_token
create_user-invites o now at cookie username raw id s t r h fresh soon same =
    let (admin, r₁, e₁, h₁) = continue_with-ok _ (get_current_admin o now cookie s) (id, raw) t h in
    let (is_yes, d₁) = get_current_admin-ok o now cookie s r₁ admin e₁ in
    let (u, r₂, e₂, h₂) = continue_with-ok _ (add_user o username r₁) (id, raw) t h₁ in
    let (free, is_new, at₂) = add_user-ok o username r₁ r₂ u e₂ in
    let (x, r₃, e₃, h₃) =
      continue_with-ok _ (provision_data_key o u.id (in_context o now u.id r₂)) (id, raw) t h₂ in
    let at₃ = provision_data_key-ok o u.id (in_context o now u.id r₂) r₃ x e₃ in
    (
      admin,
      new_key o u.id (in_context o now u.id r₂),
      r₁,
      new_user id username,
      e₁,
      is_yes,
      only_name o now username raw u id r₁ r₂ r₃ t is_new at₂ at₃ h₃ free,
      refl,
      refl,
      refl,
      committed_keys o now username raw u id r₁ r₂ r₃ t is_new at₂ at₃ h₃
          ∙ ap (λ (db : Database). new_key o u.id (in_context o now u.id r₂) ∷ db.user_data_keys)
              d₁,
      same_id o now username raw u id r₁ r₂ r₃ t is_new at₂ at₃ h₃,
      token_works o now username raw u id r₁ r₂ r₃ t is_new at₂ at₃ h₃ at r
          (ap
              (λ (db : Database).
                any (λ (x : SetupToken). x.token_hash == hash_token o raw) db.setup_tokens)
              d₁
            ∙ fresh)
          soon same,
    )
