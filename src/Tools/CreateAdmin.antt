-- ===== src/Tools/CreateAdmin.antt =====
-- `main` of tools/create_admin.py. The advisory lock waits for other sessions only.
use morai_trading_dashboard.Identity.Tokens.SingleUse.{consume_token-newest}
use morai_trading_dashboard.Identity.Routes.{setup_token_ttl}
use morai_trading_dashboard.Identity.Tokens.{
  purpose_text, setup, consume_token, issue_token, hash_token,
}
use morai_trading_dashboard.Prelude.{
  keep-none_any, integrity_error, suc, ◌+◌, ◌<◌, String, Bool, true, false, Option, none, some, [],
  ◌∷◌, ◌≡◌, refl, sym, ap, ◌∙◌, inl, inr, arith, if◌then◌else◌, ◌==◌, nat_eq, text_eq, ok, Instant,
  Uuid, keep, any, Bool-cases, beq_refl,
}
use morai_trading_dashboard.Outside.{Outside}
use morai_trading_dashboard.Db.{Database, User, SetupToken}
use morai_trading_dashboard.Db.Session.{
  open_session, Session, Action, ◌>>=◌, ◌>>◌, pure, query, execute, raise_when, commit, rollback,
  draw,
}

abbrev admin_user : Uuid → String → User
admin_user id username = record {
  id = id;
  username = username;
  password_hash = none;
  is_admin = true;
}

-- The insertion and the token; a taken name is refused by the database.
abbrev first_admin : Outside → Instant → String → Action (Option String)
first_admin o now username = do
  id ← draw o.new_uuid
  taken ← query (λ db. any (λ u. u.username == username) db.users)
  raise_when taken integrity_error
  execute (λ db. record db { users = admin_user id username ∷ db.users })
  raw_token ← issue_token o now id setup setup_token_ttl
  commit
  pure (some raw_token)

abbrev is_administrator : User → Bool
is_administrator u = u.is_admin

-- The printed token, or none where the script refuses; the session is closed without a commit then.
unfoldable pub create_admin : Outside → Instant → String → Action (Option String)
create_admin o now username = do
  open_session
  existing_admin ← query (λ db. any is_administrator db.users)
  if existing_admin then (rollback >> pure none) else first_admin o now username

-- Where an administrator exists, the script refuses and commits nothing.
pub create_admin-refuses :
    (o : Outside) (now : Instant) (username : String) (s : Session)
    → any is_administrator s.committed.users ≡ true
    → ((create_admin o now username s).0 ≡ ok none)
      × ((create_admin o now username s).1.committed ≡ s.committed)
unfolding create_admin
create_admin-refuses o now username s h = rw h (refl, refl)

abbrev token_row : Outside → Instant → Session → SetupToken
token_row o now s = record {
  token_hash = hash_token o (o.token_urlsafe (suc s.draws));
  user_id = o.new_uuid s.draws;
  purpose = purpose_text setup;
  expires_at = now + setup_token_ttl;
}

-- What the run of the first administrator commits.
abbrev made : Outside → Instant → String → Session → Database
made o now username s = record s.committed {
  users = admin_user (o.new_uuid s.draws) username ∷ s.committed.users;
  setup_tokens = token_row o now s ∷ s.committed.setup_tokens;
}

-- A run that prints a token met no administrator.
create_admin-made :
    (o : Outside) (now : Instant) (username raw : String) (s t : Session)
    → create_admin o now username s ≡ (ok (some raw), t)
    → (any is_administrator s.committed.users ≡ false)
      × (t.committed ≡ made o now username s)
      × (o.token_urlsafe (suc s.draws) ≡ raw)
unfolding create_admin issue_token
create_admin-made o now username raw s t e =
    elim (Bool-cases (any is_administrator s.committed.users)) [
      | inl b ↦ ground (arith, e, b)
      | inr b ↦ elim (Bool-cases (any (λ (u : User). u.username == username) s.committed.users)) [
        | inl c ↦ ground (arith, e, b, c)
        | inr c ↦ (b, sym (ap (λ p. p.1.committed) e) ∙ rw (b, c) refl, ground (arith, e, b, c))
      ]
    ]

-- A run that prints a token has committed exactly one administrator, whom the token lets set a password
-- within seven days if no older token has its hash; and a later run on what it committed refuses and
-- commits nothing.
pub create_admin-once :
    (o : Outside) (now at later : Instant) (username another raw : String) (s t r : Session)
    → create_admin o now username s ≡ (ok (some raw), t)
    → any (λ (x : SetupToken). x.token_hash == hash_token o raw) s.committed.setup_tokens ≡ false
    → at < now + setup_token_ttl
    → r.committed ≡ t.committed
    → (admin : User) × (keep is_administrator t.committed.users ≡ admin ∷ [])
      × ((consume_token o at raw setup (open_session r).1).0 ≡ ok (some admin.id))
      × ((create_admin o later another r).0 ≡ ok none)
      × ((create_admin o later another r).1.committed ≡ t.committed)
create_admin-once o now at later username another raw s t r e fresh soon same =
    let (none_before, committed, printed) = create_admin-made o now username raw s t e in
    let kept = same ∙ committed in
    let (refusal, unchanged) =
      create_admin-refuses o later another r
        (ap (λ (db : Database). any is_administrator db.users) kept) in
    (
      admin_user (o.new_uuid s.draws) username,
      ap (λ (db : Database). keep is_administrator db.users) committed
          ∙ ap (λ us. admin_user (o.new_uuid s.draws) username ∷ us)
              (keep-none_any is_administrator s.committed.users none_before),
      consume_token-newest o at raw setup (open_session r).1 (token_row o now s)
          s.committed.setup_tokens (ap (λ (db : Database). db.setup_tokens) kept)
          (ground (arith, soon, ap (hash_token o) printed, beq_refl (hash_token o raw))) fresh,
      refusal,
      unchanged ∙ same,
    )
