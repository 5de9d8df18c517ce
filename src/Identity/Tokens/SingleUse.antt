-- ===== src/Identity/Tokens/SingleUse.antt =====
-- The use of a one-time token (src/morai/identity/setup_tokens.py).
use morai_trading_dashboard.Prelude.{
  ◌∙◌, ap, true, List, keep-none_any, one_or_none, any-imp, keep-rejected, ltb, ◌+◌, ◌≤◌, String,
  Bool, false, ◌&&◌, not, Option, none, some, ◌∷◌, map, ◌≡◌, refl, inl, inr, arith, if◌then◌else◌,
  ◌==◌, nat_eq, text_eq, ok, Instant, Duration, Uuid, keep, any, Bool-cases, Result-cases, beq_refl,
}
use morai_trading_dashboard.Outside.{Outside}
use morai_trading_dashboard.Db.{SetupToken}
use morai_trading_dashboard.Db.Session.{Session}
use morai_trading_dashboard.Identity.Tokens.{
  TokenPurpose, purpose_text, hash_token, issue_token, consume_token, matches_token,
}

module _ (o : Outside) (now : Instant) (raw : String) (purpose : TokenPurpose) (s : Session) where
  consume_token-leaves :
      (consume_token o now raw purpose s).1.db.setup_tokens
      ≡ keep (λ t. not (matches_token o now raw purpose t)) s.db.setup_tokens
  unfolding consume_token
  consume_token-leaves =
      elim (Result-cases (
        one_or_none
          (map (λ t. t.user_id) (keep (matches_token o now raw purpose) s.db.setup_tokens)))) [
            | inl (a, h) ↦ rw h refl
            | inr (e, h) ↦ rw h refl
          ]

  pub consume_token-gives :
      (row : Option Uuid)
      → one_or_none
          (map (λ t. t.user_id) (keep (matches_token o now raw purpose) s.db.setup_tokens))
        ≡ ok row
      → (consume_token o now raw purpose s).0 ≡ ok row
  unfolding consume_token
  consume_token-gives row h = rw h refl

-- The newest token, where no older one has its hash.
pub consume_token-newest :
    (o : Outside) (at : Instant) (raw : String) (purpose : TokenPurpose) (s : Session)
    (row : SetupToken) (older : List SetupToken)
    → s.db.setup_tokens ≡ row ∷ older
    → matches_token o at raw purpose row ≡ true
    → any (λ (x : SetupToken). x.token_hash == hash_token o raw) older ≡ false
    → (consume_token o at raw purpose s).0 ≡ ok (some row.user_id)
consume_token-newest o at raw purpose s row older h new fresh =
    consume_token-gives o at raw purpose s (some row.user_id) (
      ap
        (λ rows.
          one_or_none
            (map (λ (x : SetupToken). x.user_id) (keep (matches_token o at raw purpose) rows)))
        h
      ∙ rw
          (
            new,
            keep-none_any (matches_token o at raw purpose) older (
                any-imp (matches_token o at raw purpose)
                  (λ (x : SetupToken). x.token_hash == hash_token o raw) older
                  (λ x m. ground (arith, m)) fresh),
          )
          refl)

pub consume_token-once :
    (o : Outside) (now later : Instant) (raw : String) (purpose : TokenPurpose) (s : Session)
    → now ≤ later
    → (consume_token o later raw purpose (consume_token o now raw purpose s).1).0 ≡ ok none
consume_token-once o now later raw purpose s h =
    consume_token-gives o later raw purpose (consume_token o now raw purpose s).1 none (
      rw
        (
          consume_token-leaves o now raw purpose s,
          keep-rejected (matches_token o later raw purpose) (matches_token o now raw purpose)
              s.db.setup_tokens (λ t m. ground (arith, m, h)),
        )
        refl)

module _ (o : Outside) (now at : Instant) (user_id : Uuid) (issued asked : TokenPurpose)
    (ttl : Duration) (s : Session) where
  abbrev raw_token : String
  raw_token = o.token_urlsafe s.draws

  abbrev issued_row : SetupToken
  issued_row = record {
    token_hash = hash_token o raw_token;
    user_id = user_id;
    purpose = purpose_text issued;
    expires_at = now + ttl;
  }

  abbrev is_good : Bool
  is_good = purpose_text issued == purpose_text asked && ltb at (now + ttl)

  matches-issued_row : matches_token o at raw_token asked issued_row ≡ is_good
  matches-issued_row = ground (arith, beq_refl (hash_token o raw_token))

  issued_rows :
      (issue_token o now user_id issued ttl s).1.db.setup_tokens ≡ issued_row ∷ s.db.setup_tokens
  unfolding issue_token
  issued_rows = refl

  none_before :
      any (λ t. t.token_hash == hash_token o raw_token) s.db.setup_tokens ≡ false
      → any (matches_token o at raw_token asked) s.db.setup_tokens ≡ false
  none_before =
      any-imp (matches_token o at raw_token asked) (λ t. t.token_hash == hash_token o raw_token)
        s.db.setup_tokens (λ t m. ground (arith, m))

-- A token whose hash no row had yet is accepted exactly for the purpose that it was issued for and before
-- its lifetime ends, and then gives the user that it was issued to.
issue_token-consume :
    (o : Outside) (now at : Instant) (user_id : Uuid) (issued asked : TokenPurpose) (ttl : Duration)
    (s : Session)
    → any (λ t. t.token_hash == hash_token o (o.token_urlsafe s.draws)) s.db.setup_tokens ≡ false
    → (consume_token o at
        (o.token_urlsafe s.draws)
        asked
        (issue_token o now user_id issued ttl s).1).0
      ≡ ok (
          if purpose_text issued == purpose_text asked && ltb at (now + ttl)
          then some user_id
          else none)
issue_token-consume o now at user_id issued asked ttl s h =
    let before = none_before o now at user_id issued asked ttl s h in
    let t = (issue_token o now user_id issued ttl s).1 in
    let q = matches_token o at (o.token_urlsafe s.draws) asked in
    consume_token-gives o at (o.token_urlsafe s.draws) asked t
      (if is_good o now at user_id issued asked ttl s then some user_id else none)
      (elim (Bool-cases (is_good o now at user_id issued asked ttl s)) [
        | inl g ↦
            rw
              (
                issued_rows o now at user_id issued asked ttl s,
                matches-issued_row o now at user_id issued asked ttl s,
                g,
                keep-none_any q s.db.setup_tokens before,
              )
              refl
        | inr g ↦
            rw
              (
                issued_rows o now at user_id issued asked ttl s,
                matches-issued_row o now at user_id issued asked ttl s,
                g,
                keep-none_any q s.db.setup_tokens before,
              )
              refl
      ])
