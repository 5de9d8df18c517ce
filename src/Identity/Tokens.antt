-- ===== src/Identity/Tokens.antt =====
-- One-time tokens (src/morai/identity/tokens.py, src/morai/identity/setup_tokens.py).
use morai_trading_dashboard.Prelude.{
  one_or_none, multiple_results_found, err, some, ltb, ◌∷◌, map, ◌∷◌, ◌&&◌, none, ◌+◌, not,
  Duration, length, nat_eq, text_eq, ◌==◌, ok, keep, Option, Uuid, Result, Bool, ℕ, Instant, List,
  String,
}
pub mod SingleUse
use morai_trading_dashboard.Outside.{Outside}
use morai_trading_dashboard.Db.{Database, SetupToken}
use morai_trading_dashboard.Db.Session.{
  Session, Action, ◌>>=◌, ◌>>◌, pure, lift, query, execute, draw, commit,
}

pub data TokenPurpose : Type 0 where
  setup password_reset oauth_state : TokenPurpose

abbrev pub purpose_text : TokenPurpose → String
purpose_text setup = "setup"
purpose_text password_reset = "password_reset"
purpose_text oauth_state = "oauth_state"

abbrev pub generate_token : Outside → Action String
generate_token o = draw o.token_urlsafe

abbrev pub hash_token : Outside → String → String
hash_token o token = o.sha256_hex token

unfoldable pub issue_token : Outside → Instant → Uuid → TokenPurpose → Duration → Action String
issue_token o now user_id purpose ttl = do
  raw ← generate_token o
  execute (λ db. record db {
    setup_tokens =
        (record {
          token_hash = hash_token o raw;
          user_id = user_id;
          purpose = purpose_text purpose;
          expires_at = now + ttl;
        })
        ∷ db.setup_tokens;
  })
  pure raw

-- The rows that the DELETE of `consume_token` matches.
abbrev pub matches_token : Outside → Instant → String → TokenPurpose → SetupToken → Bool
matches_token o now raw_token purpose t =
    t.token_hash == hash_token o raw_token
    && (t.purpose == purpose_text purpose && ltb now t.expires_at)

unfoldable pub consume_token : Outside → Instant → String → TokenPurpose → Action (Option Uuid)
consume_token o now raw_token purpose = do
  deleted ← query (λ db. keep (matches_token o now raw_token purpose) db.setup_tokens)
  execute (λ db. record db {
    setup_tokens = keep (λ t. not (matches_token o now raw_token purpose t)) db.setup_tokens;
  })
  row ← lift (one_or_none (map (λ t. t.user_id) deleted))
  commit
  pure row
