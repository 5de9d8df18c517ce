-- ===== src/Api/Connections/Callback.antt =====
-- What a callback of the broker's login stores (src/morai/api/routes_connections.py).
use mathlib.Core.Path.{subst}
use morai_trading_dashboard.Vendor.Client.{Vendor, ExchangedToken}
use morai_trading_dashboard.Crypto.{encrypt_field}
use morai_trading_dashboard.Ledger.Keys.{current_dek}
use morai_trading_dashboard.Identity.Tokens.{
  oauth_state, matches_token, TokenPurpose, consume_token,
}
use morai_trading_dashboard.Api.Connections.{callback, only_account}
use morai_trading_dashboard.Vendor.Connections.{put_connection, upsert_connection}
use morai_trading_dashboard.Prelude.{
  http_exception, or_raise, integrity_error, insufficient_privilege, ok-inj, one_or_none, Error, ℕ,
  suc, String, Bool, true, false, not, Option, none, some, List, [], ◌∷◌, map, ◌≡◌, refl, sym, ap,
  ◌∙◌, inl, inr, arith, ◌==◌, nat_eq, text_eq, Result, ok, Instant, Uuid, keep, any, Bool-cases,
  beq_refl,
}
use morai_trading_dashboard.Outside.{Outside}
use morai_trading_dashboard.Db.{SchwabConnection, User, SetupToken, Bytes}
use morai_trading_dashboard.Db.Session.{
  user, continue_with-ok, Session, ◌>>◌, pure, lift, raise_when, commit, permits,
  require_rls_context,
}

-- The connections of other users.
abbrev pub others : Uuid → List SchwabConnection → List SchwabConnection
others u cs = keep (λ c. not (c.user_id == u)) cs

others-put_connection :
    (u : Uuid) (new : SchwabConnection) (cs : List SchwabConnection)
    → new.user_id ≡ u
    → others u (put_connection new cs) ≡ others u cs
unfolding put_connection
others-put_connection u new [] i = rw i (ground (arith, beq_refl u))
others-put_connection u new (c ∷ cs) i = elim (Bool-cases (c.user_id == u)) [
  | inl same ↦
      let hit : (c.user_id == new.user_id) ≡ true = ap (λ x. c.user_id == x) i ∙ same in
      rw (hit, same) refl
  | inr other ↦
      let miss : (c.user_id == new.user_id) ≡ false = ap (λ x. c.user_id == x) i ∙ other in
      rw (miss, other) (ap (λ l. c ∷ l) (others-put_connection u new cs i))
]

current_dek-same : (o : Outside) (u : Uuid) (s : Session) → (current_dek o u s).1 ≡ s
unfolding current_dek
current_dek-same o u s = ground arith

raise_when-ok :
    (b : Bool) (e : Error) (s t : Session) (x : Unit {0}) → raise_when b e s ≡ (ok x, t) → t ≡ s
raise_when-ok true e s t x h = cc
raise_when-ok false e s t x h = ap (λ (p : Result (Unit {0}) × Session). p.1) (sym h)

-- An upsert that succeeds leaves the connections of other users.
upsert_connection-others :
    (o : Outside) (u : Uuid) (x : ExchangedToken) (hash : String) (s t : Session)
    → upsert_connection o u x hash s ≡ (ok tt, t)
    → others u t.db.schwab_connections ≡ others u s.db.schwab_connections
unfolding upsert_connection encrypt_field
upsert_connection-others o u x hash s t h =
    let (key, r, e, h₁) = continue_with-ok _ (current_dek o u s) tt t h in
    let back : r ≡ s =
      ap (λ (p : Result (Bytes × ℕ) × Session). p.1) (sym e) ∙ current_dek-same o u s in
    let r₁ = record r { draws = suc (suc r.draws) } in
    let (a, r₂, e₂, h₂) =
      continue_with-ok _ (raise_when (not (permits r₁ u)) insufficient_privilege r₁) tt t h₁ in
    let (b, r₃, e₃, h₃) =
      continue_with-ok _
        (raise_when (not (any (λ (a : User). a.id == u) r₁.db.users)) integrity_error r₂) tt t h₂ in
    let at : r₃ ≡ r₁ =
      raise_when-ok (not (any (λ (a : User). a.id == u) r₁.db.users)) integrity_error r₂ r₃ b e₃
      ∙ raise_when-ok (not (permits r₁ u)) insufficient_privilege r₁ r₂ a e₂ in
    ap (λ (p : Result (Unit {0}) × Session). others u p.1.db.schwab_connections) (sym h₃)
    ∙ others-put_connection u _ r₃.db.schwab_connections refl
    ∙ ap (λ (q : Session). others u q.db.schwab_connections) at
    ∙ ap (λ (q : Session). others u q.db.schwab_connections) back

one_user :
    (rows : List SetupToken) (u : Uuid)
    → one_or_none (map (λ t. t.user_id) rows) ≡ ok (some u)
    → (tok : SetupToken) × (rows ≡ tok ∷ []) × (tok.user_id ≡ u)
one_user [] u h = cc
one_user (tok ∷ []) u h = (tok, refl, (let same = ok-inj h in cc))
one_user (tok ∷ b ∷ rows) u h = cc

-- A token that was consumed had one row, and its consumption leaves the connections.
consume_token-row :
    (o : Outside) (now : Instant) (raw : String) (purpose : TokenPurpose) (s t : Session) (u : Uuid)
    → consume_token o now raw purpose s ≡ (ok (some u), t)
    → (tok : SetupToken) × (keep (matches_token o now raw purpose) s.db.setup_tokens ≡ tok ∷ [])
      × (tok.user_id ≡ u)
      × (t.db.schwab_connections ≡ s.db.schwab_connections)
unfolding consume_token
consume_token-row o now raw purpose s t u h =
    let rows = keep (matches_token o now raw purpose) s.db.setup_tokens in
    let s₁ = record s {
      db = record s.db {
        setup_tokens = keep (λ t. not (matches_token o now raw purpose t)) s.db.setup_tokens;
      };
    } in
    let (row, r, e, k) =
      continue_with-ok (λ row. commit >> pure row)
        (one_or_none (map (λ (t : SetupToken). t.user_id) rows), s₁) (some u) t h in
    let is_u : row ≡ some u = ok-inj (ap (λ (p : Result (Option Uuid) × Session). p.0) k) in
    let (tok, one, own) =
      one_user rows u (ap (λ (p : Result (Option Uuid) × Session). p.0) e ∙ ap ok is_u) in
    (
      tok,
      one,
      own,
      ap (λ (p : Result (Option Uuid) × Session). p.1.db.schwab_connections) (sym k)
          ∙ ap (λ (p : Result (Option Uuid) × Session). p.1.db.schwab_connections) (sym e),
    )

one_account :
    (accounts : List String) (hash : String)
    → only_account accounts ≡ ok hash
    → accounts ≡ hash ∷ []
one_account [] hash h = cc
one_account (a ∷ []) hash h = ap (λ x. x ∷ []) (ok-inj h)
one_account (a ∷ b ∷ r) hash h = cc

or_raise-some :
    {A : Type 0} → (found : Option A) (e : Error) (a : A) → or_raise found e ≡ ok a → found ≡ some a
or_raise-some none e a h = cc
or_raise-some (some b) e a h = ap some (ok-inj h)

lift-same :
    {A : Type 0}
    → (r : Result A) (s t : Session) (a : A) → lift r s ≡ (ok a, t)
    → (r ≡ ok a) × (t ≡ s)
lift-same {A = A} r s t a h =
    (ap (λ (p : Result A × Session). p.0) h, ap (λ (p : Result A × Session). p.1) (sym h))

pub callback-own :
    (o : Outside) (v : Vendor) (now : Instant) (url state : String) (s t : Session)
    → callback o v now url state s ≡ (ok tt, t)
    → (tok : SetupToken) × (x : ExchangedToken) × (hash : String) × (keep
          (matches_token o now state oauth_state)
          s.db.setup_tokens
        ≡ tok ∷ [])
      × (v.exchange_callback url state ≡ ok x)
      × (v.get_account_numbers x ≡ ok (hash ∷ []))
      × (others tok.user_id t.committed.schwab_connections
          ≡ others tok.user_id s.db.schwab_connections)
unfolding callback require_rls_context
callback-own o v now url state s t h =
    let (consumed, s₁, e₁, h₁) =
      continue_with-ok _ (consume_token o now state oauth_state s) tt t h in
    let (u, s₂, e₂, h₂) =
      continue_with-ok _ (lift (or_raise consumed (http_exception 400)) s₁) tt t h₁ in
    let (found, at₂) = lift-same (or_raise consumed (http_exception 400)) s₁ s₂ u e₂ in
    let (tok, one, own, conn) =
      consume_token-row o now state oauth_state s s₁ u
        (e₁ ∙ ap (λ c. (ok c, s₁)) (or_raise-some consumed (http_exception 400) u found)) in
    let s₃ = record s₂ { setting = user u } in
    let (x, s₄, e₄, h₄) = continue_with-ok _ (lift (v.exchange_callback url state) s₃) tt t h₂ in
    let (is_x, at₄) = lift-same (v.exchange_callback url state) s₃ s₄ x e₄ in
    let (accounts, s₅, e₅, h₅) = continue_with-ok _ (lift (v.get_account_numbers x) s₄) tt t h₄ in
    let (are, at₅) = lift-same (v.get_account_numbers x) s₄ s₅ accounts e₅ in
    let (hash, s₆, e₆, h₆) = continue_with-ok _ (lift (only_account accounts) s₅) tt t h₅ in
    let (only, at₆) = lift-same (only_account accounts) s₅ s₆ hash e₆ in
    let (done, s₇, e₇, h₇) =
      continue_with-ok (λ done. commit) (upsert_connection o u x hash s₆) tt t h₆ in
    let rest = upsert_connection-others o u x hash s₆ s₇ e₇ in
    let table : Session → List SchwabConnection = λ q. q.db.schwab_connections in
    let kept : others u t.committed.schwab_connections ≡ others u s.db.schwab_connections =
      ap (λ (p : Result (Unit {0}) × Session). others u p.1.committed.schwab_connections) (sym h₇)
      ∙ rest
      ∙ ap (others u) (ap table (at₆ ∙ at₅ ∙ at₄) ∙ ap table at₂ ∙ conn) in
    (
      tok,
      x,
      hash,
      one,
      is_x,
      are ∙ ap ok (one_account accounts hash only),
      subst (λ w. others w t.committed.schwab_connections ≡ others w s.db.schwab_connections)
          (sym own) kept,
    )
