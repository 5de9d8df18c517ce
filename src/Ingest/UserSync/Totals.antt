-- ===== src/Ingest/UserSync/Totals.antt =====
-- The counts that `sync_user` (src/morai/ingest/schwab_sync.py) returns.
use morai_trading_dashboard.Prelude.{
  ◌+◌, ◌≡◌, sym, ap, ◌∙◌, String, Bool, true, false, List, [], ◌∷◌, length, ok, ok-inj, Uuid,
  Instant, arith, or_raise, validation_error, connection_not_found, runtime_error, nat_eq, text_eq,
}
use morai_trading_dashboard.Outside.{Outside}
use morai_trading_dashboard.Db.Session.{Session, continue_with-ok, lift, user}
use morai_trading_dashboard.Crypto.{encrypt_field}
use morai_trading_dashboard.Ledger.Keys.{current_dek}
use morai_trading_dashboard.Ledger.Fills.{insert_fills}
use morai_trading_dashboard.Ingest.BrokerTransactions.{insert_broker_transactions}
use morai_trading_dashboard.Vendor.Client.{TokenHolder, Vendor}
use morai_trading_dashboard.Vendor.Connections.{
  schwab_client_for_user, read_connection, save_token, seed_holder,
}
use morai_trading_dashboard.Ingest.Windows.{SyncSettings, sync_windows}
use morai_trading_dashboard.Ingest.UserSync.{
  SyncOutcome, no_outcome, window_rows, request_window, sync_window, sync_all_windows, sync_body,
  sync_user,
}
use morai_trading_dashboard.Ingest.UserSync.Writes.{current_dek-reads, read_connection-reads}
use morai_trading_dashboard.Ingest.UserSync.Landed.{
  Grown, unmoved, insert_fills-grow, insert_broker_transactions-grow,
}

-- From one state of the loop to another, the counts grew as the tables did.
abbrev Counted : SyncOutcome → Session → SyncOutcome → Session → Type 0
Counted a s b t =
    (length t.db.fills + a.fills_landed ≡ length s.db.fills + b.fills_landed)
    × (length t.db.broker_transactions + a.broker_transactions_landed
        ≡ length s.db.broker_transactions + b.broker_transactions_landed)

request_window-db :
    (v : Vendor) (hash : String) (w : Instant × Instant) (holder h' : TokenHolder)
    (raws : List String) (s t : Session)
    → request_window v hash w holder s ≡ (ok (raws, h'), t)
    → s.db ≡ t.db
request_window-db v hash w holder h' raws s t h =
    let (response, r, e, h₁) =
      continue_with-ok _ (lift (v.get_transactions holder.token hash w.0 w.1).0 s) (raws, h') t h in
    let (read, r', e', h₂) =
      continue_with-ok _ (lift (or_raise (v.json_list response) validation_error) r) (raws, h') t
        h₁ in
    ap (λ p. p.1.db) e ∙ ap (λ p. p.1.db) e' ∙ ap (λ p. p.1.db) h₂

sync_window-Counted :
    (o : Outside) (v : Vendor) (u : Uuid) (hash : String) (w : Instant × Instant)
    (a b : TokenHolder × SyncOutcome) (s t : Session)
    → sync_window o v u hash w a s ≡ (ok b, t)
    → Counted a.1 s b.1 t
sync_window-Counted o v u hash w a b s t h =
    let ((raws, holder), r₁, e₁, h₁) = continue_with-ok _ (request_window v hash w a.0 s) b t h in
    let (ts, r₂, e₂, h₂) =
      continue_with-ok _ (lift (or_raise (v.read_transactions raws) validation_error) r₁) b t h₁ in
    let (rows, r₃, e₃, h₃) = continue_with-ok _ (lift (window_rows v.repr raws ts) r₂) b t h₂ in
    let (m, r₄, e₄, h₄) =
      continue_with-ok _ (insert_broker_transactions o u rows.broker_rows r₃) b t h₃ in
    let (n, r₅, e₅, h₅) = continue_with-ok _ (insert_fills o u rows.fill_rows r₄) b t h₄ in
    let g₁ = unmoved s r₁ (request_window-db v hash w a.0 holder raws s r₁ e₁) in
    let g₃ = unmoved r₁ r₃ (ap (λ p. p.1.db) e₂ ∙ ap (λ p. p.1.db) e₃) in
    let g₄ = insert_broker_transactions-grow o u rows.broker_rows m r₃ r₄ e₄ in
    let g₅ = insert_fills-grow o u rows.fill_rows n r₄ r₅ e₅ in
    let g₆ = unmoved r₅ t (ap (λ p. p.1.db) h₅) in
    let outcome = ok-inj (ap (λ p. p.0) h₅) in
    (
      omega (
        arith,
        g₁.0,
        g₃.0,
        g₄.0,
        g₅.0,
        g₆.0,
        ap (λ (x : TokenHolder × SyncOutcome). x.1.fills_landed) outcome,
      ),
      omega (
        arith,
        g₁.1,
        g₃.1,
        g₄.1,
        g₅.1,
        g₆.1,
        ap (λ (x : TokenHolder × SyncOutcome). x.1.broker_transactions_landed) outcome,
      ),
    )

sync_all_windows-Counted :
    (o : Outside) (v : Vendor) (u : Uuid) (hash : String) (ws : List (Instant × Instant))
    (a b : TokenHolder × SyncOutcome) (s t : Session)
    → sync_all_windows o v u hash ws a s ≡ (ok b, t)
    → Counted a.1 s b.1 t
unfolding sync_all_windows
sync_all_windows-Counted o v u hash [] a b s t h =
    let g = unmoved s t (ap (λ p. p.1.db) h) in
    let outcome = ok-inj (ap (λ p. p.0) h) in
    (
      omega (arith, g.0, ap (λ (x : TokenHolder × SyncOutcome). x.1.fills_landed) outcome),
      omega (
        arith,
        g.1,
        ap (λ (x : TokenHolder × SyncOutcome). x.1.broker_transactions_landed) outcome,
      ),
    )
sync_all_windows-Counted o v u hash (w ∷ ws) a b s t h =
    let (c, r, e, h₁) = continue_with-ok _ (sync_window o v u hash w a s) b t h in
    let first = sync_window-Counted o v u hash w a c s r e in
    let rest = sync_all_windows-Counted o v u hash ws c b r t h₁ in
    (omega (arith, first.0, rest.0), omega (arith, first.1, rest.1))

save_token-unmoved :
    (o : Outside) (v : Vendor) (u : Uuid) (holder : TokenHolder) (wrote : Bool) (x : Unit {0})
    (s t : Session)
    → save_token o v u holder wrote s ≡ (ok x, t)
    → Grown 0 0 s t
unfolding encrypt_field
save_token-unmoved o v u holder false x s t h = unmoved s t (ap (λ p. p.1.db) h)
save_token-unmoved o v u holder true x s t h =
    let (wrapped, r, e, h₁) =
      continue_with-ok _ (lift (or_raise (v.read_wrapped holder.token) validation_error) s) x t h in
    let (k, r', e', h₂) = continue_with-ok _ (current_dek o u r) x t h₁ in
    let g = unmoved s r (ap (λ p. p.1.db) e) in
    let g' =
      unmoved r r'
        (ap (λ (y : Session). y.db) (sym (current_dek-reads o u r) ∙ ap (λ p. p.1) e')) in
    (
      omega (arith, g.0, g'.0, ap (λ p. length p.1.db.fills) h₂),
      omega (arith, g.1, g'.1, ap (λ p. length p.1.db.broker_transactions) h₂),
    )

client-grows :
    (o : Outside) (v : Vendor) (u : Uuid) (hash : String) (ws : List (Instant × Instant))
    (outcome : SyncOutcome) (s t : Session)
    → schwab_client_for_user o v u (sync_body o v u hash ws) s ≡ (ok outcome, t)
    → Grown outcome.fills_landed outcome.broker_transactions_landed s t
client-grows o v u hash ws outcome s t h =
    let (found, r₁, e₁, h₁) = continue_with-ok _ (read_connection o u s) outcome t h in
    let (connection, r₂, e₂, h₂) =
      continue_with-ok _ (lift (or_raise found connection_not_found) r₁) outcome t h₁ in
    let holder = seed_holder v connection in
    let ((result, written), r₃, e₃, h₃) =
      continue_with-ok _ (sync_body o v u hash ws holder r₂) outcome t h₂ in
    let (done, r₄, e₄, h₄) =
      continue_with-ok _ (save_token o v u written written.wrote r₃) outcome t h₃ in
    let (state, r, e, h₅) =
      continue_with-ok _ (sync_all_windows o v u hash ws (holder, no_outcome) r₂) (result, written)
        r₃ e₃ in
    let g₁ =
      unmoved s r₁
        (ap (λ (y : Session). y.db) (sym (read_connection-reads o u s) ∙ ap (λ p. p.1) e₁)) in
    let g₂ = unmoved r₁ r₂ (ap (λ p. p.1.db) e₂) in
    let loop = sync_all_windows-Counted o v u hash ws (holder, no_outcome) state r₂ r e in
    let g₃ = unmoved r r₃ (ap (λ p. p.1.db) h₅) in
    let g₄ = save_token-unmoved o v u written written.wrote done r₃ r₄ e₄ in
    let g₅ = unmoved r₄ t (ap (λ p. p.1.db) h₄) in
    let same : state.1 ≡ outcome =
      ap (λ p. p.0) (ok-inj (ap (λ p. p.0) h₅)) ∙ ok-inj (ap (λ p. p.0) h₄) in
    (
      omega (
        arith,
        g₁.0,
        g₂.0,
        loop.0,
        g₃.0,
        g₄.0,
        g₅.0,
        ap (λ (x : SyncOutcome). x.fills_landed) same,
      ),
      omega (
        arith,
        g₁.1,
        g₂.1,
        loop.1,
        g₃.1,
        g₄.1,
        g₅.1,
        ap (λ (x : SyncOutcome). x.broker_transactions_landed) same,
      ),
    )

-- A sync that returns gives the numbers of fills and of broker transactions by which the two tables grew, over
-- all its windows and their chunks.
pub sync_user-landed :
    (o : Outside) (v : Vendor) (settings : SyncSettings) (u : Uuid) (now : Instant)
    (outcome : SyncOutcome) (s t : Session)
    → sync_user o v settings u now s ≡ (ok outcome, t)
    → (length t.db.fills ≡ length s.db.fills + outcome.fills_landed)
      × (length t.db.broker_transactions
          ≡ length s.db.broker_transactions + outcome.broker_transactions_landed)
unfolding sync_user
sync_user-landed o v settings u now outcome s t h =
    let s₀ = record s { setting = user u } in
    let (found, r₁, e₁, h₁) = continue_with-ok _ (read_connection o u s₀) outcome t h in
    let (connection, r₂, e₂, h₂) =
      continue_with-ok _ (lift (or_raise found connection_not_found) r₁) outcome t h₁ in
    let (planned, r₃, e₃, h₃) =
      continue_with-ok _ (lift (sync_windows connection.last_synced_at now settings) r₂) outcome t
        h₂ in
    let (windows, r₄, e₄, h₄) =
      continue_with-ok _ (lift (or_raise planned runtime_error) r₃) outcome t h₃ in
    let g₁ =
      unmoved s₀ r₁
        (ap (λ (y : Session). y.db) (sym (read_connection-reads o u s₀) ∙ ap (λ p. p.1) e₁)) in
    let g₂ = unmoved r₁ r₄ (ap (λ p. p.1.db) e₂ ∙ ap (λ p. p.1.db) e₃ ∙ ap (λ p. p.1.db) e₄) in
    let g₃ = client-grows o v u connection.account_hash windows outcome r₄ t h₄ in
    (omega (arith, g₁.0, g₂.0, g₃.0), omega (arith, g₁.1, g₂.1, g₃.1))
