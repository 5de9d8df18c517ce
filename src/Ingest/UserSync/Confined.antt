-- ===== src/Ingest/UserSync/Confined.antt =====
-- What no step of `sync_user` (src/morai/ingest/schwab_sync.py) touches: the committed tables, the context of
-- the user once it is set, and the accounts.
use morai_trading_dashboard.Ledger.Fills.{insert_fills}
use morai_trading_dashboard.Ingest.BrokerTransactions.{insert_broker_transactions}
use morai_trading_dashboard.Ledger.Keys.{current_dek}
use morai_trading_dashboard.Vendor.Connections.{
  seed_holder, read_connection, save_token, schwab_client_for_user,
}
use morai_trading_dashboard.Ingest.Windows.{sync_windows, SyncSettings}
use morai_trading_dashboard.Ingest.UserSync.{
  no_outcome, window_rows, request_window, sync_window, sync_body, SyncOutcome, sync_all_windows,
  sync_user,
}
use morai_trading_dashboard.Vendor.Client.{TokenHolder, Vendor}
use morai_trading_dashboard.Crypto.{encrypt_field}
use morai_trading_dashboard.Ingest.UserSync.Writes.{
  chain, same, reads-Confined, current_dek-reads, read_connection-reads, insert_fills-Confined,
  insert_broker_transactions-Confined, Confined,
}
use morai_trading_dashboard.Prelude.{
  runtime_error, validation_error, connection_not_found, or_raise, String, Bool, true, false, List,
  [], ◌∷◌, refl, nat_eq, text_eq, Instant, Uuid,
}
use morai_trading_dashboard.Outside.{Outside}
use morai_trading_dashboard.Db.Session.{user, Session, lift}

sync_window-Confined :
    (o : Outside) (v : Vendor) (u : Uuid) (hash : String) (w : Instant × Instant)
    (state : TokenHolder × SyncOutcome) (s : Session)
    → Confined s (sync_window o v u hash w state s).1
sync_window-Confined o v u hash w state s =
    chain (request_window v hash w state.0) _ s
      (chain (lift (v.get_transactions state.0.token hash w.0 w.1).0) _ s (same s) (λ response t.
        chain (lift (or_raise (v.json_list response) validation_error)) _ t (same t)
          (λ raw t'. same t')))
      (λ p t.
        chain (lift (or_raise (v.read_transactions p.0) validation_error)) _ t (same t) (λ ts t₁.
          chain (lift (window_rows v.repr p.0 ts)) _ t₁ (same t₁) (λ rows t₂.
            chain (insert_broker_transactions o u rows.broker_rows) _ t₂
              (insert_broker_transactions-Confined o u rows.broker_rows t₂)
              (λ n t₃.
                chain (insert_fills o u rows.fill_rows) _ t₃
                  (insert_fills-Confined o u rows.fill_rows t₃) (λ m t₄. same t₄)))))

sync_all_windows-Confined :
    (o : Outside) (v : Vendor) (u : Uuid) (hash : String) (ws : List (Instant × Instant))
    (state : TokenHolder × SyncOutcome) (s : Session)
    → Confined s (sync_all_windows o v u hash ws state s).1
unfolding sync_all_windows
sync_all_windows-Confined o v u hash [] state s = same s
sync_all_windows-Confined o v u hash (w ∷ ws) state s =
    chain (sync_window o v u hash w state) _ s (sync_window-Confined o v u hash w state s)
      (λ next t. sync_all_windows-Confined o v u hash ws next t)

save_token-Confined :
    (o : Outside) (v : Vendor) (u : Uuid) (h : TokenHolder) (b : Bool) (s : Session)
    → Confined s (save_token o v u h b s).1
unfolding encrypt_field
save_token-Confined o v u h false s = same s
save_token-Confined o v u h true s =
    chain (lift (or_raise (v.read_wrapped h.token) validation_error)) _ s (same s) (λ wrapped t.
      chain (current_dek o u) _ t (reads-Confined (current_dek-reads o u t))
        (λ k t'. (refl, refl, refl)))

client-Confined :
    (o : Outside) (v : Vendor) (u : Uuid) (hash : String) (ws : List (Instant × Instant))
    (s : Session)
    → Confined s (schwab_client_for_user o v u (sync_body o v u hash ws) s).1
client-Confined o v u hash ws s =
    chain (read_connection o u) _ s (reads-Confined (read_connection-reads o u s)) (λ found t.
      chain (lift (or_raise found connection_not_found)) _ t (same t) (λ connection t₁.
        chain (sync_body o v u hash ws (seed_holder v connection)) _ t₁
          (chain (sync_all_windows o v u hash ws (seed_holder v connection, no_outcome)) _ t₁
            (sync_all_windows-Confined o v u hash ws (seed_holder v connection, no_outcome) t₁)
            (λ state t'. same t'))
          (λ p t₂.
            chain (save_token o v u p.1 p.1.wrote) _ t₂ (save_token-Confined o v u p.1 p.1.wrote t₂)
              (λ done t₃. same t₃))))

-- What a sync does after it has set its context leaves the committed tables, the context and the accounts.
pub sync_user-Confined :
    (o : Outside) (v : Vendor) (settings : SyncSettings) (u : Uuid) (now : Instant) (s : Session)
    → Confined (record s { setting = user u }) (sync_user o v settings u now s).1
unfolding sync_user
sync_user-Confined o v settings u now s =
    let s₀ = record s { setting = user u } in
    chain (read_connection o u) _ s₀ (reads-Confined (read_connection-reads o u s₀)) (λ found t.
      chain (lift (or_raise found connection_not_found)) _ t (same t) (λ connection t₁.
        chain (lift (sync_windows connection.last_synced_at now settings)) _ t₁ (same t₁)
          (λ planned t₂.
            chain (lift (or_raise planned runtime_error)) _ t₂ (same t₂)
              (λ windows t₃. client-Confined o v u connection.account_hash windows t₃))))
