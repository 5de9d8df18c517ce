-- ===== src/Ingest/UserSync/Writes.antt =====
-- What the reads and writes that `sync_user` calls (src/morai/ledger/fills.py, src/morai/vendor/connections.py,
-- src/morai/ingest/broker_transactions.py) never touch: the committed tables, the context, and the accounts.
use morai_trading_dashboard.Ingest.BrokerTransactions.{
  insert_transaction_chunk, transaction_chunk_size, seal_transaction, seal_transactions,
  insert_broker_transactions, insert_transaction_chunks, BrokerTransactionWrite,
}
use morai_trading_dashboard.Ledger.Columns.{encrypt_decimal}
use morai_trading_dashboard.Money.{Decimal}
use morai_trading_dashboard.Ledger.Records.{FillWrite}
use morai_trading_dashboard.Ledger.Fills.{
  write_key, chunk_size, fill_associated_data, seal_fill, seal_fills, insert_chunk, insert_fills,
  insert_chunks,
}
use morai_trading_dashboard.Vendor.Connections.{open_connection, read_connection, dek_for_version}
use morai_trading_dashboard.Ledger.Keys.{current_dek}
use morai_trading_dashboard.Crypto.{encrypt_field}
use morai_trading_dashboard.Prelude.{
  drop, Error, take, one_or_none, ℕ, zero, suc, Bool, true, false, ◌&&◌, Option, none, some, List,
  [], ◌∷◌, ◌≡◌, refl, ap, ◌∙◌, inl, inr, arith, ◌==◌, nat_eq, text_eq, Result, ok, err, Uuid, keep,
  length, Result-cases,
}
use morai_trading_dashboard.Outside.{Outside}
use morai_trading_dashboard.Db.{BrokerTransaction, Fill, SchwabConnection, Bytes}
use morai_trading_dashboard.Db.Session.{continue_with, Session, Action, ◌>>=◌, raise_when, permits}

abbrev pub Confined : Session → Session → Type 0
Confined s t = (t.committed ≡ s.committed) × (t.setting ≡ s.setting) × (t.db.users ≡ s.db.users)

pub Confined-trans : (r s t : Session) → Confined r s → Confined s t → Confined r t
Confined-trans r s t (a, b, c) (a', b', c') = (a' ∙ a, b' ∙ b, c' ∙ c)

-- A bind of steps that are confined.
continue-Confined {ℓ κ} :
    {A : Type ℓ} {B : Type κ} (f : A → Action B) (p : Result A × Session) (s : Session)
    → Confined s p.1
    → ((a : A) (t : Session) → Confined t (f a t).1)
    → Confined s (continue_with f p).1
continue-Confined f (ok a, t) s h k = Confined-trans s t (f a t).1 h (k a t)
continue-Confined f (err e, t) s h k = h

pub chain {ℓ κ} :
    {A : Type ℓ} {B : Type κ} (m : Action A) (f : A → Action B) (s : Session)
    → Confined s (m s).1
    → ((a : A) (t : Session) → Confined t (f a t).1)
    → Confined s ((m >>= f) s).1
chain m f s h k = continue-Confined f (m s) s h k

pub same : (s : Session) → Confined s s
same s = (refl, refl, refl)

pub reads-Confined : {s t : Session} → t ≡ s → Confined s t
reads-Confined e = (
  ap (λ (t : Session). t.committed) e,
  ap (λ (t : Session). t.setting) e,
  ap (λ (t : Session). t.db.users) e,
)

pub current_dek-reads : (o : Outside) (u : Uuid) (s : Session) → (current_dek o u s).1 ≡ s
unfolding current_dek
current_dek-reads o u s = ground arith

dek_for_version-reads :
    (o : Outside) (u : Uuid) (v : ℕ) (s : Session) → (dek_for_version o u v s).1 ≡ s
unfolding dek_for_version
dek_for_version-reads o u v s = ground arith

open_connection-reads :
    (o : Outside) (u : Uuid) (row : Option SchwabConnection) (s : Session)
    → (open_connection o u row s).1 ≡ s
open_connection-reads o u none s = refl
open_connection-reads o u (some row) s = ground (arith, dek_for_version-reads o u row.key_version s)

pub read_connection-reads : (o : Outside) (u : Uuid) (s : Session) → (read_connection o u s).1 ≡ s
unfolding read_connection
read_connection-reads o u s =
    elim (Result-cases
      (one_or_none (keep (λ c. permits s c.user_id && c.user_id == u) s.db.schwab_connections))) [
        | inl (row, e) ↦ rw e (open_connection-reads o u row s)
        | inr (x, e) ↦ rw e refl
      ]

encrypt_decimal-Confined :
    (o : Outside) (dek aad : Bytes) (d : Option Decimal) (s : Session)
    → Confined s (encrypt_decimal o dek aad d s).1
unfolding encrypt_field
encrypt_decimal-Confined o dek aad none s = (refl, refl, refl)
encrypt_decimal-Confined o dek aad (some d) s = (refl, refl, refl)

raise_when-Confined : (b : Bool) (e : Error) (s : Session) → Confined s (raise_when b e s).1
raise_when-Confined true e s = same s
raise_when-Confined false e s = same s

seal_fill-Confined :
    (o : Outside) (dek : Bytes) (v : ℕ) (u : Uuid) (f : FillWrite) (s : Session)
    → Confined s (seal_fill o dek v u f s).1
seal_fill-Confined o dek v u f s =
    let q_data = fill_associated_data o "quantity" u (write_key f) in
    let p_data = fill_associated_data o "price_usd" u (write_key f) in
    chain (encrypt_decimal o dek q_data f.quantity) _ s
      (encrypt_decimal-Confined o dek q_data f.quantity s)
      (λ q t.
        chain (encrypt_decimal o dek p_data f.price_usd) _ t
          (encrypt_decimal-Confined o dek p_data f.price_usd t) (λ p t'. same t'))

seal_fills-Confined :
    (o : Outside) (dek : Bytes) (v : ℕ) (u : Uuid) (fs : List FillWrite) (s : Session)
    → Confined s (seal_fills o dek v u fs s).1
unfolding seal_fills
seal_fills-Confined o dek v u [] s = same s
seal_fills-Confined o dek v u (f ∷ fs) s =
    chain (seal_fill o dek v u f) _ s (seal_fill-Confined o dek v u f s) (λ row t.
      chain (seal_fills o dek v u fs) _ t (seal_fills-Confined o dek v u fs t) (λ rest t'. same t'))

insert_chunk-Confined :
    (u : Uuid) (rows : List Fill) (s : Session) → Confined s (insert_chunk u rows s).1
insert_chunk-Confined u rows s = ground arith

insert_chunks-Confined :
    (fuel : ℕ) (o : Outside) (dek : Bytes) (v : ℕ) (u : Uuid) (fs : List FillWrite) (s : Session)
    → Confined s (insert_chunks fuel o dek v u fs s).1
unfolding insert_chunks
insert_chunks-Confined fuel o dek v u [] s = same s
insert_chunks-Confined zero o dek v u (f ∷ fs) s = same s
insert_chunks-Confined (suc fuel) o dek v u (f ∷ fs) s =
    let chunk = take chunk_size (f ∷ fs) in
    let rest = drop chunk_size (f ∷ fs) in
    chain (seal_fills o dek v u chunk) _ s (seal_fills-Confined o dek v u chunk s) (λ rows t.
      chain (insert_chunk u rows) _ t (insert_chunk-Confined u rows t) (λ landed t'.
        chain (insert_chunks fuel o dek v u rest) _ t'
          (insert_chunks-Confined fuel o dek v u rest t') (λ later t''. same t'')))

pub insert_fills-Confined :
    (o : Outside) (u : Uuid) (fs : List FillWrite) (s : Session)
    → Confined s (insert_fills o u fs s).1
unfolding insert_fills
insert_fills-Confined o u [] s = same s
insert_fills-Confined o u (f ∷ fs) s =
    chain (current_dek o u) _ s (reads-Confined (current_dek-reads o u s))
      (λ k t. insert_chunks-Confined (length (f ∷ fs)) o k.0 k.1 u (f ∷ fs) t)

seal_transaction-Confined :
    (o : Outside) (dek : Bytes) (v : ℕ) (u : Uuid) (w : BrokerTransactionWrite) (s : Session)
    → Confined s (seal_transaction o dek v u w s).1
unfolding encrypt_field
seal_transaction-Confined o dek v u w s = (refl, refl, refl)

seal_transactions-Confined :
    (o : Outside) (dek : Bytes) (v : ℕ) (u : Uuid) (ws : List BrokerTransactionWrite) (s : Session)
    → Confined s (seal_transactions o dek v u ws s).1
unfolding seal_transactions
seal_transactions-Confined o dek v u [] s = same s
seal_transactions-Confined o dek v u (w ∷ ws) s =
    chain (seal_transaction o dek v u w) _ s (seal_transaction-Confined o dek v u w s) (λ row t.
      chain (seal_transactions o dek v u ws) _ t (seal_transactions-Confined o dek v u ws t)
        (λ rest t'. same t'))

insert_transaction_chunk-Confined :
    (u : Uuid) (rows : List BrokerTransaction) (s : Session)
    → Confined s (insert_transaction_chunk u rows s).1
insert_transaction_chunk-Confined u rows s = ground arith

insert_transaction_chunks-Confined :
    (fuel : ℕ) (o : Outside) (dek : Bytes) (v : ℕ) (u : Uuid) (ws : List BrokerTransactionWrite)
    (s : Session)
    → Confined s (insert_transaction_chunks fuel o dek v u ws s).1
unfolding insert_transaction_chunks
insert_transaction_chunks-Confined fuel o dek v u [] s = same s
insert_transaction_chunks-Confined zero o dek v u (w ∷ ws) s = same s
insert_transaction_chunks-Confined (suc fuel) o dek v u (w ∷ ws) s =
    let chunk = take transaction_chunk_size (w ∷ ws) in
    let rest = drop transaction_chunk_size (w ∷ ws) in
    chain (seal_transactions o dek v u chunk) _ s (seal_transactions-Confined o dek v u chunk s)
      (λ rows t.
        chain (insert_transaction_chunk u rows) _ t (insert_transaction_chunk-Confined u rows t)
          (λ landed t'.
            chain (insert_transaction_chunks fuel o dek v u rest) _ t'
              (insert_transaction_chunks-Confined fuel o dek v u rest t') (λ later t''. same t'')))

pub insert_broker_transactions-Confined :
    (o : Outside) (u : Uuid) (ws : List BrokerTransactionWrite) (s : Session)
    → Confined s (insert_broker_transactions o u ws s).1
unfolding insert_broker_transactions
insert_broker_transactions-Confined o u [] s = same s
insert_broker_transactions-Confined o u (w ∷ ws) s =
    chain (current_dek o u) _ s (reads-Confined (current_dek-reads o u s))
      (λ k t. insert_transaction_chunks-Confined (length (w ∷ ws)) o k.0 k.1 u (w ∷ ws) t)
