-- ===== src/Ingest/UserSync/Landed.antt =====
-- How far the insertions of a sync (src/morai/ledger/fills.py, src/morai/ingest/broker_transactions.py) grow
-- the two tables that they write.
use morai_trading_dashboard.Prelude.{
  zero, suc, ℕ, ◌+◌, ◌≡◌, refl, sym, ap, ◌∙◌, List, [], ◌∷◌, ◌++◌, take, drop, length,
  length-append, ok, ok-inj, Uuid, inl, inr, arith, Bool-cases, nat_eq, text_eq,
}
use morai_trading_dashboard.Outside.{Outside}
use morai_trading_dashboard.Db.{Fill, BrokerTransaction, Bytes}
use morai_trading_dashboard.Db.Session.{Session, continue_with-ok, pure, permits}
use morai_trading_dashboard.Crypto.{encrypt_field}
use morai_trading_dashboard.Ledger.Keys.{current_dek}
use morai_trading_dashboard.Ledger.Records.{FillWrite}
use morai_trading_dashboard.Ledger.Fills.{
  insert_fills, insert_chunks, insert_chunk, seal_fills, landed_rows, chunk_size,
}
use morai_trading_dashboard.Ledger.Fills.Sealing.{seal_fills-keep}
use morai_trading_dashboard.Ingest.BrokerTransactions.{
  BrokerTransactionWrite, insert_broker_transactions, insert_transaction_chunks,
  insert_transaction_chunk, seal_transaction, seal_transactions, landed_transactions,
  transaction_chunk_size,
}
use morai_trading_dashboard.Ingest.UserSync.Writes.{current_dek-reads}

-- The two tables grew by as many rows.
abbrev pub Grown : ℕ → ℕ → Session → Session → Type 0
Grown fills transactions s t =
    (length t.db.fills ≡ length s.db.fills + fills)
    × (length t.db.broker_transactions ≡ length s.db.broker_transactions + transactions)

pub unmoved : (s t : Session) → s.db ≡ t.db → Grown 0 0 s t
unmoved s t e = (
  omega (arith, ap (λ d. length d.fills) e),
  omega (arith, ap (λ d. length d.broker_transactions) e),
)

-- An insertion of nothing.
no_fill : (n : ℕ) (s t : Session) → pure 0 s ≡ (ok n, t) → Grown n 0 s t
no_fill n s t h =
    let a = unmoved s t (ap (λ p. p.1.db) h) in
    let counted : 0 ≡ n = ok-inj (ap (λ p. p.0) h) in (omega (arith, a.0, counted), a.1)

no_transaction : (n : ℕ) (s t : Session) → pure 0 s ≡ (ok n, t) → Grown 0 n s t
no_transaction n s t h =
    let a = unmoved s t (ap (λ p. p.1.db) h) in
    let counted : 0 ≡ n = ok-inj (ap (λ p. p.0) h) in (a.0, omega (arith, a.1, counted))

insert_chunk-grows :
    (u : Uuid) (rows : List Fill) (n : ℕ) (s t : Session)
    → insert_chunk u rows s ≡ (ok n, t)
    → Grown n 0 s t
insert_chunk-grows u rows n s t h = elim (Bool-cases (permits s u)) [
  | inl allowed ↦
      let new_rows = landed_rows s.db.fills rows in
      let forward : insert_chunk u rows s ≡ (
        ok (length new_rows),
        record s { db = record s.db { fills = s.db.fills ++ new_rows } },
      ) =
        rw allowed refl in
      let counted = ok-inj (ap (λ p. p.0) (sym forward ∙ h)) in
      let at = ap (λ p. p.1) (sym forward ∙ h) in
      (
        omega (
          arith,
          counted,
          ap (λ (x : Session). length x.db.fills) at,
          length-append s.db.fills new_rows,
        ),
        omega (arith, ap (λ (x : Session). length x.db.broker_transactions) at),
      )
  | inr refused ↦ ground (arith, refused, h)
]

insert_transaction_chunk-grows :
    (u : Uuid) (rows : List BrokerTransaction) (n : ℕ) (s t : Session)
    → insert_transaction_chunk u rows s ≡ (ok n, t)
    → Grown 0 n s t
insert_transaction_chunk-grows u rows n s t h = elim (Bool-cases (permits s u)) [
  | inl allowed ↦
      let new_rows = landed_transactions s.db.broker_transactions rows in
      let forward : insert_transaction_chunk u rows s ≡ (
        ok (length new_rows),
        record s {
          db = record s.db { broker_transactions = s.db.broker_transactions ++ new_rows };
        },
      ) =
        rw allowed refl in
      let counted = ok-inj (ap (λ p. p.0) (sym forward ∙ h)) in
      let at = ap (λ p. p.1) (sym forward ∙ h) in
      (
        omega (arith, ap (λ (x : Session). length x.db.fills) at),
        omega (
          arith,
          counted,
          ap (λ (x : Session). length x.db.broker_transactions) at,
          length-append s.db.broker_transactions new_rows,
        ),
      )
  | inr refused ↦ ground (arith, refused, h)
]

seal_transactions-db :
    (o : Outside) (dek : Bytes) (v : ℕ) (u : Uuid) (ws : List BrokerTransactionWrite)
    (rows : List BrokerTransaction) (s t : Session)
    → seal_transactions o dek v u ws s ≡ (ok rows, t)
    → s.db ≡ t.db
unfolding seal_transactions encrypt_field
seal_transactions-db o dek v u [] rows s t h = ap (λ p. p.1.db) h
seal_transactions-db o dek v u (w ∷ ws) rows s t h =
    let sealed = (seal_transaction o dek v u w s).1 in
    let (rest, r, e, h₁) = continue_with-ok _ (seal_transactions o dek v u ws sealed) rows t h in
    seal_transactions-db o dek v u ws rest sealed r e ∙ ap (λ p. p.1.db) h₁

insert_chunks-grow :
    (fuel : ℕ) (o : Outside) (dek : Bytes) (v : ℕ) (u : Uuid) (fs : List FillWrite) (n : ℕ)
    (s t : Session)
    → insert_chunks fuel o dek v u fs s ≡ (ok n, t)
    → Grown n 0 s t
unfolding insert_chunks
insert_chunks-grow fuel o dek v u [] n s t h = no_fill n s t h
insert_chunks-grow zero o dek v u (f ∷ fs) n s t h = no_fill n s t h
insert_chunks-grow (suc fuel) o dek v u (f ∷ fs) n s t h =
    let (rows, r₁, e₁, h₁) =
      continue_with-ok _ (seal_fills o dek v u (take chunk_size (f ∷ fs)) s) n t h in
    let (landed, r₂, e₂, h₂) = continue_with-ok _ (insert_chunk u rows r₁) n t h₁ in
    let (later, r₃, e₃, h₃) =
      continue_with-ok _ (insert_chunks fuel o dek v u (drop chunk_size (f ∷ fs)) r₂) n t h₂ in
    let (kept, s₁, run, c, same_db, g) = seal_fills-keep o dek v u (take chunk_size (f ∷ fs)) s in
    let sealed : s.db ≡ r₁.db = sym same_db ∙ ap (λ p. p.1.db) (sym run ∙ e₁) in
    let a = unmoved s r₁ sealed in
    let b = insert_chunk-grows u rows landed r₁ r₂ e₂ in
    let c' = insert_chunks-grow fuel o dek v u (drop chunk_size (f ∷ fs)) later r₂ r₃ e₃ in
    let total : landed + later ≡ n = ok-inj (ap (λ p. p.0) h₃) in
    let d = unmoved r₃ t (ap (λ p. p.1.db) h₃) in
    (omega (arith, a.0, b.0, c'.0, d.0, total), omega (arith, a.1, b.1, c'.1, d.1))

pub insert_fills-grow :
    (o : Outside) (u : Uuid) (fs : List FillWrite) (n : ℕ) (s t : Session)
    → insert_fills o u fs s ≡ (ok n, t)
    → Grown n 0 s t
unfolding insert_fills
insert_fills-grow o u [] n s t h = no_fill n s t h
insert_fills-grow o u (f ∷ fs) n s t h =
    let (k, r, e, h₁) = continue_with-ok _ (current_dek o u s) n t h in
    let at : s ≡ r = sym (current_dek-reads o u s) ∙ ap (λ p. p.1) e in
    let a = unmoved s r (ap (λ (x : Session). x.db) at) in
    let b = insert_chunks-grow (length (f ∷ fs)) o k.0 k.1 u (f ∷ fs) n r t h₁ in
    (omega (arith, a.0, b.0), omega (arith, a.1, b.1))

insert_transaction_chunks-grow :
    (fuel : ℕ) (o : Outside) (dek : Bytes) (v : ℕ) (u : Uuid) (ws : List BrokerTransactionWrite)
    (n : ℕ) (s t : Session)
    → insert_transaction_chunks fuel o dek v u ws s ≡ (ok n, t)
    → Grown 0 n s t
unfolding insert_transaction_chunks
insert_transaction_chunks-grow fuel o dek v u [] n s t h = no_transaction n s t h
insert_transaction_chunks-grow zero o dek v u (w ∷ ws) n s t h = no_transaction n s t h
insert_transaction_chunks-grow (suc fuel) o dek v u (w ∷ ws) n s t h =
    let chunk = take transaction_chunk_size (w ∷ ws) in
    let rest = drop transaction_chunk_size (w ∷ ws) in
    let (rows, r₁, e₁, h₁) = continue_with-ok _ (seal_transactions o dek v u chunk s) n t h in
    let (landed, r₂, e₂, h₂) = continue_with-ok _ (insert_transaction_chunk u rows r₁) n t h₁ in
    let (later, r₃, e₃, h₃) =
      continue_with-ok _ (insert_transaction_chunks fuel o dek v u rest r₂) n t h₂ in
    let a = unmoved s r₁ (seal_transactions-db o dek v u chunk rows s r₁ e₁) in
    let b = insert_transaction_chunk-grows u rows landed r₁ r₂ e₂ in
    let c = insert_transaction_chunks-grow fuel o dek v u rest later r₂ r₃ e₃ in
    let total : landed + later ≡ n = ok-inj (ap (λ p. p.0) h₃) in
    let d = unmoved r₃ t (ap (λ p. p.1.db) h₃) in
    (omega (arith, a.0, b.0, c.0, d.0), omega (arith, a.1, b.1, c.1, d.1, total))

pub insert_broker_transactions-grow :
    (o : Outside) (u : Uuid) (ws : List BrokerTransactionWrite) (n : ℕ) (s t : Session)
    → insert_broker_transactions o u ws s ≡ (ok n, t)
    → Grown 0 n s t
unfolding insert_broker_transactions
insert_broker_transactions-grow o u [] n s t h = no_transaction n s t h
insert_broker_transactions-grow o u (w ∷ ws) n s t h =
    let (k, r, e, h₁) = continue_with-ok _ (current_dek o u s) n t h in
    let at : s ≡ r = sym (current_dek-reads o u s) ∙ ap (λ p. p.1) e in
    let a = unmoved s r (ap (λ (x : Session). x.db) at) in
    let b = insert_transaction_chunks-grow (length (w ∷ ws)) o k.0 k.1 u (w ∷ ws) n r t h₁ in
    (omega (arith, a.0, b.0), omega (arith, a.1, b.1))
