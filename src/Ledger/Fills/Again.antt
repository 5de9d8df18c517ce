-- ===== src/Ledger/Fills/Again.antt =====
-- `insert_fills` (src/morai/ledger/fills.py) on fills that are stored already, as after an overlapping sync.
use morai_trading_dashboard.Prelude.Pairs.{Pairs}
use morai_trading_dashboard.Prelude.{
  All-drop, All-take, All-imp, drop, take, append-nil, ℕ, All, zero, suc, ◌+◌, true, List, [], ◌∷◌,
  ◌++◌, ◌≡◌, refl, ap, ◌∙◌, nat_eq, text_eq, ok, Uuid, any, length,
}
use morai_trading_dashboard.Outside.{Outside}
use morai_trading_dashboard.Db.{Bytes}
use morai_trading_dashboard.Db.Session.{Session, bind-ok, pure, permits}
use morai_trading_dashboard.Db.{Fill}
use morai_trading_dashboard.Ledger.Records.{FillWrite, fill_key_eq}
use morai_trading_dashboard.Ledger.Keys.{current_dek}
use morai_trading_dashboard.Ledger.Fills.{
  same_fill, landed_rows, seal_fills, insert_chunk, insert_chunks, insert_fills, chunk_size,
}
use morai_trading_dashboard.Ledger.Fills.Sealing.{Carries, seal_fills-keep}
use morai_trading_dashboard.Ledger.Fills.Landing.{stores, same-stores, after_chunk, after_seal}

landed_rows-none :
    (u : Uuid) (fs : List FillWrite) (table rows : List Fill)
    → Carries u fs rows
    → All (λ f. stores u table f ≡ true) fs
    → landed_rows table rows ≡ []
unfolding landed_rows Pairs
landed_rows-none u [] table [] c h = refl
landed_rows-none u [] table (r ∷ rows) c h = absurd c
landed_rows-none u (f ∷ fs) table [] c h = refl
landed_rows-none u (f ∷ fs) table (r ∷ rows) ((i, k), c) h =
    let there : any (same_fill r) table ≡ true = same-stores u f r table i k ∙ h.0 in
    rw there (landed_rows-none u fs table rows c h.1)

insert_chunk-again :
    (u : Uuid) (fs : List FillWrite) (rows : List Fill) (s : Session)
    → Carries u fs rows
    → All (λ f. stores u s.db.fills f ≡ true) fs
    → permits s u ≡ true
    → (t : Session) × (insert_chunk u rows s ≡ (ok 0, t))
      × (t.db.fills ≡ s.db.fills)
      × (t.setting ≡ s.setting)
insert_chunk-again u fs rows s c h allowed =
    let no_rows = landed_rows-none u fs s.db.fills rows c h in
    (
      record s { db = record s.db { fills = s.db.fills ++ landed_rows s.db.fills rows } },
      rw (allowed, no_rows) refl,
      rw no_rows (append-nil s.db.fills),
      refl,
    )

insert_chunks-again :
    (fuel : ℕ) (o : Outside) (dek : Bytes) (v : ℕ) (u : Uuid) (fs : List FillWrite) (s : Session)
    → All (λ f. stores u s.db.fills f ≡ true) fs
    → permits s u ≡ true
    → (t : Session) × (insert_chunks fuel o dek v u fs s ≡ (ok 0, t)) × (t.db.fills ≡ s.db.fills)
unfolding insert_chunks
insert_chunks-again fuel o dek v u [] s h allowed = (s, refl, refl)
insert_chunks-again zero o dek v u (f ∷ fs) s h allowed = (s, refl, refl)
insert_chunks-again (suc fuel) o dek v u (f ∷ fs) s h allowed =
    let chunk = take chunk_size (f ∷ fs) in
    let rest = drop chunk_size (f ∷ fs) in
    let (rows, s₁, e₁, c, d₁, g₁) = seal_fills-keep o dek v u chunk s in
    let stored₁ =
      All-imp (λ f. stores u s.db.fills f ≡ true) (λ f. stores u s₁.db.fills f ≡ true) chunk
        (λ f k. ap (λ d. stores u d.fills f) d₁ ∙ k)
        (All-take (λ f. stores u s.db.fills f ≡ true) chunk_size (f ∷ fs) h) in
    let (s₂, e₂, same₂, g₂) =
      insert_chunk-again u chunk rows s₁ c stored₁
        (ap (λ st. permits (record s₁ { setting = st }) u) g₁ ∙ allowed) in
    let back : s₂.db.fills ≡ s.db.fills = same₂ ∙ ap (λ d. d.fills) d₁ in
    let stored₂ =
      All-imp (λ f. stores u s.db.fills f ≡ true) (λ f. stores u s₂.db.fills f ≡ true) rest
        (λ f k. ap (λ l. stores u l f) back ∙ k)
        (All-drop (λ f. stores u s.db.fills f ≡ true) chunk_size (f ∷ fs) h) in
    let (s₃, e₃, same₃) =
      insert_chunks-again fuel o dek v u rest s₂ stored₂
        (ap (λ st. permits (record s₂ { setting = st }) u) (g₂ ∙ g₁) ∙ allowed) in
    (
      s₃,
      bind-ok (seal_fills o dek v u chunk) (after_seal fuel o dek v u rest) s s₁ rows e₁
          ∙ bind-ok (insert_chunk u rows) (after_chunk fuel o dek v u rest) s₁ s₂ 0 e₂
          ∙ bind-ok (insert_chunks fuel o dek v u rest) (λ later. pure (0 + later)) s₂ s₃ 0 e₃,
      same₃ ∙ back,
    )

-- Where the data key of the user can be read and the policy permits the user, an insertion of fills that are all
-- stored under their keys returns zero and leaves the table of fills as it is.
pub insert_fills-again :
    (o : Outside) (u : Uuid) (fs : List FillWrite) (s : Session) (key : Bytes × ℕ)
    → current_dek o u s ≡ (ok key, s)
    → permits s u ≡ true
    → All (λ f. stores u s.db.fills f ≡ true) fs
    → (t : Session) × (insert_fills o u fs s ≡ (ok 0, t)) × (t.db.fills ≡ s.db.fills)
unfolding insert_fills
insert_fills-again o u [] s key e allowed h = (s, refl, refl)
insert_fills-again o u (f ∷ fs) s key e allowed h =
    let (t, run, same) =
      insert_chunks-again (length (f ∷ fs)) o key.0 key.1 u (f ∷ fs) s h allowed in
    (
      t,
      bind-ok (current_dek o u) (λ k. insert_chunks (length (f ∷ fs)) o k.0 k.1 u (f ∷ fs)) s s key
            e
          ∙ run,
      same,
    )
