-- ===== src/Ledger/Fills/Growth.antt =====
-- The table of fills after `insert_fills`: the sealed rows of the new writes, in order, at its end
-- (src/morai/ledger/fills.py).
use morai_trading_dashboard.Prelude.Pairs.{Pairs, Pairs-append}
use mathlib.Core.Path.{fun_ext, subst}
use morai_trading_dashboard.Ledger.Fills.Landing.{after_chunk, after_seal}
use morai_trading_dashboard.Ledger.Fills.Landing.{after_seal}
use morai_trading_dashboard.Ledger.Fills.Reads.{
  holds_key-landed, landed_rows-writes, written, landed_writes-append, holds_key, landed_writes,
}
use morai_trading_dashboard.Ledger.Records.{FillWrite}
use morai_trading_dashboard.Ledger.Fills.Sealing.{
  Sealed-Carries, Sealed-Keyed, seal_fills-seal, Sealed,
}
use morai_trading_dashboard.Ledger.Fills.{
  chunk_size, landed_rows, insert_chunk, seal_fills, insert_chunks,
}
use morai_trading_dashboard.Prelude.{
  take-drop, append_assoc, length-drop_le, drop, take, append-nil, ℕ, zero, suc, ◌+◌, ◌≤◌, true,
  ◌||◌, List, [], ◌∷◌, ◌++◌, ◌≡◌, refl, sym, ap, ◌∙◌, arith, nat_eq, text_eq, Result, ok, Uuid,
  length,
}
use morai_trading_dashboard.Outside.{Outside}
use morai_trading_dashboard.Db.{Fill, Database, Bytes}
use morai_trading_dashboard.Db.Session.{Session, bind-ok, pure, permits}

-- The table after some chunks: it has the sealed rows of the new writes at its end.
abbrev pub Grows :
    Outside → Bytes → ℕ → Uuid → List FillWrite → Session → Result ℕ × Session → Type 0
Grows o dek v u fs s run =
    (n : ℕ) × (rows : List Fill) × (t : Session) × (run ≡ (ok n, t))
    × (t.db ≡ record s.db { fills = s.db.fills ++ rows })
    × (t.setting ≡ s.setting)
    × Pairs (Sealed o dek v u) (landed_writes (holds_key u s.db.fills) fs) rows

insert_chunk-grows :
    (o : Outside) (dek : Bytes) (v : ℕ) (u : Uuid) (fs : List FillWrite) (s : Session)
    → permits s u ≡ true
    → (n : ℕ) × (rows : List Fill) × (r : Session) × (t : Session) × (seal_fills o dek v u fs s
        ≡ (ok rows, r))
      × (insert_chunk u rows r ≡ (ok n, t))
      × (t.db ≡ record s.db { fills = s.db.fills ++ landed_rows s.db.fills rows })
      × (t.setting ≡ s.setting)
      × Pairs (Sealed o dek v u) fs rows
insert_chunk-grows o dek v u fs s allowed =
    let (rows, r, e, c, d, g) = seal_fills-seal o dek v u fs s in
    let new_rows = landed_rows r.db.fills rows in
    (
      length new_rows,
      rows,
      r,
      record r { db = record r.db { fills = r.db.fills ++ new_rows } },
      e,
      rw (ap (λ st. permits (record r { setting = st }) u) g ∙ allowed) refl,
      ap (λ (db : Database). (record db { fills = db.fills ++ landed_rows db.fills rows })) d,
      g,
      c,
    )

Pairs-after :
    (o : Outside) (dek : Bytes) (v : ℕ) (u : Uuid) (fs gs : List FillWrite)
    (table rows later : List Fill)
    → Pairs (Sealed o dek v u) fs rows
    → Pairs
        (Sealed o dek v u)
        (landed_writes (holds_key u (table ++ landed_rows table rows)) gs)
        later
    → Pairs
        (Sealed o dek v u)
        (landed_writes (holds_key u table) (fs ++ gs))
        (landed_rows table rows ++ later)
Pairs-after o dek v u fs gs table rows later c d =
    let P = Sealed o dek v u in
    subst (λ ws. Pairs P ws (landed_rows table rows ++ later))
      (sym (landed_writes-append (holds_key u table) fs gs))
      (Pairs-append P (landed_writes (holds_key u table) fs)
        (landed_writes (λ k. written fs k || holds_key u table k) gs) (landed_rows table rows) later
        (landed_rows-writes P u fs table rows (λ f r h. Sealed-Keyed o dek v u f r h) c)
        (subst (λ p. Pairs P (landed_writes p gs) later)
          (fun_ext (λ k. holds_key-landed u k fs table rows (Sealed-Carries o dek v u fs rows c)))
          d))

pub insert_chunks-grow :
    (fuel : ℕ) (o : Outside) (dek : Bytes) (v : ℕ) (u : Uuid) (fs : List FillWrite) (s : Session)
    → length fs ≤ fuel
    → permits s u ≡ true
    → Grows o dek v u fs s (insert_chunks fuel o dek v u fs s)
unfolding insert_chunks landed_writes Pairs
insert_chunks-grow fuel o dek v u [] s h allowed =
    (0, [], s, refl, ap (λ l. record s.db { fills = l }) (sym (append-nil s.db.fills)), refl, tt)
insert_chunks-grow zero o dek v u (f ∷ fs) s h allowed = absurd (omega (arith, h))
insert_chunks-grow (suc fuel) o dek v u (f ∷ fs) s h allowed =
    let chunk = take chunk_size (f ∷ fs) in
    let rest = drop chunk_size (f ∷ fs) in
    let (n, rows, r, s₂, e₁, e₂, d₂, g₂, c) = insert_chunk-grows o dek v u chunk s allowed in
    let (m, later, s₃, e₃, d₃, g₃, c₃) =
      insert_chunks-grow fuel o dek v u rest s₂ (omega (arith, h, length-drop_le 1999 fs))
        (ap (λ st. permits (record s₂ { setting = st }) u) g₂ ∙ allowed) in
    (
      n + m,
      landed_rows s.db.fills rows ++ later,
      s₃,
      bind-ok (seal_fills o dek v u chunk) (after_seal fuel o dek v u rest) s r rows e₁
          ∙ bind-ok (insert_chunk u rows) (after_chunk fuel o dek v u rest) r s₂ n e₂
          ∙ bind-ok (insert_chunks fuel o dek v u rest) (λ later. pure (n + later)) s₂ s₃ m e₃,
      d₃
          ∙ ap (λ (db : Database). (record db { fills = db.fills ++ later })) d₂
          ∙ ap (λ l. record s.db { fills = l })
              (append_assoc s.db.fills (landed_rows s.db.fills rows) later),
      g₃ ∙ g₂,
      subst
          (λ l.
            Pairs (Sealed o dek v u) (landed_writes (holds_key u s.db.fills) l)
              (landed_rows s.db.fills rows ++ later))
          (take-drop chunk_size (f ∷ fs))
          (Pairs-after o dek v u chunk rest s.db.fills rows later c (
            subst
              (λ (l : List Fill).
                Pairs (Sealed o dek v u) (landed_writes (holds_key u l) rest) later)
              (ap (λ (db : Database). db.fills) d₂) c₃)),
    )
