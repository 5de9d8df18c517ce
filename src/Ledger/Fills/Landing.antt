-- ===== src/Ledger/Fills/Landing.antt =====
-- The landing of fills by `insert_fills` (src/morai/ledger/fills.py).
use morai_trading_dashboard.Prelude.Pairs.{Pairs}
use morai_trading_dashboard.Ledger.Keys.{current_dek}
use morai_trading_dashboard.Prelude.{
  zero, suc, All-take-drop, length-drop_le, drop, take, suc, ◌≤◌, Result, All-imp, length-append,
  any-append, All, ℕ, ◌+◌, Bool, true, ◌&&◌, ◌||◌, List, [], ◌∷◌, ◌++◌, ◌≡◌, refl, sym, ap, ◌∙◌,
  inl, inr, arith, ◌==◌, nat_eq, text_eq, ok, Uuid, any, length, Bool-cases, beq_refl,
}
use morai_trading_dashboard.Outside.{Outside}
use morai_trading_dashboard.Db.{Bytes}
use morai_trading_dashboard.Db.Session.{Action, Session, bind-ok, ◌>>=◌, pure, permits}
use morai_trading_dashboard.Db.{Fill}
use morai_trading_dashboard.Ledger.Records.{fill_key_eq, FillWrite}
use morai_trading_dashboard.Ledger.Fills.{
  chunk_size, insert_chunks, insert_fills, write_key, seal_fills, same_fill, landed_rows,
  insert_chunk,
}
use morai_trading_dashboard.Ledger.Fills.Sealing.{Carries, seal_fills-keep}

-- A row of the table has the key of the write.
abbrev pub stores : Uuid → List Fill → FillWrite → Bool
stores u table f = any (λ r. u == r.user_id && write_key f == r.key) table

-- A key that was in the table, or comes with a row, is there after the statement.
landed_rows-keep :
    (u : Uuid) (f : FillWrite) (table rows : List Fill)
    → stores u table f ≡ true
    → stores u (table ++ landed_rows table rows) f ≡ true
landed_rows-keep u f table rows h = ground (
  arith,
  any-append (λ r. u == r.user_id && write_key f == r.key) table (landed_rows table rows),
  h,
)

pub same-stores :
    (u : Uuid) (f : FillWrite) (r : Fill) (table : List Fill)
    → r.user_id ≡ u
    → r.key ≡ write_key f
    → any (same_fill r) table ≡ stores u table f
same-stores u f r [] i k = refl
same-stores u f r (x ∷ table) i k =
    rw (i, k)
      (ap (λ b. (u == x.user_id && write_key f == x.key) || b) (same-stores u f r table i k))

pub landed_rows-store :
    (u : Uuid) (fs : List FillWrite) (table rows : List Fill)
    → Carries u fs rows
    → All (λ f. (stores u table f || stores u (landed_rows table rows) f) ≡ true) fs
unfolding landed_rows Pairs
landed_rows-store u [] table rows c = tt
landed_rows-store u (f ∷ fs) table [] c = absurd c
landed_rows-store u (f ∷ fs) table (r ∷ rows) ((i, k), c) =
    elim (Bool-cases (any (same_fill r) table)) [
      | inl there ↦
          let found : stores u table f ≡ true = sym (same-stores u f r table i k) ∙ there in
          let step : landed_rows table (r ∷ rows) ≡ landed_rows table rows = rw there refl in
          (
            ground (arith, found),
            All-imp (λ f'. (stores u table f' || stores u (landed_rows table rows) f') ≡ true)
                (λ f'. (stores u table f' || stores u (landed_rows table (r ∷ rows)) f') ≡ true) fs
                (λ f' h. ap (λ l. stores u table f' || stores u l f') step ∙ h)
                (landed_rows-store u fs table rows c),
          )
      | inr new ↦
          let self : (u == r.user_id && write_key f == r.key) ≡ true =
            rw (i, k) (ground (arith, beq_refl u, beq_refl (write_key f))) in
          let step : landed_rows table (r ∷ rows) ≡ r ∷ landed_rows (r ∷ table) rows =
            rw new refl in
          (
            ap (λ l. stores u table f || stores u l f) step ∙ ground (arith, self),
            All-imp
                (λ f'.
                  (stores u (r ∷ table) f' || stores u (landed_rows (r ∷ table) rows) f') ≡ true)
                (λ f'. (stores u table f' || stores u (landed_rows table (r ∷ rows)) f') ≡ true) fs
                (λ f' h. ap (λ l. stores u table f' || stores u l f') step ∙ ground (arith, h))
                (landed_rows-store u fs (r ∷ table) rows c),
          )
    ]

-- One statement: the policy lets it in, its count is the growth, and every write of the chunk is stored.
insert_chunk-lands :
    (u : Uuid) (fs : List FillWrite) (rows : List Fill) (s : Session)
    → Carries u fs rows
    → permits s u ≡ true
    → (n : ℕ) × (t : Session) × (insert_chunk u rows s ≡ (ok n, t))
      × (length t.db.fills ≡ length s.db.fills + n)
      × All (λ f. stores u t.db.fills f ≡ true) fs
      × ((f : FillWrite) → stores u s.db.fills f ≡ true → stores u t.db.fills f ≡ true)
      × (t.setting ≡ s.setting)
insert_chunk-lands u fs rows s c allowed =
    let new_rows = landed_rows s.db.fills rows in
    (
      length new_rows,
      record s { db = record s.db { fills = s.db.fills ++ new_rows } },
      rw allowed refl,
      length-append s.db.fills new_rows,
      All-imp (λ f. (stores u s.db.fills f || stores u new_rows f) ≡ true)
          (λ f. stores u (s.db.fills ++ new_rows) f ≡ true) fs
          (λ f h. any-append (λ r. u == r.user_id && write_key f == r.key) s.db.fills new_rows ∙ h)
          (landed_rows-store u fs s.db.fills rows c),
      (λ f h. landed_rows-keep u f s.db.fills rows h),
      refl,
    )

abbrev pub after_chunk : ℕ → Outside → Bytes → ℕ → Uuid → List FillWrite → ℕ → Action ℕ
after_chunk fuel o dek v u fs landed =
    insert_chunks fuel o dek v u fs >>= λ later. pure (landed + later)

abbrev pub after_seal : ℕ → Outside → Bytes → ℕ → Uuid → List FillWrite → List Fill → Action ℕ
after_seal fuel o dek v u fs rows = insert_chunk u rows >>= after_chunk fuel o dek v u fs

-- What a run over some fills has done: it returns the growth of the table, stores the fills and keeps what
-- was stored.
abbrev Lands : Uuid → List FillWrite → Session → Result ℕ × Session → Type 0
Lands u fs s run =
    (n : ℕ) × (t : Session) × (run ≡ (ok n, t))
    × (length t.db.fills ≡ length s.db.fills + n)
    × All (λ f. stores u t.db.fills f ≡ true) fs
    × ((f : FillWrite) → stores u s.db.fills f ≡ true → stores u t.db.fills f ≡ true)

insert_chunks-land :
    (fuel : ℕ) (o : Outside) (dek : Bytes) (v : ℕ) (u : Uuid) (fs : List FillWrite) (s : Session)
    → length fs ≤ fuel
    → permits s u ≡ true
    → Lands u fs s (insert_chunks fuel o dek v u fs s)
unfolding insert_chunks
insert_chunks-land fuel o dek v u [] s h allowed = (0, s, refl, omega arith, tt, λ f k. k)
insert_chunks-land zero o dek v u (f ∷ fs) s h allowed = absurd (omega (arith, h))
insert_chunks-land (suc fuel) o dek v u (f ∷ fs) s h allowed =
    let chunk = take chunk_size (f ∷ fs) in
    let rest = drop chunk_size (f ∷ fs) in
    let (rows, s₁, e₁, c, d₁, g₁) = seal_fills-keep o dek v u chunk s in
    let (n, s₂, e₂, len₂, all₂, keeps₂, g₂) =
      insert_chunk-lands u chunk rows s₁ c
        (ap (λ st. permits (record s₁ { setting = st }) u) g₁ ∙ allowed) in
    let (m, s₃, e₃, len₃, all₃, keeps₃) =
      insert_chunks-land fuel o dek v u rest s₂ (omega (arith, h, length-drop_le 1999 fs))
        (ap (λ st. permits (record s₂ { setting = st }) u) (g₂ ∙ g₁) ∙ allowed) in
    (
      n + m,
      s₃,
      bind-ok (seal_fills o dek v u chunk) (after_seal fuel o dek v u rest) s s₁ rows e₁
          ∙ bind-ok (insert_chunk u rows) (after_chunk fuel o dek v u rest) s₁ s₂ n e₂
          ∙ bind-ok (insert_chunks fuel o dek v u rest) (λ later. pure (n + later)) s₂ s₃ m e₃,
      omega (arith, len₃, len₂, ap (λ d. length d.fills) d₁),
      All-take-drop (λ f. stores u s₃.db.fills f ≡ true) chunk_size (f ∷ fs)
          (All-imp (λ f. stores u s₂.db.fills f ≡ true) (λ f. stores u s₃.db.fills f ≡ true) chunk
            keeps₃ all₂)
          all₃,
      λ f k. keeps₃ f (keeps₂ f (ap (λ d. stores u d.fills f) d₁ ∙ k)),
    )

-- Where the data key of the user can be read and the policy permits the user, an insertion returns how many
-- rows the table grew by; each of the fills is stored under its key afterwards, and so is each that was before.
pub insert_fills-land :
    (o : Outside) (u : Uuid) (fs : List FillWrite) (s : Session) (key : Bytes × ℕ)
    → current_dek o u s ≡ (ok key, s)
    → permits s u ≡ true
    → (n : ℕ) × (t : Session) × (insert_fills o u fs s ≡ (ok n, t))
      × (length t.db.fills ≡ length s.db.fills + n)
      × All (λ f. stores u t.db.fills f ≡ true) fs
      × ((f : FillWrite) → stores u s.db.fills f ≡ true → stores u t.db.fills f ≡ true)
unfolding insert_fills
insert_fills-land o u [] s key e allowed = (0, s, refl, omega arith, tt, λ f k. k)
insert_fills-land o u (f ∷ fs) s key e allowed =
    let (n, t, run, len, all, keeps) =
      insert_chunks-land (length (f ∷ fs)) o key.0 key.1 u (f ∷ fs) s (omega arith) allowed in
    (
      n,
      t,
      bind-ok (current_dek o u) (λ k. insert_chunks (length (f ∷ fs)) o k.0 k.1 u (f ∷ fs)) s s key
            e
          ∙ run,
      len,
      all,
      keeps,
    )
