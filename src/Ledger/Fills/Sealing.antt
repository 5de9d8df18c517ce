-- ===== src/Ledger/Fills/Sealing.antt =====
-- The rows that `insert_fills` makes by encryption (src/morai/ledger/fills.py).
use morai_trading_dashboard.Prelude.Pairs.{Pairs, Pairs-imp}
use morai_trading_dashboard.Ledger.Columns.{
  encrypt_decimal-run, encrypt_decimal, drawn_for-keeps, drawn_for, encrypted_as,
}
use morai_trading_dashboard.Prelude.{
  ap, ℕ, List, [], ◌∷◌, ◌≡◌, refl, ◌∙◌, nat_eq, text_eq, ok, Uuid,
}
use morai_trading_dashboard.Outside.{Outside}
use morai_trading_dashboard.Db.{Bytes}
use morai_trading_dashboard.Db.Session.{Session, bind-ok, ◌>>=◌, pure}
use morai_trading_dashboard.Db.{Fill}
use morai_trading_dashboard.Ledger.Records.{FillWrite}
use morai_trading_dashboard.Ledger.Fills.{
  fill_associated_data, write_key, fill_row, seal_fill, seal_fills,
}

-- A row has the key of its write.
abbrev pub Keyed : Uuid → FillWrite → Fill → Type 0
Keyed u f r = (r.user_id ≡ u) × (r.key ≡ write_key f)

-- The rows that were sealed carry the keys of the writes, in order.
abbrev pub Carries : Uuid → List FillWrite → List Fill → Type 0
Carries u fs rs = Pairs (Keyed u) fs rs

-- A row is one that sealing the write gives, with some draws of the random source.
abbrev pub Sealed : Outside → Bytes → ℕ → Uuid → FillWrite → Fill → Type 0
Sealed o dek v u f r =
    (s : Session) × (t : Session) × (r
      ≡ fill_row u v f
          (encrypted_as o dek (fill_associated_data o "quantity" u (write_key f)) f.quantity s)
          (encrypted_as o dek (fill_associated_data o "price_usd" u (write_key f)) f.price_usd t))

pub Sealed-Keyed :
    (o : Outside) (dek : Bytes) (v : ℕ) (u : Uuid) (f : FillWrite) (r : Fill)
    → Sealed o dek v u f r
    → Keyed u f r
Sealed-Keyed o dek v u f r (s, t, e) = (ap (λ (r : Fill). r.user_id) e, ap (λ (r : Fill). r.key) e)

pub Sealed-Carries :
    (o : Outside) (dek : Bytes) (v : ℕ) (u : Uuid) (fs : List FillWrite) (rs : List Fill)
    → Pairs (Sealed o dek v u) fs rs
    → Carries u fs rs
Sealed-Carries o dek v u fs rs =
    Pairs-imp (Sealed o dek v u) (Keyed u) fs rs (λ f r h. Sealed-Keyed o dek v u f r h)

seal_fill-seals :
    (o : Outside) (dek : Bytes) (v : ℕ) (u : Uuid) (f : FillWrite) (s : Session)
    → (row : Fill) × (t : Session) × (seal_fill o dek v u f s ≡ (ok row, t))
      × Sealed o dek v u f row
      × (t.db ≡ s.db)
      × (t.setting ≡ s.setting)
seal_fill-seals o dek v u f s =
    let q_data = fill_associated_data o "quantity" u (write_key f) in
    let p_data = fill_associated_data o "price_usd" u (write_key f) in
    let s₁ = drawn_for f.quantity s in
    let s₂ = drawn_for f.price_usd s₁ in
    let q = encrypted_as o dek q_data f.quantity s in
    let p = encrypted_as o dek p_data f.price_usd s₁ in
    let (d₁, g₁) = drawn_for-keeps f.quantity s in
    let (d₂, g₂) = drawn_for-keeps f.price_usd s₁ in
    (
      fill_row u v f q p,
      s₂,
      bind-ok (encrypt_decimal o dek q_data f.quantity)
            (λ q. encrypt_decimal o dek p_data f.price_usd >>= λ p. pure (fill_row u v f q p)) s s₁
            q (encrypt_decimal-run o dek q_data f.quantity s)
          ∙ bind-ok (encrypt_decimal o dek p_data f.price_usd) (λ p. pure (fill_row u v f q p)) s₁
              s₂ p (encrypt_decimal-run o dek p_data f.price_usd s₁),
      (s, s₁, refl),
      d₂ ∙ d₁,
      g₂ ∙ g₁,
    )

pub seal_fills-seal :
    (o : Outside) (dek : Bytes) (v : ℕ) (u : Uuid) (fs : List FillWrite) (s : Session)
    → (rows : List Fill) × (t : Session) × (seal_fills o dek v u fs s ≡ (ok rows, t))
      × Pairs (Sealed o dek v u) fs rows
      × (t.db ≡ s.db)
      × (t.setting ≡ s.setting)
unfolding seal_fills Pairs
seal_fills-seal o dek v u [] s = ([], s, refl, tt, refl, refl)
seal_fills-seal o dek v u (f ∷ fs) s =
    let (row, s₁, e₁, k, d₁, g₁) = seal_fill-seals o dek v u f s in
    let (rows, s₂, e₂, c, d₂, g₂) = seal_fills-seal o dek v u fs s₁ in
    (
      row ∷ rows,
      s₂,
      bind-ok (seal_fill o dek v u f) (λ row. seal_fills o dek v u fs >>= λ rest. pure (row ∷ rest))
            s s₁ row e₁
          ∙ bind-ok (seal_fills o dek v u fs) (λ rest. pure (row ∷ rest)) s₁ s₂ rows e₂,
      (k, c),
      d₂ ∙ d₁,
      g₂ ∙ g₁,
    )

pub seal_fills-keep :
    (o : Outside) (dek : Bytes) (v : ℕ) (u : Uuid) (fs : List FillWrite) (s : Session)
    → (rows : List Fill) × (t : Session) × (seal_fills o dek v u fs s ≡ (ok rows, t))
      × Carries u fs rows
      × (t.db ≡ s.db)
      × (t.setting ≡ s.setting)
seal_fills-keep o dek v u fs s =
    let (rows, t, e, c, d, g) = seal_fills-seal o dek v u fs s in
    (rows, t, e, Sealed-Carries o dek v u fs rows c, d, g)
