-- ===== src/Ledger/Events/Adding.antt =====
-- The rows that `insert_events` makes (src/morai/ledger/events.py).
use morai_trading_dashboard.Money.{Decimal}
use morai_trading_dashboard.Ledger.Columns.{
  ciphertext_of, encrypt_decimal-run, encrypt_decimal, drawn_for-keeps, drawn_for, encrypted_as,
}
use morai_trading_dashboard.Ledger.Events.{
  refers, add_events, accepts, known_type, event_associated_data, make_event, event_row, half_roll,
}
use morai_trading_dashboard.Ledger.Records.{EventRecord, EventWrite}
use morai_trading_dashboard.Prelude.Pairs.{Pairs}
use morai_trading_dashboard.Prelude.{
  ◌≤◌, map, ◌++◌, is_some, value_error, All, ℕ, suc, Bool, true, false, ◌&&◌, not, Option, none,
  some, List, [], ◌∷◌, ◌≡◌, refl, ap, ◌∙◌, inl, inr, arith, nat_eq, text_eq, ok, err, Uuid, any,
  Bool-cases,
}
use morai_trading_dashboard.Outside.{Outside}
use morai_trading_dashboard.Db.{Event, Database, Bytes}
use morai_trading_dashboard.Db.Session.{
  Session, bind-ok, bind-err, Action, ◌>>=◌, pure, raise_when, draw,
}

-- What is read back of an event.
abbrev pub event_of : Uuid → ℕ → EventWrite → Uuid → EventRecord
event_of u v e id = record {
  id = id;
  user_id = u;
  position_id = e.position_id;
  event_type = e.event_type;
  event_time = e.event_time;
  fill_ids_hash = e.fill_ids_hash;
  open_debit_usd = e.open_debit_usd;
  close_credit_usd = e.close_credit_usd;
  key_version = v;
}

-- A row that was made from an event, with an id and some draws of the random source.
abbrev pub Made : Outside → Bytes → ℕ → Uuid → EventWrite → Event → Type 0
Made o dek v u e r =
    (id : Uuid) × (s : Session) × (t : Session) × (r
      ≡ event_row u v e id
          (encrypted_as o dek (event_associated_data "open_debit_usd" id) e.open_debit_usd s)
          (encrypted_as o dek (event_associated_data "close_credit_usd" id) e.close_credit_usd t))

-- Ids of draws of their own, one after another, from one state of the random source to another.
unfoldable pub Drawn : Outside → ℕ → ℕ → List Uuid → Type 0
Drawn o from to [] = from ≤ to
Drawn o from to (id ∷ ids) = (n : ℕ) × (from ≤ n) × (id ≡ o.new_uuid n) × Drawn o (suc n) to ids

abbrev pub ids_of : List Event → List Uuid
ids_of rows = map (λ r. r.id) rows

Drawn-later :
    (o : Outside) (from later to : ℕ) (ids : List Uuid)
    → from ≤ later
    → Drawn o later to ids
    → Drawn o from to ids
unfolding Drawn
Drawn-later o from later to [] h d = omega (arith, h, d)
Drawn-later o from later to (id ∷ ids) h (n, k, e, d) = (n, omega (arith, h, k), e, d)

pub Drawn-append :
    (o : Outside) (from middle to : ℕ) (xs ys : List Uuid)
    → Drawn o from middle xs
    → Drawn o middle to ys
    → Drawn o from to (xs ++ ys)
unfolding Drawn
Drawn-append o from middle to [] ys d d' = Drawn-later o from middle to ys d d'
Drawn-append o from middle to (x ∷ xs) ys (n, k, e, d) d' =
    (n, k, e, Drawn-append o (suc n) middle to xs ys d d')

drawn_for-rises : (d : Option Decimal) (s : Session) → s.draws ≤ (drawn_for d s).draws
drawn_for-rises none s = omega arith
drawn_for-rises (some d) s = omega arith

-- `make_event` after its guard.
abbrev make_whole : Outside → Bytes → ℕ → Uuid → EventWrite → Action Event
make_whole o dek v u e = do
  event_id ← draw o.new_uuid
  debit ← encrypt_decimal o dek (event_associated_data "open_debit_usd" event_id) e.open_debit_usd
  credit ←
      encrypt_decimal o dek (event_associated_data "close_credit_usd" event_id) e.close_credit_usd
  pure (event_row u v e event_id debit credit)

make_event-makes :
    (o : Outside) (dek : Bytes) (v : ℕ) (u : Uuid) (e : EventWrite) (s : Session)
    → half_roll e ≡ false
    → (row : Event) × (t : Session) × (make_event o dek v u e s ≡ (ok row, t))
      × Made o dek v u e row
      × (t.db ≡ s.db)
      × (t.setting ≡ s.setting)
      × (row.id ≡ o.new_uuid s.draws)
      × (suc s.draws ≤ t.draws)
make_event-makes o dek v u e s whole =
    let id = o.new_uuid s.draws in
    let s₁ = record s { draws = suc s.draws } in
    let debit_data = event_associated_data "open_debit_usd" id in
    let credit_data = event_associated_data "close_credit_usd" id in
    let s₂ = drawn_for e.open_debit_usd s₁ in
    let s₃ = drawn_for e.close_credit_usd s₂ in
    let debit = encrypted_as o dek debit_data e.open_debit_usd s₁ in
    let credit = encrypted_as o dek credit_data e.close_credit_usd s₂ in
    let (d₁, g₁) = drawn_for-keeps e.open_debit_usd s₁ in
    let (d₂, g₂) = drawn_for-keeps e.close_credit_usd s₂ in
    (
      event_row u v e id debit credit,
      s₃,
      bind-ok (raise_when (half_roll e) value_error) (λ done. make_whole o dek v u e) s s tt
            (ap (λ b. raise_when b value_error s) whole)
          ∙ bind-ok (encrypt_decimal o dek debit_data e.open_debit_usd)
              (λ p. encrypt_decimal o dek credit_data e.close_credit_usd >>= λ q.
                pure (event_row u v e id p q))
              s₁ s₂ debit (encrypt_decimal-run o dek debit_data e.open_debit_usd s₁)
          ∙ bind-ok (encrypt_decimal o dek credit_data e.close_credit_usd)
              (λ q. pure (event_row u v e id debit q)) s₂ s₃ credit
              (encrypt_decimal-run o dek credit_data e.close_credit_usd s₂),
      (id, s₁, s₂, refl),
      d₂ ∙ d₁,
      g₂ ∙ g₁,
      refl,
      omega (arith, drawn_for-rises e.open_debit_usd s₁, drawn_for-rises e.close_credit_usd s₂),
    )

abbrev with_rest : Outside → Bytes → ℕ → Uuid → List EventWrite → Event → Action (List Event)
with_rest o dek v u es row = add_events o dek v u es >>= λ rest. pure (row ∷ rest)

-- A chunk without a half ROLL gives a row for each event, under ids of their own.
pub add_events-make :
    (o : Outside) (dek : Bytes) (v : ℕ) (u : Uuid) (es : List EventWrite) (s : Session)
    → any half_roll es ≡ false
    → (rows : List Event) × (t : Session) × (add_events o dek v u es s ≡ (ok rows, t))
      × Pairs (Made o dek v u) es rows
      × (t.db ≡ s.db)
      × (t.setting ≡ s.setting)
      × Drawn o s.draws t.draws (ids_of rows)
unfolding add_events Pairs Drawn
add_events-make o dek v u [] s whole = ([], s, refl, tt, refl, refl, omega arith)
add_events-make o dek v u (e ∷ es) s whole =
    let (row, s₁, e₁, m, d₁, g₁, own, rises) =
      make_event-makes o dek v u e s (ground (arith, whole)) in
    let (rows, s₂, e₂, c, d₂, g₂, drawn) =
      add_events-make o dek v u es s₁ (ground (arith, whole)) in
    (
      row ∷ rows,
      s₂,
      bind-ok (make_event o dek v u e) (with_rest o dek v u es) s s₁ row e₁
          ∙ bind-ok (add_events o dek v u es) (λ rest. pure (row ∷ rest)) s₁ s₂ rows e₂,
      (m, c),
      d₂ ∙ d₁,
      g₂ ∙ g₁,
      (
        s.draws,
        omega arith,
        own,
        Drawn-later o (suc s.draws) s₁.draws s₂.draws (ids_of rows) rises drawn,
      ),
    )

-- A chunk with one stops at it.
pub add_events-stop :
    (o : Outside) (dek : Bytes) (v : ℕ) (u : Uuid) (es : List EventWrite) (s : Session)
    → any half_roll es ≡ true
    → (t : Session) × (add_events o dek v u es s ≡ (err value_error, t)) × (t.db ≡ s.db)
unfolding add_events
add_events-stop o dek v u [] s h = absurd (ground (arith, h))
add_events-stop o dek v u (e ∷ es) s h = elim (Bool-cases (half_roll e)) [
  | inl half ↦ (
    s,
    bind-err (make_event o dek v u e) (with_rest o dek v u es) s s value_error (
        bind-err (raise_when (half_roll e) value_error) (λ done. make_whole o dek v u e) s s
          value_error (ap (λ b. raise_when b value_error s) half)),
    refl,
  )
  | inr whole ↦
      let (row, s₁, e₁, m, d₁, g₁, own, rises) = make_event-makes o dek v u e s whole in
      let (s₂, e₂, d₂) = add_events-stop o dek v u es s₁ (ground (arith, h, whole)) in
      (
        s₂,
        bind-ok (make_event o dek v u e) (with_rest o dek v u es) s s₁ row e₁
            ∙ bind-err (add_events o dek v u es) (λ rest. pure (row ∷ rest)) s₁ s₂ value_error e₂,
        d₂ ∙ d₁,
      )
]

-- The database takes the events: a known type, a position and a user that exist.
abbrev pub storable : Database → Uuid → EventWrite → Bool
storable db u e = known_type e.event_type && refers db u e.position_id

is_some-encrypted_as :
    (o : Outside) (dek aad : Bytes) (d : Option Decimal) (s : Session)
    → is_some (ciphertext_of (encrypted_as o dek aad d s)) ≡ is_some d
is_some-encrypted_as o dek aad none s = refl
is_some-encrypted_as o dek aad (some d) s = refl

Made-accepts :
    (o : Outside) (dek : Bytes) (v : ℕ) (u : Uuid) (db : Database) (e : EventWrite) (r : Event)
    → storable db u e ≡ true
    → half_roll e ≡ false
    → Made o dek v u e r
    → accepts db r ≡ true
Made-accepts o dek v u db e r h whole (id, s, t, m) =
    ap (accepts db) m
    ∙ ground (
      arith,
      h,
      whole,
      is_some-encrypted_as o dek (event_associated_data "open_debit_usd" id) e.open_debit_usd s,
      is_some-encrypted_as o dek (event_associated_data "close_credit_usd" id) e.close_credit_usd t,
    )

pub Made-accepted :
    (o : Outside) (dek : Bytes) (v : ℕ) (u : Uuid) (db : Database) (es : List EventWrite)
    (rows : List Event)
    → All (λ e. storable db u e ≡ true) es
    → any half_roll es ≡ false
    → Pairs (Made o dek v u) es rows
    → any (λ r. not (accepts db r)) rows ≡ false
unfolding Pairs
Made-accepted o dek v u db [] [] h whole c = refl
Made-accepted o dek v u db [] (r ∷ rows) h whole c = absurd c
Made-accepted o dek v u db (e ∷ es) [] h whole c = absurd c
Made-accepted o dek v u db (e ∷ es) (r ∷ rows) (h, hs) whole (m, c) =
    let first = Made-accepts o dek v u db e r h (ground (arith, whole)) m in
    let later = Made-accepted o dek v u db es rows hs (ground (arith, whole)) c in
    rw (first, later) refl
