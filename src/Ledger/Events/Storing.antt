-- ===== src/Ledger/Events/Storing.antt =====
-- What `insert_events` stores (src/morai/ledger/events.py).
use morai_trading_dashboard.Ledger.Events.Adding.{
  Made-accepted, add_events-stop, add_events-make, Made, storable, Drawn, ids_of, Drawn-append,
}
use morai_trading_dashboard.Ledger.Keys.{current_dek}
use morai_trading_dashboard.Ledger.Records.{EventWrite}
use morai_trading_dashboard.Ledger.Events.{
  event_chunk_size, accepts, add_events, half_roll, flush_events, insert_events,
  insert_event_chunks,
}
use morai_trading_dashboard.Prelude.Pairs.{Pairs, Pairs-append}
use mathlib.Core.Path.{subst}
use mathlib.Core.List.{map-append}
use morai_trading_dashboard.Prelude.{
  append_assoc, take-drop, or-right, All-drop, or-false, length-drop_le, All-take, any-take-drop,
  drop, integrity_error, append-nil, take, insufficient_privilege, value_error, All, ℕ, zero, suc,
  ◌≤◌, true, false, not, List, [], ◌∷◌, ◌++◌, ◌≡◌, refl, sym, ap, ◌∙◌, inl, inr, arith, nat_eq,
  text_eq, ok, err, Uuid, any, length, Bool-cases,
}
use morai_trading_dashboard.Outside.{Outside}
use morai_trading_dashboard.Db.{Event, Database, Bytes}
use morai_trading_dashboard.Db.Session.{
  Session, bind-ok, bind-err, Action, ◌>>=◌, ◌>>◌, query, execute, raise_when, permits,
}

abbrev after_add : ℕ → Outside → Bytes → ℕ → Uuid → List EventWrite → List Event → Action (Unit {0})
after_add fuel o dek v u es rows = flush_events u rows >> insert_event_chunks fuel o dek v u es

-- A flush of rows that were made from events which the database takes.
flush-stores :
    (o : Outside) (dek : Bytes) (v : ℕ) (u : Uuid) (es : List EventWrite) (rows : List Event)
    (s : Session)
    → permits s u ≡ true
    → All (λ e. storable s.db u e ≡ true) es
    → any half_roll es ≡ false
    → Pairs (Made o dek v u) es rows
    → flush_events u rows s
      ≡ (ok tt, record s { db = record s.db { events = s.db.events ++ rows } })
flush-stores o dek v u es rows s allowed h whole c =
    bind-ok (raise_when (not (permits s u)) insufficient_privilege)
      (λ done. query (λ db. any (λ r. not (accepts db r)) rows) >>= λ refused.
        raise_when refused integrity_error
        >> execute (λ db. record db { events = db.events ++ rows }))
      s s tt (ap (λ b. raise_when (not b) insufficient_privilege s) allowed)
    ∙ bind-ok (raise_when (any (λ r. not (accepts s.db r)) rows) integrity_error)
        (λ done. execute (λ db. record db { events = db.events ++ rows })) s s tt
        (ap (λ b. raise_when b integrity_error s) (Made-accepted o dek v u s.db es rows h whole c))

-- One chunk without a half ROLL.
chunk-stores :
    (o : Outside) (dek : Bytes) (v : ℕ) (u : Uuid) (es : List EventWrite) (s : Session)
    → permits s u ≡ true
    → All (λ e. storable s.db u e ≡ true) es
    → any half_roll es ≡ false
    → (rows : List Event) × (r : Session) × (t : Session) × (add_events o dek v u es s
        ≡ (ok rows, r))
      × (flush_events u rows r ≡ (ok tt, t))
      × Pairs (Made o dek v u) es rows
      × (t.db ≡ record s.db { events = s.db.events ++ rows })
      × (t.setting ≡ s.setting)
      × Drawn o s.draws t.draws (ids_of rows)
chunk-stores o dek v u es s allowed h whole =
    let (rows, r, e, c, d, g, drawn) = add_events-make o dek v u es s whole in
    (
      rows,
      r,
      record r { db = record r.db { events = r.db.events ++ rows } },
      e,
      flush-stores o dek v u es rows r
          (ap (λ st. permits (record r { setting = st }) u) g ∙ allowed)
          (subst (λ db. All (λ e. storable db u e ≡ true) es) (sym d) h) whole c,
      c,
      ap (λ (db : Database). (record db { events = db.events ++ rows })) d,
      g,
      drawn,
    )

pub insert_event_chunks-store :
    (fuel : ℕ) (o : Outside) (dek : Bytes) (v : ℕ) (u : Uuid) (es : List EventWrite) (s : Session)
    → length es ≤ fuel
    → permits s u ≡ true
    → All (λ e. storable s.db u e ≡ true) es
    → any half_roll es ≡ false
    → (rows : List Event) × (t : Session) × (insert_event_chunks fuel o dek v u es s ≡ (ok tt, t))
      × Pairs (Made o dek v u) es rows
      × (t.db ≡ record s.db { events = s.db.events ++ rows })
      × (t.setting ≡ s.setting)
      × Drawn o s.draws t.draws (ids_of rows)
unfolding insert_event_chunks Pairs Drawn
insert_event_chunks-store fuel o dek v u [] s le allowed h whole = (
  [],
  s,
  refl,
  tt,
  ap (λ l. record s.db { events = l }) (sym (append-nil s.db.events)),
  refl,
  omega arith,
)
insert_event_chunks-store zero o dek v u (e ∷ es) s le allowed h whole = absurd (omega (arith, le))
insert_event_chunks-store (suc fuel) o dek v u (e ∷ es) s le allowed h whole =
    let chunk = take event_chunk_size (e ∷ es) in
    let rest = drop event_chunk_size (e ∷ es) in
    let split = any-take-drop half_roll event_chunk_size (e ∷ es) in
    let (rows, r, s₂, e₁, e₂, c, d₂, g₂, drawn₂) =
      chunk-stores o dek v u chunk s allowed
        (All-take (λ e. storable s.db u e ≡ true) event_chunk_size (e ∷ es) h)
        (or-false (sym split ∙ whole)).0 in
    let (later, s₃, e₃, c₃, d₃, g₃, drawn₃) =
      insert_event_chunks-store fuel o dek v u rest s₂ (omega (arith, le, length-drop_le 1999 es))
        (ap (λ st. permits (record s₂ { setting = st }) u) g₂ ∙ allowed)
        (subst (λ (db : Database). All (λ e. storable db u e ≡ true) rest) (sym d₂)
          (All-drop (λ e. storable s.db u e ≡ true) event_chunk_size (e ∷ es) h))
        (or-false (sym split ∙ whole)).1 in
    (
      rows ++ later,
      s₃,
      bind-ok (add_events o dek v u chunk) (after_add fuel o dek v u rest) s r rows e₁
          ∙ bind-ok (flush_events u rows) (λ done. insert_event_chunks fuel o dek v u rest) r s₂ tt
              e₂
          ∙ e₃,
      subst (λ l. Pairs (Made o dek v u) l (rows ++ later)) (take-drop event_chunk_size (e ∷ es))
          (Pairs-append (Made o dek v u) chunk rest rows later c c₃),
      d₃
          ∙ ap (λ (db : Database). (record db { events = db.events ++ later })) d₂
          ∙ ap (λ l. record s.db { events = l }) (append_assoc s.db.events rows later),
      g₃ ∙ g₂,
      subst (Drawn o s.draws s₃.draws) (sym (map-append (λ (r : Event). r.id) rows later))
          (Drawn-append o s.draws s₂.draws s₃.draws (ids_of rows) (ids_of later) drawn₂ drawn₃),
    )

insert_event_chunks-stop :
    (fuel : ℕ) (o : Outside) (dek : Bytes) (v : ℕ) (u : Uuid) (es : List EventWrite) (s : Session)
    → length es ≤ fuel
    → permits s u ≡ true
    → All (λ e. storable s.db u e ≡ true) es
    → any half_roll es ≡ true
    → (t : Session) × (insert_event_chunks fuel o dek v u es s ≡ (err value_error, t))
unfolding insert_event_chunks
insert_event_chunks-stop fuel o dek v u [] s le allowed h half = absurd (ground (arith, half))
insert_event_chunks-stop zero o dek v u (e ∷ es) s le allowed h half = absurd (omega (arith, le))
insert_event_chunks-stop (suc fuel) o dek v u (e ∷ es) s le allowed h half =
    let chunk = take event_chunk_size (e ∷ es) in
    let rest = drop event_chunk_size (e ∷ es) in
    elim (Bool-cases (any half_roll chunk)) [
      | inl here ↦
          let (t, e₁, d) = add_events-stop o dek v u chunk s here in
          (
            t,
            bind-err (add_events o dek v u chunk) (after_add fuel o dek v u rest) s t value_error
                e₁,
          )
      | inr whole ↦
          let (rows, r, s₂, e₁, e₂, c, d₂, g₂, drawn₂) =
            chunk-stores o dek v u chunk s allowed
              (All-take (λ e. storable s.db u e ≡ true) event_chunk_size (e ∷ es) h) whole in
          let (t, e₃) =
            insert_event_chunks-stop fuel o dek v u rest s₂
              (omega (arith, le, length-drop_le 1999 es))
              (ap (λ st. permits (record s₂ { setting = st }) u) g₂ ∙ allowed)
              (subst (λ (db : Database). All (λ e. storable db u e ≡ true) rest) (sym d₂)
                (All-drop (λ e. storable s.db u e ≡ true) event_chunk_size (e ∷ es) h))
              (or-right whole (sym (any-take-drop half_roll event_chunk_size (e ∷ es)) ∙ half)) in
          (
            t,
            bind-ok (add_events o dek v u chunk) (after_add fuel o dek v u rest) s r rows e₁
                ∙ bind-ok (flush_events u rows) (λ done. insert_event_chunks fuel o dek v u rest) r
                    s₂ tt e₂
                ∙ e₃,
          )
    ]

-- Where the data key of the user can be read, the policy permits the user and each event has a known type and a position
-- that exists, a batch with a ROLL that lacks an amount ends in a ValueError, wherever in the batch the ROLL stands.
pub insert_events-half_roll :
    (o : Outside) (u : Uuid) (es : List EventWrite) (s : Session) (key : Bytes × ℕ)
    → current_dek o u s ≡ (ok key, s)
    → permits s u ≡ true
    → All (λ e. storable s.db u e ≡ true) es
    → any half_roll es ≡ true
    → (t : Session) × (insert_events o u es s ≡ (err value_error, t))
unfolding insert_events
insert_events-half_roll o u es s key e allowed h half =
    let (t, run) =
      insert_event_chunks-stop (length es) o key.0 key.1 u es s (omega arith) allowed h half in
    (
      t,
      bind-ok (current_dek o u) (λ k. insert_event_chunks (length es) o k.0 k.1 u es) s s key e
          ∙ run,
    )

pub insert_events-store :
    (o : Outside) (u : Uuid) (es : List EventWrite) (s : Session) (key : Bytes × ℕ)
    → current_dek o u s ≡ (ok key, s)
    → permits s u ≡ true
    → All (λ e. storable s.db u e ≡ true) es
    → any half_roll es ≡ false
    → (rows : List Event) × (t : Session) × (insert_events o u es s ≡ (ok tt, t))
      × Pairs (Made o key.0 key.1 u) es rows
      × (t.db ≡ record s.db { events = s.db.events ++ rows })
      × (t.setting ≡ s.setting)
      × Drawn o s.draws t.draws (ids_of rows)
unfolding insert_events
insert_events-store o u es s key e allowed h whole =
    let (rows, t, run, c, d, g, drawn) =
      insert_event_chunks-store (length es) o key.0 key.1 u es s (omega arith) allowed h whole in
    (
      rows,
      t,
      bind-ok (current_dek o u) (λ k. insert_event_chunks (length es) o k.0 k.1 u es) s s key e
          ∙ run,
      c,
      d,
      g,
      drawn,
    )
