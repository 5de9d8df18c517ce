-- ===== src/Ledger/Events/Roundtrip.antt =====
-- The round trip of `insert_events` and `read_events` (src/morai/ledger/events.py).
use morai_trading_dashboard.Ledger.Events.Storing.{insert_events-store}
use morai_trading_dashboard.Ledger.Keys.{current_dek}
use morai_trading_dashboard.Ledger.Events.Adding.{storable, event_of, Made, Drawn, ids_of}
use morai_trading_dashboard.Ledger.Columns.{decrypt_decimal-encrypted_as, ReadsBack}
use morai_trading_dashboard.Ledger.Reading.{
  read_each-both, read_each-cons, read_rows-fresh, fetch_dek, read_each,
}
use morai_trading_dashboard.Ledger.Events.{
  insert_events, half_roll, event_associated_data, read_events, open_event,
}
use morai_trading_dashboard.Ledger.Records.{EventRecord, EventWrite}
use morai_trading_dashboard.Prelude.Pairs.{Pairs}
use mathlib.Core.Path.{subst}
use morai_trading_dashboard.Prelude.{
  keep-append, map, All, ℕ, true, false, ◌&&◌, List, [], ◌∷◌, ◌++◌, ◌≡◌, refl, sym, ap, ◌∙◌, arith,
  ◌==◌, nat_eq, text_eq, Result, ok, Uuid, keep, any, beq_refl,
}
use morai_trading_dashboard.Outside.{Decrypts, Outside}
use morai_trading_dashboard.Db.{Event, Database, Bytes}
use morai_trading_dashboard.Db.Session.{Session, permits, Setting}

-- The amounts of an event are read back from their texts.
abbrev pub ReadableEvent : Outside → EventWrite → Type 0
ReadableEvent o e = ReadsBack o e.open_debit_usd × ReadsBack o e.close_credit_usd

abbrev pub record_ids : List EventRecord → List Uuid
record_ids recs = map (λ r. r.id) recs

-- A record with the values of an event.
abbrev pub Kept : Uuid → ℕ → EventWrite → EventRecord → Type 0
Kept u v e r = r ≡ event_of u v e r.id

Made-read :
    (o : Outside) (dek : Bytes) (v : ℕ) (u : Uuid) (e : EventWrite) (r : Event)
    → Decrypts o
    → ReadableEvent o e
    → Made o dek v u e r
    → (rec : EventRecord) × (open_event o u dek r ≡ ok rec) × Kept u v e rec × (rec.id ≡ r.id)
unfolding open_event
Made-read o dek v u e r law (reads_d, reads_c) (id, s, t, m) =
    let debit_data = event_associated_data "open_debit_usd" id in
    let credit_data = event_associated_data "close_credit_usd" id in
    (
      event_of u v e id,
      ap (open_event o u dek) m
          ∙ rw
              (
                decrypt_decimal-encrypted_as o law dek debit_data e.open_debit_usd s reads_d,
                decrypt_decimal-encrypted_as o law dek credit_data e.close_credit_usd t reads_c,
              )
              refl,
      refl,
      ap (λ (x : Event). x.id) (sym m),
    )

-- The rows that were made are read back as records with the values of the events.
Made-read_each :
    (o : Outside) (dek : Bytes) (v : ℕ) (u : Uuid) (fetch : ℕ → Result Bytes) (es : List EventWrite)
    (rows : List Event)
    → Decrypts o
    → fetch v ≡ ok dek
    → All (ReadableEvent o) es
    → Pairs (Made o dek v u) es rows
    → (recs : List EventRecord) × (read_each fetch
          (λ (r : Event). r.key_version)
          (open_event o u)
          rows
        ≡ ok recs)
      × Pairs (Kept u v) es recs
      × (record_ids recs ≡ ids_of rows)
unfolding Pairs read_each
Made-read_each o dek v u fetch [] [] law k all c = ([], refl, tt, refl)
Made-read_each o dek v u fetch [] (r ∷ rows) law k all c = absurd c
Made-read_each o dek v u fetch (e ∷ es) [] law k all c = absurd c
Made-read_each o dek v u fetch (e ∷ es) (r ∷ rows) law k (a, all) (m, c) =
    let (rec, h, kept, same) = Made-read o dek v u e r law a m in
    let (recs, hs, keeps, sames) = Made-read_each o dek v u fetch es rows law k all c in
    (
      rec ∷ recs,
      read_each-cons fetch (λ (r : Event). r.key_version) (open_event o u) r rows dek rec recs
          (ap fetch (ap (λ (r : Event). r.key_version) m.3) ∙ k) h hs,
      (kept, keeps),
      ap (λ i. i ∷ record_ids recs) same ∙ ap (λ l. r.id ∷ l) sames,
    )

Made-keep :
    (o : Outside) (dek : Bytes) (v : ℕ) (u : Uuid) (es : List EventWrite) (rows : List Event)
    (s : Session)
    → permits s u ≡ true
    → Pairs (Made o dek v u) es rows
    → keep (λ r. permits s r.user_id && r.user_id == u) rows ≡ rows
unfolding Pairs
Made-keep o dek v u [] [] s allowed c = refl
Made-keep o dek v u [] (r ∷ rows) s allowed c = absurd c
Made-keep o dek v u (e ∷ es) [] s allowed c = absurd c
Made-keep o dek v u (e ∷ es) (r ∷ rows) s allowed ((id, s₁, s₂, m), c) =
    let own : (permits s r.user_id && r.user_id == u) ≡ true =
      ap (λ x. permits s x && x == u) (ap (λ (r : Event). r.user_id) m)
      ∙ ground (arith, allowed, beq_refl u) in
    rw own (ap (λ l. r ∷ l) (Made-keep o dek v u es rows s allowed c))

abbrev events_of : Uuid → Session → List Event → List Event
events_of u s rows = keep (λ r. permits s r.user_id && r.user_id == u) rows

-- What a read gives where the tables are `db` and the setting is `g`.
abbrev read_at : Outside → Uuid → Session → Database → Setting → Result (List EventRecord)
read_at o u s db g = (read_events o u (record s { db = db; setting = g })).0

read_events-at :
    (o : Outside) (u : Uuid) (s t : Session) → read_events o u t ≡ (read_at o u s t.db t.setting, t)
unfolding read_events fetch_dek
read_events-at o u s t = refl

read_at-each :
    (o : Outside) (u : Uuid) (s : Session) (rows : List Event)
    → read_at o u s (record s.db { events = rows }) s.setting
      ≡ read_each
          (fetch_dek o s u)
          (λ (r : Event). r.key_version)
          (open_event o u)
          (events_of u s rows)
unfolding read_events fetch_dek
read_at-each o u s rows =
    read_rows-fresh (fetch_dek o s u) (λ (r : Event). r.key_version) (open_event o u)
      (events_of u s rows)

-- Where decryption undoes encryption, the newest data key of the user is also found by its version, the
-- policy permits the user, the events have known types, positions that exist, both amounts where they are
-- ROLLs, and decimals that are read back from their texts, an insertion succeeds, changes no table but that
-- of events, and a read after it gives what a read before it gave, and then one record for each event in
-- order, with the event's values, under ids that were drawn one after another from the random source during
-- the insertion, each by a draw of its own.
pub insert_events-read :
    (o : Outside) (u : Uuid) (es : List EventWrite) (s : Session) (key : Bytes × ℕ)
    (old : List EventRecord)
    → Decrypts o
    → current_dek o u s ≡ (ok key, s)
    → fetch_dek o s u key.1 ≡ ok key.0
    → permits s u ≡ true
    → All (λ e. storable s.db u e ≡ true) es
    → any half_roll es ≡ false
    → All (ReadableEvent o) es
    → read_events o u s ≡ (ok old, s)
    → (recs : List EventRecord) × (t : Session) × (rows : List Event) × (insert_events o u es s
        ≡ (ok tt, t))
      × (t.db ≡ record s.db { events = rows })
      × (t.setting ≡ s.setting)
      × (read_events o u t ≡ (ok (old ++ recs), t))
      × Pairs (Kept u key.1) es recs
      × Drawn o s.draws t.draws (record_ids recs)
insert_events-read o u es s key old law e k allowed h whole all r =
    let (rows, t, run, c, d, g, drawn) = insert_events-store o u es s key e allowed h whole in
    let version : Event → ℕ = λ r. r.key_version in
    let fetch = fetch_dek o s u in
    let (recs, reads, kept, same) = Made-read_each o key.0 key.1 u fetch es rows law k all c in
    let before : read_each fetch version (open_event o u) (events_of u s s.db.events) ≡ ok old =
      sym (read_at-each o u s s.db.events)
      ∙ ap (λ (p : Result (List EventRecord) × Session). p.0) (sym (read_events-at o u s s) ∙ r) in
    (
      recs,
      t,
      s.db.events ++ rows,
      run,
      d,
      g,
      read_events-at o u s t
          ∙ ap (λ x. (x, t))
              (ap (λ db. read_at o u s db t.setting) d
                ∙ ap (read_at o u s (record s.db { events = s.db.events ++ rows })) g
                ∙ read_at-each o u s (s.db.events ++ rows)
                ∙ ap (λ l. read_each fetch version (open_event o u) l)
                    (keep-append (λ r. permits s r.user_id && r.user_id == u) s.db.events rows
                      ∙ ap (λ l. events_of u s s.db.events ++ l)
                          (Made-keep o key.0 key.1 u es rows s allowed c))
                ∙ read_each-both fetch version (open_event o u) (events_of u s s.db.events) rows old
                    recs before reads),
      kept,
      subst (Drawn o s.draws t.draws) (sym same) drawn,
    )
