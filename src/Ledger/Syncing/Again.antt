-- ===== src/Ledger/Syncing/Again.antt =====
-- A second `sync_events` (src/morai/ledger/pairing.py).
use morai_trading_dashboard.Ledger.Keys.{current_dek}
use morai_trading_dashboard.Ledger.Pairing.{opened, closed}
use morai_trading_dashboard.Ledger.Events.Adding.{storable}
use morai_trading_dashboard.Ledger.Reading.{fetch_dek}
use mathlib.Core.Path.{subst}
use morai_trading_dashboard.Ledger.Events.{known_type, refers, read_events, half_roll}
use morai_trading_dashboard.Ledger.Fills.{read_fills}
use morai_trading_dashboard.Ledger.Events.Roundtrip.{insert_events-read, ReadableEvent, Kept}
use morai_trading_dashboard.Ledger.Pairing.{
  event_type_text, EventType, derive_events, Derivation, DerivedEvent,
}
use morai_trading_dashboard.Ledger.Syncing.{
  resolutions_of, narrow, unstored, platform, store_drafts, same_triple, draft_of, sync_events,
}
use morai_trading_dashboard.Ledger.Records.{EventWrite, EventRecord, FillRecord}
use morai_trading_dashboard.Prelude.Pairs.{Pairs}
use morai_trading_dashboard.Prelude.{
  append-nil, any-append, All-imp, All, ℕ, String, true, false, ◌||◌, Option, List, [], ◌∷◌, ◌++◌,
  map, ◌≡◌, refl, sym, ap, ◌∙◌, inl, inr, arith, ◌==◌, nat_eq, text_eq, Result, ok, Uuid, any,
  Bool-cases, beq_refl,
}
use morai_trading_dashboard.Outside.{Decrypts, Outside}
use morai_trading_dashboard.Db.{Event, Database, Bytes}
use morai_trading_dashboard.Db.Session.{
  Session, bind-ok, Action, ◌>>=◌, ◌>>◌, pure, permits, Setting,
}

-- What a sync derives from the fills that it reads.
abbrev pub derived : Outside → Uuid → Option (List String) → Session → List FillRecord → Derivation
derived o u order_ids s fills =
    derive_events (platform o) (narrow order_ids fills) (resolutions_of u s s.db)

module _ (o : Outside) (u : Uuid) (order_ids : Option (List String)) where
  abbrev finish : Session → List FillRecord → List EventRecord → Action Derivation
  finish s fills old =
      store_drafts o u (map draft_of (unstored old (derived o u order_ids s fills).events))
      >> pure (derived o u order_ids s fills)

  -- A sync after its reads.
  sync_events-run :
      (s : Session) (fills : List FillRecord) (old : List EventRecord)
      → read_fills o u s ≡ (ok fills, s)
      → read_events o u s ≡ (ok old, s)
      → sync_events o u order_ids s ≡ finish s fills old s
  unfolding sync_events
  sync_events-run s fills old f e =
      bind-ok (read_fills o u) (λ fills. read_events o u >>= λ old. finish s fills old) s s fills f
      ∙ bind-ok (read_events o u) (λ old. finish s fills old) s s old e

not_roll : (t : EventType) → (event_type_text t == "ROLL") ≡ false
not_roll opened = refl
not_roll closed = refl

is_known : (t : EventType) → known_type (event_type_text t) ≡ true
is_known opened = refl
is_known closed = refl

draft-whole : (events : List DerivedEvent) → any half_roll (map draft_of events) ≡ false
draft-whole [] = refl
draft-whole (e ∷ events) = ground (arith, not_roll e.event_type, draft-whole events)

draft-storable :
    (db : Database) (u : Uuid) (existing : List EventRecord) (events : List DerivedEvent)
    → All (λ e. refers db u e.position_id ≡ true) events
    → All (λ e. storable db u e ≡ true) (map draft_of (unstored existing events))
draft-storable db u existing [] h = tt
draft-storable db u existing (e ∷ events) (h, hs) =
    elim (Bool-cases (any (same_triple e) existing)) [
      | inl there ↦ rw there (draft-storable db u existing events hs)
      | inr new ↦
          rw new (ground (arith, is_known e.event_type, h), draft-storable db u existing events hs)
    ]

draft-readable :
    (o : Outside) (existing : List EventRecord) (events : List DerivedEvent)
    → All (λ e. ReadableEvent o (draft_of e)) events
    → All (ReadableEvent o) (map draft_of (unstored existing events))
draft-readable o existing [] h = tt
draft-readable o existing (e ∷ events) (h, hs) = elim (Bool-cases (any (same_triple e) existing)) [
  | inl there ↦ rw there (draft-readable o existing events hs)
  | inr new ↦ rw new (h, draft-readable o existing events hs)
]

-- The record of a draft has the triple of its event.
Kept-same :
    (u : Uuid) (v : ℕ) (e : DerivedEvent) (r : EventRecord)
    → Kept u v (draft_of e) r
    → same_triple e r ≡ true
Kept-same u v e r k =
    ap (same_triple e) k
    ∙ ground (
      arith,
      beq_refl e.position_id,
      beq_refl (event_type_text e.event_type),
      beq_refl e.fill_ids_hash,
    )

abbrev Found : List EventRecord → List EventRecord → DerivedEvent → Type 0
Found old recs e = (any (same_triple e) old || any (same_triple e) recs) ≡ true

covered_new :
    (u : Uuid) (v : ℕ) (old recs : List EventRecord) (e : DerivedEvent) (events : List DerivedEvent)
    → ((recs : List EventRecord)
        → Pairs (Kept u v) (map draft_of (unstored old events)) recs
        → All (Found old recs) events)
    → Pairs (Kept u v) (draft_of e ∷ map draft_of (unstored old events)) recs
    → All (Found old recs) (e ∷ events)
unfolding Pairs
covered_new u v old [] e events later c = absurd c
covered_new u v old (r ∷ recs) e events later (k, c) =
    let same = Kept-same u v e r k in
    (
      ground (arith, same),
      All-imp (Found old recs) (Found old (r ∷ recs)) events (λ e' h. ground (arith, h))
          (later recs c),
    )

-- An event is found again: among the old records, or among those of the drafts.
covered :
    (u : Uuid) (v : ℕ) (old recs : List EventRecord) (events : List DerivedEvent)
    → Pairs (Kept u v) (map draft_of (unstored old events)) recs
    → All (Found old recs) events
covered u v old recs [] c = tt
covered u v old recs (e ∷ events) c = elim (Bool-cases (any (same_triple e) old)) [
  | inl there ↦
      let skips : unstored old (e ∷ events) ≡ unstored old events = rw there refl in
      (
        ground (arith, there),
        covered u v old recs events (subst (λ l. Pairs (Kept u v) (map draft_of l) recs) skips c),
      )
  | inr new ↦
      let keeps : unstored old (e ∷ events) ≡ e ∷ unstored old events = rw new refl in
      covered_new u v old recs e events (λ recs. covered u v old recs events)
        (subst (λ l. Pairs (Kept u v) (map draft_of l) recs) keeps c)
]

unstored-none :
    (existing : List EventRecord) (events : List DerivedEvent)
    → All (λ e. any (same_triple e) existing ≡ true) events
    → unstored existing events ≡ []
unstored-none existing [] h = refl
unstored-none existing (e ∷ events) (h, hs) = rw h (unstored-none existing events hs)

unstored-again :
    (u : Uuid) (v : ℕ) (old recs : List EventRecord) (events : List DerivedEvent)
    → Pairs (Kept u v) (map draft_of (unstored old events)) recs
    → unstored (old ++ recs) events ≡ []
unstored-again u v old recs events c = unstored-none (old ++ recs) events (
    All-imp (Found old recs) (λ e. any (same_triple e) (old ++ recs) ≡ true) events
      (λ e h. any-append (same_triple e) old recs ∙ h) (covered u v old recs events c))

read_fills-unmoved :
    (o : Outside) (u : Uuid) (s t : Session) (rows : List Event) (fills : List FillRecord)
    → t.db ≡ record s.db { events = rows }
    → t.setting ≡ s.setting
    → read_fills o u s ≡ (ok fills, s)
    → read_fills o u t ≡ (ok fills, t)
unfolding read_fills fetch_dek
read_fills-unmoved o u s t rows fills d g h =
    let at : Database → Setting → Result (List FillRecord) =
      λ db g. (read_fills o u (record s { db = db; setting = g })).0 in
    ap (λ x. (x, t))
      (ap (λ db. at db t.setting) d
        ∙ ap (at (record s.db { events = rows })) g
        ∙ ap (λ (p : Result (List FillRecord) × Session). p.0) h)

derived-unmoved :
    (o : Outside) (u : Uuid) (order_ids : Option (List String)) (s t : Session) (rows : List Event)
    (fills : List FillRecord)
    → t.db ≡ record s.db { events = rows }
    → t.setting ≡ s.setting
    → derived o u order_ids t fills ≡ derived o u order_ids s fills
derived-unmoved o u order_ids s t rows fills d g =
    let at : Database → Setting → Derivation =
      λ db g. derived o u order_ids (record s { db = db; setting = g }) fills in
    ap (λ db. at db t.setting) d ∙ ap (at (record s.db { events = rows })) g

-- What `insert_events-read` states, of the drafts that there are.
store_drafts-read :
    (o : Outside) (u : Uuid) (es : List EventWrite) (s : Session) (key : Bytes × ℕ)
    (old : List EventRecord)
    → Decrypts o
    → current_dek o u s ≡ (ok key, s)
    → fetch_dek o s u key.1 ≡ ok key.0
    → permits s u ≡ true
    → All (λ e. storable s.db u e ≡ true) es
    → any half_roll es ≡ false
    → All (ReadableEvent o) es
    → read_events o u s ≡ (ok old, s)
    → (recs : List EventRecord) × (t : Session) × (rows : List Event) × (store_drafts o u es s
        ≡ (ok tt, t))
      × (t.db ≡ record s.db { events = rows })
      × (t.setting ≡ s.setting)
      × (read_events o u t ≡ (ok (old ++ recs), t))
      × Pairs (Kept u key.1) es recs
unfolding Pairs
store_drafts-read o u [] s key old law e k allowed h whole all r =
    ([], s, s.db.events, refl, refl, refl, r ∙ ap (λ l. (ok l, s)) (sym (append-nil old)), tt)
store_drafts-read o u (x ∷ xs) s key old law e k allowed h whole all r =
    let (recs, t, rows, run, d, g, reads, kept, drawn) =
      insert_events-read o u (x ∷ xs) s key old law e k allowed h whole all r in
    (recs, t, rows, run, d, g, reads, kept)

-- Where decryption undoes encryption, the newest data key of the user is also found by its version, the policy permits the user,
-- fills and events of the user are read, and the derived events are of positions that exist, with decimals that are read back
-- from their texts, a sync returns the derivation from the fills that it was asked for, and a second sync after it returns the same
-- and changes nothing.
pub sync_events-again :
    (o : Outside) (u : Uuid) (order_ids : Option (List String)) (s : Session) (key : Bytes × ℕ)
    (fills : List FillRecord) (old : List EventRecord)
    → Decrypts o
    → current_dek o u s ≡ (ok key, s)
    → fetch_dek o s u key.1 ≡ ok key.0
    → permits s u ≡ true
    → read_fills o u s ≡ (ok fills, s)
    → read_events o u s ≡ (ok old, s)
    → All (λ e. refers s.db u e.position_id ≡ true) (derived o u order_ids s fills).events
    → All (λ e. ReadableEvent o (draft_of e)) (derived o u order_ids s fills).events
    → (t : Session) × (sync_events o u order_ids s ≡ (ok (derived o u order_ids s fills), t))
      × (sync_events o u order_ids t ≡ (ok (derived o u order_ids s fills), t))
sync_events-again o u order_ids s key fills old law e k allowed f r refer readable =
    let d = derived o u order_ids s fills in
    let fresh = unstored old d.events in
    let (recs, t, rows, run, db, g, reads, kept) =
      store_drafts-read o u (map draft_of fresh) s key old law e k allowed
        (draft-storable s.db u old d.events refer) (draft-whole fresh)
        (draft-readable o old d.events readable) r in
    let fills_again = read_fills-unmoved o u s t rows fills db g f in
    (
      t,
      sync_events-run o u order_ids s fills old f r
          ∙ bind-ok (store_drafts o u (map draft_of fresh)) (λ done. pure d) s t tt run,
      sync_events-run o u order_ids t fills (old ++ recs) fills_again reads
          ∙ ap
              (λ x. (store_drafts o u (map draft_of (unstored (old ++ recs) x.events)) >> pure x) t)
              (derived-unmoved o u order_ids s t rows fills db g)
          ∙ ap (λ l. (store_drafts o u (map draft_of l) >> pure d) t)
              (unstored-again u key.1 old recs d.events kept),
    )
