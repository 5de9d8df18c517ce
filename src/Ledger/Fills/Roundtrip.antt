-- ===== src/Ledger/Fills/Roundtrip.antt =====
-- The round trip of `insert_fills` and `read_fills` (src/morai/ledger/fills.py).
use morai_trading_dashboard.Ledger.Fills.Growth.{insert_chunks-grow}
use morai_trading_dashboard.Prelude.Pairs.{Pairs}
use morai_trading_dashboard.Ledger.Keys.{current_dek}
use morai_trading_dashboard.Ledger.Columns.{decrypt_decimal-encrypted_as}
use morai_trading_dashboard.Ledger.Reading.{
  read_each-cons, read_rows-fresh, read_each-both, fetch_dek, read_each,
}
use morai_trading_dashboard.Ledger.Fills.Reads.{
  landed_writes-All, holds_key, record_of, Readable, landed_writes,
}
use morai_trading_dashboard.Ledger.Records.{FillRecord, FillWrite}
use morai_trading_dashboard.Ledger.Fills.Sealing.{Sealed}
use morai_trading_dashboard.Ledger.Fills.{
  read_fills, insert_fills, write_key, fill_associated_data, insert_chunks, open_fill,
}
use morai_trading_dashboard.Prelude.{
  keep-append, All, append-nil, ℕ, true, ◌&&◌, List, [], ◌∷◌, ◌++◌, map, ◌≡◌, refl, sym, ap, ◌∙◌,
  arith, ◌==◌, nat_eq, text_eq, Result, ok, Uuid, keep, length, beq_refl,
}
use morai_trading_dashboard.Outside.{Decrypts, Outside}
use morai_trading_dashboard.Db.{Fill, Database, Bytes}
use morai_trading_dashboard.Db.Session.{Session, bind-ok, permits, Setting}

-- Sealed rows are read back as the writes.
Sealed-read :
    (o : Outside) (dek : Bytes) (v : ℕ) (u : Uuid) (f : FillWrite) (r : Fill)
    → Decrypts o
    → Readable o f
    → Sealed o dek v u f r
    → open_fill o u dek r ≡ ok (record_of u v f)
unfolding open_fill
Sealed-read o dek v u f r law (reads_q, reads_p) (s, t, e) =
    let q_data = fill_associated_data o "quantity" u (write_key f) in
    let p_data = fill_associated_data o "price_usd" u (write_key f) in
    ap (open_fill o u dek) e
    ∙ rw
        (
          decrypt_decimal-encrypted_as o law dek q_data f.quantity s reads_q,
          decrypt_decimal-encrypted_as o law dek p_data f.price_usd t reads_p,
        )
        refl

Sealed-version :
    (o : Outside) (dek : Bytes) (v : ℕ) (u : Uuid) (f : FillWrite) (r : Fill)
    → Sealed o dek v u f r
    → r.key_version ≡ v
Sealed-version o dek v u f r (s, t, e) = ap (λ (r : Fill). r.key_version) e

Sealed-read_each :
    (o : Outside) (dek : Bytes) (v : ℕ) (u : Uuid) (fetch : ℕ → Result Bytes) (fs : List FillWrite)
    (rows : List Fill)
    → Decrypts o
    → fetch v ≡ ok dek
    → All (Readable o) fs
    → Pairs (Sealed o dek v u) fs rows
    → read_each fetch (λ (r : Fill). r.key_version) (open_fill o u) rows
      ≡ ok (map (record_of u v) fs)
unfolding Pairs read_each
Sealed-read_each o dek v u fetch [] [] law k all c = refl
Sealed-read_each o dek v u fetch [] (r ∷ rows) law k all c = absurd c
Sealed-read_each o dek v u fetch (f ∷ fs) [] law k all c = absurd c
Sealed-read_each o dek v u fetch (f ∷ fs) (r ∷ rows) law k (a, all) (p, c) =
    read_each-cons fetch (λ (r : Fill). r.key_version) (open_fill o u) r rows dek (record_of u v f)
      (map (record_of u v) fs) (ap fetch (Sealed-version o dek v u f r p) ∙ k)
      (Sealed-read o dek v u f r law a p) (Sealed-read_each o dek v u fetch fs rows law k all c)

-- The rows of the user are all of those that were sealed for the user.
Sealed-keep :
    (o : Outside) (dek : Bytes) (v : ℕ) (u : Uuid) (fs : List FillWrite) (rows : List Fill)
    (s : Session)
    → permits s u ≡ true
    → Pairs (Sealed o dek v u) fs rows
    → keep (λ r. permits s r.user_id && r.user_id == u) rows ≡ rows
unfolding Pairs
Sealed-keep o dek v u [] [] s allowed c = refl
Sealed-keep o dek v u [] (r ∷ rows) s allowed c = absurd c
Sealed-keep o dek v u (f ∷ fs) [] s allowed c = absurd c
Sealed-keep o dek v u (f ∷ fs) (r ∷ rows) s allowed ((s₁, s₂, e), c) =
    let own : (permits s r.user_id && r.user_id == u) ≡ true =
      ap (λ x. permits s x && x == u) (ap (λ (r : Fill). r.user_id) e)
      ∙ ground (arith, allowed, beq_refl u) in
    rw own (ap (λ l. r ∷ l) (Sealed-keep o dek v u fs rows s allowed c))

-- What a read gives where the tables are `db` and the setting is `g`.
abbrev read_at : Outside → Uuid → Session → Database → Setting → Result (List FillRecord)
read_at o u s db g = (read_fills o u (record s { db = db; setting = g })).0

read_fills-at :
    (o : Outside) (u : Uuid) (s t : Session) → read_fills o u t ≡ (read_at o u s t.db t.setting, t)
unfolding read_fills fetch_dek
read_fills-at o u s t = refl

abbrev rows_of : Uuid → Session → List Fill → List Fill
rows_of u s rows = keep (λ r. permits s r.user_id && r.user_id == u) rows

read_at-each :
    (o : Outside) (u : Uuid) (s : Session) (rows : List Fill)
    → read_at o u s (record s.db { fills = rows }) s.setting
      ≡ read_each (fetch_dek o s u) (λ (r : Fill). r.key_version) (open_fill o u) (rows_of u s rows)
unfolding read_fills fetch_dek
read_at-each o u s rows =
    read_rows-fresh (fetch_dek o s u) (λ (r : Fill). r.key_version) (open_fill o u)
      (rows_of u s rows)

grown-read :
    (o : Outside) (u : Uuid) (fs : List FillWrite) (s : Session) (key : Bytes × ℕ)
    (old : List FillRecord) (rows : List Fill)
    → Decrypts o
    → fetch_dek o s u key.1 ≡ ok key.0
    → permits s u ≡ true
    → All (Readable o) fs
    → read_fills o u s ≡ (ok old, s)
    → Pairs (Sealed o key.0 key.1 u) (landed_writes (holds_key u s.db.fills) fs) rows
    → read_at o u s (record s.db { fills = s.db.fills ++ rows }) s.setting
      ≡ ok (old ++ map (record_of u key.1) (landed_writes (holds_key u s.db.fills) fs))
grown-read o u fs s key old rows law k allowed all r c =
    let new = landed_writes (holds_key u s.db.fills) fs in
    let version = λ (r : Fill). r.key_version in
    let fetch = fetch_dek o s u in
    let before : read_each fetch version (open_fill o u) (rows_of u s s.db.fills) ≡ ok old =
      sym (read_at-each o u s s.db.fills)
      ∙ ap (λ (p : Result (List FillRecord) × Session). p.0) (sym (read_fills-at o u s s) ∙ r) in
    read_at-each o u s (s.db.fills ++ rows)
    ∙ ap (λ l. read_each fetch version (open_fill o u) l)
        (keep-append (λ r. permits s r.user_id && r.user_id == u) s.db.fills rows
          ∙ ap (λ l. rows_of u s s.db.fills ++ l)
              (Sealed-keep o key.0 key.1 u new rows s allowed c))
    ∙ read_each-both fetch version (open_fill o u) (rows_of u s s.db.fills) rows old
        (map (record_of u key.1) new) before
        (Sealed-read_each o key.0 key.1 u fetch new rows law k
          (landed_writes-All (Readable o) (holds_key u s.db.fills) fs all) c)

-- The fills that are read are those of the user that the policies show, each opened by itself under the data key of its own
-- version, and the first failure among them is the result; the dict of keys that were unwrapped does not show.
pub read_fills-each :
    (o : Outside) (u : Uuid) (s : Session)
    → read_fills o u s ≡ (
      read_each
          (fetch_dek o s u)
          (λ (r : Fill). r.key_version)
          (open_fill o u)
          (keep (λ r. permits s r.user_id && r.user_id == u) s.db.fills),
      s,
    )
read_fills-each o u s = read_fills-at o u s s ∙ ap (λ x. (x, s)) (read_at-each o u s s.db.fills)

-- Where decryption undoes encryption, the newest data key of the user is also found by its version, the policy
-- permits the user, and the decimals of the fills are read back from their texts, a read after an insertion of fills gives
-- what a read before it gave, and then exactly the fills that were new, each with its values, in the order in which they were inserted.
pub insert_fills-read :
    (o : Outside) (u : Uuid) (fs : List FillWrite) (s : Session) (key : Bytes × ℕ)
    (old : List FillRecord)
    → Decrypts o
    → current_dek o u s ≡ (ok key, s)
    → fetch_dek o s u key.1 ≡ ok key.0
    → permits s u ≡ true
    → All (Readable o) fs
    → read_fills o u s ≡ (ok old, s)
    → (n : ℕ) × (t : Session) × (insert_fills o u fs s ≡ (ok n, t))
      × (read_fills o u t
          ≡ (ok (old ++ map (record_of u key.1) (landed_writes (holds_key u s.db.fills) fs)), t))
unfolding insert_fills landed_writes
insert_fills-read o u [] s key old law e k allowed all r =
    (0, s, refl, r ∙ ap (λ l. (ok l, s)) (sym (append-nil old)))
insert_fills-read o u (f ∷ fs) s key old law e k allowed all r =
    let (n, rows, t, run, d, g, c) =
      insert_chunks-grow (length (f ∷ fs)) o key.0 key.1 u (f ∷ fs) s (omega arith) allowed in
    (
      n,
      t,
      bind-ok (current_dek o u) (λ k. insert_chunks (length (f ∷ fs)) o k.0 k.1 u (f ∷ fs)) s s key
            e
          ∙ run,
      read_fills-at o u s t
          ∙ ap (λ x. (x, t))
              (ap (λ db. read_at o u s db t.setting) d
                ∙ ap (read_at o u s (record s.db { fills = s.db.fills ++ rows })) g
                ∙ grown-read o u (f ∷ fs) s key old rows law k allowed all r c),
    )
