-- ===== src/Ledger/Fills/Reads.antt =====
-- `read_fills` after `insert_fills` (src/morai/ledger/fills.py).
use morai_trading_dashboard.Prelude.Pairs.{Pairs}
use morai_trading_dashboard.Ledger.Fills.Landing.{same-stores}
use morai_trading_dashboard.Ledger.Records.{fill_key_eq}
use mathlib.Core.Path.{fun_ext, subst}
use morai_trading_dashboard.Ledger.Columns.{ReadsBack}
use morai_trading_dashboard.Ledger.Fills.{same_fill, landed_rows, write_key}
use morai_trading_dashboard.Ledger.Fills.Sealing.{Keyed, Carries}
use morai_trading_dashboard.Ledger.Records.{FillRecord, FillKey, FillWrite}
use morai_trading_dashboard.Prelude.{
  any-append, beq→eq, append-nil, All, ℕ, Bool, true, false, ◌&&◌, ◌||◌, List, [], ◌∷◌, ◌++◌, ◌≡◌,
  refl, sym, ap, ◌∙◌, inl, inr, arith, if◌then◌else◌, ◌==◌, nat_eq, text_eq, Uuid, any, Bool-cases,
  beq_refl,
}
use morai_trading_dashboard.Outside.{Outside}
use morai_trading_dashboard.Db.{Fill}

-- What is read back of a write of one user under one version of the data key.
abbrev pub record_of : Uuid → ℕ → FillWrite → FillRecord
record_of u v f = record {
  user_id = u;
  order_id = f.order_id;
  occ_symbol = f.occ_symbol;
  leg_index = f.leg_index;
  execution_time = f.execution_time;
  position_effect = f.position_effect;
  side = f.side;
  quantity = f.quantity;
  price_usd = f.price_usd;
  key_version = v;
}

-- The writes that are new: those whose key is neither stored nor that of an earlier write.
unfoldable pub landed_writes : (FillKey → Bool) → List FillWrite → List FillWrite
landed_writes seen [] = []
landed_writes seen (f ∷ fs) =
    let skipped = landed_writes seen fs in
    let kept = f ∷ landed_writes (λ k. k == write_key f || seen k) fs in
    if seen (write_key f) then skipped else kept

-- The keys of the rows of one user.
abbrev pub holds_key : Uuid → List Fill → FillKey → Bool
holds_key u table k = any (λ r. u == r.user_id && k == r.key) table

abbrev pub written : List FillWrite → FillKey → Bool
written fs k = any (λ f. k == write_key f) fs

-- The decimals of a write are read back from their texts.
abbrev pub Readable : Outside → FillWrite → Type 0
Readable o f = ReadsBack o f.quantity × ReadsBack o f.price_usd

-- Skipping writes keeps what holds of all of them.
pub landed_writes-All :
    (P : FillWrite → Type 0) (seen : FillKey → Bool) (fs : List FillWrite)
    → All P fs
    → All P (landed_writes seen fs)
unfolding landed_writes
landed_writes-All P seen [] h = tt
landed_writes-All P seen (f ∷ fs) (p, h) = elim (Bool-cases (seen (write_key f))) [
  | inl there ↦ rw there (landed_writes-All P seen fs h)
  | inr new ↦ rw new (p, landed_writes-All P (λ k. k == write_key f || seen k) fs h)
]

written_seen :
    (seen : FillKey → Bool) (f : FillWrite) (fs : List FillWrite) (k : FillKey)
    → seen (write_key f) ≡ true
    → (written fs k || seen k) ≡ (written (f ∷ fs) k || seen k)
written_seen seen f fs k there = elim (Bool-cases (k == write_key f)) [
  | inl same ↦ ground (arith, same, ap seen (beq→eq k (write_key f) same) ∙ there)
  | inr other ↦ ground (arith, other)
]

-- A batch in two parts: the second part sees the keys of the first.
pub landed_writes-append :
    (seen : FillKey → Bool) (xs ys : List FillWrite)
    → landed_writes seen (xs ++ ys)
      ≡ landed_writes seen xs ++ landed_writes (λ k. written xs k || seen k) ys
unfolding landed_writes
landed_writes-append seen [] ys = refl
landed_writes-append seen (f ∷ fs) ys = elim (Bool-cases (seen (write_key f))) [
  | inl there ↦ rw there (
      landed_writes-append seen fs ys
      ∙ ap (λ p. landed_writes seen fs ++ landed_writes p ys)
          (fun_ext (λ k. written_seen seen f fs k there)))
  | inr new ↦ rw new (
      ap (λ l. f ∷ l)
        (landed_writes-append (λ k. k == write_key f || seen k) fs ys
          ∙ ap (λ p. landed_writes (λ k. k == write_key f || seen k) fs ++ landed_writes p ys)
              (fun_ext (λ k. ground arith))))
]

added_key :
    (u : Uuid) (f : FillWrite) (r : Fill) (table : List Fill) (k : FillKey)
    → r.user_id ≡ u
    → r.key ≡ write_key f
    → holds_key u (r ∷ table) k ≡ (k == write_key f || holds_key u table k)
added_key u f r table k i j = rw (i, j) (ground (arith, beq_refl u))

-- The rows that land are those of the writes that are new.
pub landed_rows-writes :
    (P : FillWrite → Fill → Type 0) (u : Uuid) (fs : List FillWrite) (table rows : List Fill)
    → ((f : FillWrite) (r : Fill) → P f r → Keyed u f r)
    → Pairs P fs rows
    → Pairs P (landed_writes (holds_key u table) fs) (landed_rows table rows)
unfolding Pairs landed_rows landed_writes
landed_rows-writes P u [] table [] keyed c = tt
landed_rows-writes P u [] table (r ∷ rows) keyed c = absurd c
landed_rows-writes P u (f ∷ fs) table [] keyed c = absurd c
landed_rows-writes P u (f ∷ fs) table (r ∷ rows) keyed (p, c) =
    let (i, j) = keyed f r p in
    elim (Bool-cases (any (same_fill r) table)) [
      | inl there ↦
          let found : holds_key u table (write_key f) ≡ true =
            sym (same-stores u f r table i j) ∙ there in
          rw (there, found) (landed_rows-writes P u fs table rows keyed c)
      | inr new ↦
          let unseen : holds_key u table (write_key f) ≡ false =
            sym (same-stores u f r table i j) ∙ new in
          rw (new, unseen)
            (
              p,
              subst (λ q. Pairs P (landed_writes q fs) (landed_rows (r ∷ table) rows))
                  (fun_ext (λ k. added_key u f r table k i j))
                  (landed_rows-writes P u fs (r ∷ table) rows keyed c),
            )
    ]

-- The keys after the rows land.
pub holds_key-landed :
    (u : Uuid) (k : FillKey) (fs : List FillWrite) (table rows : List Fill)
    → Carries u fs rows
    → holds_key u (table ++ landed_rows table rows) k ≡ (written fs k || holds_key u table k)
unfolding Pairs landed_rows
holds_key-landed u k [] table [] c = ap (λ l. holds_key u l k) (append-nil table)
holds_key-landed u k [] table (r ∷ rows) c = absurd c
holds_key-landed u k (f ∷ fs) table [] c = absurd c
holds_key-landed u k (f ∷ fs) table (r ∷ rows) ((i, j), c) =
    let owns : FillKey → Fill → Bool = λ k r. u == r.user_id && k == r.key in
    elim (Bool-cases (any (same_fill r) table)) [
      | inl there ↦ rw there (
          holds_key-landed u k fs table rows c
          ∙ written_seen (holds_key u table) f fs k (sym (same-stores u f r table i j) ∙ there))
      | inr new ↦ rw new (
          ground (
            arith,
            any-append (owns k) table (r ∷ landed_rows (r ∷ table) rows),
            any-append (owns k) table (landed_rows (r ∷ table) rows),
            holds_key-landed u k fs (r ∷ table) rows c,
            added_key u f r table k i j,
          ))
    ]
