-- ===== src/Ingest/Runs/Recent.antt =====
-- The most recent sync runs (src/morai/ingest/sync_runs.py).
use mathlib.Core.Path.{subst}
use morai_trading_dashboard.Ingest.Runs.{
  read_error_code, own_runs, read_status, read_sync_runs, read_runs, read_trigger, later_first,
  SyncRunRecord, read_run,
}
use morai_trading_dashboard.Prelude.{
  ok-inj, All-take, bind, All-imp, map_ok, All, take, ltb, sorted, insert_sorted, ℕ, zero, suc, ◌+◌,
  ◌≤◌, Bool, false, ◌&&◌, ◌||◌, List, [], ◌∷◌, ◌≡◌, refl, sym, ap, ◌∙◌, inl, inr, arith, ◌==◌,
  nat_eq, text_eq, Result, ok, err, Instant, Duration, Uuid, any, length, Bool-cases,
}
use morai_trading_dashboard.Db.{SyncRun}
use morai_trading_dashboard.Db.Session.{Session, permits}

-- What a test that holds of a later run if it holds of an earlier one says of the first of some runs.
abbrev pub first_test : (SyncRun → Bool) → List SyncRun → Bool
first_test p [] = false
first_test p (r ∷ rows) = p r

-- A run that started less than some time ago.
abbrev pub recently : Instant → Duration → SyncRun → Bool
recently now within r = ltb now (r.started_at + within)

insert-first :
    (now : Instant) (within : Duration) (r : SyncRun) (rows : List SyncRun)
    → first_test (recently now within) (insert_sorted later_first r rows)
      ≡ (recently now within r || first_test (recently now within) rows)
insert-first now within r [] = ground arith
insert-first now within r (h ∷ rows) = ground arith

-- The first run of the sorted ones stands for all of them.
pub any-sorted :
    (now : Instant) (within : Duration) (rows : List SyncRun)
    → any (recently now within) rows ≡ first_test (recently now within) (sorted later_first rows)
any-sorted now within [] = refl
any-sorted now within (r ∷ rows) =
    ap (λ b. recently now within r || b) (any-sorted now within rows)
    ∙ sym (insert-first now within r (sorted later_first rows))

map_ok-inv {ℓ κ} :
    {A : Type ℓ} {B : Type κ} (f : A → B) (r : Result A) (b : B)
    → map_ok f r ≡ ok b
    → (a : A) × (r ≡ ok a) × (f a ≡ b)
map_ok-inv f (err e) b h = cc
map_ok-inv f (ok a) b h = (a, refl, ok-inj h)

bind-inv {ℓ κ} :
    {A : Type ℓ} {B : Type κ} (r : Result A) (f : A → Result B) (b : B)
    → bind r f ≡ ok b
    → (a : A) × (r ≡ ok a) × (f a ≡ ok b)
bind-inv (err e) f b h = cc
bind-inv (ok a) f b h = (a, refl, h)

-- A record has the user and the start of its row.
pub read_run-keeps :
    (row : SyncRun) (r : SyncRunRecord)
    → read_run row ≡ ok r
    → (r.user_id ≡ row.user_id) × (r.started_at ≡ row.started_at)
unfolding read_run
read_run-keeps row r h =
    let (tr, e₁, h₁) = bind-inv (read_trigger row.trigger) _ r h in
    let (st, e₂, h₂) = bind-inv (read_status row.status) _ r h₁ in
    let (ec, e₃, h₃) = map_ok-inv _ (read_error_code row.error_code) r h₂ in
    (
      sym (ap (λ (r : SyncRunRecord). r.user_id) h₃),
      sym (ap (λ (r : SyncRunRecord). r.started_at) h₃),
    )

pub read_runs-inv :
    (row : SyncRun) (rows : List SyncRun) (recs : List SyncRunRecord)
    → read_runs (row ∷ rows) ≡ ok recs
    → (r : SyncRunRecord) × (rest : List SyncRunRecord) × (read_run row ≡ ok r)
      × (read_runs rows ≡ ok rest)
      × (r ∷ rest ≡ recs)
unfolding read_runs
read_runs-inv row rows recs h =
    let (r, e, h₁) = bind-inv (read_run row) _ recs h in
    let (rest, e', h₂) = map_ok-inv (λ rest. r ∷ rest) (read_runs rows) recs h₁ in
    (r, rest, e, e', h₂)

-- Each run started no later than those before it.
unfoldable pub Descends : List SyncRunRecord → Type 0
Descends [] = Unit
Descends (r ∷ rest) = All (λ q. q.started_at ≤ r.started_at) rest × Descends rest

unfoldable RowsDescend : List SyncRun → Type 0
RowsDescend [] = Unit
RowsDescend (r ∷ rest) = All (λ q. q.started_at ≤ r.started_at) rest × RowsDescend rest

All-insert :
    (P : SyncRun → Type 0) (r : SyncRun) (rows : List SyncRun)
    → P r
    → All P rows
    → All P (insert_sorted later_first r rows)
All-insert P r [] p h = (p, tt)
All-insert P r (x ∷ rows) p (q, h) = elim (Bool-cases (later_first r x)) [
  | inl y ↦ rw y (p, (q, h))
  | inr n ↦ rw n (q, All-insert P r rows p h)
]

All-sorted :
    (P : SyncRun → Type 0) (rows : List SyncRun) → All P rows → All P (sorted later_first rows)
All-sorted P [] h = tt
All-sorted P (r ∷ rows) (p, h) = All-insert P r (sorted later_first rows) p (All-sorted P rows h)

insert-descends :
    (r : SyncRun) (rows : List SyncRun)
    → RowsDescend rows
    → RowsDescend (insert_sorted later_first r rows)
unfolding RowsDescend
insert-descends r [] h = (tt, tt)
insert-descends r (x ∷ rows) (below, h) = elim (Bool-cases (later_first r x)) [
  | inl y ↦
      let le : x.started_at ≤ r.started_at = ground (arith, y) in
      rw y (
        (
          le,
          All-imp (λ q. q.started_at ≤ x.started_at) (λ q. q.started_at ≤ r.started_at) rows
              (λ q k. omega (arith, le, k)) below,
        ),
        (below, h),
      )
  | inr n ↦ rw n (
    All-insert (λ q. q.started_at ≤ x.started_at) r rows (ground (arith, n)) below,
    insert-descends r rows h,
  )
]

sorted-descends : (rows : List SyncRun) → RowsDescend (sorted later_first rows)
unfolding RowsDescend
sorted-descends [] = tt
sorted-descends (r ∷ rows) = insert-descends r (sorted later_first rows) (sorted-descends rows)

take-descends : (n : ℕ) (rows : List SyncRun) → RowsDescend rows → RowsDescend (take n rows)
unfolding RowsDescend
take-descends zero rows h = tt
take-descends (suc n) [] h = tt
take-descends (suc n) (r ∷ rows) (below, h) =
    (All-take (λ q. q.started_at ≤ r.started_at) n rows below, take-descends n rows h)

-- What holds of the rows, by user and start, holds of their records.
read_runs-All :
    (P : Uuid → Instant → Type 0) (rows : List SyncRun) (recs : List SyncRunRecord)
    → read_runs rows ≡ ok recs
    → All (λ r. P r.user_id r.started_at) rows
    → All (λ r. P r.user_id r.started_at) recs
unfolding read_runs
read_runs-All P [] recs e h = subst (All (λ r. P r.user_id r.started_at)) (ok-inj e) tt
read_runs-All P (row ∷ rows) recs e (p, h) =
    let (r, rest, e₁, e₂, same) = read_runs-inv row rows recs e in
    let (who, at) = read_run-keeps row r e₁ in
    subst (All (λ r. P r.user_id r.started_at)) same (
      subst (λ (k : Uuid × Instant). P k.0 k.1)
          (sym (ap (λ u. (u, r.started_at)) who ∙ ap (λ t. (row.user_id, t)) at)) p,
      read_runs-All P rows rest e₂ h,
    )

read_runs-descend :
    (rows : List SyncRun) (recs : List SyncRunRecord)
    → read_runs rows ≡ ok recs
    → RowsDescend rows
    → Descends recs
unfolding read_runs RowsDescend Descends
read_runs-descend [] recs e h = subst Descends (ok-inj e) tt
read_runs-descend (row ∷ rows) recs e (below, h) =
    let (r, rest, e₁, e₂, same) = read_runs-inv row rows recs e in
    let (who, at) = read_run-keeps row r e₁ in
    subst Descends same (
      read_runs-All (λ u t. t ≤ r.started_at) rows rest e₂
          (subst (λ b. All (λ q. q.started_at ≤ b) rows) (sym at) below),
      read_runs-descend rows rest e₂ h,
    )

read_runs-length :
    (rows : List SyncRun) (recs : List SyncRunRecord)
    → read_runs rows ≡ ok recs
    → length recs ≡ length rows
unfolding read_runs
read_runs-length [] recs e = ap length (sym (ok-inj e))
read_runs-length (row ∷ rows) recs e =
    let (r, rest, e₁, e₂, same) = read_runs-inv row rows recs e in
    sym (ap length same) ∙ ap suc (read_runs-length rows rest e₂)

own_runs-own :
    (s : Session) (u : Uuid) (rows : List SyncRun) → All (λ r. r.user_id ≡ u) (own_runs s u rows)
own_runs-own s u [] = tt
own_runs-own s u (r ∷ rows) = elim (Bool-cases (permits s r.user_id && r.user_id == u)) [
  | inl y ↦ rw y (ground (arith, y), own_runs-own s u rows)
  | inr n ↦ rw n (own_runs-own s u rows)
]

length-take_le : (n : ℕ) (rows : List SyncRun) → length (take n rows) ≤ n
length-take_le zero rows = omega arith
length-take_le (suc n) [] = omega arith
length-take_le (suc n) (r ∷ rows) = omega (arith, length-take_le n rows)

-- A read of the runs of a user gives at most as many as its limit, all of the user, and each started no later than those
-- before it.
pub read_sync_runs-bounded :
    (u : Uuid) (limit : ℕ) (s t : Session) (recs : List SyncRunRecord)
    → read_sync_runs u limit s ≡ (ok recs, t)
    → (length recs ≤ limit) × All (λ r. r.user_id ≡ u) recs × Descends recs
unfolding read_sync_runs
read_sync_runs-bounded u limit s t recs h =
    let rows = sorted later_first (own_runs s u s.db.sync_runs) in
    let e : read_runs (take limit rows) ≡ ok recs =
      ap (λ (p : Result (List SyncRunRecord) × Session). p.0) h in
    (
      omega (arith, read_runs-length (take limit rows) recs e, length-take_le limit rows),
      read_runs-All (λ who at. who ≡ u) (take limit rows) recs e
          (All-take (λ r. r.user_id ≡ u) limit rows
            (All-sorted (λ r. r.user_id ≡ u) (own_runs s u s.db.sync_runs)
              (own_runs-own s u s.db.sync_runs))),
      read_runs-descend (take limit rows) recs e
          (take-descends limit rows (sorted-descends (own_runs s u s.db.sync_runs))),
    )
