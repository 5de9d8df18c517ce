-- ===== src/Ingest/Windows.antt =====
-- `sync_windows` (src/morai/ingest/schwab_sync.py): the time spans that one sync asks the broker for.
-- Each pass of the loop moves the cursor by at least a microsecond when the range is positive, so `now`
-- passes are enough; without fuel the result is `none`.
use morai_trading_dashboard.Prelude.{
  ℕ, zero, suc, ◌+◌, ◌-◌, ◌≤◌, ◌<◌, Bool, Option, none, some, List, [], ◌∷◌, ◌≡◌, refl, sym, ap,
  ◌∙◌, arith, if◌then◌else◌, leb, ◌&&◌, keep, ltb, Instant, days, length, Result, ok, err, ◌>>=◌,
  overflow_error, inl, inr, Bool-cases,
}

-- The settings that bound a sync (`Settings` of src/morai/settings.py).
pub record SyncSettings : Type 0 where
  pub schwab_tx_lookback_max_days : ℕ
  pub schwab_tx_max_range_days : ℕ
  pub schwab_tx_sync_overlap_days : ℕ

abbrev pub default_settings : SyncSettings
default_settings = record {
  schwab_tx_lookback_max_days = 365;
  schwab_tx_max_range_days = 60;
  schwab_tx_sync_overlap_days = 1;
}

-- `t - timedelta(days=n)`: an OverflowError before the first year.
abbrev days_before : Instant → ℕ → Result Instant
days_before t n = if ltb t (days n) then err overflow_error else ok (t - days n)

abbrev pub window_start : Option Instant → Instant → SyncSettings → Result Instant
window_start (some last_synced_at) now settings =
    days_before last_synced_at settings.schwab_tx_sync_overlap_days
window_start none now settings = days_before now settings.schwab_tx_lookback_max_days

abbrev with_window :
    Instant × Instant → Option (List (Instant × Instant)) → Option (List (Instant × Instant))
with_window w none = none
with_window w (some ws) = some (w ∷ ws)

-- The loop, from a cursor.
pub windows_from : ℕ → Instant → Instant → ℕ → Option (List (Instant × Instant))
windows_from zero cursor now max_range = if ltb cursor now then none else some []
windows_from (suc fuel) cursor now max_range =
    let window_end = if ltb now (cursor + max_range) then now else cursor + max_range in
    let rest = windows_from fuel window_end now max_range in
    if ltb cursor now then with_window (cursor, window_end) rest else some []

unfoldable pub sync_windows :
    Option Instant → Instant → SyncSettings → Result (Option (List (Instant × Instant)))
unfolding windows_from
sync_windows last_synced_at now settings = do
  start ← window_start last_synced_at now settings
  ok (windows_from now start now (days settings.schwab_tx_max_range_days))

-- The windows follow each other without a gap from `start` to `now`, and none is empty or wider than allowed.
pub Tiles : Instant → Instant → ℕ → List (Instant × Instant) → Type 0
Tiles start now max_range [] = now ≤ start
Tiles start now max_range ((a, b) ∷ ws) =
    (a ≡ start) × (a < b) × (b ≤ a + max_range) × (b ≤ now) × Tiles b now max_range ws

windows_from-Tiles :
    (fuel : ℕ) (cursor now max_range : ℕ)
    → now ≤ cursor + fuel
    → 0 < max_range
    → (ws : List (Instant × Instant)) × (windows_from fuel cursor now max_range ≡ some ws)
      × Tiles cursor now max_range ws
unfolding windows_from Tiles
windows_from-Tiles zero cursor now max_range h r = ([], ground arith, omega arith)
windows_from-Tiles (suc fuel) cursor now max_range h r = elim (Bool-cases (ltb cursor now)) [
  | inl more ↦
      let window_end = if ltb now (cursor + max_range) then now else cursor + max_range in
      let (ws, eq, tiles) = windows_from-Tiles fuel window_end now max_range (ground arith) r in
      (
        (cursor, window_end) ∷ ws,
        ground (arith, eq, more),
        (refl, ground arith, ground arith, ground arith, tiles),
      )
  | inr done ↦ ([], ground (arith, done), ground arith)
]

inside : Instant → Instant × Instant → Bool
inside t w = leb w.0 t && ltb t w.1

Tiles-start_le :
    (start now r : ℕ) (ws : List (Instant × Instant)) (t : ℕ)
    → Tiles start now r ws
    → t < start
    → keep (inside t) ws ≡ []
unfolding Tiles inside
Tiles-start_le start now r [] t h lt = refl
Tiles-start_le start now r ((a, b) ∷ ws) t (e, lo, wide, hi, tiles) lt =
    ground (arith, Tiles-start_le b now r ws t tiles)

Tiles-cover :
    (start now r : ℕ) (ws : List (Instant × Instant)) (t : ℕ)
    → Tiles start now r ws
    → start ≤ t
    → t < now
    → length (keep (inside t) ws) ≡ 1
unfolding Tiles inside
Tiles-cover start now r [] t h lo hi = ground arith
Tiles-cover start now r ((a, b) ∷ ws) t (e, ab, wide, bn, tiles) lo hi =
    elim (Bool-cases (ltb t b)) [
      | inl here ↦ ground (arith, Tiles-start_le b now r ws t tiles, here)
      | inr there ↦ ground (arith, Tiles-cover b now r ws t tiles, there)
    ]

-- With a positive range, and a start that the calendar has, a sync asks for windows that follow each other
-- without a gap from that start to now, none of them empty or wider than the range.
pub sync_windows-tile :
    (last_synced_at : Option Instant) (now : Instant) (settings : SyncSettings) (start : Instant)
    → 0 < settings.schwab_tx_max_range_days
    → window_start last_synced_at now settings ≡ ok start
    → (ws : List (Instant × Instant)) × (sync_windows last_synced_at now settings ≡ ok (some ws))
      × Tiles start now (days settings.schwab_tx_max_range_days) ws
unfolding sync_windows
sync_windows-tile last_synced_at now settings start r e =
    let (ws, eq, tiles) =
      windows_from-Tiles now start now (days settings.schwab_tx_max_range_days) (omega arith)
        (omega (arith, r)) in
    (ws, rw (e, eq) refl, tiles)

-- With a positive range, an instant from the start of a sync up to now lies in exactly one of its windows.
pub sync_windows-cover_once :
    (last_synced_at : Option Instant) (now : Instant) (settings : SyncSettings) (start t : Instant)
    (ws : List (Instant × Instant))
    → 0 < settings.schwab_tx_max_range_days
    → window_start last_synced_at now settings ≡ ok start
    → sync_windows last_synced_at now settings ≡ ok (some ws)
    → start ≤ t
    → t < now
    → length (keep (λ w. leb w.0 t && ltb t w.1) ws) ≡ 1
unfolding inside
sync_windows-cover_once last_synced_at now settings start t ws r e ok_ws lo hi =
    let (vs, eq, tiles) = sync_windows-tile last_synced_at now settings start r e in
    let same : vs ≡ ws = ground (arith, eq, ok_ws) in
    sym (ap (λ v. length (keep (inside t) v)) same)
    ∙ Tiles-cover start now (days settings.schwab_tx_max_range_days) vs t tiles lo hi
