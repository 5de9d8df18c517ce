-- ===== src/Prelude/Time.antt =====
-- Instants and durations. An aware `datetime` is the number of microseconds since `datetime.min`
-- in UTC; a `timedelta` is a number of microseconds. No upper end of the calendar is modelled.
use Prim.Native.Nat.{ℕ, ◌*◌}

abbrev pub Instant : Type 0
Instant = ℕ

abbrev pub Duration : Type 0
Duration = ℕ

abbrev pub seconds : ℕ → Duration
seconds n = n * 1_000_000

abbrev pub minutes : ℕ → Duration
minutes n = n * 60_000_000

abbrev pub hours : ℕ → Duration
hours n = n * 3_600_000_000

abbrev pub days : ℕ → Duration
days n = n * 86_400_000_000

-- A UUID is its 128-bit number: `str(uuid)` has a fixed width, so texts sort as the numbers do.
abbrev pub Uuid : Type 0
Uuid = ℕ
