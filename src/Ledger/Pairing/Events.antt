-- ===== src/Ledger/Pairing/Events.antt =====
-- The event of one group: its time, and what it does not depend on.
use mathlib.Core.List.{Permᴰ}
use mathlib.Core.List.Permᴰ
use morai_trading_dashboard.Prelude.{map-perm, ℕ, ◌≡◌, refl, ◌≢◌, ◌≤◌, arith, List, [], ◌∷◌, All}
use morai_trading_dashboard.Ledger.Records.{FillRecord, fill_key}
use morai_trading_dashboard.Ledger.Pairing.{Platform, GroupKey, first_time, derive_event}
use morai_trading_dashboard.Ledger.Pairing.Hash.{hash_fill_ids-perm}

abbrev StartsBy : ℕ → List FillRecord → Type 0
StartsBy n = All (λ f. n ≤ f.execution_time)

StartsBy-mono : (m n : ℕ) (fills : List FillRecord) → m ≤ n → StartsBy n fills → StartsBy m fills
StartsBy-mono m n [] h all = tt
StartsBy-mono m n (f ∷ fills) h all = (omega arith, StartsBy-mono m n fills h all.1)

-- No fill of a group is earlier than its time.
first_time-le : (fills : List FillRecord) → StartsBy (first_time fills) fills
unfolding first_time
first_time-le [] = tt
first_time-le (f ∷ []) = (omega arith, tt)
first_time-le (f ∷ g ∷ fills) = (
  ground arith,
  StartsBy-mono (first_time (f ∷ g ∷ fills)) (first_time (g ∷ fills)) (g ∷ fills) (ground arith)
      (first_time-le (g ∷ fills)),
)

-- It is the latest such time.
first_time-ge :
    (n : ℕ) (f : FillRecord) (fills : List FillRecord)
    → StartsBy n (f ∷ fills)
    → n ≤ first_time (f ∷ fills)
unfolding first_time
first_time-ge n f [] h = h.0
first_time-ge n f (g ∷ fills) h = ground (arith, first_time-ge n g fills h.1)

All-perm {ℓ κ} : {A : Type ℓ} (P : A → Type κ) {xs ys : List A} → Permᴰ xs ys → All P xs → All P ys
All-perm P Permᴰ.nil h = h
All-perm P (Permᴰ.cons e p) h = (rw e at h.0, All-perm P p h.1)
All-perm P (Permᴰ.swap e g) h = (rw g at h.1.0, (rw e at h.0, h.1.1))
All-perm P (Permᴰ.trans p q) h = All-perm P q (All-perm P p h)

first_time-perm-le :
    (xs ys : List FillRecord) → Permᴰ xs ys → ys ≢ [] → first_time xs ≤ first_time ys
first_time-perm-le xs [] p h = absurd (h refl)
first_time-perm-le xs (y ∷ ys) p h =
    first_time-ge (first_time xs) y ys
      (All-perm (λ f. first_time xs ≤ f.execution_time) p (first_time-le xs))

-- The fills of a group that has some may be read in any order: the event keeps its position, type, time and
-- digest.
pub derive_event-perm :
    (p : Platform) (k : GroupKey) (xs ys : List FillRecord)
    → Permᴰ xs ys
    → xs ≢ []
    → ys ≢ []
    → let a = derive_event p (k, xs) in
      let b = derive_event p (k, ys) in
      (a.position_id ≡ b.position_id)
      × (a.event_type ≡ b.event_type)
      × (a.event_time ≡ b.event_time)
      × (a.fill_ids_hash ≡ b.fill_ids_hash)
unfolding derive_event
derive_event-perm p k xs ys h nx ny = (
  refl,
  refl,
  omega (arith, first_time-perm-le xs ys h ny, first_time-perm-le ys xs (Permᴰ.symm h) nx),
  hash_fill_ids-perm p (map-perm fill_key h),
)
