-- ===== src/Prelude/Maps.antt =====
-- A Python dict in insertion order, over keys with `==`.
use mathlib.Core.Path.{◌≡◌, refl, ap}
use mathlib.Core.Bool.{Bool, true, false}
use mathlib.Core.Option.{Option, none, some}
use mathlib.Core.List.{List, [], ◌∷◌, ◌++◌, append-nil}
use native.Mathlib.Omega.{arith}
use morai_trading_dashboard.Prelude.Lists.{keep}
use morai_trading_dashboard.Prelude.Tests.{if◌then◌else◌, Eq, ◌==◌}

abbrev pub Dict {ℓ κ} : Type ℓ → Type κ → Type (ℓ ⊔ κ)
Dict K V = List (K × V)

module _ {ℓ κ} {K : Type ℓ} {V : Type κ} ⦃e : Eq K⦄ where
  -- `d.get(k)`
  abbrev pub lookup : K → Dict K V → Option V
  lookup k [] = none
  lookup k ((j, v) ∷ d) = if k == j then some v else lookup k d

  -- `d[k] = v`
  abbrev pub insert : K → V → Dict K V → Dict K V
  insert k v [] = (k, v) ∷ []
  insert k v ((j, w) ∷ d) = if k == j then (j, v) ∷ d else (j, w) ∷ insert k v d

  -- `k in d`
  abbrev pub has_key : K → Dict K V → Bool
  has_key k d = elim (lookup k d) [ none ↦ false | some _ ↦ true ]

  pub lookup-insert :
      (k j : K) (v : V) (d : Dict K V)
      → lookup j (insert k v d) ≡ (if j == k then some v else lookup j d)
  lookup-insert k j v [] = refl
  lookup-insert k j v ((i, w) ∷ d) =
      ground
        (arith, e.beq_iff k j, e.beq_iff j k, e.beq_iff k i, e.beq_iff j i, lookup-insert k j v d)

module _ {ℓ κ} {K : Type ℓ} {V : Type κ} ⦃e : Eq K⦄ where
  -- `d.setdefault(k, []).append(v)`
  abbrev pub push : K → V → Dict K (List V) → Dict K (List V)
  push k v [] = (k, v ∷ []) ∷ []
  push k v ((j, vs) ∷ d) = if k == j then (j, vs ++ v ∷ []) ∷ d else (j, vs) ∷ push k v d

  abbrev pub lookup_list : K → Dict K (List V) → List V
  lookup_list k d = elim (lookup k d) [ none ↦ [] | some vs ↦ vs ]

  pub lookup-push :
      (k j : K) (v : V) (d : Dict K (List V))
      → lookup j (push k v d) ≡ (if j == k then some (lookup_list k d ++ v ∷ []) else lookup j d)
  lookup-push k j v [] = refl
  lookup-push k j v ((i, w) ∷ d) =
      ground
        (arith, e.beq_iff k j, e.beq_iff j k, e.beq_iff k i, e.beq_iff j i, lookup-push k j v d)

  pub lookup_list-push :
      (k j : K) (v : V) (d : Dict K (List V))
      → lookup_list j (push k v d) ≡ lookup_list j d ++ (if j == k then v ∷ [] else [])
  lookup_list-push k j v d =
      ground (arith, lookup-push k j v d, e.beq_iff j k, append-nil (lookup_list j d))

module _ {ℓ κ} {K : Type ℓ} {V : Type κ} ⦃e : Eq K⦄ (q : K → Bool) where
  abbrev pub keep_keys : Dict K (List V) → Dict K (List V)
  keep_keys = keep (λ entry. q entry.0)

  pub keep_keys-push :
      (k : K) (v : V) (d : Dict K (List V))
      → keep_keys (push k v d) ≡ (if q k then push k v (keep_keys d) else keep_keys d)
  keep_keys-push k v [] = refl
  keep_keys-push k v ((j, vs) ∷ d) =
      ground (arith, e.beq_iff k j, keep_keys-push k v d, λ (h : k ≡ j). ap q h)
