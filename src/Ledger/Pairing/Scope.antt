-- ===== src/Ledger/Pairing/Scope.antt =====
-- Narrowing the fills to some orders, as `sync_events` does with `order_ids`, against a sweep over
-- all fills.
use morai_trading_dashboard.Prelude.{
  String, Bool, Option, none, some, List, [], ◌∷◌, map, ◌≡◌, refl, sym, ◌∙◌, ap, arith,
  if◌then◌else◌, keep, Dict, push, keep_keys, keep_keys-push, Bool-cases, inl, inr, sorted,
}
use morai_trading_dashboard.Ledger.Records.{FillRecord}
use morai_trading_dashboard.Ledger.Pairing.{
  Platform, GroupKey, group_key_eq, Resolutions, Sorting, sort_fill, sort_fills, no_fills,
  event_leb, derive_event, derive_events,
}
use morai_trading_dashboard.Ledger.Pairing.Groups.{group_of, add_to_group, sort_fill-groups}

order-group_of :
    (r : Resolutions) (f : FillRecord) (k : GroupKey)
    → group_of r f ≡ some k
    → k.order_id ≡ f.order_id
order-group_of r f k h = ground arith

module _ (wanted : String → Bool) where
  abbrev pub wants_group : GroupKey → Bool
  wants_group k = wanted k.order_id

  abbrev pub wants_fill : FillRecord → Bool
  wants_fill f = wanted f.order_id

  keep-add_to_group :
      (r : Resolutions) (f : FillRecord) (g : Dict GroupKey (List FillRecord)) (o : Option GroupKey)
      → group_of r f ≡ o
      → keep_keys wants_group (add_to_group o f g) ≡ (
          if wanted f.order_id
          then add_to_group o f (keep_keys wants_group g)
          else keep_keys wants_group g)
  keep-add_to_group r f g none e = ground arith
  keep-add_to_group r f g (some k) e =
      keep_keys-push wants_group k f g
      ∙ ap (λ n. if wanted n then push k f (keep_keys wants_group g) else keep_keys wants_group g)
          (order-group_of r f k e)

  keep-sort_fill :
      (r : Resolutions) (f : FillRecord) (s : Sorting)
      → keep_keys wants_group (sort_fill r f s).groups ≡ (
          if wanted f.order_id
          then add_to_group (group_of r f) f (keep_keys wants_group s.groups)
          else keep_keys wants_group s.groups)
  keep-sort_fill r f s =
      ap (keep_keys wants_group) (sort_fill-groups r f s)
      ∙ keep-add_to_group r f s.groups (group_of r f) refl

  -- The groups of the fills of the wanted orders are the groups of those orders among the groups
  -- of all fills, from any start.
  keep-sort_fills :
      (r : Resolutions) (fills : List FillRecord) (s t : Sorting)
      → t.groups ≡ keep_keys wants_group s.groups
      → (sort_fills r (keep wants_fill fills) t).groups
        ≡ keep_keys wants_group (sort_fills r fills s).groups
  unfolding sort_fills
  keep-sort_fills r [] s t h = h
  keep-sort_fills r (f ∷ fills) s t h = elim (Bool-cases (wanted f.order_id)) [
    | inl w ↦ rw w (
        keep-sort_fills r fills (sort_fill r f s) (sort_fill r f t) (
          sort_fill-groups r f t
          ∙ ap (add_to_group (group_of r f) f) h
          ∙ sym (keep-sort_fill r f s ∙ rw w)))
    | inr w ↦
        rw w (keep-sort_fills r fills (sort_fill r f s) t (h ∙ sym (keep-sort_fill r f s ∙ rw w)))
  ]

  -- Deriving from the fills of the wanted orders alone gives exactly the events of the groups of
  -- those orders in a sweep over all fills: a scoped derivation never adds, drops or alters an
  -- event of its orders.
  pub derive_events-scoped :
      (p : Platform) (fills : List FillRecord) (r : Resolutions)
      → (derive_events p (keep wants_fill fills) r).events
        ≡ sorted event_leb
            (map (derive_event p) (keep_keys wants_group (sort_fills r fills no_fills).groups))
  unfolding derive_events
  derive_events-scoped p fills r =
      ap (λ g. sorted event_leb (map (derive_event p) g))
        (keep-sort_fills r fills no_fills no_fills refl)
