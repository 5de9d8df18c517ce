-- ===== src/Ledger/Pairing/Groups.antt =====
-- What `derive_events` does with each fill: the two lists of leftovers and the groups, against
-- comprehensions over the input.
use morai_trading_dashboard.Prelude.{
  ℕ, suc, ◌+◌, Bool, false, Option, none, some, List, [], ◌∷◌, ◌++◌, map, ◌≡◌, refl, sym, ◌∙◌, ap,
  ◌&&◌, not, arith, if◌then◌else◌, ◌==◌, nat_eq, text_eq, is_some, keep, keep-append, append_assoc,
  append-nil, length, length-append, Dict, lookup_list, push, lookup_list-push, append-map-keep,
}
use morai_trading_dashboard.Ledger.Records.{fill_key, FillRecord}
use morai_trading_dashboard.Ledger.Pairing.{
  Platform, opening, closing, unknown, role_eq, classify_fill, GroupKey, group_key_eq, Resolutions,
  position_of, Sorting, sort_fill, sort_fills, no_fills, derive_events,
}

-- The group a fill belongs to, if it has a position and a role.
abbrev pub group_of : Resolutions → FillRecord → Option GroupKey
group_of r f = elim (position_of r f) [
  | none ↦ none
  | some p ↦ elim (classify_fill f.position_effect) [
    | unknown ↦ none
    | opening ↦ some (record { position_id = p; role = opening; order_id = f.order_id })
    | closing ↦ some (record { position_id = p; role = closing; order_id = f.order_id })
  ]
]

abbrev pub is_unresolved : Resolutions → FillRecord → Bool
is_unresolved r f = not (is_some (position_of r f))

abbrev pub is_unclassified : Resolutions → FillRecord → Bool
is_unclassified r f = is_some (position_of r f) && classify_fill f.position_effect == unknown

-- One turn of the loop, for each of the three collections.
sort_fill-unresolved :
    (r : Resolutions) (f : FillRecord) (s : Sorting)
    → (sort_fill r f s).unresolved ≡ s.unresolved ++ map fill_key (keep (is_unresolved r) (f ∷ []))
unfolding sort_fill
sort_fill-unresolved r f s = ground (arith, append-nil s.unresolved)

sort_fill-unclassified :
    (r : Resolutions) (f : FillRecord) (s : Sorting)
    → (sort_fill r f s).unclassified
      ≡ s.unclassified ++ map fill_key (keep (is_unclassified r) (f ∷ []))
unfolding sort_fill
sort_fill-unclassified r f s = ground (arith, append-nil s.unclassified)

abbrev pub add_to_group :
    Option GroupKey → FillRecord → Dict GroupKey (List FillRecord) → Dict GroupKey (List FillRecord)
add_to_group none f g = g
add_to_group (some k) f g = push k f g

pub sort_fill-groups :
    (r : Resolutions) (f : FillRecord) (s : Sorting)
    → (sort_fill r f s).groups ≡ add_to_group (group_of r f) f s.groups
unfolding sort_fill
sort_fill-groups r f s = ground arith

abbrev is_key : GroupKey → Option GroupKey → Bool
is_key k none = false
is_key k (some j) = k == j

abbrev pub belongs : Resolutions → GroupKey → FillRecord → Bool
belongs r k f = is_key k (group_of r f)

lookup-add_to_group :
    (k : GroupKey) (o : Option GroupKey) (f : FillRecord) (g : Dict GroupKey (List FillRecord))
    → lookup_list k (add_to_group o f g) ≡ lookup_list k g ++ (if is_key k o then f ∷ [] else [])
lookup-add_to_group k none f g = sym (append-nil (lookup_list k g))
lookup-add_to_group k (some j) f g = lookup_list-push j k f g

sort_fill-lookup :
    (r : Resolutions) (k : GroupKey) (f : FillRecord) (s : Sorting)
    → lookup_list k (sort_fill r f s).groups ≡ lookup_list k s.groups ++ keep (belongs r k) (f ∷ [])
sort_fill-lookup r k f s =
    ap (lookup_list k) (sort_fill-groups r f s) ∙ lookup-add_to_group k (group_of r f) f s.groups

-- The unresolved fills are those without a position, in input order, and no others.
pub sort_fills-unresolved :
    (r : Resolutions) (fills : List FillRecord) (s : Sorting)
    → (sort_fills r fills s).unresolved
      ≡ s.unresolved ++ map fill_key (keep (is_unresolved r) fills)
unfolding sort_fills
sort_fills-unresolved r [] s = sym (append-nil _)
sort_fills-unresolved r (f ∷ fills) s =
    rw (sort_fills-unresolved r fills (sort_fill r f s), sort_fill-unresolved r f s)
      (append-map-keep fill_key (is_unresolved r) s.unresolved f fills)

pub sort_fills-unclassified :
    (r : Resolutions) (fills : List FillRecord) (s : Sorting)
    → (sort_fills r fills s).unclassified
      ≡ s.unclassified ++ map fill_key (keep (is_unclassified r) fills)
unfolding sort_fills
sort_fills-unclassified r [] s = sym (append-nil _)
sort_fills-unclassified r (f ∷ fills) s =
    rw (sort_fills-unclassified r fills (sort_fill r f s), sort_fill-unclassified r f s)
      (append-map-keep fill_key (is_unclassified r) s.unclassified f fills)

pub sort_fills-groups :
    (r : Resolutions) (k : GroupKey) (fills : List FillRecord) (s : Sorting)
    → lookup_list k (sort_fills r fills s).groups
      ≡ lookup_list k s.groups ++ keep (belongs r k) fills
unfolding sort_fills
sort_fills-groups r k [] s = sym (append-nil _)
sort_fills-groups r k (f ∷ fills) s =
    sort_fills-groups r k fills (sort_fill r f s)
    ∙ ap (λ l. l ++ keep (belongs r k) fills) (sort_fill-lookup r k f s)
    ∙ append_assoc (lookup_list k s.groups) (keep (belongs r k) (f ∷ [])) (keep (belongs r k) fills)
    ∙ ap (λ l. lookup_list k s.groups ++ l) (sym (keep-append (belongs r k) (f ∷ []) fills))

-- What a derivation does with its input, in full. The unresolved keys are those of the fills
-- without a position and the unclassified ones those of the fills with a position and an unknown
-- effect, each in input order; and the group of a position, role and order holds exactly the fills
-- of that position, role and order, in input order.
pub derive_events-sorts :
    (p : Platform) (fills : List FillRecord) (r : Resolutions) (k : GroupKey)
    → ((derive_events p fills r).unresolved ≡ map fill_key (keep (is_unresolved r) fills))
      × ((derive_events p fills r).unclassified ≡ map fill_key (keep (is_unclassified r) fills))
      × (lookup_list k (sort_fills r fills no_fills).groups ≡ keep (belongs r k) fills)
unfolding derive_events
derive_events-sorts p fills r k = (
  sort_fills-unresolved r fills no_fills,
  sort_fills-unclassified r fills no_fills,
  sort_fills-groups r k fills no_fills,
)

-- The number of fills in all groups of a dict.
abbrev pub grouped : Dict GroupKey (List FillRecord) → ℕ
grouped [] = 0
grouped ((k, fs) ∷ g) = length fs + grouped g

grouped-push :
    (k : GroupKey) (f : FillRecord) (g : Dict GroupKey (List FillRecord))
    → grouped (push k f g) ≡ suc (grouped g)
grouped-push k f [] = refl
grouped-push k f ((j, fs) ∷ g) = ground (arith, grouped-push k f g, length-append fs (f ∷ []))

sort_fill-count :
    (r : Resolutions) (f : FillRecord) (s : Sorting)
    → let t = sort_fill r f s in
      length t.unresolved + length t.unclassified + grouped t.groups
      ≡ suc (length s.unresolved + length s.unclassified + grouped s.groups)
unfolding sort_fill
sort_fill-count r f s = grind (arith, grouped-push, length-append)

sort_fills-count :
    (r : Resolutions) (fills : List FillRecord) (s : Sorting)
    → let t = sort_fills r fills s in
      length t.unresolved + length t.unclassified + grouped t.groups
      ≡ length fills + (length s.unresolved + length s.unclassified + grouped s.groups)
unfolding sort_fills
sort_fills-count r [] s = omega arith
sort_fills-count r (f ∷ fills) s =
    omega (arith, sort_fills-count r fills (sort_fill r f s), sort_fill-count r f s)

-- No fill is lost or counted twice: every fill is unresolved, unclassified or in one group.
pub derive_events-counts :
    (p : Platform) (fills : List FillRecord) (r : Resolutions)
    → length (derive_events p fills r).unresolved
        + length (derive_events p fills r).unclassified
        + grouped (sort_fills r fills no_fills).groups
      ≡ length fills
unfolding derive_events
derive_events-counts p fills r = omega (arith, sort_fills-count r fills no_fills)
