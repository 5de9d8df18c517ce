-- ===== src/Ingest/Extract/Accounted.antt =====
-- The fills and reasons of one transaction (`extract_fills` of src/morai/ingest/schwab_sync.py).
use morai_trading_dashboard.Ledger.Records.{FillWrite}
use morai_trading_dashboard.Prelude.{
  inl, inr, ◌⊎◌, Option-cases, Bool-cases, if◌then◌else◌, not, is_some, ◌&&◌, ◌<◌, nat_eq, text_eq,
  ◌==◌, ◌≤◌, ℕ, suc, ◌+◌, String, List, [], ◌∷◌, ◌≡◌, refl, arith, nat_eq, text_eq, length,
}
use morai_trading_dashboard.Ingest.Extract.{
  leg_fill, direction, symbol_of, extract_legs, Extraction, option_items, extract_fills,
  TransferItem, Transaction, extract_item, extract_items,
}

extract_items-accounted :
    (t : Transaction) (order_id : String) (i : ℕ) (items : List TransferItem)
    → length (extract_items t order_id i items).fills
        + length (extract_items t order_id i items).skip_reasons
      ≡ length items
unfolding extract_items extract_item
extract_items-accounted t order_id i [] = refl
extract_items-accounted t order_id i (item ∷ items) =
    ground (arith, extract_items-accounted t order_id (suc i) items)

-- The leg indexes of the fills rise, from `i` at least and below `n`.
pub Rising : ℕ → ℕ → List FillWrite → Type 0
Rising i n [] = i ≤ n
Rising i n (f ∷ fs) = (i ≤ f.leg_index) × (f.leg_index < n) × Rising (suc f.leg_index) n fs

Rising-weaken : (i j n : ℕ) (fs : List FillWrite) → i ≤ j → Rising j n fs → Rising i n fs
unfolding Rising
Rising-weaken i j n [] h r = omega (arith, h, r)
Rising-weaken i j n (f ∷ fs) h (lo, hi, rest) = (omega (arith, h, lo), hi, rest)

-- A pass leaves the fills of the others, or adds one with its own leg index.
extract_item-fills :
    (t : Transaction) (order_id : String) (i : ℕ) (item : TransferItem) (e : Extraction)
    → ((extract_item t order_id i item e).fills ≡ e.fills)
      ⊎ ((f : FillWrite) × ((extract_item t order_id i item e).fills ≡ f ∷ e.fills)
          × (f.leg_index ≡ i))
unfolding extract_item
extract_item-fills t order_id i item e = elim (Option-cases (symbol_of item)) [
  | inl h ↦ inl (rw (extract_item, h) refl)
  | inr (s, h) ↦ elim (Option-cases item.position_effect) [
    | inl k ↦ inl (rw (extract_item, h, k) refl)
    | inr (p, k) ↦ elim (Option-cases (direction item.amount item.cost)) [
      | inl d ↦ inl (rw (extract_item, h, k, d) refl)
      | inr (q, d) ↦ inr (leg_fill t order_id i item s p q, rw (extract_item, h, k, d) refl, refl)
    ]
  ]
]

extract_items-rise :
    (t : Transaction) (order_id : String) (i n : ℕ) (items : List TransferItem)
    → i + length items ≤ n
    → Rising i n (extract_items t order_id i items).fills
unfolding extract_items Rising
extract_items-rise t order_id i n [] h = omega (arith, h)
extract_items-rise t order_id i n (item ∷ items) h =
    let e = extract_items t order_id (suc i) items in
    let rest : Rising (suc i) n e.fills =
      extract_items-rise t order_id (suc i) n items (omega (arith, h)) in
    elim (extract_item-fills t order_id i item e) [
      | inl same ↦ rw same (Rising-weaken i (suc i) n e.fills (omega arith) rest)
      | inr (f, more, at) ↦ rw more (omega (arith, at), omega (arith, at, h), rw at rest)
    ]

extract_legs-accounted :
    (t : Transaction) (order_id : String) (items : List TransferItem)
    → length (extract_legs t order_id items).fills
        + length (extract_legs t order_id items).skip_reasons
      ≡ (if length items == 0 then 1 else length items)
extract_legs-accounted t order_id [] = refl
extract_legs-accounted t order_id (item ∷ items) =
    ground (arith, extract_items-accounted t order_id 0 (item ∷ items))

extract_legs-rise :
    (t : Transaction) (order_id : String) (items : List TransferItem)
    → Rising 0 (length items) (extract_legs t order_id items).fills
unfolding Rising
extract_legs-rise t order_id [] = omega arith
extract_legs-rise t order_id (item ∷ items) =
    extract_items-rise t order_id 0 (length (item ∷ items)) (item ∷ items) (omega arith)

-- A transaction that is a trade with an order and option legs gives, for each of these legs, one fill or
-- one reason; any other transaction gives one of them in all.
pub extract_fills-accounted :
    (repr : String → String) (t : Transaction)
    → length (extract_fills repr t).fills + length (extract_fills repr t).skip_reasons ≡ (
        if t.type == "TRADE" && (is_some t.order_id && not (length (option_items t) == 0))
        then length (option_items t)
        else 1)
unfolding extract_fills
extract_fills-accounted repr t = elim (Option-cases t.order_id) [
  | inl h ↦ ground (arith, h)
  | inr (o, h) ↦ ground (arith, h, extract_legs-accounted t o (option_items t))
]

-- The fills of a transaction come in the order of their leg indexes, each index at most once, and each below the
-- number of option legs.
pub extract_fills-rise :
    (repr : String → String) (t : Transaction)
    → Rising 0 (length (option_items t)) (extract_fills repr t).fills
unfolding extract_fills Rising
extract_fills-rise repr t = elim (Bool-cases (t.type == "TRADE")) [
  | inr other ↦ rw other (omega arith)
  | inl trade ↦ elim (Option-cases t.order_id) [
    | inl h ↦ rw (trade, h) (omega arith)
    | inr (o, h) ↦ rw (trade, h) (extract_legs-rise t o (option_items t))
  ]
]
