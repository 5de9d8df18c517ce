-- ===== src/Ledger/Pairing/Amounts.antt =====
-- When the net amount of an event is a figure and when it is a gap (`_net_amount`).
use morai_trading_dashboard.Prelude.{
  Option-cases, inl, inr, Bool, List, [], ◌∷◌, ◌≡◌, refl, ◌||◌, not, arith, ◌==◌, text_eq, is_some,
  any,
}
use morai_trading_dashboard.Money.{Decimal, add}
use morai_trading_dashboard.Ledger.Records.{FillRecord}
use morai_trading_dashboard.Ledger.Pairing.{EventType, signed_leg_amount, net_from, net_amount}

-- A fill without a quantity or a price, or whose side is neither of the two words.
abbrev pub is_gap : FillRecord → Bool
is_gap f =
    not (is_some f.quantity)
    || not (is_some f.price_usd)
    || not (f.side == "BUY" || f.side == "SELL")

leg-gap : (f : FillRecord) (t : EventType) → is_some (signed_leg_amount f t) ≡ not (is_gap f)
unfolding signed_leg_amount
leg-gap f t = ground arith

net_from-gap :
    (total : Decimal) (fills : List FillRecord) (t : EventType)
    → is_some (net_from total fills t) ≡ not (any is_gap fills)
unfolding net_from
net_from-gap total [] t = refl
net_from-gap total (f ∷ fills) t = elim (Option-cases (signed_leg_amount f t)) [
  | inl gap ↦ ground (arith, leg-gap f t)
  | inr (a, e) ↦ ground (arith, leg-gap f t, net_from-gap (add total a) fills t)
]

-- The net amount of a group is a figure exactly if no fill of the group lacks a quantity, a price or
-- a known side.
pub net_amount-gap :
    (fills : List FillRecord) (t : EventType)
    → is_some (net_amount fills t) ≡ not (any is_gap fills)
unfolding net_amount
net_amount-gap fills t = net_from-gap _ fills t
