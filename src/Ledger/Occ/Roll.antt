-- ===== src/Ledger/Occ/Roll.antt =====
-- The roll guard (src/morai/ledger/pairing.py): when it answers yes, and when it raises.
use mathlib.Core.Logic.{◌↔◌}
use morai_trading_dashboard.Prelude.{
  sym, ok-inj, Bool-cases, refl, ap, Result-cases, value_error, ◌∙◌, err, inl, ◌⊎◌, inr, Result,
  nat_eq, Bool, true, false, ◌≡◌, ◌&&◌, not, arith, ok, ◌==◌, text_eq, ◌>>=◌, ◌↔◌,
}
use morai_trading_dashboard.Ledger.Records.{FillRecord}
use morai_trading_dashboard.Ledger.Pairing.{opening, closing, role_eq, classify_fill}
use morai_trading_dashboard.Ledger.Occ.{
  codes, OccContract, root_eq, date_eq, parse_occ_symbol, detect_roll,
}
use morai_trading_dashboard.Ledger.Occ.Spelling.{
  parse_occ_symbol-RaisesValueError, parse_occ_symbol-Spells, Spells,
}

-- One closing and one opening fill of one order, told by their own effects.
abbrev pub ClosesAndOpens : FillRecord → FillRecord → Type 0
ClosesAndOpens c o =
    (c.order_id ≡ o.order_id)
    × (classify_fill c.position_effect ≡ closing)
    × (classify_fill o.position_effect ≡ opening)

-- They agree in root, option type and strike, and differ in their expiry.
abbrev pub DiffersInExpiry : OccContract → OccContract → Type 0
DiffersInExpiry x y =
    (x.root ≡ y.root)
    × (x.option_type ≡ y.option_type)
    × (x.strike ≡ y.strike)
    × ¬ (x.expiry ≡ y.expiry)

-- The symbol of a fill spells no contract.
abbrev pub IsMalformed : FillRecord → Type 0
IsMalformed f = (x : OccContract) → ¬ Spells (codes f.occ_symbol) x

-- The same tests as Booleans.
abbrev closes_and_opens : FillRecord → FillRecord → Bool
closes_and_opens c o =
    c.order_id == o.order_id
    && (classify_fill c.position_effect == closing && classify_fill o.position_effect == opening)

abbrev differs_in_expiry : OccContract → OccContract → Bool
differs_in_expiry x y =
    x.root == y.root
    && (x.option_type == y.option_type && (x.strike == y.strike && not (x.expiry == y.expiry)))

closes_and_opens_iff : (c o : FillRecord) → (closes_and_opens c o ≡ true) ↔ ClosesAndOpens c o
closes_and_opens_iff c o = ground (
  arith,
  text_eq.beq_iff c.order_id o.order_id,
  role_eq.beq_iff (classify_fill c.position_effect) closing,
  role_eq.beq_iff (classify_fill o.position_effect) opening,
)

differs_in_expiry_iff : (x y : OccContract) → (differs_in_expiry x y ≡ true) ↔ DiffersInExpiry x y
differs_in_expiry_iff x y = ground (
  arith,
  root_eq.beq_iff x.root y.root,
  nat_eq.beq_iff x.option_type y.option_type,
  nat_eq.beq_iff x.strike y.strike,
  date_eq.beq_iff x.expiry y.expiry,
)

detect_roll-apart : (c o : FillRecord) → closes_and_opens c o ≡ false → detect_roll c o ≡ ok false
unfolding detect_roll
detect_roll-apart c o h = ground arith

detect_roll-paired :
    (c o : FillRecord)
    → closes_and_opens c o ≡ true
    → detect_roll c o ≡ (
        parse_occ_symbol (codes c.occ_symbol) >>= λ x.
        parse_occ_symbol (codes o.occ_symbol) >>= λ y. ok (differs_in_expiry x y))
unfolding detect_roll
detect_roll-paired c o h = ground arith

-- A symbol spells a contract, which the parser reads, or none, and the parser raises a ValueError.
reads :
    (f : FillRecord)
    → ((x : OccContract) × (parse_occ_symbol (codes f.occ_symbol) ≡ ok x))
      ⊎ IsMalformed f × (parse_occ_symbol (codes f.occ_symbol) ≡ err value_error)
reads f = elim (Result-cases (parse_occ_symbol (codes f.occ_symbol))) [
  | inl found ↦ inl found
  | inr (e, raised) ↦
      let only = parse_occ_symbol-RaisesValueError (codes f.occ_symbol) e raised in
      inr (
        λ x spells.
            ground (arith, raised, (parse_occ_symbol-Spells (codes f.occ_symbol) x).1 spells),
        raised ∙ ap err only,
      )
]

-- What the guard answers on a closing and an opening fill of one order.
abbrev Answer : FillRecord → FillRecord → Result Bool → Type 0
Answer c o answer =
    ((x : OccContract) × (y : OccContract) × Spells (codes c.occ_symbol) x
      × Spells (codes o.occ_symbol) y
      × (answer ≡ ok (differs_in_expiry x y)))
    ⊎ (IsMalformed c ⊎ IsMalformed o) × (answer ≡ err value_error)

answers : (c o : FillRecord) → ClosesAndOpens c o → Answer c o (detect_roll c o)
answers c o pair =
    let run = detect_roll-paired c o ((closes_and_opens_iff c o).1 pair) in
    elim (reads c) [
      | inr (malformed, e) ↦ inr (inl malformed, run ∙ rw e refl)
      | inl (x, e) ↦ elim (reads o) [
        | inr (malformed, e') ↦ inr (inr malformed, run ∙ rw (e, e') refl)
        | inl (y, e') ↦ inl (
          x,
          y,
          (parse_occ_symbol-Spells (codes c.occ_symbol) x).0 e,
          (parse_occ_symbol-Spells (codes o.occ_symbol) y).0 e',
          run ∙ rw (e, e') refl,
        )
      ]
    ]

-- Two fills roll one contract into another.
abbrev pub Rolls : FillRecord → FillRecord → Type 0
Rolls c o =
    ClosesAndOpens c o
    × ((x : OccContract) × (y : OccContract) × Spells (codes c.occ_symbol) x
        × Spells (codes o.occ_symbol) y
        × DiffersInExpiry x y)

yes-Rolls : (c o : FillRecord) → detect_roll c o ≡ ok true → Rolls c o
yes-Rolls c o h = elim (Bool-cases (closes_and_opens c o)) [
  | inr apart ↦ ground (arith, h, detect_roll-apart c o apart)
  | inl paired ↦
      let pair = (closes_and_opens_iff c o).0 paired in
      elim (answers c o pair) [
        | inl (x, y, sx, sy, e) ↦
            (pair, (x, y, sx, sy, (differs_in_expiry_iff x y).0 (ok-inj (sym e ∙ h))))
        | inr (malformed, e) ↦ ground (arith, h, e)
      ]
]

Rolls-yes : (c o : FillRecord) → Rolls c o → detect_roll c o ≡ ok true
Rolls-yes c o (pair, (x, y, sx, sy, differ)) =
    detect_roll-paired c o ((closes_and_opens_iff c o).1 pair)
    ∙ rw
        (
          (parse_occ_symbol-Spells (codes c.occ_symbol) x).1 sx,
          (parse_occ_symbol-Spells (codes o.occ_symbol) y).1 sy,
        )
        (ap ok ((differs_in_expiry_iff x y).1 differ))

raises-IsMalformed :
    (c o : FillRecord)
    → detect_roll c o ≡ err value_error
    → ClosesAndOpens c o × (IsMalformed c ⊎ IsMalformed o)
raises-IsMalformed c o h = elim (Bool-cases (closes_and_opens c o)) [
  | inr apart ↦ ground (arith, h, detect_roll-apart c o apart)
  | inl paired ↦
      let pair = (closes_and_opens_iff c o).0 paired in
      elim (answers c o pair) [
        | inl (x, y, sx, sy, e) ↦ ground (arith, h, e)
        | inr (malformed, e) ↦ (pair, malformed)
      ]
]

IsMalformed-raises :
    (c o : FillRecord)
    → ClosesAndOpens c o × (IsMalformed c ⊎ IsMalformed o)
    → detect_roll c o ≡ err value_error
IsMalformed-raises c o (pair, malformed) = elim (answers c o pair) [
  | inr (_, e) ↦ e
  | inl (x, y, sx, sy, e) ↦
      absurd (elim malformed [ inl first ↦ first x sx | inr second ↦ second y sy ])
]

pub detect_roll-Rolls :
    (c o : FillRecord)
    → ((detect_roll c o ≡ ok true) ↔ Rolls c o)
      × ((detect_roll c o ≡ err value_error)
          ↔ (ClosesAndOpens c o × (IsMalformed c ⊎ IsMalformed o)))
detect_roll-Rolls c o =
    ((yes-Rolls c o, Rolls-yes c o), (raises-IsMalformed c o, IsMalformed-raises c o))
