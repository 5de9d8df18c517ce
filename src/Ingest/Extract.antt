-- ===== src/Ingest/Extract.antt =====
-- `_direction` and `extract_fills` (src/morai/ingest/schwab_sync.py): fills from one broker transaction.
-- `repr` of a text is Python's own and a parameter.
pub mod Accounted
use Prim.Native.String.{String as Text}
use Prim.Native.Char.{code}
use morai_trading_dashboard.Prelude.{
  ℕ, zero, suc, ◌+◌, String, Bool, true, false, Option, none, some, List, [], ◌∷◌, ◌++◌, ◌≡◌, refl,
  not, ◌&&◌, if◌then◌else◌, arith, ◌==◌, nat_eq, text_eq, Instant, keep, ◌<>◌, int_text, length,
}
use morai_trading_dashboard.Money.{Decimal, neg, is_zero, is_positive}
use morai_trading_dashboard.Ledger.Records.{FillWrite}

pub record Instrument : Type 0 where
  pub symbol : Option String
  pub asset_type : Option String

pub record TransferItem : Type 0 where
  pub instrument : Option Instrument
  pub amount : Option Decimal
  pub price : Option Decimal
  pub cost : Option Decimal
  pub position_effect : Option String

-- `activity_id` is kept as `str(activity_id)`, the only form in which it is used.
pub record Transaction : Type 0 where
  pub activity_id : String
  pub type : String
  pub time : Instant
  pub order_id : Option String
  pub transfer_items : List TransferItem

-- The second signal: the cost has the opposite sign.
abbrev direction_by_cost : Option Decimal → Option (String × Decimal)
direction_by_cost none = none
direction_by_cost (some cost) =
    if is_zero cost
    then none
    else if is_positive cost
    then some ("SELL", cost)
    else some ("BUY", neg cost)

unfoldable pub direction : Option Decimal → Option Decimal → Option (String × Decimal)
direction none cost = direction_by_cost cost
direction (some amount) cost =
    if is_zero amount
    then direction_by_cost cost
    else if is_positive amount
    then some ("BUY", amount)
    else some ("SELL", neg amount)

-- `symbol.replace(" ", "")`
pub without_spaces : String → String
without_spaces Text.[] = ""
without_spaces (Text.◌∷◌ c s) =
    if code c == 32 then without_spaces s else Text.◌∷◌ c (without_spaces s)

abbrev pub is_option_item : TransferItem → Bool
is_option_item item = elim item.instrument [
  | none ↦ false
  | some i ↦ elim i.asset_type [ none ↦ false | some t ↦ t == "OPTION" ]
]

abbrev pub symbol_of : TransferItem → Option String
symbol_of item = elim item.instrument [ none ↦ none | some i ↦ i.symbol ]

pub record Extraction : Type 0 where
  pub fills : List FillWrite
  pub skip_reasons : List String

abbrev leg_label : Transaction → ℕ → String
leg_label t leg_index = "activity " <> t.activity_id <> " leg " <> int_text leg_index

abbrev skip : String → Extraction → Extraction
skip reason e = record e { skip_reasons = reason ∷ e.skip_reasons }

abbrev land : FillWrite → Extraction → Extraction
land fill e = record e { fills = fill ∷ e.fills }

abbrev pub leg_fill :
    Transaction → String → ℕ → TransferItem → String → String → String × Decimal → FillWrite
leg_fill t order_id leg_index item symbol position_effect d = record {
  order_id = order_id;
  occ_symbol = without_spaces symbol;
  leg_index = leg_index;
  execution_time = t.time;
  position_effect = position_effect;
  side = d.0;
  quantity = some d.1;
  price_usd = item.price;
}

-- One pass of the loop over the option items, in front of what the later passes add.
pub extract_item : Transaction → String → ℕ → TransferItem → Extraction → Extraction
unfolding without_spaces
extract_item t order_id leg_index item e = elim (symbol_of item) [
  | none ↦ skip (leg_label t leg_index <> ": no instrument symbol") e
  | some symbol ↦ elim item.position_effect [
    | none ↦ skip (leg_label t leg_index <> ": no positionEffect") e
    | some position_effect ↦ elim (direction item.amount item.cost) [
      | none ↦ skip (leg_label t leg_index <> ": no usable amount or cost to determine direction") e
      | some d ↦ land (leg_fill t order_id leg_index item symbol position_effect d) e
    ]
  ]
]

-- The loop over the option items, counted from `leg_index`.
pub extract_items : Transaction → String → ℕ → List TransferItem → Extraction
extract_items t order_id leg_index [] = record { fills = []; skip_reasons = [] }
extract_items t order_id leg_index (item ∷ items) =
    extract_item t order_id leg_index item (extract_items t order_id (suc leg_index) items)

abbrev nothing_but : String → Extraction
nothing_but reason = record { fills = []; skip_reasons = reason ∷ [] }

abbrev pub option_items : Transaction → List TransferItem
option_items t = keep is_option_item t.transfer_items

abbrev pub extract_legs : Transaction → String → List TransferItem → Extraction
extract_legs t order_id [] =
    nothing_but ("activity " <> t.activity_id <> ": no option transferItems")
extract_legs t order_id (item ∷ items) = extract_items t order_id 0 (item ∷ items)

unfoldable pub extract_fills : (String → String) → Transaction → Extraction
unfolding extract_items extract_item
extract_fills repr t =
    if not (t.type == "TRADE")
    then nothing_but ("activity " <> t.activity_id <> ": not a TRADE (type=" <> repr t.type <> ")")
    else elim t.order_id [
      | none ↦ nothing_but ("activity " <> t.activity_id <> ": missing orderId")
      | some order_id ↦ extract_legs t order_id (option_items t)
    ]
