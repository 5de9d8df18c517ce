-- ===== src/Ledger/Pairing.antt =====
-- The pure core of src/morai/ledger/pairing.py: fills and their resolutions in, events out.
-- `sha256_hex` and the float arithmetic behind `epoch_micros` are parameters.
pub mod Amounts
pub mod Groups
pub mod Scope
pub mod Hash
pub mod Events
mod Tests
use morai_trading_dashboard.Prelude.{
  ℕ, ◌+◌, String, Bool, true, false, Option, none, some, List, [], ◌∷◌, ◌++◌, map, ◌≡◌, refl, ◌↔◌,
  ◌&&◌, ◌||◌, arith, if◌then◌else◌, leb, ltb, Eq, ◌==◌, nat_eq, text_eq, Instant, Uuid, Dict,
  lookup, push, sorted, text_order, text_leb, join, int_text, ◌<>◌,
}
use morai_trading_dashboard.Prelude.Int.{ℤ, pos, negsuc}
use morai_trading_dashboard.Money.{Decimal, mul, neg, add, zero_decimal}
use morai_trading_dashboard.Ledger.Records.{FillKey, fill_key_eq, fill_key, FillRecord}

-- "OPEN", "CLOSE" and "UNKNOWN".
pub data FillRole : Type 0 where
  opening closing unknown : FillRole

abbrev role_beq : FillRole → FillRole → Bool
role_beq opening opening = true
role_beq closing closing = true
role_beq unknown unknown = true
role_beq _ _ = false

pub role_beq_iff : (a b : FillRole) → (role_beq a b ≡ true) ↔ (a ≡ b)
role_beq_iff a b = ground arith

instance abbrev pub role_eq : Eq FillRole
role_eq = record { beq = role_beq; beq_iff = role_beq_iff }

-- "OPEN" and "CLOSE".
pub data EventType : Type 0 where
  opened closed : EventType

abbrev pub event_type_text : EventType → String
event_type_text opened = "OPEN"
event_type_text closed = "CLOSE"

pub record DerivedEvent : Type 0 where
  pub position_id : Uuid
  pub event_type : EventType
  pub event_time : Instant
  pub fill_ids_hash : String
  pub open_debit_usd : Option Decimal
  pub close_credit_usd : Option Decimal
  pub commission_usd : Option Decimal

pub record Derivation : Type 0 where
  pub events : List DerivedEvent
  pub unresolved : List FillKey
  pub unclassified : List FillKey

unfoldable pub classify_fill : String → FillRole
classify_fill position_effect =
    if position_effect == "OPENING"
    then opening
    else if position_effect == "CLOSING"
    then closing
    else unknown

-- `price_usd * quantity` with the sign of the side; a gap or an unknown side gives none.
abbrev signed : EventType → String → Decimal → Decimal
signed opened side amount = if side == "BUY" then amount else neg amount
signed closed side amount = if side == "SELL" then amount else neg amount

abbrev amount_of : Option Decimal → Option Decimal → String → EventType → Option Decimal
amount_of none price side t = none
amount_of (some q) none side t = none
amount_of (some q) (some p) side t =
    if side == "BUY" || side == "SELL" then some (signed t side (mul p q)) else none

unfoldable pub signed_leg_amount : FillRecord → EventType → Option Decimal
signed_leg_amount fill t = amount_of fill.quantity fill.price_usd fill.side t

-- The loop of `_net_amount`: the first gap ends it.
net_from : Decimal → List FillRecord → EventType → Option Decimal
net_from total [] t = some total
net_from total (fill ∷ fills) t = elim (signed_leg_amount fill t) [
  | none ↦ none
  | some amount ↦ net_from (add total amount) fills t
]

unfoldable pub net_amount : List FillRecord → EventType → Option Decimal
unfolding net_from
net_amount fills t = net_from zero_decimal fills t

-- What the code takes from `hashlib`, and `int(t.timestamp() * 1_000_000)`, which goes through floats.
pub record Platform : Type 0 where
  pub sha256_hex : String → String
  pub epoch_micros : Instant → ℤ

abbrev pub signed_text : ℤ → String
signed_text (pos n) = int_text n
signed_text (negsuc n) = "-" <> int_text (n + 1)

abbrev pub render_key : Platform → FillKey → String
render_key p k =
    k.order_id
    <> ":"
    <> k.occ_symbol
    <> ":"
    <> int_text k.leg_index
    <> ":"
    <> signed_text (p.epoch_micros k.execution_time)

unfoldable pub hash_fill_ids : Platform → List FillKey → String
hash_fill_ids p keys = p.sha256_hex (join ":" (sorted text_leb (map (render_key p) keys)))

pub record GroupKey : Type 0 where
  pub position_id : Uuid
  pub role : FillRole
  pub order_id : String

abbrev group_key_beq : GroupKey → GroupKey → Bool
group_key_beq a b = a.position_id == b.position_id && (a.role == b.role && a.order_id == b.order_id)

pub group_key_beq_iff : (a b : GroupKey) → (group_key_beq a b ≡ true) ↔ (a ≡ b)
group_key_beq_iff a b = ground (arith, text_eq.beq_iff a.order_id b.order_id)

instance abbrev pub group_key_eq : Eq GroupKey
group_key_eq = record { beq = group_key_beq; beq_iff = group_key_beq_iff }

abbrev pub Resolutions : Type 0
Resolutions = Dict FillKey (Option Uuid)

-- `resolutions.get(key)`: no entry and an entry without a position are both `None`.
abbrev pub position_of : Resolutions → FillRecord → Option Uuid
position_of r fill = elim (lookup (fill_key fill) r) [ none ↦ none | some p ↦ p ]

-- The three collections of the first loop of `derive_events`.
pub record Sorting : Type 0 where
  pub unresolved : List FillKey
  pub unclassified : List FillKey
  pub groups : Dict GroupKey (List FillRecord)

-- The body of that loop.
unfoldable pub sort_fill : Resolutions → FillRecord → Sorting → Sorting
sort_fill r fill s = elim (position_of r fill) [
  | none ↦ record s { unresolved = s.unresolved ++ fill_key fill ∷ [] }
  | some position_id ↦ elim (classify_fill fill.position_effect) [
    | unknown ↦ record s { unclassified = s.unclassified ++ fill_key fill ∷ [] }
    | opening ↦ record s {
      groups =
          push (record { position_id = position_id; role = opening; order_id = fill.order_id }) fill
            s.groups;
    }
    | closing ↦ record s {
      groups =
          push (record { position_id = position_id; role = closing; order_id = fill.order_id }) fill
            s.groups;
    }
  ]
]

unfoldable pub sort_fills : Resolutions → List FillRecord → Sorting → Sorting
sort_fills r [] s = s
sort_fills r (fill ∷ fills) s = sort_fills r fills (sort_fill r fill s)

abbrev pub no_fills : Sorting
no_fills = record { unresolved = []; unclassified = []; groups = [] }

-- `min` of the execution times of a group. A group is made with its first fill, so none is empty.
unfoldable pub first_time : List FillRecord → Instant
first_time [] = 0
first_time (fill ∷ []) = fill.execution_time
first_time (fill ∷ next ∷ fills) =
    let rest = first_time (next ∷ fills) in
    if ltb rest fill.execution_time then rest else fill.execution_time

abbrev pub event_type_of : FillRole → EventType
event_type_of opening = opened
event_type_of _ = closed

abbrev amount_when : EventType → EventType → Option Decimal → Option Decimal
amount_when opened opened a = a
amount_when closed closed a = a
amount_when _ _ a = none

-- The event of one group.
unfoldable pub derive_event : Platform → GroupKey × List FillRecord → DerivedEvent
unfolding first_time
derive_event p (k, fills) =
    let t = event_type_of k.role in
    let net = net_amount fills t in
    record {
      position_id = k.position_id;
      event_type = t;
      event_time = first_time fills;
      fill_ids_hash = hash_fill_ids p (map fill_key fills);
      open_debit_usd = amount_when opened t net;
      close_credit_usd = amount_when closed t net;
      commission_usd = none;
    }

-- The order of the key `(str(position_id), event_type.value, fill_ids_hash)`.
abbrev pub event_leb : DerivedEvent → DerivedEvent → Bool
event_leb a b =
    if ltb a.position_id b.position_id
    then true
    else if ltb b.position_id a.position_id
    then false
    else if event_type_text a.event_type == event_type_text b.event_type
    then text_leb a.fill_ids_hash b.fill_ids_hash
    else text_leb (event_type_text a.event_type) (event_type_text b.event_type)

unfoldable pub derive_events : Platform → List FillRecord → Resolutions → Derivation
unfolding sort_fills sort_fill derive_event
derive_events p fills r =
    let s = sort_fills r fills no_fills in
    record {
      events = sorted event_leb (map (derive_event p) s.groups);
      unresolved = s.unresolved;
      unclassified = s.unclassified;
    }
