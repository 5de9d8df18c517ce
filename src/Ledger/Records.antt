-- ===== src/Ledger/Records.antt =====
-- The records of src/morai/ledger/fills.py, events.py and pairing.py, as they are in memory.
use morai_trading_dashboard.Prelude.{
  ℕ, String, Bool, true, Option, ◌≡◌, ◌↔◌, ◌&&◌, arith, Eq, ◌==◌, nat_eq, text_eq, Instant, Uuid,
}
use morai_trading_dashboard.Money.{Decimal}

-- The columns of the primary key of `fills` that tell the fills of one user apart.
pub record FillKey : Type 0 where
  pub order_id : String
  pub occ_symbol : String
  pub leg_index : ℕ
  pub execution_time : Instant

abbrev fill_key_beq : FillKey → FillKey → Bool
fill_key_beq a b =
    a.order_id == b.order_id
    && (a.occ_symbol == b.occ_symbol
        && (a.leg_index == b.leg_index && a.execution_time == b.execution_time))

pub fill_key_beq_iff : (a b : FillKey) → (fill_key_beq a b ≡ true) ↔ (a ≡ b)
fill_key_beq_iff a b =
    ground (arith, text_eq.beq_iff a.order_id b.order_id, text_eq.beq_iff a.occ_symbol b.occ_symbol)

instance abbrev pub fill_key_eq : Eq FillKey
fill_key_eq = record { beq = fill_key_beq; beq_iff = fill_key_beq_iff }

-- One fill to insert.
pub record FillWrite : Type 0 where
  pub order_id : String
  pub occ_symbol : String
  pub leg_index : ℕ
  pub execution_time : Instant
  pub position_effect : String
  pub side : String
  pub quantity : Option Decimal
  pub price_usd : Option Decimal

-- One fill read back, decrypted.
pub record FillRecord : Type 0 where
  pub user_id : Uuid
  pub order_id : String
  pub occ_symbol : String
  pub leg_index : ℕ
  pub execution_time : Instant
  pub position_effect : String
  pub side : String
  pub quantity : Option Decimal
  pub price_usd : Option Decimal
  pub key_version : ℕ

abbrev pub fill_key : FillRecord → FillKey
fill_key f = record {
  order_id = f.order_id;
  occ_symbol = f.occ_symbol;
  leg_index = f.leg_index;
  execution_time = f.execution_time;
}

-- One event to insert.
pub record EventWrite : Type 0 where
  pub position_id : Uuid
  pub event_type : String
  pub event_time : Instant
  pub fill_ids_hash : Option String
  pub open_debit_usd : Option Decimal
  pub close_credit_usd : Option Decimal

-- One event read back, decrypted.
pub record EventRecord : Type 0 where
  pub id : Uuid
  pub user_id : Uuid
  pub position_id : Uuid
  pub event_type : String
  pub event_time : Instant
  pub fill_ids_hash : Option String
  pub open_debit_usd : Option Decimal
  pub close_credit_usd : Option Decimal
  pub key_version : ℕ
