-- ===== src/Vendor/Client.antt =====
-- The brokerage as the program sees it (src/morai/vendor/protocol.py). The calls of schwab-py and the
-- validators of pydantic are parameters; a JSON value stands for its text.
use morai_trading_dashboard.Prelude.Int.{pos, ℤ}
use morai_trading_dashboard.Ingest.Extract.{Transaction}
use morai_trading_dashboard.Prelude.{
  [], ◌∷◌, ok, String, Bool, true, Option, none, some, List, nat_eq, text_eq, Result, Instant,
}

pub record ExchangedToken : Type 0 where
  pub token : String
  pub created_at : Instant

pub record WrappedToken : Type 0 where
  pub creation_timestamp : ℤ
  pub token : String

-- The current token, and whether the vendor ever wrote one.
pub record TokenHolder : Type 0 where
  pub token : String
  pub wrote : Bool

pub record Vendor : Type 0 where
  pub build_authorize_url : String → String
  -- `exchange_callback(received_url, raw_state)`, and `get_account_numbers` of its client: the hash values
  pub exchange_callback : String → String → Result ExchangedToken
  pub get_account_numbers : ExchangedToken → Result (List String)
  -- `get_transactions(account_hash, start_date, end_date)` of a client over a token, and the token that the
  -- client wrote on the way if it refreshed it
  pub get_transactions : String → String → Instant → Instant → Result String × Option String
  -- the JSON text of a wrapped token, and `WrappedToken` validated from it
  pub wrapped_text : WrappedToken → String
  pub read_wrapped : String → Option WrappedToken
  -- a response validated as a list of values, and the values as transactions
  pub json_list : String → Option (List String)
  pub read_transactions : List String → Option (List Transaction)
  -- `int(t.timestamp())`, `repr(s)`
  pub epoch_seconds : Instant → ℤ
  pub repr : String → String

-- `TokenHolder.write`
abbrev pub write_token : Option String → TokenHolder → TokenHolder
write_token none holder = holder
write_token (some token) holder = record { token = token; wrote = true }

-- An instance for the tests: one account, and no transactions.
abbrev pub plain_vendor : Vendor
plain_vendor = record {
  build_authorize_url = λ state. state;
  exchange_callback = λ url state. ok (record { token = "t"; created_at = 5 });
  get_account_numbers = λ x. ok ("hash" ∷ []);
  get_transactions = λ token hash start end. (ok "[]", none);
  wrapped_text = λ w. w.token;
  read_wrapped = λ t. some (record { creation_timestamp = pos 0; token = t });
  json_list = λ t. some [];
  read_transactions = λ ts. some [];
  epoch_seconds = λ t. pos t;
  repr = λ t. t;
}
