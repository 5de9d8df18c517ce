-- ===== src/Vendor/Adapter.antt =====
-- The adapter over schwab-py (src/morai/vendor/schwab_adapter.py). The library's calls, and what pydantic reads
-- from a response, are parameters; a token and a response stand for their JSON text.
use morai_trading_dashboard.Prelude.Int.{ℤ}
use morai_trading_dashboard.Settings.{SchwabCredentials}
use morai_trading_dashboard.Vendor.Client.{ExchangedToken, WrappedToken}
use morai_trading_dashboard.Prelude.{
  or_raise-ok, ok-bind, ◌>>=◌, or_raise, validation_error, index_error, ok-inj, String, Option,
  some, List, [], ◌∷◌, ◌++◌, ◌≡◌, sym, ap, ◌∙◌, nat_eq, text_eq, Result, ok, err, Instant,
}

pub record AccountNumberEntry : Type 0 where
  pub account_number : String
  pub hash_value : String

-- `schwab.auth.AuthContext`
pub record AuthContext : Type 0 where
  pub callback_url : String
  pub authorization_url : String
  pub state : String

pub record SchwabLibrary : Type 1 where
  pub AsyncClient : Type 0
  -- `get_auth_context(api_key, callback_url, state=state).authorization_url`
  pub authorize_url : String → String → String → String
  -- `client_from_received_url(api_key, app_secret, auth_context, received_url, token_write_func)`: the tokens
  -- that it hands to the write function, in order, and the client
  pub client_from_received_url :
      String → String → AuthContext → String → Result (List String × AsyncClient)
  -- `client.get_account_numbers()` and its JSON; `get_transactions`, `get_option_chain`, `get_quotes`
  pub account_numbers_json : AsyncClient → Result String
  pub transactions_json :
      AsyncClient → String → Option Instant → Option Instant → Option String → Result String
  pub option_chain_json : AsyncClient → String → Result String
  pub quotes_json : AsyncClient → List String → Result String
  -- what pydantic reads: none is a ValidationError
  pub read_account_numbers : String → Option (List AccountNumberEntry)
  pub read_wrapped : String → Option WrappedToken
  pub read_json : String → Option String
  -- `datetime.fromtimestamp(seconds, tz=UTC)`
  pub from_timestamp : ℤ → Result Instant

module _ (l : SchwabLibrary) where
  unfoldable pub get_account_numbers : l.AsyncClient → Result (List AccountNumberEntry)
  get_account_numbers client = do
    response ← l.account_numbers_json client
    or_raise (l.read_account_numbers response) validation_error

  unfoldable pub get_transactions :
      l.AsyncClient → String → Option Instant → Option Instant → Option String → Result String
  get_transactions client account_hash start_date end_date symbol = do
    response ← l.transactions_json client account_hash start_date end_date symbol
    or_raise (l.read_json response) validation_error

  unfoldable pub get_option_chain : l.AsyncClient → String → Result String
  get_option_chain client symbol = do
    response ← l.option_chain_json client symbol
    or_raise (l.read_json response) validation_error

  unfoldable pub get_quotes : l.AsyncClient → List String → Result String
  get_quotes client symbols = do
    response ← l.quotes_json client symbols
    or_raise (l.read_json response) validation_error

-- `captured[-1]`
pub last_captured : List String → Result String
last_captured [] = err index_error
last_captured (token ∷ []) = ok token
last_captured (a ∷ b ∷ captured) = last_captured (b ∷ captured)

module _ (l : SchwabLibrary) (credentials : SchwabCredentials) where
  unfoldable pub build_authorize_url : String → String
  build_authorize_url raw_state =
      l.authorize_url credentials.api_key credentials.callback_url raw_state

  abbrev pub throwaway_context : String → AuthContext
  throwaway_context raw_state = record {
    callback_url = credentials.callback_url;
    authorization_url = "";
    state = raw_state;
  }

  -- The token that the library wrote last, with the time of its creation.
  abbrev pub exchanged_token : List String → Result ExchangedToken
  exchanged_token captured = do
    token ← last_captured captured
    wrapped ← or_raise (l.read_wrapped token) validation_error
    created_at ← l.from_timestamp wrapped.creation_timestamp
    ok (record { token = wrapped.token; created_at = created_at })

  unfoldable pub exchange_callback : String → String → Result (ExchangedToken × l.AsyncClient)
  unfolding last_captured
  exchange_callback received_url raw_state = do
    (captured, client) ←
        l.client_from_received_url credentials.api_key credentials.app_secret
          (throwaway_context raw_state) received_url
    exchanged ← exchanged_token captured
    ok (exchanged, client)

last_captured-append :
    (captured : List String) (token : String)
    → last_captured captured ≡ ok token
    → (older : List String) × (captured ≡ older ++ token ∷ [])
unfolding last_captured
last_captured-append [] token h = cc
last_captured-append (a ∷ []) token h = ([], ap (λ t. t ∷ []) (ok-inj h))
last_captured-append (a ∷ b ∷ captured) token h =
    let (older, e) = last_captured-append (b ∷ captured) token h in (a ∷ older, ap (λ l. a ∷ l) e)

-- An exchange that returns asked the library for a client under the state that was consumed, and gives the
-- token that the library wrote last, as it was read, with the time of its creation, and the library's client.
pub exchange_callback-last :
    (l : SchwabLibrary) (credentials : SchwabCredentials) (received_url raw_state : String)
    (x : ExchangedToken) (client : l.AsyncClient)
    → exchange_callback l credentials received_url raw_state ≡ ok (x, client)
    → (older : List String) × (token : String) × (wrapped : WrappedToken)
      × (l.client_from_received_url credentials.api_key credentials.app_secret
            (throwaway_context l credentials raw_state)
            received_url
          ≡ ok (older ++ token ∷ [], client))
      × (l.read_wrapped token ≡ some wrapped)
      × (x.token ≡ wrapped.token)
      × (l.from_timestamp wrapped.creation_timestamp ≡ ok x.created_at)
unfolding exchange_callback
exchange_callback-last l credentials received_url raw_state x client h =
    let ((captured, at), asked, h₁) =
      ok-bind (l.client_from_received_url _ _ _ _) _ (x, client) h in
    let (exchanged, given, h₂) =
      ok-bind (exchanged_token l credentials captured) _ (x, client) h₁ in
    let same : (exchanged, at) ≡ (x, client) = ok-inj h₂ in
    let (token, is_last, h₃) = ok-bind (last_captured captured) _ exchanged given in
    let (wrapped, is_read, h₄) =
      ok-bind (or_raise (l.read_wrapped token) validation_error) _ exchanged h₃ in
    let (created_at, is_time, h₅) =
      ok-bind (l.from_timestamp wrapped.creation_timestamp) _ exchanged h₄ in
    let (older, split) = last_captured-append captured token is_last in
    let made = ok-inj h₅ ∙ ap (λ p. p.0) same in
    (
      older,
      token,
      wrapped,
      asked ∙ ap (λ c. ok (c, at)) split ∙ ap (λ p. ok (older ++ token ∷ [], p.1)) same,
      or_raise-ok (l.read_wrapped token) validation_error wrapped is_read,
      ap (λ (e : ExchangedToken). e.token) (sym made),
      is_time ∙ ap (λ (e : ExchangedToken). ok e.created_at) made,
    )
