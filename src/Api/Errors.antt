-- ===== src/Api/Errors.antt =====
-- The request id and the opaque error envelope (src/morai/api/errors.py). A handler runs on the process of
-- Telemetry: what it logs, sends and draws is there. The web framework, which calls these functions, is not.
pub mod Envelope
pub mod Ids
mod Tests
use morai_trading_dashboard.Validation.{loc_text, Part}
use morai_trading_dashboard.Telemetry.{
  Run, ◌>>=◌, ◌>>◌, pure, read, write, log_line, capture_exception, Exception, Services, RawError,
  Process, Outcome, returned, response_validation_failed, unhandled_exception,
}
use morai_trading_dashboard.Prelude.{
  ◌<>◌, Dict, join, insert, ℕ, zero, suc, ◌+◌, ◌≤◌, ◌<◌, String, Bool, true, false, ◌&&◌, ◌||◌, not,
  Option, none, some, List, [], ◌∷◌, ◌++◌, map, ◌≡◌, refl, sym, ap, ◌∙◌, ◌⊎◌, inl, inr, arith,
  if◌then◌else◌, Eq, ◌==◌, nat_eq, text_eq, Result, ok, err, Instant, Duration, Uuid, keep, any,
  length, Bool-cases, Option-cases, Result-cases, beq_refl,
}

pub record Request : Type 0 where
  pub path : String
  pub query : String

pub data Content : Type 0 where
  json : Dict String String → Content
  other : String → Content

pub record Response : Type 0 where
  pub status_code : ℕ
  pub headers : Dict String String
  pub content : Content

abbrev pub request_id_header : String
request_id_header = "X-Request-Id"

abbrev pub draw_id : Services → Run String
draw_id v s = (returned (v.uuid4_hex s.draws), record s { draws = suc s.draws })

abbrev pub id_or_fresh : Services → Option String → Run String
id_or_fresh v (some request_id) = pure request_id
id_or_fresh v none = draw_id v

unfoldable pub current_request_id : Services → Run String
current_request_id v s = id_or_fresh v s.request_id s

abbrev pub opaque_500 : String → Response
opaque_500 request_id = record {
  status_code = 500;
  headers = [];
  content = json (("error", "internal") ∷ ("request_id", request_id) ∷ []);
}

-- `_ErrorLocation`: what is left of an entry, with the defaults for missing keys.
pub record ErrorLocation : Type 0 where
  pub loc : List Part
  pub kind : String

abbrev value_or {ℓ} : {A : Type ℓ} → Option A → A → A
value_or none a = a
value_or (some b) a = b

abbrev pub error_location : RawError → ErrorLocation
error_location e = record { loc = value_or e.loc []; kind = value_or e.kind "unknown" }

abbrev pub location_text : ErrorLocation → String
location_text d = (if loc_text d.loc == "" then "<root>" else loc_text d.loc) <> ": " <> d.kind

abbrev locations_of : String → Option (List RawError) → List String
locations_of type_name none = type_name ∷ []
locations_of type_name (some errors) = map location_text (map error_location errors)

unfoldable pub redacted_error_locations : Exception → List String
redacted_error_locations exc = locations_of exc.type_name exc.errors

abbrev pub set_request_id : Option String → Run (Unit {0})
set_request_id id = write (λ s. record s { request_id = id })

-- `finally`: the reset follows a return and a raise alike.
abbrev pub reset_to {ℓ} : {A : Type ℓ} → Option String → Outcome A × Process → Outcome A × Process
reset_to previous (result, s) = (result, record s { request_id = previous })

abbrev pub with_header : String → Response → Response
with_header request_id response = record response {
  headers = insert request_id_header request_id response.headers;
}

unfoldable pub request_id_middleware : Services → Request → (Request → Run Response) → Run Response
request_id_middleware v request call_next = do
  request_id ← draw_id v
  previous ← read (λ s. s.request_id)
  set_request_id (some request_id)
  response ← (λ s. reset_to previous (call_next request s))
  pure (with_header request_id response)

-- The rest of each handler, under the request id.
abbrev pub answer_invalid : Services → Request → Exception → String → Run Response
answer_invalid v request exc request_id = do
  log_line (response_validation_failed request_id request.path (redacted_error_locations exc))
  capture_exception v exc request_id
      (("path", request.path) ∷ ("locations", join ", " (redacted_error_locations exc)) ∷ [])
      "system"
  pure (opaque_500 request_id)

unfoldable pub response_validation_exception_handler : Services → Request → Exception → Run Response
response_validation_exception_handler v request exc =
    current_request_id v >>= answer_invalid v request exc

abbrev pub answer_unhandled : Services → Request → Exception → String → Run Response
answer_unhandled v request exc request_id = do
  log_line (unhandled_exception request_id exc.type_name)
  capture_exception v exc request_id (("path", request.path) ∷ []) "system"
  pure (opaque_500 request_id)

unfoldable pub unhandled_exception_handler : Services → Request → Exception → Run Response
unhandled_exception_handler v request exc = current_request_id v >>= answer_unhandled v request exc

-- What `install_error_handling` registers on the application.
pub record ErrorHandling : Type 0 where
  pub dispatch : Request → (Request → Run Response) → Run Response
  pub on_response_validation_error : Request → Exception → Run Response
  pub on_exception : Request → Exception → Run Response

unfoldable pub install_error_handling : Services → ErrorHandling
install_error_handling v = record {
  dispatch = request_id_middleware v;
  on_response_validation_error = response_validation_exception_handler v;
  on_exception = unhandled_exception_handler v;
}
