-- ===== src/Api/Errors/Envelope.antt =====
-- What the error envelope tells, and its request id (src/morai/api/errors.py).
use morai_trading_dashboard.Telemetry.{
  unhandled_exception, response_validation_failed, capture_exception, Services, Run, ◌>>=◌, ◌>>◌,
  pure, log_line,
}
use mathlib.Core.Option
use morai_trading_dashboard.Telemetry.{Exception, Frame}
use morai_trading_dashboard.Api.Errors.{
  opaque_500, current_request_id, Response, Request, unhandled_exception_handler,
  response_validation_exception_handler, error_location, ErrorLocation, redacted_error_locations,
  location_text,
}
use morai_trading_dashboard.Prelude.{
  join, String, Option, none, some, List, [], ◌∷◌, map, ◌≡◌, refl, sym, ap, ◌∙◌, arith, nat_eq,
  text_eq,
}

-- What of an exception may leave the process.
pub record Seen : Type 0 where
  pub type_name : String
  pub type_module : String
  pub traceback : List Frame
  pub errors : Option (List ErrorLocation)

abbrev pub seen : Exception → Seen
seen exc = record {
  type_name = exc.type_name;
  type_module = exc.type_module;
  traceback = exc.traceback;
  errors = Option.map (map error_location) exc.errors;
}

seen_locations : Seen → List String
seen_locations e = elim e.errors [ none ↦ e.type_name ∷ [] | some ls ↦ map location_text ls ]

redacted-seen : (exc : Exception) → redacted_error_locations exc ≡ seen_locations (seen exc)
unfolding redacted_error_locations seen_locations
redacted-seen exc = ground arith

-- What is reported of an exception, as an exception with nothing more.
hidden : Seen → Exception
hidden e = record {
  type_name = e.type_name;
  type_module = e.type_module;
  message = "";
  traceback = e.traceback;
  errors = none;
}

invalid_response : Services → String → Exception → List String → Run Response
invalid_response v path exc locations = do
  request_id ← current_request_id v
  log_line (response_validation_failed request_id path locations)
  capture_exception v exc request_id (("path", path) ∷ ("locations", join ", " locations) ∷ [])
      "system"
  pure (opaque_500 request_id)

unhandled_response : Services → String → Exception → Run Response
unhandled_response v path exc = do
  request_id ← current_request_id v
  log_line (unhandled_exception request_id exc.type_name)
  capture_exception v exc request_id (("path", path) ∷ []) "system"
  pure (opaque_500 request_id)

invalid-seen :
    (v : Services) (request : Request) (exc : Exception)
    → response_validation_exception_handler v request exc
      ≡ invalid_response v request.path (hidden (seen exc)) (seen_locations (seen exc))
unfolding response_validation_exception_handler capture_exception invalid_response hidden
invalid-seen v request exc =
    ap (invalid_response v request.path (hidden (seen exc))) (redacted-seen exc)

unhandled-seen :
    (v : Services) (request : Request) (exc : Exception)
    → unhandled_exception_handler v request exc
      ≡ unhandled_response v request.path (hidden (seen exc))
unfolding unhandled_exception_handler capture_exception unhandled_response hidden
unhandled-seen v request exc = refl

-- Both error handlers do the same, in their response, the log and the telemetry, on two exceptions that
-- agree in their type, traceback, and the places and kinds of their errors, and on two requests of one
-- path: neither the message of an exception, nor a submitted value, nor the query of a request can show.
pub handlers-Withhold :
    (v : Services) (request another : Request) (exc other_exc : Exception)
    → request.path ≡ another.path
    → seen exc ≡ seen other_exc
    → (response_validation_exception_handler v request exc
        ≡ response_validation_exception_handler v another other_exc)
      × (unhandled_exception_handler v request exc
          ≡ unhandled_exception_handler v another other_exc)
handlers-Withhold v request another exc other_exc h k = (
  invalid-seen v request exc
      ∙ ap (λ p. invalid_response v p (hidden (seen exc)) (seen_locations (seen exc))) h
      ∙ ap (λ e. invalid_response v another.path (hidden e) (seen_locations e)) k
      ∙ sym (invalid-seen v another other_exc),
  unhandled-seen v request exc
      ∙ ap (λ p. unhandled_response v p (hidden (seen exc))) h
      ∙ ap (λ e. unhandled_response v another.path (hidden e)) k
      ∙ sym (unhandled-seen v another other_exc),
)
