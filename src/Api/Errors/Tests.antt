-- ===== src/Api/Errors/Tests.antt =====
-- A response whose field was rejected, in a request of a process that has a client.
use morai_trading_dashboard.Api.Errors.Envelope.{handlers-Withhold}
use morai_trading_dashboard.Validation.{index, field}
use morai_trading_dashboard.Telemetry.Tests.{running, vendor_error, plain_services}
use morai_trading_dashboard.Api.Errors.{
  json, unhandled_exception_handler, Response, request_id_middleware,
  response_validation_exception_handler, redacted_error_locations, Request,
}
use morai_trading_dashboard.Api.Errors.Ids.{request_id_middleware-Answers, entered, left, Answers}
use morai_trading_dashboard.Telemetry.{response_validation_failed, Run, RawError, Exception}
use morai_trading_dashboard.Prelude.{
  join, int_text, String, none, some, [], ◌∷◌, ◌≡◌, refl, nat_eq, text_eq,
}

abbrev entry : String → RawError
entry value = record {
  loc = some (field "response" ∷ index 0 ∷ []);
  kind = none;
  msg = "Input should be a valid string";
  input = value;
}

abbrev invalid_response_error : String → Exception
invalid_response_error value = record vendor_error {
  type_name = "ResponseValidationError";
  message = value;
  errors = some (entry value ∷ []);
}

abbrev request : String → Request
request query = record { path = "/schwab/callback"; query = query }

handlers-Withhold_example :
    (response_validation_exception_handler plain_services
        (request "code=s3cret")
        (invalid_response_error "s3cret")
      ≡ response_validation_exception_handler plain_services
          (request "")
          (invalid_response_error "other"))
    × (unhandled_exception_handler plain_services
          (request "code=s3cret")
          (invalid_response_error "s3cret")
        ≡ unhandled_exception_handler plain_services (request "") (invalid_response_error "other"))
handlers-Withhold_example =
    handlers-Withhold plain_services (request "code=s3cret") (request "")
      (invalid_response_error "s3cret") (invalid_response_error "other") refl refl

logged : redacted_error_locations (invalid_response_error "s3cret") ≡ "response.0: unknown" ∷ []
unfolding redacted_error_locations join int_text
logged = refl

abbrev answered : Request → Run Response
answered r =
    response_validation_exception_handler plain_services r (invalid_response_error "s3cret")

request_id_middleware-Answers_example :
    Answers
      (request_id_middleware plain_services (request "") answered running)
      (left running (entered plain_services running))
      (response_validation_failed
        (int_text 7)
        "/schwab/callback"
        (redacted_error_locations (invalid_response_error "s3cret")))
      (record {
        status_code = 500;
        headers = ("X-Request-Id", int_text 7) ∷ [];
        content = json (("error", "internal") ∷ ("request_id", int_text 7) ∷ []);
      })
request_id_middleware-Answers_example =
    request_id_middleware-Answers plain_services (request "") answered
      (invalid_response_error "s3cret") running (entered plain_services running) refl refl refl
