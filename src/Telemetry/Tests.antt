-- ===== src/Telemetry/Tests.antt =====
-- A process that has a client, and one whose settings are rejected.
use morai_trading_dashboard.Settings.Loading.{invalid}
use morai_trading_dashboard.Telemetry.Reports.{
  capture_exception-bounded, telemetry-Returns, Reports, returns,
}
use morai_trading_dashboard.Telemetry.{
  Capture, returned, shutdown, capture_event, get_client, Process, Exception, Services, Frame,
  capture_exception, Client,
}
use morai_trading_dashboard.Prelude.{
  int_text, String, true, false, none, some, List, [], ◌∷◌, ◌≡◌, refl, ◌⊎◌, nat_eq, text_eq,
}

abbrev plain_client : Client
plain_client = record { project_api_key = "phc"; host = "https://us.i.posthog.com" }

abbrev pub plain_services : Services
plain_services = record {
  constructs = λ c. true;
  accepts = λ c. true;
  shuts_down = λ c. false;
  uuid4_hex = λ n. int_text n;
  environment = invalid [];
}

abbrev pub running : Process
running = record {
  settings = none;
  client = some (some plain_client);
  sent = [];
  log = [];
  flushes = 0;
  request_id = none;
  draws = 7;
}

abbrev starting : Process
starting = record running { client = none }

abbrev frame : Frame
frame = record { filename = "app.py"; lineno = 3; name = "sync" }

abbrev pub vendor_error : Exception
vendor_error = record {
  type_name = "HTTPStatusError";
  type_module = "httpx";
  message = "https://127.0.0.1/?code=s3cret";
  traceback = frame ∷ [];
  errors = none;
}

telemetry-Returns_example :
    (returns (capture_event plain_services "u" "7" [] starting) ≡ false)
    × (returns (capture_exception plain_services vendor_error "7" [] "u" starting) ≡ false)
    × (returns (shutdown plain_services starting) ≡ false)
telemetry-Returns_example = telemetry-Returns plain_services starting vendor_error "u" "7" [] []

-- The context gives a key of its own, and one that the report also says.
abbrev context : List (String × String)
context = ("task", "sync") ∷ ("request_id", "8") ∷ []

abbrev captured : Process
captured = (capture_exception plain_services vendor_error "7" context "system" running).1

captures :
    capture_exception plain_services vendor_error "7" context "system" running
    ≡ (returned tt, captured)
unfolding capture_exception get_client
captures = refl

capture_exception-bounded_example :
    ((get_client plain_services running).0 ≡ returned none) × (captured.sent ≡ [])
    ⊎ ((client : Client) × (capture : Capture) × ((get_client plain_services running).0
          ≡ returned (some client))
        × Reports vendor_error "7" context "system" client capture
        × (captured.sent ≡ capture ∷ []))
capture_exception-bounded_example =
    capture_exception-bounded plain_services vendor_error "7" "system" context running captured
      captures
