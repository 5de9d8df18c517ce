-- ===== src/Telemetry.antt =====
-- Product events and error reports (src/morai/telemetry.py). A process keeps the settings and the client that
-- `lru_cache` holds, what was sent and logged, the request id of the context, and how many ids were drawn.
pub mod Reports
pub mod Tests
use morai_trading_dashboard.Settings.Loading.{get_settings, Validated}
use morai_trading_dashboard.Settings.{configured, rejected, Configured, Settings}
use morai_trading_dashboard.Validation.{Part}
use morai_trading_dashboard.Prelude.Int.{pos, ℤ}
use morai_trading_dashboard.Prelude.{
  join, int_text, insert, ◌-◌, drop, ◌<>◌, Dict, ℕ, zero, suc, ◌+◌, ◌≤◌, ◌<◌, String, Bool, true,
  false, ◌&&◌, ◌||◌, not, Option, none, some, List, [], ◌∷◌, ◌++◌, map, ◌≡◌, refl, sym, ap, ◌∙◌,
  ◌⊎◌, inl, inr, arith, if◌then◌else◌, Eq, ◌==◌, nat_eq, text_eq, Result, ok, err, Instant,
  Duration, Uuid, keep, any, length, Bool-cases, Option-cases, Result-cases, beq_refl,
}

-- One entry of the untyped list of a `ResponseValidationError`, whose keys may be missing.
pub record RawError : Type 0 where
  pub loc : Option (List Part)
  pub kind : Option String
  pub msg : String
  pub input : String

pub record Frame : Type 0 where
  pub filename : String
  pub lineno : ℕ
  pub name : String

-- An exception: its type with its module, `str(exc)`, its traceback, and `errors()` of a
-- `ResponseValidationError`.
pub record Exception : Type 0 where
  pub type_name : String
  pub type_module : String
  pub message : String
  pub traceback : List Frame
  pub errors : Option (List RawError)

-- A property value: `str | int | float | bool`, a float as its text.
pub data Scalar : Type 0 where
  text float : String → Scalar
  int : ℤ → Scalar
  bool : Bool → Scalar

-- A `Posthog` object is what it was constructed from.
pub record Client : Type 0 where
  pub project_api_key : String
  pub host : String

pub record Capture : Type 0 where
  pub client : Client
  pub distinct_id : String
  pub event : String
  pub properties : Dict String Scalar

pub data LogLine : Type 0 where
  client_not_constructed exception_capture_failed shutdown_failed : LogLine
  capture_failed : String → LogLine
  -- request id, path, locations
  response_validation_failed : String → String → List String → LogLine
  -- request id, type
  unhandled_exception : String → String → LogLine

pub record Process : Type 0 where
  pub settings : Option Settings
  pub client : Option (Option Client)
  pub sent : List Capture
  pub log : List LogLine
  pub flushes : ℕ
  pub request_id : Option String
  pub draws : ℕ

-- The SDK and the machine: whether a construction, a capture and a shutdown return, and `uuid4().hex`; and
-- what the environment validates to.
pub record Services : Type 0 where
  pub constructs : Client → Bool
  pub accepts : Capture → Bool
  pub shuts_down : Client → Bool
  pub uuid4_hex : ℕ → String
  pub environment : Validated

pub data Outcome {ℓ} (A : Type ℓ) : Type ℓ where
  raised : Exception → Outcome A
  returned : A → Outcome A

abbrev pub Run {ℓ} : Type ℓ → Type ℓ
Run A = Process → Outcome A × Process

abbrev pub continue_with {ℓ κ} :
    {A : Type ℓ} {B : Type κ} → (A → Run B) → Outcome A × Process → Outcome B × Process
continue_with f (raised e, t) = (raised e, t)
continue_with f (returned a, t) = f a t

infixl 5 ◌>>=◌ ◌>>◌
abbrev pub ◌>>=◌ {ℓ κ} : {A : Type ℓ} {B : Type κ} → Run A → (A → Run B) → Run B
◌>>=◌ m f s = continue_with f (m s)

abbrev pub ◌>>◌ {ℓ} : {B : Type ℓ} → Run (Unit {0}) → Run B → Run B
m >> k = m >>= λ _. k

abbrev pub pure {ℓ} : {A : Type ℓ} → A → Run A
pure a s = (returned a, s)

abbrev pub read {ℓ} : {A : Type ℓ} → (Process → A) → Run A
read f s = (returned (f s), s)

abbrev pub write : (Process → Process) → Run (Unit {0})
write f s = (returned tt, f s)

abbrev pub log_line : LogLine → Run (Unit {0})
log_line line = write (λ s. record s { log = line ∷ s.log })

abbrev send : Capture → Run (Unit {0})
send capture = write (λ s. record s { sent = capture ∷ s.sent })

-- The RuntimeError of rejected settings.
abbrev pub runtime_error_of : String → Exception
runtime_error_of message = record {
  type_name = "RuntimeError";
  type_module = "builtins";
  message = message;
  traceback = [];
  errors = none;
}

abbrev settings_from : Configured Settings × Option Settings → Run Settings
settings_from (rejected message, kept) s = (raised (runtime_error_of message), s)
settings_from (configured settings, kept) s = (returned settings, record s { settings = kept })

abbrev current_settings : Services → Run Settings
current_settings v s = settings_from (get_settings v.environment s.settings) s

abbrev pub client_of : String → String → Client
client_of key host = record { project_api_key = key; host = host }

abbrev construct : Services → Settings → Option String → Run (Option Client)
construct v settings none = pure none
construct v settings (some key) =
    if v.constructs (client_of key settings.posthog_host)
    then pure (some (client_of key settings.posthog_host))
    else (log_line client_not_constructed >> pure none)

abbrev keep_client : Option Client → Run (Option Client)
keep_client client s = (returned client, record s { client = some client })

abbrev cached_client : Services → Option (Option Client) → Run (Option Client)
cached_client v (some client) = pure client
cached_client v none = do
  settings ← current_settings v
  client ← construct v settings settings.posthog_api_key
  keep_client client

unfoldable pub get_client : Services → Run (Option Client)
get_client v s = cached_client v s.client s

abbrev pub try_capture : Services → Capture → LogLine → Run (Unit {0})
try_capture v capture failure = if v.accepts capture then send capture else log_line failure

abbrev event_with : Services → String → String → Dict String Scalar → Option Client → Run (Unit {0})
event_with v distinct_id event properties none = pure tt
event_with v distinct_id event properties (some client) =
    try_capture v
      (record {
        client = client;
        distinct_id = distinct_id;
        event = event;
        properties = properties;
      })
      (capture_failed event)

unfoldable pub capture_event : Services → String → String → Dict String Scalar → Run (Unit {0})
capture_event v distinct_id event properties = do
  client ← get_client v
  event_with v distinct_id event properties client

abbrev pub max_frames : ℕ
max_frames = 30

-- `traceback.extract_tb(...)[-_MAX_FRAMES:]`
abbrev pub last_frames : List Frame → List Frame
last_frames frames = drop (length frames - max_frames) frames

abbrev pub frame_text : Frame → String
frame_text f = f.filename <> ":" <> int_text f.lineno <> " in " <> f.name

abbrev pub frame_properties : Exception → String → List Frame → Dict String Scalar
frame_properties exc request_id frames =
    ("exception_type", text exc.type_name)
    ∷ ("exception_module", text exc.type_module)
    ∷ ("request_id", text request_id)
    ∷ ("frame_count", int (pos (length frames)))
    ∷ ("frames", text (join " | " (map frame_text frames)))
    ∷ []

-- `for key, value in (context or {}).items(): properties[key] = value`
abbrev pub with_context : Dict String Scalar → List (String × String) → Dict String Scalar
with_context properties [] = properties
with_context properties ((key, value) ∷ context) =
    with_context (insert key (text value) properties) context

abbrev pub report :
    Exception → String → List (String × String) → String → Client → List Frame → Capture
report exc request_id context distinct_id client frames = record {
  client = client;
  distinct_id = distinct_id;
  event = "exception";
  properties = with_context (frame_properties exc request_id frames) context;
}

abbrev pub exception_with :
    Services → Exception → String → List (String × String) → String → Option Client → Run (Unit {0})
exception_with v exc request_id context distinct_id none = pure tt
exception_with v exc request_id context distinct_id (some client) =
    try_capture v (report exc request_id context distinct_id client (last_frames exc.traceback))
      exception_capture_failed

unfoldable pub capture_exception :
    Services → Exception → String → List (String × String) → String → Run (Unit {0})
capture_exception v exc request_id context distinct_id = do
  client ← get_client v
  exception_with v exc request_id context distinct_id client

abbrev shutdown_with : Services → Option Client → Run (Unit {0})
shutdown_with v none = pure tt
shutdown_with v (some client) =
    if v.shuts_down client
    then write (λ s. record s { flushes = suc s.flushes })
    else log_line shutdown_failed

unfoldable pub shutdown : Services → Run (Unit {0})
shutdown v = do client ← get_client v; shutdown_with v client
