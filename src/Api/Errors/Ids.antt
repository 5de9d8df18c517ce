-- ===== src/Api/Errors/Ids.antt =====
-- The request id of a response (src/morai/api/errors.py).
use morai_trading_dashboard.Telemetry.Reports.{telemetry-Returns, returns, has_settings}
use morai_trading_dashboard.Api.Errors.{
  json, reset_to, with_header, request_id_middleware, answer_invalid, answer_unhandled, id_or_fresh,
  redacted_error_locations, opaque_500, Request, current_request_id, unhandled_exception_handler,
  response_validation_exception_handler, Response,
}
use morai_trading_dashboard.Settings.Loading.{load_settings, get_settings}
use morai_trading_dashboard.Telemetry.{
  ◌>>◌, pure, pure, exception_with, log_line, unhandled_exception, response_validation_failed,
  raised, continue_with, Run, exception_capture_failed, Exception, capture_exception,
  client_not_constructed, returned, Services, LogLine, Outcome, get_client, Process,
}
use morai_trading_dashboard.Prelude.{
  join, suc, none, some, refl, append_assoc, inr, sym, ap, [], ◌∙◌, inl, true, String, List, ◌∷◌,
  ◌++◌, ◌≡◌, ◌⊎◌, arith, nat_eq, text_eq,
}

-- A later process: the same context, and a log that has grown.
abbrev pub Follows : Process → Process → Type 0
Follows t u = (u.request_id ≡ t.request_id) × (later : List LogLine) × (u.log ≡ later ++ t.log)

Follows-trans : (s t u : Process) → Follows s t → Follows t u → Follows s u
Follows-trans s t u (h, later, k) (i, more, j) =
    (i ∙ h, more ++ later, j ∙ ap (λ l. more ++ l) k ∙ sym (append_assoc more later _))

-- The log is as it was, or has one more line.
Follows-line :
    (s t : Process) (line : LogLine)
    → t.request_id ≡ s.request_id
    → ((t.log ≡ s.log) ⊎ (t.log ≡ line ∷ s.log))
    → Follows s t
Follows-line s t line h (inl k) = (h, [], k)
Follows-line s t line h (inr k) = (h, line ∷ [], k)

Follows-continue {ℓ κ} :
    {A : Type ℓ} {B : Type κ} (f : A → Run B) (p : Outcome A × Process) (s : Process)
    → Follows s p.1
    → ((a : A) (t : Process) → Follows t (f a t).1)
    → Follows s (continue_with f p).1
Follows-continue f (raised e, t) s h k = h
Follows-continue f (returned a, t) s h k = Follows-trans s t (f a t).1 h (k a t)

get_client-Follows : (v : Services) (s : Process) → Follows s (get_client v s).1
unfolding get_client get_settings load_settings
get_client-Follows v s =
    Follows-line s (get_client v s).1 client_not_constructed (ground arith) (ground arith)

returned-of : (p : Outcome (Unit {0}) × Process) → returns p ≡ true → p ≡ (returned tt, p.1)
returned-of (returned x, t) h = refl
returned-of (raised e, t) h = ground (arith, h)

capture_exception-Follows :
    (v : Services) (exc : Exception) (request_id : String) (context : List (String × String))
    (s : Process)
    → Follows s (capture_exception v exc request_id context "system" s).1
unfolding capture_exception
capture_exception-Follows v exc request_id context s =
    Follows-continue _ (get_client v s) s (get_client-Follows v s) (λ client t.
      Follows-line t (exception_with v exc request_id context "system" client t).1
        exception_capture_failed (ground arith) (ground arith))

capture_exception-returned :
    (v : Services) (exc : Exception) (request_id : String) (context : List (String × String))
    (s : Process)
    → has_settings v s ≡ true
    → capture_exception v exc request_id context "system" s
      ≡ (returned tt, (capture_exception v exc request_id context "system" s).1)
capture_exception-returned v exc request_id context s h =
    returned-of (capture_exception v exc request_id context "system" s)
      ((telemetry-Returns v s exc "system" request_id [] context).1 ∙ h)

-- A response of status 500 under a request id, with a line in the log.
abbrev pub Answers : Outcome Response × Process → Process → LogLine → Response → Type 0
Answers p t line response =
    (u : Process) × (p ≡ (returned response, u))
    × (u.request_id ≡ t.request_id)
    × (later : List LogLine) × (u.log ≡ later ++ line ∷ t.log)

Answers-path :
    (p q : Outcome Response × Process) (t : Process) (line : LogLine) (response : Response)
    → p ≡ q
    → Answers q t line response
    → Answers p t line response
Answers-path p q t line response h (u, e, same, later, grown) = (u, h ∙ e, same, later, grown)

-- The end of both handlers: the log line, the report and the envelope.
report_and_answer :
    (v : Services) (exc : Exception) (request_id : String) (context : List (String × String))
    (t : Process) (line : LogLine)
    → has_settings v t ≡ true
    → Answers
        ((log_line line
            >> (capture_exception v exc request_id context "system"
                >> pure (opaque_500 request_id)))
          t)
        t
        line
        (opaque_500 request_id)
report_and_answer v exc request_id context t line h =
    let logged = record t { log = line ∷ t.log } in
    let (same, later, grown) = capture_exception-Follows v exc request_id context logged in
    (
      (capture_exception v exc request_id context "system" logged).1,
      ap (continue_with (λ _. pure (opaque_500 request_id)))
          (capture_exception-returned v exc request_id context logged h),
      same,
      later,
      grown,
    )

response_validation-Answers :
    (v : Services) (request : Request) (exc : Exception) (t : Process) (request_id : String)
    → t.request_id ≡ some request_id
    → has_settings v t ≡ true
    → Answers
        (response_validation_exception_handler v request exc t)
        t
        (response_validation_failed request_id request.path (redacted_error_locations exc))
        (opaque_500 request_id)
unfolding response_validation_exception_handler current_request_id
response_validation-Answers v request exc t request_id h k =
    Answers-path (response_validation_exception_handler v request exc t)
      (answer_invalid v request exc request_id t) t
      (response_validation_failed request_id request.path (redacted_error_locations exc))
      (opaque_500 request_id)
      (ap (λ id. continue_with (answer_invalid v request exc) (id_or_fresh v id t)) h)
      (report_and_answer v exc request_id
        (("path", request.path) ∷ ("locations", join ", " (redacted_error_locations exc)) ∷ []) t _
        k)

unhandled-Answers :
    (v : Services) (request : Request) (exc : Exception) (t : Process)
    → t.request_id ≡ none
    → has_settings v t ≡ true
    → Answers
        (unhandled_exception_handler v request exc t)
        t
        (unhandled_exception (v.uuid4_hex t.draws) exc.type_name)
        (opaque_500 (v.uuid4_hex t.draws))
unfolding unhandled_exception_handler current_request_id
unhandled-Answers v request exc t h k =
    let drawn = record t { draws = suc t.draws } in
    let id = v.uuid4_hex t.draws in
    Answers-path (unhandled_exception_handler v request exc t)
      (answer_unhandled v request exc id drawn) t (unhandled_exception id exc.type_name)
      (opaque_500 id)
      (ap (λ i. continue_with (answer_unhandled v request exc) (id_or_fresh v i t)) h)
      (report_and_answer v exc id (("path", request.path) ∷ []) drawn _ k)

-- The process in which a request is handled.
abbrev pub entered : Services → Process → Process
entered v s = record s { draws = suc s.draws; request_id = some (v.uuid4_hex s.draws) }

abbrev pub left : Process → Process → Process
left s t = record t { request_id = s.request_id }

-- Where the framework answers a request, in the context that the middleware set, by the handler of response
-- validation errors, and the settings are there, the response is the opaque one under the id of the
-- middleware, which is also in its header and in the log, and the context is what it was before the
-- request.
pub request_id_middleware-Answers :
    (v : Services) (request : Request) (call_next : Request → Run Response) (exc : Exception)
    (s t : Process)
    → call_next request (entered v s) ≡ response_validation_exception_handler v request exc t
    → t.request_id ≡ some (v.uuid4_hex s.draws)
    → has_settings v t ≡ true
    → Answers
        (request_id_middleware v request call_next s)
        (left s t)
        (response_validation_failed
          (v.uuid4_hex s.draws)
          request.path
          (redacted_error_locations exc))
        (record {
          status_code = 500;
          headers = ("X-Request-Id", v.uuid4_hex s.draws) ∷ [];
          content = json (("error", "internal") ∷ ("request_id", v.uuid4_hex s.draws) ∷ []);
        })
unfolding request_id_middleware
request_id_middleware-Answers v request call_next exc s t h same k =
    let id = v.uuid4_hex s.draws in
    let (u, e, kept, later, grown) = response_validation-Answers v request exc t id same k in
    (
      left s u,
      ap (λ p. continue_with (λ r. pure (with_header id r)) (reset_to s.request_id p)) (h ∙ e),
      refl,
      later,
      grown,
    )

-- An exception that the framework lets through leaves the middleware with the context as it was before the
-- request; where there was none and the settings are there, the handler of other exceptions then answers
-- under a fresh id, which is also in the log.
pub request_id_middleware-unhandled :
    (v : Services) (request : Request) (call_next : Request → Run Response) (exc : Exception)
    (s t : Process)
    → call_next request (entered v s) ≡ (raised exc, t)
    → s.request_id ≡ none
    → has_settings v t ≡ true
    → (request_id_middleware v request call_next s ≡ (raised exc, left s t))
      × Answers
          (unhandled_exception_handler v request exc (left s t))
          (left s t)
          (unhandled_exception (v.uuid4_hex t.draws) exc.type_name)
          (opaque_500 (v.uuid4_hex t.draws))
unfolding request_id_middleware
request_id_middleware-unhandled v request call_next exc s t h none_before k =
    let id = v.uuid4_hex s.draws in
    let outside = unhandled-Answers v request exc (left s t) none_before k in
    (ap (λ p. continue_with (λ r. pure (with_header id r)) (reset_to s.request_id p)) h, outside)
