-- ===== src/Telemetry/Reports.antt =====
-- What telemetry sends, and when it raises (src/morai/telemetry.py).
use morai_trading_dashboard.Prelude.Int.{pos}
use morai_trading_dashboard.Settings.Loading.{valid, invalid, load_settings, get_settings}
use morai_trading_dashboard.Telemetry.{
  int, exception_capture_failed, text, try_capture, exception_with, with_context, frame_properties,
  Capture, report, Client, last_frames, Frame, continue_with, Run, Scalar, returned, Exception,
  shutdown, raised, capture_exception, Process, capture_event, Services, get_client, Outcome,
}
use morai_trading_dashboard.Prelude.{
  int_text, ◌<>◌, map, join, lookup-insert, insert, nat_eq, text_eq, ◌==◌, ap, some, if◌then◌else◌,
  lookup, none, Option, zero, suc, inr, length-drop, take-drop, sym, take, suc, inl, drop, ℕ, ◌-◌,
  [], ◌∷◌, ◌≤◌, length, ◌++◌, ◌⊎◌, Dict, is_some, String, Bool, true, false, ◌||◌, List, ◌≡◌, refl,
  ◌∙◌, arith, nat_eq, text_eq,
}

-- The settings are there, or can be built.
abbrev pub has_settings : Services → Process → Bool
has_settings v s =
    is_some s.client
    || is_some s.settings
    || elim v.environment [ invalid _ ↦ false | valid _ ↦ true ]

abbrev pub returns {ℓ} : {A : Type ℓ} → Outcome A × Process → Bool
returns (raised e, t) = false
returns (returned a, t) = true

get_client-returns : (v : Services) (s : Process) → returns (get_client v s) ≡ has_settings v s
unfolding get_client get_settings load_settings
get_client-returns v s = ground arith

-- What follows an action that may raise, and never raises itself.
returns-continue {ℓ κ} :
    {A : Type ℓ} {B : Type κ} (f : A → Run B) (p : Outcome A × Process)
    → ((a : A) (t : Process) → returns (f a t) ≡ true)
    → returns (continue_with f p) ≡ returns p
returns-continue f (raised e, t) h = refl
returns-continue f (returned a, t) h = h a t

-- Every function of telemetry returns, whatever the SDK does, exactly where the client or the settings were
-- built before or the environment is valid.
pub telemetry-Returns :
    (v : Services) (s : Process) (exc : Exception) (distinct_id name : String)
    (properties : Dict String Scalar) (context : List (String × String))
    → (returns (capture_event v distinct_id name properties s) ≡ has_settings v s)
      × (returns (capture_exception v exc name context distinct_id s) ≡ has_settings v s)
      × (returns (shutdown v s) ≡ has_settings v s)
unfolding capture_event capture_exception shutdown
telemetry-Returns v s exc distinct_id name properties context = (
  returns-continue _ (get_client v s) (λ c t. ground arith) ∙ get_client-returns v s,
  returns-continue _ (get_client v s) (λ c t. ground arith) ∙ get_client-returns v s,
  returns-continue _ (get_client v s) (λ c t. ground arith) ∙ get_client-returns v s,
)

get_client-sends_none : (v : Services) (s : Process) → (get_client v s).1.sent ≡ s.sent
unfolding get_client get_settings load_settings
get_client-sends_none v s = ground arith

-- The last frames of a traceback: all of it, or thirty.
abbrev pub IsEnd : List Frame → List Frame → Type 0
IsEnd frames traceback =
    (older : List Frame) × (traceback ≡ older ++ frames)
    × (length frames ≤ 30)
    × ((older ≡ []) ⊎ (length frames ≡ 30))

drop-IsEnd :
    (n : ℕ) (traceback : List Frame)
    → n ≡ length traceback - 30
    → IsEnd (drop n traceback) traceback
drop-IsEnd zero traceback h = ([], refl, omega (arith, h), inl refl)
drop-IsEnd (suc n) traceback h = (
  take (suc n) traceback,
  sym (take-drop (suc n) traceback),
  omega (arith, h, length-drop (suc n) traceback),
  inr (omega (arith, h, length-drop (suc n) traceback)),
)

last_frames-IsEnd : (traceback : List Frame) → IsEnd (last_frames traceback) traceback
last_frames-IsEnd traceback = drop-IsEnd (length traceback - 30) traceback refl

-- The value that a list of pairs gives to a key last.
abbrev pub last_of : String → List (String × String) → Option String
last_of key [] = none
last_of key ((k, value) ∷ context) = elim (last_of key context) [
  | some later ↦ some later
  | none ↦ if key == k then some value else none
]

lookup-with_context :
    (key : String) (context : List (String × String)) (properties : Dict String Scalar)
    → lookup key (with_context properties context)
      ≡ elim (last_of key context) [ some v ↦ some (text v) | none ↦ lookup key properties ]
lookup-with_context key [] properties = refl
lookup-with_context key ((k, value) ∷ context) properties = ground (
  arith,
  lookup-with_context key context (insert k (text value) properties),
  lookup-insert k key (text value) properties,
)

-- What a report says under a key that the context leaves alone.
abbrev pub said : Exception → String → List Frame → String → Option Scalar
said exc request_id frames key =
    if key == "exception_type"
    then some (text exc.type_name)
    else if key == "exception_module"
    then some (text exc.type_module)
    else if key == "request_id"
    then some (text request_id)
    else if key == "frame_count"
    then some (int (pos (length frames)))
    else if key == "frames"
    then some (
        text (
          join " | "
            (map (λ f. f.filename <> ":" <> int_text f.lineno <> " in " <> f.name) frames)))
    else none

-- What a capture must hold of an exception: the end of its traceback, under each key of the context its value, and
-- under every other key what is said of the exception.
abbrev pub Reports :
    Exception → String → List (String × String) → String → Client → Capture → Type 0
Reports exc request_id context distinct_id client capture =
    (capture.client ≡ client)
    × (capture.distinct_id ≡ distinct_id)
    × (capture.event ≡ "exception")
    × ((frames : List Frame) × IsEnd frames exc.traceback
        × ((key : String)
            → lookup key capture.properties ≡ elim (last_of key context) [
              | some v ↦ some (text v)
              | none ↦ said exc request_id frames key
            ]))

report-Reports :
    (exc : Exception) (request_id : String) (context : List (String × String))
    (distinct_id : String) (client : Client)
    → Reports exc request_id context distinct_id client
        (report exc request_id context distinct_id client (last_frames exc.traceback))
report-Reports exc request_id context distinct_id client =
    let frames = last_frames exc.traceback in
    (
      refl,
      refl,
      refl,
      (
        frames,
        last_frames-IsEnd exc.traceback,
        λ key. lookup-with_context key context (frame_properties exc request_id frames),
      ),
    )

tried :
    (v : Services) (capture : Capture) (r : Process) (before : List Capture)
    → r.sent ≡ before
    → (try_capture v capture exception_capture_failed r).1.sent
      ≡ (if v.accepts capture then capture ∷ before else before)
tried v capture r before same = ground (arith, same)

reported :
    (v : Services) (exc : Exception) (request_id : String) (context : List (String × String))
    (distinct_id : String) (before : List Capture) (t : Process)
    (p : Outcome (Option Client) × Process)
    → continue_with (exception_with v exc request_id context distinct_id) p ≡ (returned tt, t)
    → p.1.sent ≡ before
    → (p.0 ≡ returned none) × (t.sent ≡ before)
      ⊎ ((client : Client) × (capture : Capture) × (p.0 ≡ returned (some client))
          × Reports exc request_id context distinct_id client capture
          × (t.sent ≡ (if v.accepts capture then capture ∷ before else before)))
reported v exc request_id context distinct_id before t (raised e, r) h same = cc
reported v exc request_id context distinct_id before t (returned none, r) h same =
    inl (refl, ap (λ x. x.1.sent) (sym h) ∙ same)
reported v exc request_id context distinct_id before t (returned (some client), r) h same =
    let capture = report exc request_id context distinct_id client (last_frames exc.traceback) in
    inr (
      client,
      capture,
      refl,
      report-Reports exc request_id context distinct_id client,
      ap (λ x. x.1.sent) (sym h) ∙ tried v capture r before same,
    )

-- A report of an exception that returns had no client and has sent nothing, or had one and has offered it
-- one capture, which is sent if the SDK takes it. It holds the type and the module of the exception, the
-- request id, the last frames of the traceback, thirty at most, and their number, except under a key of the
-- context, which has its value there, and nothing else.
pub capture_exception-bounded :
    (v : Services) (exc : Exception) (request_id distinct_id : String)
    (context : List (String × String)) (s t : Process)
    → capture_exception v exc request_id context distinct_id s ≡ (returned tt, t)
    → ((get_client v s).0 ≡ returned none) × (t.sent ≡ s.sent)
      ⊎ ((client : Client) × (capture : Capture) × ((get_client v s).0 ≡ returned (some client))
          × Reports exc request_id context distinct_id client capture
          × (t.sent ≡ (if v.accepts capture then capture ∷ s.sent else s.sent)))
unfolding capture_exception
capture_exception-bounded v exc request_id distinct_id context s t h =
    reported v exc request_id context distinct_id s.sent t (get_client v s) h
      (get_client-sends_none v s)
