-- ===== src/Settings/Loading.antt =====
-- `load_settings` and `get_settings` (src/morai/settings.py).
use morai_trading_dashboard.Validation.{told, loc_text, ErrorDetail, Part}
use morai_trading_dashboard.Settings.{configured, rejected, Configured, Settings}
use mathlib.Core.List.{Permᴰ}
use morai_trading_dashboard.Prelude.{
  map-perm, text_order, sorted-perm, text_leb, sorted, join, ◌<>◌, String, Option, none, some, List,
  [], ◌∷◌, map, ◌≡◌, refl, sym, ap, ◌∙◌, arith, nat_eq, text_eq,
}

-- What `Settings.model_validate({})` makes of the environment.
pub data Validated : Type 0 where
  invalid : List ErrorDetail → Validated
  valid : Settings → Validated

abbrev load_preamble : String
load_preamble =
    "Configuration rejected. Field names and failure types follow; values are withheld deliberately, because a rejected key is often a credential (NN-34).\n  "

abbrev pub offender : ErrorDetail → String
offender e = loc_text e.loc <> ": " <> e.kind

unfoldable pub load_settings : Validated → Configured Settings
load_settings (valid s) = configured s
load_settings (invalid errors) =
    rejected (load_preamble <> join "\n  " (sorted text_leb (map offender errors)))

-- `lru_cache(maxsize=1)`: the settings of the first call that returned. A raise is not kept.
abbrev keep_settings : Configured Settings → Configured Settings × Option Settings
keep_settings (rejected message) = (rejected message, none)
keep_settings (configured s) = (configured s, some s)

unfoldable pub get_settings : Validated → Option Settings → Configured Settings × Option Settings
get_settings environment (some s) = (configured s, some s)
get_settings environment none = keep_settings (load_settings environment)

abbrev offender_of : List Part × String → String
offender_of t = loc_text t.0 <> ": " <> t.1

offenders : (errors : List ErrorDetail) → map offender errors ≡ map offender_of (map told errors)
offenders [] = refl
offenders (e ∷ es) = ap (λ r. offender e ∷ r) (offenders es)

-- The message of a rejected configuration depends on the places and kinds of the failures alone: neither
-- the rejected values nor pydantic's messages nor the order of the failures change it.
pub load_settings-withholds :
    (errors others : List ErrorDetail)
    → Permᴰ (map told errors) (map told others)
    → load_settings (invalid errors) ≡ load_settings (invalid others)
unfolding load_settings
load_settings-withholds errors others p =
    ap (λ texts. rejected (load_preamble <> join "\n  " texts))
      (ap (sorted text_leb) (offenders errors)
        ∙ sorted-perm text_order (map-perm offender_of p)
        ∙ sym (ap (sorted text_leb) (offenders others)))

-- Once the settings are built, every later call gives the same settings, whatever the environment is by then.
pub get_settings-once :
    (environment later : Validated) (cache kept : Option Settings) (s : Settings)
    → get_settings environment cache ≡ (configured s, kept)
    → get_settings later kept ≡ (configured s, kept)
unfolding get_settings load_settings
get_settings-once environment later (some c) kept s h = ground arith
get_settings-once (valid c) later none kept s h = ground arith
get_settings-once (invalid errors) later none kept s h = ground arith
