-- ===== src/Validation.antt =====
-- What pydantic says of a rejected value (`ValidationError.errors()`): where it stands, the kind of failure,
-- a message and the value itself. Source: the two callers, src/morai/settings.py and src/morai/api/errors.py.
use morai_trading_dashboard.Prelude.{join, int_text, ℕ, String, List, map, nat_eq, text_eq}

pub data Part : Type 0 where
  field : String → Part
  index : ℕ → Part

-- `str(part)`
abbrev pub part_text : Part → String
part_text (field name) = name
part_text (index n) = int_text n

-- `".".join(str(part) for part in loc)`
abbrev pub loc_text : List Part → String
loc_text loc = join "." (map part_text loc)

pub record ErrorDetail : Type 0 where
  pub loc : List Part
  pub kind : String
  pub msg : String
  pub input : String

-- What of an error may be told.
abbrev pub told : ErrorDetail → List Part × String
told e = (e.loc, e.kind)
