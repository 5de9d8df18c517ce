-- ===== src/Ledger/Occ.antt =====
-- Option symbols and the roll guard (src/morai/ledger/pairing.py). A symbol is the list of its code
-- points. Python's `\d` and `int` also take the decimal digits beyond ASCII; here a digit is ASCII.
pub mod Roundtrip
pub mod Spelling
pub mod Roll
mod Tests
use Prim.Native.String.{String as Text}
use Prim.Native.Char.{code}
use morai_trading_dashboard.Prelude.{
  ℕ, zero, suc, ◌+◌, ◌-◌, ◌*◌, ◌%◌, String, Bool, true, false, Option, none, some, List, [], ◌∷◌,
  ◌≡◌, refl, ◌↔◌, ◌&&◌, ◌||◌, not, arith, if◌then◌else◌, leb, nat_beq, Eq, ◌==◌, nat_eq, text_eq,
  Result, ok, err, raise_if, ◌>>=◌, ◌>>◌, value_error,
}
use morai_trading_dashboard.Ledger.Records.{FillRecord}
use morai_trading_dashboard.Ledger.Pairing.{FillRole, opening, closing, role_eq, classify_fill}

abbrev pub codes : String → List ℕ
codes Text.[] = []
codes (Text.◌∷◌ c s) = code c ∷ codes s

pub data Root : Type 0 where
  spxw spx : Root

abbrev root_beq : Root → Root → Bool
root_beq spxw spxw = true
root_beq spx spx = true
root_beq _ _ = false

pub root_beq_iff : (a b : Root) → (root_beq a b ≡ true) ↔ (a ≡ b)
root_beq_iff a b = ground arith

instance abbrev pub root_eq : Eq Root
root_eq = record { beq = root_beq; beq_iff = root_beq_iff }

pub record Date : Type 0 where
  pub year : ℕ
  pub month : ℕ
  pub day : ℕ

abbrev date_beq : Date → Date → Bool
date_beq a b = a.year == b.year && (a.month == b.month && a.day == b.day)

pub date_beq_iff : (a b : Date) → (date_beq a b ≡ true) ↔ (a ≡ b)
date_beq_iff a b = ground arith

instance abbrev pub date_eq : Eq Date
date_eq = record { beq = date_beq; beq_iff = date_beq_iff }

-- The strike is kept in thousandths; `Decimal(digits) / Decimal(1000)` is exact.
pub record OccContract : Type 0 where
  pub root : Root
  pub expiry : Date
  pub option_type : ℕ
  pub strike : ℕ

-- `re.match` of a literal prefix; the rest of the symbol.
pub strip_prefix : List ℕ → List ℕ → Option (List ℕ)
strip_prefix [] s = some s
strip_prefix (c ∷ prefix) [] = none
strip_prefix (c ∷ prefix) (d ∷ s) = if c == d then strip_prefix prefix s else none

-- `SPXW|SPX`. After "SPXW" the second alternative leaves a "W" where a digit must stand.
pub parse_root : List ℕ → Result (Root × List ℕ)
unfolding strip_prefix
parse_root s = elim (strip_prefix (codes "SPXW") s) [
  | some rest ↦ ok (spxw, rest)
  | none ↦ elim (strip_prefix (codes "SPX") s) [
    | some rest ↦ ok (spx, rest)
    | none ↦ err value_error
  ]
]

abbrev pub is_digit : ℕ → Bool
is_digit c = leb b'0' c && leb c b'9'

-- `\d{n}` and the number it spells, after the digits that spell `acc`.
pub parse_digits : ℕ → ℕ → List ℕ → Result (ℕ × List ℕ)
parse_digits zero acc s = ok (acc, s)
parse_digits (suc n) acc [] = err value_error
parse_digits (suc n) acc (c ∷ s) =
    if is_digit c then parse_digits n (acc * 10 + (c - b'0')) s else err value_error

-- `[A-Z]`
pub parse_letter : List ℕ → Result (ℕ × List ℕ)
parse_letter [] = err value_error
parse_letter (c ∷ s) = if leb b'A' c && leb c b'Z' then ok (c, s) else err value_error

-- `$` matches at the end and before a last newline.
pub parse_end : List ℕ → Result (Unit {0})
parse_end [] = ok tt
parse_end (c ∷ []) = if c == 10 then ok tt else err value_error
parse_end (c ∷ d ∷ s) = err value_error

-- Of the years 2000 to 2099 every fourth is a leap year.
abbrev days_in_month : ℕ → ℕ → ℕ
days_in_month y m =
    if m == 2
    then (if y % 4 == 0 then 29 else 28)
    else if m == 4 || m == 6 || m == 9 || m == 11
    then 30
    else 31

-- `datetime.date(y, m, d)` accepts these.
abbrev pub is_date : ℕ → ℕ → ℕ → Bool
is_date y m d = leb 1 m && leb m 12 && leb 1 d && leb d (days_in_month y m)

unfoldable pub parse_occ_symbol : List ℕ → Result OccContract
parse_occ_symbol s = do
  (root, s₁) ← parse_root s
  (yy, s₂) ← parse_digits 2 0 s₁
  (mm, s₃) ← parse_digits 2 0 s₂
  (dd, s₄) ← parse_digits 2 0 s₃
  (letter, s₅) ← parse_letter s₄
  (strike, s₆) ← parse_digits 8 0 s₅
  parse_end s₆
  raise_if (not (is_date (2000 + yy) mm dd)) value_error
  ok (record {
    root = root;
    expiry = record { year = 2000 + yy; month = mm; day = dd };
    option_type = letter;
    strike = strike;
  })

abbrev same_but_expiry : OccContract → OccContract → Bool
same_but_expiry c o = c.root == o.root && (c.option_type == o.option_type && c.strike == o.strike)

-- The three early returns stand before any symbol is parsed.
unfoldable pub detect_roll : FillRecord → FillRecord → Result Bool
detect_roll closing_fill opening_fill =
    if not (closing_fill.order_id == opening_fill.order_id)
    then ok false
    else if not (classify_fill closing_fill.position_effect == closing)
    then ok false
    else if not (classify_fill opening_fill.position_effect == opening)
    then ok false
    else (do
      c ← parse_occ_symbol (codes closing_fill.occ_symbol)
      o ← parse_occ_symbol (codes opening_fill.occ_symbol)
      ok (same_but_expiry c o && not (c.expiry == o.expiry)))
