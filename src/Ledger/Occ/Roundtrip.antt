-- ===== src/Ledger/Occ/Roundtrip.antt =====
-- Reading back a symbol that was written by the convention that `parse_occ_symbol` inverts
-- (`occ_symbol_for` in tests/ledger/oracle_seed.py).
use native.Mathlib.Nat.{div-add-mod', mod-lt, div-lt_iff_lt-mul, pow-suc}
use morai_trading_dashboard.Prelude.{
  ap, ℕ, zero, suc, ◌+◌, ◌-◌, ◌*◌, ◌/◌, ◌%◌, ◌^◌, ◌<◌, ◌≤◌, true, List, [], ◌∷◌, ◌++◌, ◌≡◌, refl,
  ◌&&◌, arith, leb, ok,
}
use morai_trading_dashboard.Ledger.Occ.{
  codes, Root, spxw, spx, OccContract, parse_root, is_digit, parse_digits, parse_letter, parse_end,
  is_date, parse_occ_symbol,
}

-- The last `n` decimal digits of a number, first digit first.
abbrev pub digits_of : ℕ → ℕ → List ℕ
digits_of zero v = []
digits_of (suc n) v = (b'0' + v / 10 ^ n) ∷ digits_of n (v % 10 ^ n)

pub ten_pow_pos : (n : ℕ) → 0 < 10 ^ n
ten_pow_pos zero = omega arith
ten_pow_pos (suc n) = omega (arith, ten_pow_pos n, pow-suc 10 n)

is_digit-lt : (q : ℕ) → q < 10 → is_digit (b'0' + q) ≡ true
is_digit-lt q h = ground arith

-- Reading as many digits as were written gives the number back.
parse_digits-digits_of :
    (n acc v : ℕ) (rest : List ℕ)
    → v < 10 ^ n
    → parse_digits n acc (digits_of n v ++ rest) ≡ ok (acc * 10 ^ n + v, rest)
unfolding parse_digits
parse_digits-digits_of zero acc v rest h = ap (λ m. ok (m, rest)) (omega arith)
parse_digits-digits_of (suc n) acc v rest h =
    let p = 10 ^ n in
    let q = v / p in
    let small : q < 10 = (div-lt_iff_lt-mul (ten_pow_pos n)).1 (omega (arith, pow-suc 10 n)) in
    let value : b'0' + q - b'0' ≡ q = omega arith in
    rw
      (
        is_digit-lt q small,
        value,
        parse_digits-digits_of n (acc * 10 + q) (v % p) rest (mod-lt v (ten_pow_pos n)),
      )
      (ap (λ m. ok (m, rest))
        (omega (arith, div-add-mod' v p, ap (λ (t : ℕ). acc * t) (pow-suc 10 n))))

abbrev pub root_codes : Root → List ℕ
root_codes spxw = codes "SPXW"
root_codes spx = codes "SPX"

-- Root, YYMMDD, the letter of the option type, and the strike in thousandths.
abbrev pub occ_text : OccContract → List ℕ → List ℕ
occ_text c tail =
    root_codes c.root
    ++ (digits_of 2 (c.expiry.year - 2000)
        ++ (digits_of 2 c.expiry.month
            ++ (digits_of 2 c.expiry.day ++ (c.option_type ∷ (digits_of 8 c.strike ++ tail)))))

abbrev pub occ_symbol_for : OccContract → List ℕ
occ_symbol_for c = occ_text c []

-- A contract of the 2000s with a real date, a capital letter and a strike of eight digits.
pub record IsWritable (c : OccContract) : Type 0 where
  pub century : 2000 ≤ c.expiry.year
  pub this_century : c.expiry.year < 2100
  pub real_date : is_date c.expiry.year c.expiry.month c.expiry.day ≡ true
  pub letter : (leb b'A' c.option_type && leb c.option_type b'Z') ≡ true
  pub eight_digits : c.strike < 100_000_000

-- The digits of a year of this century below ten are never a "W", so "SPX" is not read as "SPXW".
parse_root-root_codes :
    (root : Root) (v : ℕ) (rest : List ℕ)
    → v < 100
    → parse_root (root_codes root ++ (digits_of 2 v ++ rest)) ≡ ok (root, digits_of 2 v ++ rest)
unfolding parse_root
parse_root-root_codes spxw v rest h = refl
parse_root-root_codes spx v rest h = ground arith

parse_letter-cons :
    (c : ℕ) (s : List ℕ) → (leb b'A' c && leb c b'Z') ≡ true → parse_letter (c ∷ s) ≡ ok (c, s)
unfolding parse_letter
parse_letter-cons c s h = rw h

plain : (n : ℕ) → 0 + n ≡ n
plain n = omega arith

date_bounds : (y m d : ℕ) → is_date y m d ≡ true → (m < 100) × (d < 100)
date_bounds y m d h = ground arith

-- A written symbol with what the end of the pattern takes after it.
pub parse-occ_text :
    (c : OccContract) (tail : List ℕ)
    → IsWritable c
    → parse_end tail ≡ ok tt
    → parse_occ_symbol (occ_text c tail) ≡ ok c
unfolding parse_occ_symbol
parse-occ_text c tail w ends =
    let y = c.expiry.year - 2000 in
    let year : 2000 + (0 + y) ≡ c.expiry.year = omega arith in
    let real = date_bounds c.expiry.year c.expiry.month c.expiry.day w.real_date in
    let after_strike = tail in
    let after_letter = digits_of 8 c.strike ++ after_strike in
    let after_day = c.option_type ∷ after_letter in
    let after_month = digits_of 2 c.expiry.day ++ after_day in
    let after_year = digits_of 2 c.expiry.month ++ after_month in
    rw (
      parse_root-root_codes c.root y after_year (omega arith),
      parse_digits-digits_of 2 0 y after_year (omega arith),
      parse_digits-digits_of 2 0 c.expiry.month after_month (omega arith),
      parse_digits-digits_of 2 0 c.expiry.day after_day (omega arith),
      parse_letter-cons c.option_type after_letter w.letter,
      parse_digits-digits_of 8 0 c.strike after_strike w.eight_digits,
      year,
      plain c.expiry.month,
      plain c.expiry.day,
      plain c.strike,
      ends,
      w.real_date,
    )

-- Parsing a written symbol gives the contract back: root, expiry, option type and strike.
pub parse-occ_symbol_for :
    (c : OccContract) → IsWritable c → parse_occ_symbol (occ_symbol_for c) ≡ ok c
unfolding parse_end
parse-occ_symbol_for c w = parse-occ_text c [] w refl
