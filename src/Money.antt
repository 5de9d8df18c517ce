-- ===== src/Money.antt =====
-- `decimal.Decimal` as the code uses it, and money/units.py.
-- A decimal is a signed coefficient and an exponent of ten, as in the standard library, with the
-- default context: a result is rounded half to even to 28 significant digits. The sign of a zero,
-- NaN, the infinities and the exponent limits of the context are left out.
use morai_trading_dashboard.Prelude.{
  ◌≡◌, refl, ap, ◌∙◌, true, arith, ℕ, zero, suc, ◌+◌, ◌*◌, ◌/◌, ◌%◌, ◌^◌, Bool, if◌then◌else◌, ltb,
  nat_beq, ◌||◌, ◌&&◌,
}
use morai_trading_dashboard.Prelude.Int.{
  ℤ, pos, negsuc, magnitude, ◌+ℤ◌, ◌-ℤ◌, ◌*ℤ◌, neg_ℤ, min_ℤ, ltb_ℤ, pos_part,
}

pub record Decimal : Type 0 where
  pub coefficient : ℤ
  pub exponent : ℤ

abbrev precision : ℕ
precision = 28

-- How many digits of `n` are to go so that at most 28 stay; `f` bounds the search.
excess_digits : ℕ → ℕ → ℕ
excess_digits zero n = 0
excess_digits (suc f) n =
    let more = suc (excess_digits f (n / 10)) in if ltb n (10 ^ precision) then 0 else more

-- `n / 10 ^ k` rounded half to even.
round_half_even : ℕ → ℕ → ℕ
round_half_even n k =
    let unit = 10 ^ k in
    let q = n / unit in
    let r = n % unit in
    if ltb unit (2 * r) || (nat_beq unit (2 * r) && nat_beq (q % 2) 1) then q + 1 else q

abbrev with_magnitude : ℤ → ℕ → ℤ
with_magnitude (pos _) n = pos n
with_magnitude (negsuc _) n = neg_ℤ (pos n)

-- `Decimal._fix`. Rounding up to 10 ^ 28 is one digit more, which is a zero.
fix_long : ℤ → ℤ → Decimal
unfolding excess_digits round_half_even
fix_long c e =
    let k = excess_digits (magnitude c) (magnitude c) in
    let n = round_half_even (magnitude c) k in
    if ltb n (10 ^ precision)
    then record { coefficient = with_magnitude c n; exponent = e +ℤ pos k }
    else record { coefficient = with_magnitude c (n / 10); exponent = e +ℤ pos (k + 1) }

pub fix : ℤ → ℤ → Decimal
unfolding fix_long
fix c e =
    if ltb (magnitude c) (10 ^ precision)
    then record { coefficient = c; exponent = e }
    else fix_long c e

-- `a * b`
unfoldable pub mul : Decimal → Decimal → Decimal
unfolding fix
mul a b = fix (a.coefficient *ℤ b.coefficient) (a.exponent +ℤ b.exponent)

-- `-a`
unfoldable pub neg : Decimal → Decimal
unfolding fix
neg a = fix (neg_ℤ a.coefficient) a.exponent

-- The coefficient at a lower exponent.
abbrev rescale : Decimal → ℤ → ℤ
rescale a e = a.coefficient *ℤ pos (10 ^ pos_part (a.exponent -ℤ e))

-- `a + b`
unfoldable pub add : Decimal → Decimal → Decimal
unfolding fix
add a b = let e = min_ℤ a.exponent b.exponent in fix (rescale a e +ℤ rescale b e) e

abbrev pub zero_decimal : Decimal
zero_decimal = record { coefficient = pos 0; exponent = pos 0 }

abbrev pub is_zero : Decimal → Bool
is_zero a = nat_beq (magnitude a.coefficient) 0

-- `0 < a`, for an `a` that is not zero
abbrev pub is_positive : Decimal → Bool
is_positive a = ltb_ℤ (pos 0) a.coefficient

abbrev pub Usd : Type 0
Usd = Decimal

abbrev pub IndexPoints : Type 0
IndexPoints = Decimal

unfoldable pub points_to_usd : IndexPoints → ℕ → Usd
unfolding mul
points_to_usd pts multiplier = mul pts (record { coefficient = pos multiplier; exponent = pos 0 })

magnitude-neg : (c : ℤ) → magnitude (neg_ℤ c) ≡ magnitude c
unfolding neg_ℤ
magnitude-neg c = ground arith

fix-exact :
    (c e : ℤ)
    → ltb (magnitude c) (10 ^ 28) ≡ true
    → fix c e ≡ record { coefficient = c; exponent = e }
unfolding fix
fix-exact c e h = rw h refl

-- Within the precision a negation is exact.
pub neg-exact :
    (a : Decimal)
    → ltb (magnitude a.coefficient) (10 ^ 28) ≡ true
    → neg a ≡ record { coefficient = neg_ℤ a.coefficient; exponent = a.exponent }
unfolding neg
neg-exact a h =
    fix-exact (neg_ℤ a.coefficient) a.exponent
      (ap (λ n. ltb n (10 ^ 28)) (magnitude-neg a.coefficient) ∙ h)
