-- ===== src/Prelude/Text.antt =====
-- Texts: decimal digits of a number, and `sep.join(parts)`.
use Prim.Native.Nat.{ℕ, zero, suc, ◌/◌, ◌%◌}
use Prim.Native.String.{String, ◌++◌ as text_append}
use mathlib.Core.List.{List, [], ◌∷◌}
use morai_trading_dashboard.Prelude.Tests.{if◌then◌else◌, ltb, nat_beq}

infixr 65 ◌<>◌
abbrev pub ◌<>◌ : String → String → String
s <> t = text_append s t

abbrev digit : ℕ → String
digit n =
    if nat_beq n 0
    then "0"
    else if nat_beq n 1
    then "1"
    else if nat_beq n 2
    then "2"
    else if nat_beq n 3
    then "3"
    else if nat_beq n 4
    then "4"
    else if nat_beq n 5
    then "5"
    else if nat_beq n 6
    then "6"
    else if nat_beq n 7
    then "7"
    else if nat_beq n 8
    then "8"
    else "9"

-- A number has at most as many digits as its value, plus one.
digits_from : ℕ → ℕ → String
digits_from zero n = digit n
digits_from (suc f) n =
    let high = digits_from f (n / 10) in if ltb n 10 then digit n else high <> digit (n % 10)

-- `str(n)`
unfoldable pub int_text : ℕ → String
unfolding digits_from
int_text n = digits_from n n

-- `sep.join(parts)`
unfoldable pub join : String → List String → String
join sep [] = ""
join sep (s ∷ []) = s
join sep (s ∷ t ∷ r) = s <> sep <> join sep (t ∷ r)
