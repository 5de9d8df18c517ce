-- ===== src/Ledger/Occ/Spelling.antt =====
-- Which symbols `parse_occ_symbol` takes (src/morai/ledger/pairing.py).
use native.Mathlib.Nat.{
  mul-add-div_right, div-eq_of_lt, mul-add-mod_self_right, mod-eq_of_lt, pow-suc, mul-le-mul_right,
}
use mathlib.Core.Path.{subst}
use morai_trading_dashboard.Prelude.{
  err, ◌>>=◌, Error, Result, Bool, ap, sym, ◌∙◌, ℕ, zero, suc, ◌+◌, ◌-◌, ◌*◌, ◌/◌, ◌%◌, ◌^◌, ◌<◌,
  ◌≤◌, true, false, some, List, [], ◌∷◌, ◌++◌, ◌≡◌, refl, ◌&&◌, not, arith, leb, ok, ok-inj,
  ok-bind, Bool-cases, inl, inr, ◌⊎◌, ◌↔◌, value_error, raise_if, nat_eq,
}
use morai_trading_dashboard.Ledger.Occ.{
  codes, Root, OccContract, parse_root, is_digit, parse_digits, parse_letter, parse_end, is_date,
  parse_occ_symbol, strip_prefix,
}
use morai_trading_dashboard.Ledger.Occ.Roundtrip.{
  digits_of, ten_pow_pos, root_codes, occ_text, IsWritable, parse-occ_text,
}

strip_prefix-some :
    (prefix s rest : List ℕ) → strip_prefix prefix s ≡ some rest → s ≡ prefix ++ rest
unfolding strip_prefix
strip_prefix-some [] s rest h = cc
strip_prefix-some (c ∷ prefix) [] rest h = cc
strip_prefix-some (c ∷ prefix) (d ∷ s) rest h = ground (arith, h, strip_prefix-some prefix s rest)

parse_root-ok :
    (s : List ℕ) (root : Root) (rest : List ℕ)
    → parse_root s ≡ ok (root, rest)
    → s ≡ root_codes root ++ rest
unfolding parse_root
parse_root-ok s root rest h =
    ground (arith, h, strip_prefix-some (codes "SPXW") s, strip_prefix-some (codes "SPX") s)

-- A number with a first digit, and the number of the digits after it.
first_digit : (q p w : ℕ) → 0 < p → w < p → (q * p + w) / p ≡ q
first_digit q p w pos small = mul-add-div_right pos q w ∙ omega (arith, div-eq_of_lt small)

other_digits : (q p w : ℕ) → w < p → (q * p + w) % p ≡ w
other_digits q p w small = mul-add-mod_self_right q p w ∙ mod-eq_of_lt small

below : (q p w t : ℕ) → q < 10 → w < p → t ≡ p * 10 → q * p + w < t
below q p w t h small e =
    let most : q * p ≤ 9 * p = mul-le-mul_right p (omega (arith, h)) in
    omega (arith, most, small, e)

regroup : (acc q p w t : ℕ) → t ≡ p * 10 → (acc * 10 + q) * p + w ≡ acc * t + (q * p + w)
regroup acc q p w t e = omega (arith, ap (λ x. acc * x) e)

-- What was read as a number was written as it.
parse_digits-ok :
    (n acc v : ℕ) (s rest : List ℕ)
    → parse_digits n acc s ≡ ok (v, rest)
    → (w : ℕ) × (w < 10 ^ n) × (v ≡ acc * 10 ^ n + w) × (s ≡ digits_of n w ++ rest)
unfolding parse_digits
parse_digits-ok zero acc v s rest h =
    (0, omega arith, omega (arith, ap (λ p. p.0) (ok-inj h)), ap (λ p. p.1) (ok-inj h))
parse_digits-ok (suc n) acc v [] rest h = cc
parse_digits-ok (suc n) acc v (c ∷ s) rest h = elim (Bool-cases (is_digit c)) [
  | inr other ↦ ground (arith, h, other)
  | inl digit ↦
      let p = 10 ^ n in
      let q = c - b'0' in
      let read : parse_digits n (acc * 10 + q) s ≡ ok (v, rest) = ground (arith, h, digit) in
      let (w, small, value, written) = parse_digits-ok n (acc * 10 + q) v s rest read in
      let bounds : (b'0' ≤ c) × (c ≤ b'9') = ground (arith, digit) in
      let same : c ≡ b'0' + q = omega (arith, bounds.0) in
      let more : 10 ^ suc n ≡ 10 ^ n * 10 = pow-suc 10 n in
      (
        q * p + w,
        below q p w (10 ^ suc n) (omega (arith, bounds.0, bounds.1)) small more,
        value ∙ regroup acc q p w (10 ^ suc n) more,
        rw (first_digit q p w (ten_pow_pos n) small, other_digits q p w small)
            (ap (λ d. d ∷ s) same ∙ ap (λ l. (b'0' + q) ∷ l) written),
      )
]

parse_letter-ok :
    (s : List ℕ) (c : ℕ) (rest : List ℕ)
    → parse_letter s ≡ ok (c, rest)
    → (s ≡ c ∷ rest) × ((leb b'A' c && leb c b'Z') ≡ true)
unfolding parse_letter
parse_letter-ok [] c rest h = cc
parse_letter-ok (d ∷ s) c rest h = ground (arith, h)

-- What the end of the pattern takes: nothing, or a newline.
abbrev pub IsTail : List ℕ → Type 0
IsTail tail = (tail ≡ []) ⊎ (tail ≡ 10 ∷ [])

parse_end-IsTail : (s : List ℕ) (x : Unit {0}) → parse_end s ≡ ok x → IsTail s
unfolding parse_end
parse_end-IsTail [] x h = inl refl
parse_end-IsTail (c ∷ []) x h = ground (arith, h)
parse_end-IsTail (c ∷ d ∷ s) x h = cc

IsTail-parse_end : (s : List ℕ) → IsTail s → parse_end s ≡ ok tt
unfolding parse_end
IsTail-parse_end s (inl e) = rw e refl
IsTail-parse_end s (inr e) = rw e refl

raise_if-ok : (b : Bool) (x : Unit {0}) → raise_if (not b) value_error ≡ ok x → b ≡ true
raise_if-ok true x h = refl
raise_if-ok false x h = cc

number-ok :
    (n v : ℕ) (s rest : List ℕ)
    → parse_digits n 0 s ≡ ok (v, rest)
    → (v < 10 ^ n) × (s ≡ digits_of n v ++ rest)
number-ok n v s rest h =
    let (w, small, value, written) = parse_digits-ok n 0 v s rest h in
    let same : v ≡ w = omega (arith, value) in
    (omega (arith, small, same), written ∙ ap (λ x. digits_of n x ++ rest) (sym same))

-- A symbol spells a contract: it is what the convention writes for it, with at most a newline after it.
abbrev pub Spells : List ℕ → OccContract → Type 0
Spells s c = IsWritable c × ((tail : List ℕ) × IsTail tail × (s ≡ occ_text c tail))

parse-Spells : (s : List ℕ) (c : OccContract) → parse_occ_symbol s ≡ ok c → Spells s c
unfolding parse_occ_symbol
parse-Spells s c h =
    let ((root, s₁), e₁, h₁) = ok-bind (parse_root s) _ c h in
    let ((yy, s₂), e₂, h₂) = ok-bind (parse_digits 2 0 s₁) _ c h₁ in
    let ((mm, s₃), e₃, h₃) = ok-bind (parse_digits 2 0 s₂) _ c h₂ in
    let ((dd, s₄), e₄, h₄) = ok-bind (parse_digits 2 0 s₃) _ c h₃ in
    let ((letter, s₅), e₅, h₅) = ok-bind (parse_letter s₄) _ c h₄ in
    let ((strike, s₆), e₆, h₆) = ok-bind (parse_digits 8 0 s₅) _ c h₅ in
    let (x, e₇, h₇) = ok-bind (parse_end s₆) _ c h₆ in
    let (z, e₈, h₈) = ok-bind (raise_if (not (is_date (2000 + yy) mm dd)) value_error) _ c h₇ in
    let year = number-ok 2 yy s₁ s₂ e₂ in
    let month = number-ok 2 mm s₂ s₃ e₃ in
    let day = number-ok 2 dd s₃ s₄ e₄ in
    let capital = parse_letter-ok s₄ letter s₅ e₅ in
    let thousandths = number-ok 8 strike s₅ s₆ e₆ in
    let y_small : yy < 100 = year.0 in
    let k_small : strike < 100_000_000 = thousandths.0 in
    let this_year : yy ≡ 2000 + yy - 2000 = omega arith in
    subst (Spells s) (ok-inj h₈) (
      record {
        century = omega arith;
        this_century = omega (arith, y_small);
        real_date = raise_if-ok (is_date (2000 + yy) mm dd) z e₈;
        letter = capital.1;
        eight_digits = k_small;
      },
      (
        s₆,
        parse_end-IsTail s₆ x e₇,
        parse_root-ok s root s₁ e₁
            ∙ ap (λ l. root_codes root ++ l)
                (year.1
                  ∙ ap (λ l. digits_of 2 yy ++ l)
                      (month.1
                        ∙ ap (λ l. digits_of 2 mm ++ l)
                            (day.1
                              ∙ ap (λ l. digits_of 2 dd ++ l)
                                  (capital.0 ∙ ap (λ l. letter ∷ l) thousandths.1)))
                  ∙ ap
                      (λ y.
                        digits_of 2 y
                        ++ (digits_of 2 mm
                            ++ (digits_of 2 dd ++ (letter ∷ (digits_of 8 strike ++ s₆)))))
                      this_year),
      ),
    )

pub parse_occ_symbol-Spells :
    (s : List ℕ) (c : OccContract) → (parse_occ_symbol s ≡ ok c) ↔ Spells s c
parse_occ_symbol-Spells s c = (
  parse-Spells s c,
  λ (w, (tail, ends, e)).
      ap parse_occ_symbol e ∙ parse-occ_text c tail w (IsTail-parse_end tail ends),
)

-- A result that raises nothing but a ValueError.
abbrev RaisesValueError {ℓ} : {A : Type ℓ} → Result A → Type ℓ
RaisesValueError r = (e : Error) → r ≡ err e → e ≡ value_error

bind-RaisesValueError {ℓ κ} :
    {A : Type ℓ} {B : Type κ} (r : Result A) (f : A → Result B)
    → RaisesValueError r
    → ((a : A) → RaisesValueError (f a))
    → RaisesValueError (r >>= f)
bind-RaisesValueError (ok a) f first later e h = later a e h
bind-RaisesValueError (err x) f first later e h = first e (ground (arith, h))

parse_digits-RaisesValueError : (n acc : ℕ) (s : List ℕ) → RaisesValueError (parse_digits n acc s)
unfolding parse_digits
parse_digits-RaisesValueError zero acc s e h = cc
parse_digits-RaisesValueError (suc n) acc [] e h = ground (arith, h)
parse_digits-RaisesValueError (suc n) acc (c ∷ s) e h =
    ground (arith, h, parse_digits-RaisesValueError n (acc * 10 + (c - b'0')) s e)

parse_root-RaisesValueError : (s : List ℕ) → RaisesValueError (parse_root s)
unfolding parse_root
parse_root-RaisesValueError s e h = ground (arith, h)

parse_letter-RaisesValueError : (s : List ℕ) → RaisesValueError (parse_letter s)
unfolding parse_letter
parse_letter-RaisesValueError [] e h = ground (arith, h)
parse_letter-RaisesValueError (c ∷ s) e h = ground (arith, h)

parse_end-RaisesValueError : (s : List ℕ) → RaisesValueError (parse_end s)
unfolding parse_end
parse_end-RaisesValueError [] e h = cc
parse_end-RaisesValueError (c ∷ []) e h = ground (arith, h)
parse_end-RaisesValueError (c ∷ d ∷ s) e h = ground (arith, h)

raise_if-RaisesValueError : (b : Bool) → RaisesValueError (raise_if b value_error)
raise_if-RaisesValueError b e h = ground (arith, h)

-- The parser raises nothing but a ValueError.
pub parse_occ_symbol-RaisesValueError :
    (s : List ℕ) (e : Error) → parse_occ_symbol s ≡ err e → e ≡ value_error
unfolding parse_occ_symbol
parse_occ_symbol-RaisesValueError s =
    bind-RaisesValueError (parse_root s) _ (parse_root-RaisesValueError s) λ p₁.
      bind-RaisesValueError (parse_digits 2 0 p₁.1) _ (parse_digits-RaisesValueError 2 0 p₁.1) λ p₂.
        bind-RaisesValueError (parse_digits 2 0 p₂.1) _ (parse_digits-RaisesValueError 2 0 p₂.1)
          λ p₃.
            bind-RaisesValueError (parse_digits 2 0 p₃.1) _ (parse_digits-RaisesValueError 2 0 p₃.1)
              λ p₄.
                bind-RaisesValueError (parse_letter p₄.1) _ (parse_letter-RaisesValueError p₄.1)
                  λ p₅.
                    bind-RaisesValueError (parse_digits 8 0 p₅.1) _
                      (parse_digits-RaisesValueError 8 0 p₅.1)
                      λ p₆.
                        bind-RaisesValueError (parse_end p₆.1) _ (parse_end-RaisesValueError p₆.1)
                          λ x.
                            bind-RaisesValueError
                              (raise_if (not (is_date (2000 + p₂.0) p₃.0 p₄.0)) value_error) _
                              (raise_if-RaisesValueError (not (is_date (2000 + p₂.0) p₃.0 p₄.0)))
                              λ y e h. cc
