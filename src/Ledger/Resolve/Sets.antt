-- ===== src/Ledger/Resolve/Sets.antt =====
-- `DISTINCT`: the items of a list, each once, at its first place; and membership as a test.
use morai_trading_dashboard.Prelude.{
  beq→eq, beq_refl, ap, Bool, true, List, [], ◌∷◌, ◌++◌, ◌≡◌, refl, ◌||◌, ◌&&◌, not, arith, Eq,
  ◌==◌, keep, contains, Bool-cases, inl, inr,
}

module _ {ℓ} {A : Type ℓ} ⦃e : Eq A⦄ where
  unfoldable pub distinct : List A → List A
  distinct [] = []
  distinct (x ∷ xs) = x ∷ keep (λ y. not (y == x)) (distinct xs)

  pub contains-append :
      (a : A) (xs ys : List A) → contains a (xs ++ ys) ≡ (contains a xs || contains a ys)
  contains-append a [] ys = refl
  contains-append a (x ∷ xs) ys = ground (arith, contains-append a xs ys)

  pub contains-keep :
      (a : A) (p : A → Bool) (xs : List A) → contains a (keep p xs) ≡ (contains a xs && p a)
  contains-keep a p [] = refl
  contains-keep a p (x ∷ xs) = elim (Bool-cases (a == x)) [
    | inl h ↦ ground (arith, contains-keep a p xs, ap p (beq→eq a x h))
    | inr h ↦ ground (arith, contains-keep a p xs)
  ]

  pub contains-distinct : (a : A) (xs : List A) → contains a (distinct xs) ≡ contains a xs
  unfolding distinct
  contains-distinct a [] = refl
  contains-distinct a (x ∷ xs) =
      ground (arith, contains-keep a (λ y. not (y == x)) (distinct xs), contains-distinct a xs)

  no_member→nil : (xs : List A) → ((a : A) → contains a xs ≡ true → ⊥) → xs ≡ []
  no_member→nil [] h = refl
  no_member→nil (x ∷ xs) h = absurd (h x (ground (arith, beq_refl x)))

  pub unique : List A → Bool
  unique [] = true
  unique (x ∷ xs) = not (contains x xs) && unique xs

  pub unique-keep : (p : A → Bool) (xs : List A) → unique xs ≡ true → unique (keep p xs) ≡ true
  unfolding unique
  unique-keep p [] h = refl
  unique-keep p (x ∷ xs) h = ground (arith, contains-keep x p xs, unique-keep p xs)

  pub unique-distinct : (xs : List A) → unique (distinct xs) ≡ true
  unfolding unique distinct
  unique-distinct [] = refl
  unique-distinct (x ∷ xs) = ground (
    arith,
    contains-keep x (λ y. not (y == x)) (distinct xs),
    beq_refl x,
    unique-keep (λ y. not (y == x)) (distinct xs),
    unique-distinct xs,
  )

  -- A list without repeats whose members are all one: a list of that one.
  pub one_member :
      (a : A) (xs : List A)
      → unique xs ≡ true
      → contains a xs ≡ true
      → ((b : A) → contains b xs ≡ true → b ≡ a)
      → xs ≡ a ∷ []
  unfolding unique
  one_member a [] u h one = cc
  one_member a (x ∷ []) u h one = ap (λ b. b ∷ []) (one x (ground (arith, beq_refl x)))
  one_member a (x ∷ y ∷ xs) u h one = grind (arith, beq_refl x, beq_refl y, one x, one y)
