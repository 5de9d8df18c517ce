-- ===== src/Prelude/Pairs.antt =====
-- Two lists whose elements are related one by one, as the rows of a batch are to what was asked for.
use mathlib.Core.List.{List, [], ◌∷◌, ◌++◌}

module _ {A B : Type 0} where
  unfoldable pub Pairs : (A → B → Type 0) → List A → List B → Type 0
  Pairs Rel [] [] = Unit
  Pairs Rel (x ∷ xs) (y ∷ ys) = Rel x y × Pairs Rel xs ys
  Pairs Rel _ _ = ⊥

  pub Pairs-imp :
      (P Q : A → B → Type 0) (xs : List A) (ys : List B)
      → ((x : A) (y : B) → P x y → Q x y)
      → Pairs P xs ys
      → Pairs Q xs ys
  unfolding Pairs
  Pairs-imp P Q [] [] h c = tt
  Pairs-imp P Q [] (y ∷ ys) h c = absurd c
  Pairs-imp P Q (x ∷ xs) [] h c = absurd c
  Pairs-imp P Q (x ∷ xs) (y ∷ ys) h (p, c) = (h x y p, Pairs-imp P Q xs ys h c)

  pub Pairs-append :
      (P : A → B → Type 0) (xs xs' : List A) (ys ys' : List B)
      → Pairs P xs ys
      → Pairs P xs' ys'
      → Pairs P (xs ++ xs') (ys ++ ys')
  unfolding Pairs
  Pairs-append P [] xs' [] ys' p q = q
  Pairs-append P [] xs' (y ∷ ys) ys' p q = absurd p
  Pairs-append P (x ∷ xs) xs' [] ys' p q = absurd p
  Pairs-append P (x ∷ xs) xs' (y ∷ ys) ys' (h, p) q = (h, Pairs-append P xs xs' ys ys' p q)
