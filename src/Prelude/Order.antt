-- ===== src/Prelude/Order.antt =====
-- Insertion sort as `sorted`, over an order that is total: its result does not depend on the order
-- of its input. And the order of texts by code points.
use Prim.Native.Nat.{Ordering, compare as compare_ℕ}
use Prim.Native.Char.{Char, code}
use Prim.Native.String.{String, compare}
use Prim.Native.String.compare
use mathlib.Core.Path.{◌≡◌, refl, ap, ◌∙◌}
use mathlib.Core.Logic.{◌⊎◌}
use mathlib.Core.Bool.{Bool, true, false}
use mathlib.Core.List.{List, [], ◌∷◌, map, Permᴰ}
use native.Mathlib.Omega.{arith}
use text.Mathlib.TextEquality.{path_by_compare}
use morai_trading_dashboard.Prelude.Tests.{if◌then◌else◌}

pub record TotalOrder {ℓ} (A : Type ℓ) : Type ℓ where
  pub le : A → A → Bool
  pub total : (a b : A) → (le a b ≡ true) ⊎ (le b a ≡ true)
  pub trans : (a b c : A) → le a b ≡ true → le b c ≡ true → le a c ≡ true
  pub antisym : (a b : A) → le a b ≡ true → le b a ≡ true → a ≡ b

module _ {ℓ} {A : Type ℓ} (le : A → A → Bool) where
  abbrev pub insert_sorted : A → List A → List A
  insert_sorted a [] = a ∷ []
  insert_sorted a (x ∷ xs) = if le a x then a ∷ x ∷ xs else x ∷ insert_sorted a xs

  -- Python's `sorted(xs)`; on keys that compare equal it need not be stable here.
  abbrev pub sorted : List A → List A
  sorted [] = []
  sorted (x ∷ xs) = insert_sorted x (sorted xs)

module _ {ℓ} {A : Type ℓ} (o : TotalOrder A) where
  insert_sorted_comm :
      (a b : A) (xs : List A)
      → insert_sorted o.le a (insert_sorted o.le b xs)
        ≡ insert_sorted o.le b (insert_sorted o.le a xs)
  insert_sorted_comm a b [] = ground (arith, o.total a b, o.antisym a b)
  insert_sorted_comm a b (x ∷ xs) = ground (
    arith,
    o.total a b,
    o.antisym a b,
    o.total a x,
    o.total b x,
    o.trans a b x,
    o.trans b a x,
    insert_sorted_comm a b xs,
  )

  -- Two lists with the same items sort to one list.
  pub sorted-perm : {xs ys : List A} → Permᴰ xs ys → sorted o.le xs ≡ sorted o.le ys
  sorted-perm Permᴰ.nil = refl
  sorted-perm (Permᴰ.cons {a = a} {l₂ = l₂} e p) =
      ap (insert_sorted o.le a) (sorted-perm p) ∙ ap (λ c. insert_sorted o.le c (sorted o.le l₂)) e
  sorted-perm (Permᴰ.swap {a = a} {b = b} {b' = b'} {l = l} e f) =
      insert_sorted_comm a b (sorted o.le l)
      ∙ ap (λ c. insert_sorted o.le b (insert_sorted o.le c (sorted o.le l))) e
      ∙ ap (λ c. insert_sorted o.le c (insert_sorted o.le b' (sorted o.le l))) f
  sorted-perm (Permᴰ.trans p q) = sorted-perm p ∙ sorted-perm q

pub map-perm {ℓ κ} :
    {A : Type ℓ} {B : Type κ} (f : A → B) {xs ys : List A}
    → Permᴰ xs ys
    → Permᴰ (map f xs) (map f ys)
map-perm f Permᴰ.nil = Permᴰ.nil
map-perm f (Permᴰ.cons e p) = Permᴰ.cons (ap f e) (map-perm f p)
map-perm f (Permᴰ.swap e g) = Permᴰ.swap (ap f e) (ap f g)
map-perm f (Permᴰ.trans p q) = Permᴰ.trans (map-perm f p) (map-perm f q)

abbrev pub text_leb : String → String → Bool
text_leb s t = elim (compare s t) [ Ordering.gt ↦ false | _ ↦ true ]

-- The clauses of the comparison of texts.
nil_nil : compare "" "" ≡ Ordering.eq
nil_nil i = compare.nil-nil i

nil_cons : (c : Char) (s : String) → compare "" (String.◌∷◌ c s) ≡ Ordering.lt
nil_cons c s i = compare.nil-cons c s i

cons_nil : (c : Char) (s : String) → compare (String.◌∷◌ c s) "" ≡ Ordering.gt
cons_nil c s i = compare.cons-nil c s i

then_lem :
    (o u : Ordering)
    → Prim.Native.String.then o u
      ≡ elim o [ Ordering.lt ↦ Ordering.lt | Ordering.eq ↦ u | Ordering.gt ↦ Ordering.gt ]
then_lem Ordering.lt u = refl
then_lem Ordering.eq u = refl
then_lem Ordering.gt u = refl

cons_cons :
    (c d : Char) (s t : String)
    → compare (String.◌∷◌ c s) (String.◌∷◌ d t) ≡ elim (compare_ℕ (code c) (code d)) [
      | Ordering.lt ↦ Ordering.lt
      | Ordering.eq ↦ compare s t
      | Ordering.gt ↦ Ordering.gt
    ]
cons_cons c d s t =
    (λ i. compare.cons-cons c d s t i) ∙ then_lem (compare_ℕ (code c) (code d)) (compare s t)

pub text_total : (s t : String) → (text_leb s t ≡ true) ⊎ (text_leb t s ≡ true)
text_total String.[] String.[] = ground (arith, nil_nil)
text_total String.[] (String.◌∷◌ d t) = ground (arith, nil_cons d t)
text_total (String.◌∷◌ c s) String.[] = ground (arith, nil_cons c s)
text_total (String.◌∷◌ c s) (String.◌∷◌ d t) =
    ground (arith, cons_cons c d s t, cons_cons d c t s, text_total s t)

pub text_trans : (s t u : String) → text_leb s t ≡ true → text_leb t u ≡ true → text_leb s u ≡ true
text_trans String.[] t String.[] h k = ground (arith, nil_nil)
text_trans String.[] t (String.◌∷◌ c u) h k = ground (arith, nil_cons c u)
text_trans (String.◌∷◌ c s) String.[] u h k = ground (arith, cons_nil c s)
text_trans (String.◌∷◌ c s) (String.◌∷◌ d t) String.[] h k = ground (arith, cons_nil d t)
text_trans (String.◌∷◌ c s) (String.◌∷◌ d t) (String.◌∷◌ f u) h k =
    ground (arith, cons_cons c d s t, cons_cons d f t u, cons_cons c f s u, text_trans s t u)

pub text_antisym :
    (s t : String) → text_leb s t ≡ true → text_leb t s ≡ true → compare s t ≡ Ordering.eq
text_antisym String.[] String.[] h k = nil_nil
text_antisym String.[] (String.◌∷◌ c t) h k = ground (arith, cons_nil c t)
text_antisym (String.◌∷◌ c s) String.[] h k = ground (arith, cons_nil c s)
text_antisym (String.◌∷◌ c s) (String.◌∷◌ d t) h k =
    ground (arith, cons_cons c d s t, cons_cons d c t s, text_antisym s t)

pub text_eq_of_leb : (s t : String) → text_leb s t ≡ true → text_leb t s ≡ true → s ≡ t
text_eq_of_leb s t h k = path_by_compare s t (text_antisym s t h k)

abbrev pub text_order : TotalOrder String
text_order = record {
  le = text_leb;
  total = text_total;
  trans = text_trans;
  antisym = text_eq_of_leb;
}
