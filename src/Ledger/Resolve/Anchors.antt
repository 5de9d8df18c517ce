-- ===== src/Ledger/Resolve/Anchors.antt =====
-- The anchors of an order and the position of a fill (RESOLVE_FILL_POSITIONS_SQL of
-- src/morai/ledger/pairing.py).
use morai_trading_dashboard.Prelude.{
  String, true, some, List, [], ◌∷◌, map, ◌≡◌, refl, sym, ap, ◌↔◌, ◌||◌, arith, ◌∙◌, ◌==◌, nat_eq,
  text_eq, pair_eq, Uuid, keep, contains, Bool-cases, inl, inr, beq_refl, beq→eq,
}
use morai_trading_dashboard.Ledger.Records.{FillKey, fill_key_eq}
use morai_trading_dashboard.Ledger.Resolve.{
  Candidate, order_leg, positions_where, anchor_of, anchors_from, order_anchors, own_positions,
  only, fits_fill, resolved_position,
}
use morai_trading_dashboard.Ledger.Resolve.Sets.{
  distinct, contains-append, contains-keep, contains-distinct, unique, unique-keep, unique-distinct,
  one_member,
}

-- The symbol groups of an order, of which one has the given position alone.
abbrev Anchored : List Candidate → List (String × String) → String → Uuid → Type 0
Anchored cs groups o p =
    (s : String) × (contains (o, s) groups ≡ true)
    × (positions_where (λ c. order_leg c == (o, s)) cs ≡ p ∷ [])

contains-anchor_of :
    (g : String) (ps : List Uuid) (o : String) (p : Uuid)
    → (contains (o, p) (anchor_of g ps) ≡ true) ↔ ((o ≡ g) × (ps ≡ p ∷ []))
contains-anchor_of g [] o p = ground arith
contains-anchor_of g (q ∷ []) o p = ground (arith, text_eq.beq_iff o g)
contains-anchor_of g (q ∷ r ∷ ps) o p = ground arith

module _ (cs : List Candidate) (g t : String) (groups : List (String × String)) (o : String)
    (p : Uuid) where
  abbrev positions_at : List Uuid
  positions_at = positions_where (λ c. order_leg c == (g, t)) cs

  split_anchors :
      contains (o, p) (anchors_from cs ((g, t) ∷ groups))
      ≡ (contains (o, p) (anchor_of g positions_at) || contains (o, p) (anchors_from cs groups))
  unfolding anchors_from
  split_anchors = contains-append (o, p) (anchor_of g positions_at) (anchors_from cs groups)

  anchor→Anchored :
      ((contains (o, p) (anchors_from cs groups) ≡ true) → Anchored cs groups o p)
      → contains (o, p) (anchors_from cs ((g, t) ∷ groups)) ≡ true
      → Anchored cs ((g, t) ∷ groups) o p
  anchor→Anchored rest h = elim (Bool-cases (contains (o, p) (anchor_of g positions_at))) [
    | inl a ↦
        let (eo, ep) = (contains-anchor_of g positions_at o p).0 a in
        (t, ground (arith, text_eq.beq_iff o g, beq_refl t), rw eo ep)
    | inr b ↦ let (s, m, e) = rest (ground (arith, split_anchors, b)) in (s, ground (arith, m), e)
  ]

  Anchored→anchor :
      (Anchored cs groups o p → contains (o, p) (anchors_from cs groups) ≡ true)
      → Anchored cs ((g, t) ∷ groups) o p
      → contains (o, p) (anchors_from cs ((g, t) ∷ groups)) ≡ true
  Anchored→anchor rest (s, m, e) = elim (Bool-cases (◌==◌ {A = String × String} (o, s) (g, t))) [
    | inl a ↦
        let same = beq→eq {A = String × String} (o, s) (g, t) a in
        let here = (contains-anchor_of g positions_at o p).1 (
          ap (λ x. x.0) same,
          ap (λ x. positions_where (λ c. order_leg c == x) cs) (sym same) ∙ e,
        ) in
        ground (arith, split_anchors, here)
    | inr b ↦ ground (arith, split_anchors, rest (s, ground (arith, m, b), e))
  ]

contains-anchors_from :
    (cs : List Candidate) (groups : List (String × String)) (o : String) (p : Uuid)
    → (contains (o, p) (anchors_from cs groups) ≡ true) ↔ Anchored cs groups o p
unfolding anchors_from
contains-anchors_from cs [] o p = ((λ h. cc), λ a. cc)
contains-anchors_from cs ((g, t) ∷ groups) o p = (
  anchor→Anchored cs g t groups o p (contains-anchors_from cs groups o p).0,
  Anchored→anchor cs g t groups o p (contains-anchors_from cs groups o p).1,
)

-- An order is anchored to a position exactly when one of the order's symbols has this position as its
-- only candidate.
pub contains-order_anchors :
    (cs : List Candidate) (o : String) (p : Uuid)
    → (contains (o, p) (order_anchors cs) ≡ true) ↔ (
        (s : String) × (contains (o, s) (map order_leg cs) ≡ true)
        × (positions_where (λ c. order_leg c == (o, s)) cs ≡ p ∷ []))
unfolding order_anchors
contains-order_anchors cs o p = (to, from)
  where
    all :
        contains (o, p) (order_anchors cs)
        ≡ contains (o, p) (anchors_from cs (distinct (map order_leg cs)))
    all = contains-distinct (o, p) (anchors_from cs (distinct (map order_leg cs)))

    spec :
        (contains (o, p) (anchors_from cs (distinct (map order_leg cs))) ≡ true)
        ↔ Anchored cs (distinct (map order_leg cs)) o p
    spec = contains-anchors_from cs (distinct (map order_leg cs)) o p

    to : contains (o, p) (order_anchors cs) ≡ true → Anchored cs (map order_leg cs) o p
    to h =
        let (s, m, e) = spec.0 (sym all ∙ h) in
        (s, sym (contains-distinct (o, s) (map order_leg cs)) ∙ m, e)

    from : Anchored cs (map order_leg cs) o p → contains (o, p) (order_anchors cs) ≡ true
    from (s, m, e) = all ∙ spec.1 (s, contains-distinct (o, s) (map order_leg cs) ∙ m, e)

-- A position that a fill may be given: one of its symbol's, and an anchor of its order.
abbrev pub Fits : List Candidate → FillKey → Uuid → Type 0
Fits cs k p =
    contains p (own_positions cs k) ≡ true × (contains (k.order_id, p) (order_anchors cs) ≡ true)

contains-fitting :
    (cs : List Candidate) (k : FillKey) (o : String) (p : Uuid)
    → (contains (o, p) (keep (fits_fill cs k) (order_anchors cs)) ≡ true)
      ↔ ((o ≡ k.order_id) × Fits cs k p)
contains-fitting cs k o p =
    ground (
      arith,
      contains-keep (o, p) (fits_fill cs k) (order_anchors cs),
      text_eq.beq_iff o k.order_id,
    )

only-one :
    (xs : List (String × Uuid)) (p : Uuid) → only xs ≡ some p → (o : String) × (xs ≡ (o, p) ∷ [])
only-one [] p h = cc
only-one ((o, q) ∷ []) p h = (o, cc)
only-one (b ∷ c ∷ xs) p h = cc

module _ (cs : List Candidate) (k : FillKey) (p : Uuid) where
  abbrev fitting : List (String × Uuid)
  fitting = keep (fits_fill cs k) (order_anchors cs)

  unique-fitting : unique fitting ≡ true
  unfolding order_anchors
  unique-fitting =
      unique-keep (fits_fill cs k) (order_anchors cs)
        (unique-distinct (anchors_from cs (distinct (map order_leg cs))))

  one→fits : (o : String) → fitting ≡ (o, p) ∷ [] → Fits cs k p × ((q : Uuid) → Fits cs k q → q ≡ p)
  one→fits o e = (
    ((contains-fitting cs k o p).0 (ap (contains (o, p)) e ∙ ground (arith, beq_refl o))).1,
    λ q f. ground (
      arith,
      sym (ap (contains (k.order_id, q)) e) ∙ (contains-fitting cs k k.order_id q).1 (refl, f),
    ),
  )

  fits→one : Fits cs k p → ((q : Uuid) → Fits cs k q → q ≡ p) → fitting ≡ (k.order_id, p) ∷ []
  fits→one f one =
      one_member (k.order_id, p) fitting unique-fitting
        ((contains-fitting cs k k.order_id p).1 (refl, f))
        (λ b h.
          let (eo, fq) = (contains-fitting cs k b.0 b.1).0 h in rw (sym eo, sym (one b.1 fq)) refl)

-- A fill is resolved to a position exactly when that position, and no other, both has a leg of the
-- fill's symbol and is an anchor of the fill's order.
pub resolved_position-unique_fit :
    (cs : List Candidate) (k : FillKey) (p : Uuid)
    → (resolved_position cs k ≡ some p) ↔ (Fits cs k p × ((q : Uuid) → Fits cs k q → q ≡ p))
unfolding resolved_position
resolved_position-unique_fit cs k p = (
  λ h. let (o, e) = only-one (fitting cs k p) p h in one→fits cs k p o e,
  λ f. ap only (fits→one cs k p f.0 f.1),
)
