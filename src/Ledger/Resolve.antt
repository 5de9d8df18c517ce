-- ===== src/Ledger/Resolve.antt =====
-- `RESOLVE_FILL_POSITIONS_SQL` and `resolve_fill_positions` (src/morai/ledger/pairing.py): which
-- position each fill belongs to. The rows of the query come in no order; here each is listed at its
-- first candidate.
pub mod Sets
pub mod Anchors
mod Tests
use morai_trading_dashboard.Prelude.{
  ℕ, String, Bool, true, false, Option, none, some, List, [], ◌∷◌, ◌++◌, map, ◌≡◌, refl, ◌↔◌, ◌&&◌,
  arith, if◌then◌else◌, Eq, ◌==◌, nat_eq, text_eq, pair_eq, Uuid, keep, contains, Dict, insert,
}
use morai_trading_dashboard.Ledger.Records.{FillKey, fill_key_eq}
use morai_trading_dashboard.Ledger.Resolve.Sets.{distinct}
use morai_trading_dashboard.Db.{Fill, Leg}

-- A row of `fill_candidates`, within one user.
pub record Candidate : Type 0 where
  pub key : FillKey
  pub position_id : Uuid

-- The legs of the user with the symbol of a fill; never the legs of one position alone.
abbrev candidates_of : Fill → List Leg → List Candidate
candidates_of fill [] = []
candidates_of fill (leg ∷ legs) =
    if leg.user_id == fill.user_id && leg.occ_symbol == fill.key.occ_symbol
    then (record { key = fill.key; position_id = leg.position_id }) ∷ candidates_of fill legs
    else candidates_of fill legs

-- `fill_candidates`: the join, for one user.
unfoldable pub fill_candidates : Uuid → List Fill → List Leg → List Candidate
fill_candidates user_id [] legs = []
fill_candidates user_id (fill ∷ fills) legs =
    let rest = fill_candidates user_id fills legs in
    if fill.user_id == user_id then candidates_of fill legs ++ rest else rest

abbrev pub order_leg : Candidate → String × String
order_leg c = (c.key.order_id, c.key.occ_symbol)

-- The distinct positions of the candidates that pass a test.
abbrev pub positions_where : (Candidate → Bool) → List Candidate → List Uuid
positions_where p cs = distinct (map (λ c. c.position_id) (keep p cs))

abbrev anchor_of : String → List Uuid → List (String × Uuid)
anchor_of order [] = []
anchor_of order (p ∷ []) = (order, p) ∷ []
anchor_of order (p ∷ q ∷ ps) = []

-- `anchors`: an order and symbol with one distinct position anchors the order to it.
unfoldable pub anchors_from : List Candidate → List (String × String) → List (String × Uuid)
anchors_from cs [] = []
anchors_from cs (g ∷ groups) =
    anchor_of g.0 (positions_where (λ c. order_leg c == g) cs) ++ anchors_from cs groups

-- `order_anchors`
unfoldable pub order_anchors : List Candidate → List (String × Uuid)
unfolding anchors_from
order_anchors cs = distinct (anchors_from cs (distinct (map order_leg cs)))

-- The positions that one fill may belong to, by its symbol.
abbrev pub own_positions : List Candidate → FillKey → List Uuid
own_positions cs k = positions_where (λ c. c.key == k) cs

-- `COUNT(*) = 1`, or NULL.
abbrev pub only : List (String × Uuid) → Option Uuid
only [] = none
only (a ∷ []) = some a.1
only (a ∷ b ∷ r) = none

abbrev pub fits_fill : List Candidate → FillKey → String × Uuid → Bool
fits_fill cs k a = a.0 == k.order_id && contains a.1 (own_positions cs k)

-- `resolved_position_id` of a fill.
unfoldable pub resolved_position : List Candidate → FillKey → Option Uuid
unfolding order_anchors
resolved_position cs k = only (keep (fits_fill cs k) (order_anchors cs))

unfoldable pub resolve_rows : List Candidate → List FillKey → Dict FillKey (Option Uuid)
resolve_rows cs [] = []
resolve_rows cs (k ∷ keys) = (k, resolved_position cs k) ∷ resolve_rows cs keys

unfoldable pub resolve_fill_positions : Uuid → List Fill → List Leg → Dict FillKey (Option Uuid)
unfolding resolve_rows fill_candidates resolved_position
resolve_fill_positions user_id fills legs =
    let cs = fill_candidates user_id fills legs in resolve_rows cs (distinct (map (λ c. c.key) cs))
