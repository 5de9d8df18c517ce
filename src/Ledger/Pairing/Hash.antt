-- ===== src/Ledger/Pairing/Hash.antt =====
-- The idempotency key of an event (`hash_fill_ids`), and the fields of a derived event.
use mathlib.Core.List.{Permᴰ}
use morai_trading_dashboard.Prelude.{◌≡◌, ap, List, map-perm, sorted-perm, text_order, join}
use morai_trading_dashboard.Ledger.Records.{FillKey}
use morai_trading_dashboard.Ledger.Pairing.{Platform, render_key, hash_fill_ids}

-- The digest of a group does not depend on the order in which its fills are read.
pub hash_fill_ids-perm :
    (p : Platform) {keys keys' : List FillKey}
    → Permᴰ keys keys'
    → hash_fill_ids p keys ≡ hash_fill_ids p keys'
unfolding hash_fill_ids
hash_fill_ids-perm p h =
    ap (λ texts. p.sha256_hex (join ":" texts)) (sorted-perm text_order (map-perm (render_key p) h))
