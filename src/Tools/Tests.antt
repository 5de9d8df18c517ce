-- ===== src/Tools/Tests.antt =====
-- Runs of the scripts on small tables.
use morai_trading_dashboard.Crypto.Rotation.{unwrapped}
use morai_trading_dashboard.Crypto.{data_key_leb, wrap_dek, unwrap_dek, rotate_kek}
use morai_trading_dashboard.Identity.Tokens.{setup, issue_token, consume_token}
use morai_trading_dashboard.Tools.CreateAdmin.{create_admin-once, create_admin}
use morai_trading_dashboard.Fixtures.{run_db}
use morai_trading_dashboard.Tools.RotateKek.{
  rewrapped, rotate_main-rewraps, argument_key, rotate_main,
}
use Prim.Native.String.{count}
use morai_trading_dashboard.Prelude.{
  sorted, String, false, none, some, [], ◌∷◌, map, ◌≡◌, refl, arith, nat_eq, text_eq, ok, keep,
  length,
}
use morai_trading_dashboard.Outside.{plain_outside, Decrypts}
use morai_trading_dashboard.Db.{User, Bytes}
use morai_trading_dashboard.Db.Session.{open_session, null, Session}

abbrev at_start : Session
at_start = record { db = run_db; committed = run_db; setting = null; admin = false; draws = 0 }

abbrev after_first : Session
after_first = (create_admin plain_outside 5 "root" at_start).1

first_run : create_admin plain_outside 5 "root" at_start ≡ (ok (some "token"), after_first)
unfolding create_admin issue_token
first_run = refl

create_admin-once_example :
    (admin : User) × (keep (λ u. u.is_admin) after_first.committed.users ≡ admin ∷ [])
    × ((consume_token plain_outside 6 "token" setup (open_session after_first).1).0
        ≡ ok (some admin.id))
    × ((create_admin plain_outside 9 "eve" after_first).0 ≡ ok none)
    × ((create_admin plain_outside 9 "eve" after_first).1.committed ≡ after_first.committed)
create_admin-once_example =
    create_admin-once plain_outside 5 6 9 "root" "eve" "token" at_start after_first after_first
      first_run refl (omega arith) refl

abbrev new_key : String
new_key = "0123456789abcdef0123456789abcdef"

abbrev rotated : Session
rotated = (rotate_main plain_outside (λ s. some s) (some new_key) (some new_key) at_start).1

rotates :
    rotate_main plain_outside (λ s. some s) (some new_key) (some new_key) at_start
    ≡ (ok (rewrapped 1), rotated)
unfolding rotate_main rotate_kek unwrap_dek wrap_dek
rotates = refl

plain-Decrypts : Decrypts plain_outside
plain-Decrypts key nonce plaintext aad = refl

rotate_main-rewraps_example :
    (old : Bytes) × (new : Bytes) × (argument_key (λ s. some s) (some new_key) ≡ some old)
    × (argument_key (λ s. some s) (some new_key) ≡ some new)
    × (count old ≡ 32)
    × (count new ≡ 32)
    × (1 ≡ length rotated.committed.user_data_keys)
    × (map (unwrapped plain_outside new) rotated.committed.user_data_keys
        ≡ map (unwrapped plain_outside old) (sorted data_key_leb run_db.user_data_keys))
rotate_main-rewraps_example =
    rotate_main-rewraps plain_outside plain-Decrypts (λ s. some s) (some new_key) (some new_key)
      at_start rotated 1 rotates
