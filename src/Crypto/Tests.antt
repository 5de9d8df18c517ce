-- ===== src/Crypto/Tests.antt =====
-- Two wrapped keys, under a cipher that leaves the text as it is and one that opens nothing.
use morai_trading_dashboard.Prelude.{
  ℕ, ◌≡◌, String, false, List, [], ◌∷◌, map, refl, ok, length, sorted,
}
use morai_trading_dashboard.Outside.{Decrypts, plain_outside}
use morai_trading_dashboard.Db.{Database, UserDataKey}
use morai_trading_dashboard.Db.Session.{Session, null}
use morai_trading_dashboard.Crypto.{rotate_kek, data_key_leb}
use morai_trading_dashboard.Crypto.Rotation.{rotate_kek-keeps, unwrapped}

abbrev key_row : ℕ → String → UserDataKey
key_row user_id dek = record {
  user_id = user_id;
  key_version = 1;
  wrapped_dek = dek;
  wrap_nonce = "n";
}

abbrev keys : List UserDataKey
keys = key_row 2 "second" ∷ key_row 1 "first" ∷ []

abbrev key_db : Database
key_db = record {
  users = [];
  sessions = [];
  setup_tokens = [];
  audit_log = [];
  user_data_keys = keys;
  fills = [];
  positions = [];
  legs = [];
  events = [];
  schwab_connections = [];
  broker_transactions = [];
  sync_runs = [];
}

abbrev key_session : Session
key_session = record { db = key_db; committed = key_db; setting = null; admin = false; draws = 0 }

plain_outside-Decrypts : Decrypts plain_outside
plain_outside-Decrypts key nonce plaintext aad = refl

rotate_kek-keeps_example :
    let after = rotate_kek plain_outside "old" "new" key_session in
    (after.0 ≡ ok (length after.1.db.user_data_keys))
    × (map (unwrapped plain_outside "new") after.1.db.user_data_keys
        ≡ map (unwrapped plain_outside "old") (sorted data_key_leb keys))
rotate_kek-keeps_example =
    rotate_kek-keeps plain_outside plain_outside-Decrypts "old" "new" key_session refl
