-- ===== src/Identity/Passwords.antt =====
-- Password hashing (src/morai/identity/passwords.py), over Argon2's hasher.
use morai_trading_dashboard.Outside.{
  verified, mismatch, invalid_hash, unverifiable, Outside, Verification,
}
use morai_trading_dashboard.Prelude.{
  verification_error, ℕ, String, Bool, true, false, nat_eq, text_eq, Result, ok, err,
}

-- With the n-th salt that is drawn.
abbrev pub hash_password : Outside → ℕ → String → String
hash_password o salt password = o.argon2_hash salt password

abbrev outcome_of : Verification → Result Bool
outcome_of verified = ok true
outcome_of mismatch = ok false
outcome_of invalid_hash = ok false
outcome_of unverifiable = err verification_error

unfoldable pub verify_password : Outside → String → String → Result Bool
verify_password o stored_hash password = outcome_of (o.argon2_verify stored_hash password)

abbrev pub needs_rehash : Outside → String → Bool
needs_rehash o stored_hash = o.argon2_stale stored_hash
