-- ===== src/Outside.antt =====
-- What the program takes from the libraries and the machine: hashing, random values, authenticated
-- encryption, decimal texts, and the master key of its environment. Each is a parameter of the model;
-- a source of random values gives the n-th value that is drawn from it.
use morai_trading_dashboard.Prelude.{
  if◌then◌else◌, none, false, ◌+◌, ◌==◌, text_eq, ℕ, String, Bool, Option, some, ◌≡◌, Instant, Uuid,
}
use morai_trading_dashboard.Prelude.Int.{ℤ, pos}
use morai_trading_dashboard.Money.{Decimal}
use morai_trading_dashboard.Db.{Bytes}

-- How `PasswordHasher.verify` ends: it returns, or raises VerifyMismatchError, InvalidHashError or another
-- VerificationError.
pub data Verification : Type 0 where
  verified mismatch invalid_hash unverifiable : Verification

pub record Outside : Type 0 where
  -- `hashlib.sha256(text.encode()).hexdigest()`
  pub sha256_hex : String → String
  -- `int(t.timestamp() * 1_000_000)`
  pub epoch_micros : Instant → ℤ
  -- `secrets.token_urlsafe(32)`
  pub token_urlsafe : ℕ → String
  -- `PasswordHasher.hash`, with the salt that it draws; `.verify`; `.check_needs_rehash`
  pub argon2_hash : ℕ → String → String
  pub argon2_verify : String → String → Verification
  pub argon2_stale : String → Bool
  -- `gen_random_uuid()`, `uuid4()`
  pub new_uuid : ℕ → Uuid
  -- `AESGCM.generate_key`, `os.urandom`
  pub generate_key : ℕ → Bytes
  pub urandom : ℕ → Bytes
  -- `AESGCM(key).encrypt(nonce, plaintext, associated_data)`, and `.decrypt`, where none is InvalidTag
  pub aes_encrypt : Bytes → Bytes → Bytes → Option Bytes → Bytes
  pub aes_decrypt : Bytes → Bytes → Bytes → Option Bytes → Option Bytes
  -- `str(decimal)` and `Decimal(text)`, where none is InvalidOperation
  pub decimal_text : Decimal → String
  pub read_decimal : String → Option Decimal
  pub master_key : Bytes

-- What was encrypted decrypts under the same key, nonce and associated data.
abbrev pub Decrypts : Outside → Type 0
Decrypts o =
    (key nonce plaintext : Bytes) (aad : Option Bytes)
    → o.aes_decrypt key nonce (o.aes_encrypt key nonce plaintext aad) aad ≡ some plaintext

-- A password verifies against its own hash, whatever the salt.
abbrev pub Verifies : Outside → Type 0
Verifies o =
    (salt : ℕ) (password : String)
    → o.argon2_verify (o.argon2_hash salt password) password ≡ verified

-- An instance for the tests: texts stand for their own hashes and ciphertexts.
abbrev pub plain_outside : Outside
plain_outside = record {
  sha256_hex = λ s. s;
  epoch_micros = λ t. pos t;
  token_urlsafe = λ n. "token";
  argon2_hash = λ salt p. p;
  argon2_verify = λ h p. if h == p then verified else mismatch;
  argon2_stale = λ h. false;
  new_uuid = λ n. n + 1000;
  generate_key = λ n. "key";
  urandom = λ n. "nonce";
  aes_encrypt = λ key nonce p a. p;
  aes_decrypt = λ key nonce c a. some c;
  decimal_text = λ d. "1";
  read_decimal = λ s. none;
  master_key = "master";
}
