-- ===== src/Identity.antt =====
-- Accounts, tokens and login sessions (src/morai/identity/, src/morai/api/routes_identity.py).
-- One request sees one time `now`; the source reads the clock at each use.
pub mod Tokens
pub mod Sessions
pub mod Rls
pub mod Passwords
pub mod Account
pub mod Routes
mod Tests
