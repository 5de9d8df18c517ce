-- ===== src/Tools.antt =====
-- The scripts of an operator (tools of the repository), on sessions that no policy confines.
pub mod CreateAdmin
pub mod RotateKek
mod Tests
