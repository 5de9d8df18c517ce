-- ===== src/Api.antt =====
-- The web routes that use the broker (src/morai/api).
pub mod Connections
pub mod Errors
pub mod App
mod Tests
