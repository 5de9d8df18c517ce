-- ===== src/Vendor.antt =====
-- The broker connection of a user (src/morai/vendor/connections.py).
pub mod Health
pub mod Client
pub mod Adapter
pub mod Connections
mod Tests
