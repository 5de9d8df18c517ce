-- ===== src/Ledger.antt =====
-- The ledger (src/morai/ledger): the records of fills and events, the pairing of fills into
-- events, the resolution of a fill to its position, the option symbols, and the stored tables.
pub mod Records
pub mod Pairing
pub mod Occ
pub mod Resolve
pub mod Keys
pub mod Fills
pub mod Columns
pub mod Reading
pub mod Events
pub mod Syncing
