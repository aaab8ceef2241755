-- ===== src/Broker.antt =====
-- codex_worker/broker.py: the maintenance of the service, and the start of a turn.
pub mod Inventory
pub mod Listing
pub mod Maintenance
pub mod Gentle
pub mod Starting
pub mod Reserving
mod Tests
