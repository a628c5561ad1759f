-- ===== src/Slots.antt =====
-- dcs/__init__.py: the names of replication slots, and the slot on the primary that a node depends on.
pub mod Name
pub mod Cascade
pub mod Valid
pub mod Walk
pub mod Wanted
pub mod Replication
pub mod Kept
pub mod Own
pub mod Retain
pub mod Retention
pub mod Away
pub mod WantedTests
pub mod RetainTests
pub mod Tests
