-- ===== src/Sync.antt =====
-- dcs/__init__.py: the state in the /sync key, as it is written and read.
pub mod Names
pub mod State
pub mod Handler
pub mod Commas
pub mod Written
pub mod Matching
pub mod Tests
