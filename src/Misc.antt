-- ===== src/Misc.antt =====
-- postgresql/misc.py: WAL positions, versions and timeline history.
pub mod Number
pub mod Lsn
pub mod Written
pub mod Version
pub mod Tests
