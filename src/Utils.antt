-- ===== src/Utils.antt =====
-- utils.py: retries, and configurations that are compared and patched.
pub mod Retry
pub mod Attempts
pub mod Deadline
pub mod Tree
pub mod Patch
pub mod Patched
pub mod Changed
pub mod Compare
pub mod Tests
