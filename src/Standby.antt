-- ===== src/Standby.antt =====
-- postgresql/sync.py: `synchronous_standby_names` and the choice of synchronous standbys.
pub mod Token
pub mod Parse
pub mod Replicas
pub mod State
pub mod Listed
pub mod Handled
pub mod Chosen
pub mod Bounded
pub mod Cascade
pub mod Keyword
pub mod Lexed
pub mod Format
pub mod Names
pub mod Read
pub mod Roundtrip
pub mod Reread
pub mod Priority
pub mod InForce
pub mod Knows
pub mod Implements
pub mod ReadTests
pub mod Tests
