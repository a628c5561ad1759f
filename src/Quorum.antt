-- ===== src/Quorum.antt =====
-- `QuorumStateResolver` of quorum.py: its state, the two places it describes, and the two updates.
-- A generator is an action on the object and on the transitions yielded so far.
pub mod Generator
pub mod Transition
pub mod Resolver
pub mod Steps
pub mod Overlap
pub mod Guarantee
pub mod Places
pub mod Safety
pub mod SafeUpdates
pub mod SafeSteps
pub mod SafeFailover
pub mod Iteration
pub mod Steady
mod Tests
