-- ===== src/Ha.antt =====
-- ha.py: the leader race, the leader key and the writes of the HA loop.
pub mod Status
pub mod Node
pub mod Promoters
pub mod Race
pub mod Votes
pub mod NoLoss
pub mod Candidates
pub mod Manual
pub mod Allowed
pub mod Possible
pub mod Switch
pub mod Demote
pub mod SwitchTests
pub mod Multisync
pub mod KeySteps
pub mod KeyWithin
pub mod KeyInForce
pub mod Prepromote
pub mod Promotion
pub mod Failsafe
pub mod Lease
pub mod OneLeader
pub mod LeaseTests
pub mod Agreed
pub mod FailsafeTests
pub mod KeyTests
pub mod InForceTests
pub mod Tests
