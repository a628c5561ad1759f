-- ===== src/Global.antt =====
-- global_config.py: the configuration of the cluster, which the store holds.
pub mod Config
pub mod Modes
pub mod Tests
