-- ===== src/Watchdog.antt =====
-- watchdog/base.py: the `Watchdog` facade and its configuration.
pub mod Action
pub mod Config
pub mod Device
pub mod Facade
pub mod Rules
pub mod Timeout
pub mod Contract
pub mod Pending
pub mod Tests
