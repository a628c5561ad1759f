-- ===== src/Async.antt =====
-- async_executor.py: the executor of long tasks and its critical task.
pub mod Critical
pub mod Executor
pub mod Threads
pub mod Exclusion
pub mod Race
pub mod Tests
