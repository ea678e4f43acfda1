-- ===== src/Tasks.antt =====
-- The task graph of a session, src/universal_agent/tasks.
pub mod Manager
pub mod Loops
pub mod Valid
pub mod Ready
pub mod Settled
mod Tests
