-- ===== src/Runtime.antt =====
-- Terminal transitions of a running session, src/universal_agent/runtime.
pub mod Transitions
pub mod Finish
pub mod Cancel
mod Tests
