-- ===== src/Coordination.antt =====
-- Locks and versions of the resources that actions change, src/universal_agent/coordination/locks.py.
pub mod Locks
pub mod Versions
pub mod Exclusive
mod Tests
