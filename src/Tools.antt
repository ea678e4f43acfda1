-- ===== src/Tools.antt =====
-- The tools of a domain, src/universal_agent/tools/runtime.py.
pub mod Registry
pub mod Invoke
pub mod Contract
mod Tests
