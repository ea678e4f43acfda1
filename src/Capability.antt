-- ===== src/Capability.antt =====
-- The capabilities of the domains and the choice of a tool for one,
-- src/universal_agent/capability/registry.py.
pub mod Registry
pub mod Choice
mod Tests
