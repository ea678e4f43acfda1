-- ===== src/Core.antt =====
-- The runtime's shared vocabulary, src/universal_agent/core/models.py: the JSON values, the
-- enumerations and the records that the other parts exchange.
pub mod Json
pub mod Enums
pub mod Models
pub mod Decisions
mod Tests
