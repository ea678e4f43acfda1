-- ===== src/Events.antt =====
-- The event journal, `InMemoryEventStore` of src/universal_agent/state/event_store.py, and what is
-- rebuilt from it.
pub mod Journal
pub mod Index
mod Tests
