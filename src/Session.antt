-- ===== src/Session.antt =====
-- Stored sessions, src/universal_agent/state.
pub mod Models
pub mod Copy
pub mod Paging
pub mod Store
pub mod Pages
pub mod Copied
pub mod Tables
pub mod Versions
mod Tests
