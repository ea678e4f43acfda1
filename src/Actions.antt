-- ===== src/Actions.antt =====
-- From a decision to an observation, src/universal_agent/runtime/actions.py.
pub mod Models
pub mod Identity
pub mod Resources
pub mod Invoke
pub mod Run
pub mod Execute
pub mod Prepare
pub mod Frame
pub mod Stable
pub mod Whole
pub mod Once
pub mod Safety
pub mod Authorised
pub mod Records
pub mod Released
pub mod Approvals
pub mod Example
mod Tests
