-- ===== src/Agent.antt =====
-- The loop of decisions, actions and recoveries, src/universal_agent/runtime/agent.py.
pub mod Models
pub mod Choice
pub mod Settle
pub mod Process
pub mod Recover
pub mod Drive
pub mod Loop
pub mod Steady
pub mod Ends
pub mod Counted
pub mod Stepped
pub mod Driven
pub mod Iterated
pub mod Bounded
pub mod Control
pub mod Controlled
pub mod Leaked
mod Tests
