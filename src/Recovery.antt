-- ===== src/Recovery.antt =====
-- src/universal_agent/recovery: the classification of failures (manager.py), the records of
-- models.py, the manager's choice of a rule, and the default rules (rules.py).
pub mod Models
pub mod Rules
pub mod Bounded
mod Tests
