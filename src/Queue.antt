-- ===== src/Queue.antt =====
-- The work queue of src/universal_agent/distributed: the data of queue_models.py in `Models`, the
-- methods of `InMemoryWorkQueue` (queue_memory.py) in `Store`, and the theorems in the others.
pub mod Models
pub mod Store
pub mod Leasing
pub mod Settling
pub mod Valid
pub mod Life
pub mod Expiry
pub mod Held
pub mod Steps
pub mod Members
pub mod Grants
pub mod Runs
pub mod Granted
pub mod Fencing
pub mod Ownership
pub mod Order
pub mod Outcomes
mod Tests
