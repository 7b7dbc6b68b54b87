-- ===== src/Lifecycle.antt =====
-- What holds of every history of the store: the operations of boring_agent/store.py, manager.py and
-- runner.py taken together.
pub mod Change
pub mod History
pub mod Preserved
pub mod Outcomes
pub mod Once
pub mod Capacity
