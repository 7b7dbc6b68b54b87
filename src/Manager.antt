-- ===== src/Manager.antt =====
-- boring_agent/manager.py: admission, settlement and retry decisions, as transactions on the store.
pub mod Settle
pub mod Schedule
pub mod Tick
pub mod Validate
