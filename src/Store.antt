-- ===== src/Store.antt =====
-- boring_agent/store.py: the operations of `Store`, each a function of the store that it is given
-- and of the values that it reads from outside (the clock, new UUIDs, digests).
pub mod Commands
pub mod Observations
pub mod Workers
pub mod Retention
