-- ===== src/Tests.antt =====
-- The theorems at concrete stores: a small installation with one worker, and its histories.
pub mod Fixtures
pub mod Documents
mod Store
mod Retention
mod Manager
mod Lifecycle
mod Workflow
mod Document
mod Plan
mod Settlement
mod Create
