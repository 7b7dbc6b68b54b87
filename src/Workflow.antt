-- ===== src/Workflow.antt =====
-- boring_agent/workflows.py: what the manager asks of the workflow layer, plans, and the commands of clients.
pub mod Admission
pub mod Delivery
pub mod Plan
pub mod Planner
pub mod Create
pub mod Commands
