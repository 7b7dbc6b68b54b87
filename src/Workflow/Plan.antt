-- ===== src/Workflow/Plan.antt =====
-- Plans of workflows: _validate_plan_shape, _narrow_coddy, _child_spec and what _settle_plan_locked of
-- boring_agent/workflows.py decides before it stores a plan.
pub mod Entries
pub mod Graph
pub mod Shape
pub mod Merge
pub mod Narrow
pub mod Child
pub mod Prepare
pub mod Settlement
