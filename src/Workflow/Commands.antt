-- ===== src/Workflow/Commands.antt =====
-- WorkflowStore.settle_plan of boring_agent/workflows.py: a plan or a replacement that a client settles,
-- under an idempotency key if it gives one. `payload_hash` is the digest of the request.
pub mod Untouched
pub mod Again
use boring_orch_agent.Base.{
  ℕ, ◌+◌, String, Bool, true, false, Option, none, some, List, [], ◌∷◌, ◌++◌, find, is_none,
  if◌then◌else◌, not, ltb, ◌&&◌, str_eq,
}
use boring_orch_agent.Schema.{
  Db, Command, PlanOutcome, PlanReceipt, PlanCommand, WorkflowRoot, Spec, Result, ok, err, conflict,
  ◌>>=◌, ◌>>◌, raise_if, plan_command_keyed,
}
use boring_orch_agent.Store.Commands.{find_command, key_check, insert_command, new_command}
use boring_orch_agent.Document.Json.{Json}
use boring_orch_agent.Document.Task.{Host, TaskDocument}
use boring_orch_agent.Workflow.Admission.{root_locked}
use boring_orch_agent.Workflow.Plan.Settlement.{settle_plan_locked}

abbrev plan_kind : Bool → String
plan_kind replan = if replan then "workflow_replan" else "workflow_plan"

-- A key that is taken: the stored receipt for the same payload, else a conflict; a key of another kind
-- of command has no stored receipt.
unfoldable pub replay_plan : Command → String → Db → Result (PlanReceipt × Db)
replay_plan c payload_hash db =
    if not (str_eq c.payload_hash payload_hash)
    then err conflict
    else elim (find c.id db.workflow_plan_commands) [
      | none ↦ err conflict
      | some stored ↦ ok (record stored.receipt { duplicate = true }, db)
    ]

-- INSERT INTO workflow_plan_commands
unfoldable pub insert_plan_command : PlanCommand → Db → Result Db
insert_plan_command c db =
    if is_none (find c.command_id db.workflow_plan_commands)
    then ok (record db { workflow_plan_commands = db.workflow_plan_commands ++ c ∷ [] })
    else err conflict

abbrev keyed_receipt : PlanOutcome → ℕ → PlanReceipt
keyed_receipt outcome command_id = record {
  outcome = outcome;
  command_id = some command_id;
  duplicate = false;
}

module _ (h : Host) (authority : ℕ → TaskDocument) (workspace_root : String) (room : ℕ)
    (to_spec : TaskDocument → Spec) (uuid internal : ℕ → ℕ) (now command_id : ℕ) (workflow : ℕ)
    (plan : Json) (replan : Bool) where
  unfoldable pub record_command :
      String → String → WorkflowRoot → PlanOutcome → Db → Result (PlanReceipt × Db)
  unfolding insert_command insert_plan_command
  record_command key payload_hash root outcome db = do
    db₁ ←
        insert_command
          (new_command command_id key (plan_kind replan) root.planner_task_id payload_hash now) db
    db₂ ←
        insert_plan_command
          (record {
            command_id = command_id;
            workflow_id = workflow;
            receipt = keyed_receipt outcome command_id;
            created_at = now;
          })
          db₁
    ok (keyed_receipt outcome command_id, db₂)

  -- The root, and what settling the plan makes of the store.
  unfoldable pub settle_once : Db → Result (WorkflowRoot × (PlanOutcome × Db))
  unfolding root_locked settle_plan_locked
  settle_once db = do
    root ← root_locked workflow db
    raise_if (not replan && ltb 0 root.plan_revision) conflict
    settled ←
        settle_plan_locked h authority workspace_root room to_spec uuid internal now workflow plan
          replan db
    ok (root, settled)

  unfoldable pub settle_keyed : String → String → Db → Result (PlanReceipt × Db)
  unfolding settle_once record_command
  settle_keyed key payload_hash db = do
    r ← settle_once db
    record_command key payload_hash r.0 r.1.0 r.1.1

  -- settle_plan; with a key comes the digest, which fails for a plan that cannot be printed.
  unfoldable pub settle_plan : Option (String × Result String) → Db → Result (PlanReceipt × Db)
  unfolding key_check replay_plan settle_once settle_keyed
  settle_plan none db = do
    r ← settle_once db
    ok (record { outcome = r.1.0; command_id = none; duplicate = false }, r.1.1)
  settle_plan (some (key, digest)) db = key_check key >> do
    payload_hash ← digest
    elim (find_command key db.commands) [
      | some c ↦ replay_plan c payload_hash db
      | none ↦ settle_keyed key payload_hash db
    ]
