-- ===== src/Workflow/Create.antt =====
-- WorkflowStore.create of boring_agent/workflows.py: a workflow and the task of its planner, in one
-- transaction. `payload_hash` is the digest of the request, and the new ids are those of uuid4.
pub mod Fresh
use boring_orch_agent.Base.{
  ℕ, String, Bool, true, false, Option, none, some, List, [], ◌∷◌, ◌++◌, find, is_none,
  if◌then◌else◌, not, str_eq,
}
use boring_orch_agent.Schema.{
  Db, Command, WorkflowRoot, RootState, Spec, Result, ok, err, conflict, ◌>>=◌, ◌>>◌, raise_if,
  event, root_keyed,
}
use boring_orch_agent.Store.Commands.{find_command, key_check, insert_command, new_command}
use boring_orch_agent.Document.Json.{Json}
use boring_orch_agent.Document.Parts.{WorkflowOptions}
use boring_orch_agent.Document.Task.{Host, TaskDocument}
use boring_orch_agent.Manager.Settle.{planner_root}
use boring_orch_agent.Workflow.Planner.{Documents, workflow_documents}
use boring_orch_agent.Workflow.Plan.Settlement.{insert_task_locked}

pub record WorkflowReceipt : Type 0 where
  pub command_id : ℕ
  pub task_id : ℕ
  pub workflow_id : ℕ
  pub duplicate : Bool

-- A key that is taken: the workflow that it created, for the same request.
unfoldable pub replay_create : Command → String → Db → Result (WorkflowReceipt × Db)
unfolding planner_root
replay_create c payload_hash db =
    if not (str_eq c.payload_hash payload_hash)
    then err conflict
    else elim (planner_root c.task_id db.workflow_roots) [
      | none ↦ err conflict
      | some root ↦ ok (
        record { command_id = c.id; task_id = c.task_id; workflow_id = root.id; duplicate = true },
        db,
      )
    ]

-- The columns max_children and max_attempts are NOT NULL; Store.transaction makes a Conflict of sqlite3's
-- IntegrityError.
unfoldable pub new_root : ℕ → ℕ → WorkflowOptions → ℕ → Result WorkflowRoot
new_root workflow_id planner_id config now = elim config.max_children [
  | none ↦ err conflict
  | some children ↦ elim config.max_attempts [
    | none ↦ err conflict
    | some attempts ↦ ok (record {
      id = workflow_id;
      state = RootState.planning;
      planner_task_id = planner_id;
      plan_revision = 0;
      max_children = children;
      max_tokens = config.max_tokens;
      max_attempts = attempts;
      tokens_used = 0;
      attempts_used = 0;
      reason = none;
      updated_at = now;
    })
  ]
]

-- INSERT INTO workflow_roots
unfoldable pub insert_root : WorkflowRoot → Db → Result Db
insert_root root db =
    if is_none (find root.id db.workflow_roots)
    then ok (record db { workflow_roots = db.workflow_roots ++ root ∷ [] })
    else err conflict

module _ (to_spec : TaskDocument → Spec) (key payload_hash : String)
    (now workflow_id planner_id command_id : ℕ) where
  unfoldable pub create_fresh : Documents → Db → Result (WorkflowReceipt × Db)
  unfolding insert_task_locked insert_command new_root insert_root
  create_fresh documents db = do
    db₁ ← insert_task_locked to_spec now documents.planner planner_id db
    db₂ ← insert_command (new_command command_id key "submit" planner_id payload_hash now) db₁
    root ← new_root workflow_id planner_id documents.config now
    db₃ ← insert_root root db₂
    ok (
      record {
        command_id = command_id;
        task_id = planner_id;
        workflow_id = workflow_id;
        duplicate = false;
      },
      event "workflow.created" (some planner_id) none now db₃,
    )

  unfoldable pub create : Host → String → Json → Db → Result (WorkflowReceipt × Db)
  unfolding key_check workflow_documents replay_create create_fresh
  create h workspace_root value db = key_check key >> do
    documents ← workflow_documents h workspace_root db.settings.allow_write value
    elim (find_command key db.commands) [
      | some c ↦ replay_create c payload_hash db
      | none ↦ create_fresh documents db
    ]
