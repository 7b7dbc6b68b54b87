-- ===== src/Workflow/Create/Fresh.antt =====
-- A workflow that WorkflowStore.create of boring_agent/workflows.py has created.
use boring_orch_agent.Base.{
  ℕ, ◌≡◌, refl, ◌∙◌, String, Bool, true, false, some, [], ◌∷◌, ◌&&◌, not, ◌⊎◌, inl, inr, Option,
  none, Option-cases, Bool-cases, find, find-append_none, str_eq, arith,
}
use boring_orch_agent.Schema.{
  Db, Task, Command, WorkflowRoot, Sandbox, ok, conflict, invalid_request, Post, task_keyed,
  root_keyed, RootState,
}
use boring_orch_agent.Store.Commands.{
  find_command, key_check, insert_task, insert_command, new_task, new_command,
}
use boring_orch_agent.Document.Json.{Number, Json, Fields, obj, mem}
use boring_orch_agent.Document.Checks.{as_object}
use boring_orch_agent.Document.Ensures.{
  Ensures, returns, raises, step, any, ensured, witnessed, Post-Ensures,
}
use boring_orch_agent.Document.Parts.{WorkflowOptions}
use boring_orch_agent.Document.Task.{Host, TaskDocument, may_write}
use boring_orch_agent.Document.Validate.{validate_spec, spec_of}
use boring_orch_agent.Document.Authority.{never_raised}
use boring_orch_agent.Document.Accepted.{validate_spec-IsPermitted}
use boring_orch_agent.Manager.Settle.{planner_root}
use boring_orch_agent.Workflow.Planner.{Documents, planning, planner_fields, workflow_documents}
use boring_orch_agent.Workflow.Plan.Settlement.{insert_task_locked}
use boring_orch_agent.Workflow.Create.{
  WorkflowReceipt, replay_create, new_root, insert_root, create_fresh, create,
}

-- A document that gives no right to write.
abbrev pub IsReadOnly : TaskDocument → Type 0
IsReadOnly t = (may_write t.sandbox ≡ false) × (mem "write_file" t.tools ≡ false)

-- What a workflow starts from, by the client's request.
pub record StartsFrom (h : Host) (workspace_root : String) (allow_write : Bool) (value : Json)
    (d : Documents) : Type 0 where
  pub raw : Fields
  pub object : value ≡ obj raw
  pub accepted : validate_spec h value workspace_root allow_write ≡ ok d.root
  pub opted_in : d.root.workflow ≡ some d.config
  pub enabled : d.config.enabled ≡ true
  pub derived :
      validate_spec h (obj (planner_fields raw d.root d.config)) workspace_root false ≡ ok d.planner
  pub read_only : IsReadOnly d.planner

read_only_sandbox : (s : Sandbox) → may_write s ≡ false → s ≡ Sandbox.read_only
read_only_sandbox s h = ground (arith, h)

granted_nothing :
    (a b : Bool) → (a && not false) ≡ false → (b && not a) ≡ false → (a ≡ false) × (b ≡ false)
granted_nothing a b h k = ground (arith, h, k)

as_object-obj : (value : Json) → Ensures (λ fs. value ≡ obj fs) (as_object value)
as_object-obj (obj fs) = returns fs refl
as_object-obj _ = raises invalid_request

planning-enabled :
    (o : Option WorkflowOptions) → Ensures (λ c. (o ≡ some c) × (c.enabled ≡ true)) (planning o)
unfolding planning
planning-enabled none = raises invalid_request
planning-enabled (some c) =
    step (never_raised (not c.enabled)) λ _ e. returns c (refl, ground (arith, e))

workflow_documents-StartsFrom :
    (h : Host) (workspace_root : String) (allow_write : Bool) (value : Json)
    → Ensures
        (StartsFrom h workspace_root allow_write value)
        (workflow_documents h workspace_root allow_write value)
unfolding workflow_documents
workflow_documents-StartsFrom h workspace_root allow_write value =
    step (as_object-obj value) λ raw object.
      step (witnessed (validate_spec h value workspace_root allow_write)) λ root accepted.
        step (planning-enabled root.workflow) λ config opted.
          step
            (witnessed
              (validate_spec h (obj (planner_fields raw root config)) workspace_root false))
            λ planner derived.
              let permitted =
                validate_spec-IsPermitted h workspace_root false
                  (obj (planner_fields raw root config)) planner derived in
              returns _ (record {
                raw = raw;
                object = object;
                accepted = accepted;
                opted_in = opted.0;
                enabled = opted.1;
                derived = derived;
                read_only =
                    granted_nothing (may_write planner.sandbox) (mem "write_file" planner.tools)
                      permitted.0 permitted.1;
              })

insert_task-stored :
    (t : Task) (db : Db) → Ensures (λ d. find t.id d.tasks ≡ some t) (insert_task t db)
unfolding insert_task find
insert_task-stored t db = elim (Option-cases (find t.id db.tasks)) [
  | inl e ↦
      rw (e, insert_task) (returns _ (find-append_none t.id db.tasks (t ∷ []) e ∙ ground arith))
  | inr (u, e) ↦ rw (e, insert_task) (raises conflict)
]

insert_command-tasks :
    (c : Command) (db : Db) → Post (λ d. d.tasks ≡ db.tasks) (insert_command c db)
unfolding insert_command
insert_command-tasks c db = ground arith

insert_root-stored :
    (r : WorkflowRoot) (db : Db)
    → Ensures (λ d. (find r.id d.workflow_roots ≡ some r) × (d.tasks ≡ db.tasks)) (insert_root r db)
unfolding insert_root find
insert_root-stored r db = elim (Option-cases (find r.id db.workflow_roots)) [
  | inl e ↦
      rw (e, insert_root)
        (returns _ (find-append_none r.id db.workflow_roots (r ∷ []) e ∙ ground arith, refl))
  | inr (u, e) ↦ rw (e, insert_root) (raises conflict)
]

-- A root that waits for the plan of a planner, within the limits of the options, and has used nothing.
abbrev pub IsPlanning : ℕ → WorkflowOptions → WorkflowRoot → Type 0
IsPlanning planner_id config r =
    (r.state ≡ RootState.planning)
    × (r.planner_task_id ≡ planner_id)
    × (r.plan_revision ≡ 0)
    × (config.max_children ≡ some r.max_children)
    × (r.max_tokens ≡ config.max_tokens)
    × (config.max_attempts ≡ some r.max_attempts)
    × (r.tokens_used ≡ 0)
    × (r.attempts_used ≡ 0)

new_root-IsPlanning :
    (workflow_id planner_id : ℕ) (config : WorkflowOptions) (now : ℕ)
    → Ensures
        (λ r. (r.id ≡ workflow_id) × IsPlanning planner_id config r)
        (new_root workflow_id planner_id config now)
unfolding new_root
new_root-IsPlanning workflow_id planner_id config now = elim (Option-cases config.max_children) [
  | inl e ↦ rw (e, new_root) (raises conflict)
  | inr (n, e) ↦ elim (Option-cases config.max_attempts) [
    | inl f ↦ rw (e, f, new_root) (raises conflict)
    | inr (m, f) ↦
        rw (e, f, new_root) (returns _ (refl, (refl, refl, refl, refl, refl, refl, refl, refl)))
  ]
]

module _ (ticks : Number → ℕ) (schema : Json → String) (now : ℕ) (h : Host)
    (workspace_root : String) (value : Json) where
  -- The rows of a workflow that has been created from the request.
  pub record IsCreated (allow_write : Bool) (receipt : WorkflowReceipt) (db : Db) : Type 0 where
    pub documents : Documents
    pub starts : StartsFrom h workspace_root allow_write value documents
    pub task_row :
        find receipt.task_id db.tasks
        ≡ some (record (new_task receipt.task_id (spec_of ticks schema documents.planner) now) {
          version = 0;
        })
    pub stored_read_only : (spec_of ticks schema documents.planner).sandbox ≡ Sandbox.read_only
    pub root : WorkflowRoot
    pub root_row : find receipt.workflow_id db.workflow_roots ≡ some root
    pub planning : IsPlanning receipt.task_id documents.config root

  module _ (key payload_hash : String) (workflow_id planner_id command_id : ℕ) where
    abbrev Created : Bool → WorkflowReceipt × Db → Type 0
    Created allow_write r = (r.0.duplicate ≡ true) ⊎ IsCreated allow_write r.0 r.1

    create_fresh-Created :
        (allow_write : Bool) (documents : Documents) (db : Db)
        → StartsFrom h workspace_root allow_write value documents
        → Ensures (Created allow_write) (
            create_fresh
              (spec_of ticks schema)
              key
              payload_hash
              now
              workflow_id
              planner_id
              command_id
              documents
              db)
    unfolding create_fresh insert_task_locked spec_of
    create_fresh-Created allow_write documents db starts =
        let row = record (new_task planner_id (spec_of ticks schema documents.planner) now) {
          version = 0;
        } in
        let c = new_command command_id key "submit" planner_id payload_hash now in
        step {P = λ d. find planner_id d.tasks ≡ some row}
          (step (insert_task-stored row db) λ d stored. returns _ stored)
          λ d₁ stored.
            step
              (Post-Ensures (λ d. d.tasks ≡ d₁.tasks) (insert_command c d₁)
                (insert_command-tasks c d₁))
              λ d₂ same.
                step (new_root-IsPlanning workflow_id planner_id documents.config now)
                  λ root planning. step (insert_root-stored root d₂) λ d₃ rooted. returns _ (
                    inr (record {
                      documents = documents;
                      starts = starts;
                      task_row = rw (rooted.1, same) stored;
                      stored_read_only =
                          read_only_sandbox documents.planner.sandbox starts.read_only.0;
                      root = root;
                      root_row = rw (← planning.0) rooted.0;
                      planning = planning.1;
                    }))

    replay_create-Created :
        (allow_write : Bool) (c : Command) (db : Db)
        → Ensures (Created allow_write) (replay_create c payload_hash db)
    unfolding replay_create
    replay_create-Created allow_write c db =
        elim (Bool-cases (str_eq c.payload_hash payload_hash)) [
          | inl same ↦ elim (Option-cases (planner_root c.task_id db.workflow_roots)) [
            | inl e ↦ rw (same, e, replay_create) (raises conflict)
            | inr (root, e) ↦ rw (same, e, replay_create) (returns _ (inl refl))
          ]
          | inr other ↦ rw (other, replay_create) (raises conflict)
        ]

    create-Created :
        (db : Db)
        → Ensures (Created db.settings.allow_write) (
            create
              (spec_of ticks schema)
              key
              payload_hash
              now
              workflow_id
              planner_id
              command_id
              h
              workspace_root
              value
              db)
    unfolding create
    create-Created db = step (any (key_check key)) λ _ _.
        step (workflow_documents-StartsFrom h workspace_root db.settings.allow_write value)
          λ documents starts. elim (Option-cases (find_command key db.commands)) [
            | inl e ↦ rw e (create_fresh-Created db.settings.allow_write documents db starts)
            | inr (c, e) ↦ rw e (replay_create-Created db.settings.allow_write c db)
          ]

    -- When create answers that it has created a workflow, the request was an object that validate_spec
    -- accepts and that opts in to planning, and the store holds the task of its planner and its root. The
    -- planner's task is stored from the document that create derives from the request and that
    -- validate_spec accepts without the right to write: its sandbox is read-only, as stored too, and
    -- write_file is not among its tools, whatever the client asked for. The root names that task, has the
    -- limits of the request, waits for a plan and has used no tokens and no attempts.
    pub create_read_only :
        (db db' : Db) (r : WorkflowReceipt)
        → create
            (spec_of ticks schema)
            key
            payload_hash
            now
            workflow_id
            planner_id
            command_id
            h
            workspace_root
            value
            db
          ≡ ok (r, db')
        → r.duplicate ≡ false
        → IsCreated db.settings.allow_write r db'
    create_read_only db db' r done new = elim (ensured (r, db') (create-Created db) done) [
      | inl old ↦ cc (old, new)
      | inr created ↦ created
    ]
