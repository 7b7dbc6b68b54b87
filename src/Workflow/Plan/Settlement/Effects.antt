-- ===== src/Workflow/Plan/Settlement/Effects.antt =====
-- What the settlement of a plan in boring_agent/workflows.py does to the rows of tasks and attempts.
use boring_orch_agent.Base.{
  ℕ, ◌+◌, max, String, Bool, true, false, not, ltb, ◌&&◌, ◌==◌, List, [], ◌∷◌, ◌++◌, inl, inr,
  Option-cases, if_both,
}
use boring_orch_agent.Schema.{
  Db, Spec, WorkflowRoot, PlanOutcome, Result, ok, err, invalid_request, not_found, conflict,
  storage_error, gone, uncaught, Post, Post-bind, Post-of, task_keyed,
}
use boring_orch_agent.Store.Commands.{new_task, insert_task}
use boring_orch_agent.Store.Commands.Effects.{insert_task-rows}
use boring_orch_agent.Lifecycle.Change.{Change, Change-refl, Change-trans, Change-insert_task}
use boring_orch_agent.Manager.Validate.Effects.{PlanLaw}
use boring_orch_agent.Document.Json.{Json}
use boring_orch_agent.Document.Task.{Host, TaskDocument}
use boring_orch_agent.Workflow.Admission.{root_locked}
use boring_orch_agent.Workflow.Plan.Prepare.{Prepared, prepare_plan}
use boring_orch_agent.Workflow.Plan.Settlement.{
  record_rejected, insert_child, insert_task_locked, add_child, add_children, store_plan,
  cancel_all, settle_prepared, settle_root, settle_plan_locked, settle_planner, latest_revision,
}

module _ (manual grows : Bool) where
  abbrev Kept : {A : Type 0} → Db → A × Db → Type 0
  Kept db r = Change manual grows db r.1

  module _ (to_spec : TaskDocument → Spec) (uuid internal : ℕ → ℕ) (now : ℕ) (root : WorkflowRoot)
      (revision : ℕ) where
    insert_task_locked-Change :
        (t : TaskDocument) (k : ℕ) (db : Db)
        → Post (Change manual grows db) (insert_task_locked to_spec now t k db)
    unfolding insert_task_locked
    insert_task_locked-Change t k db =
        let row = record (new_task k (to_spec t) now) { version = 0 } in
        Post-bind _ (Change manual grows db) (insert_task row db) _ (insert_task-rows row db)
          λ d _ added. rw (added.1, added.2) (Change-insert_task manual grows row db added.0)

    add_child-Change :
        (index : ℕ) (p : Prepared) (db : Db)
        → Post (Kept db) (add_child to_spec uuid internal now root revision index p db)
    unfolding add_child insert_child
    add_child-Change index p db = elim (Option-cases p.carried) [
      | inl e ↦
          rw (e, add_child)
            (Post-bind (Change manual grows db) (Kept db)
              (insert_task_locked to_spec now p.task (uuid index) db) _
              (insert_task_locked-Change p.task (uuid index) db) λ d _ h. h)
      | inr (source, e) ↦ rw (e, add_child) (Change-refl manual grows db)
    ]

    add_children-Change :
        (index : ℕ) (ps : List Prepared) (db : Db)
        → Post (Kept db) (add_children to_spec uuid internal now root revision index ps db)
    unfolding add_children
    add_children-Change index [] db = Change-refl manual grows db
    add_children-Change index (p ∷ ps) db =
        Post-bind (Kept db) (Kept db) (add_child to_spec uuid internal now root revision index p db)
          _ (add_child-Change index p db)
          λ r _ first.
            Post-bind (Kept r.1) (Kept db)
              (add_children to_spec uuid internal now root revision (index + 1) ps r.1) _
              (add_children-Change (index + 1) ps r.1)
              λ rest _ others. Change-trans manual grows db r.1 rest.1 first others

    store_plan-Change :
        (ps : List Prepared) (db : Db)
        → Post (Kept db) (store_plan to_spec uuid internal now root revision [] ps db)
    unfolding store_plan cancel_all
    store_plan-Change ps db =
        let stored = record db {
          workflow_plans =
              db.workflow_plans
              ++ record { workflow_id = root.id; revision = revision; accepted = true } ∷ [];
        } in
        Post-bind (Kept stored) (Kept db)
          (add_children to_spec uuid internal now root revision 0 ps stored) _
          (add_children-Change 0 ps stored) λ r _ h. h

  record_rejected-Change :
      (root : WorkflowRoot) (revision now : ℕ) (db : Db)
      → Change manual grows db (record_rejected root revision now db)
  unfolding record_rejected
  record_rejected-Change root revision now db =
      if_both (λ d. Change manual grows db d) (root.plan_revision == 0)
        (Change-refl manual grows db) (Change-refl manual grows db)

  module _ (h : Host) (authority : ℕ → TaskDocument) (workspace_root : String) (room : ℕ)
      (to_spec : TaskDocument → Spec) (uuid internal : ℕ → ℕ) (now : ℕ) where
    settle_prepared-Change :
        (root : WorkflowRoot) (revision : ℕ) (prepared : Result (List Prepared)) (db : Db)
        → Post (Kept db) (
            settle_prepared h authority workspace_root room to_spec uuid internal now root revision
              [] prepared db)
    unfolding settle_prepared
    settle_prepared-Change root revision (ok ps) db =
        store_plan-Change to_spec uuid internal now root revision ps db
    settle_prepared-Change root revision (err invalid_request) db =
        record_rejected-Change root revision now db
    settle_prepared-Change root revision (err not_found) db = tt
    settle_prepared-Change root revision (err conflict) db = tt
    settle_prepared-Change root revision (err storage_error) db = tt
    settle_prepared-Change root revision (err gone) db = tt
    settle_prepared-Change root revision (err uncaught) db = tt

    settle_root-Change :
        (root : WorkflowRoot) (plan : Json) (db : Db)
        → Post (Kept db) (
            settle_root h authority workspace_root room to_spec uuid internal now root plan false
              db)
    unfolding settle_root
    settle_root-Change root plan db =
        if_both {A = Result (PlanOutcome × Db)} (Post (Kept db))
          (not false && ltb 0 root.plan_revision) (Change-refl manual grows db)
          (settle_prepared-Change root
            (max root.plan_revision (latest_revision root.id db.workflow_plans) + 1)
            (prepare_plan h (authority root.id) workspace_root db.settings.allow_write root db []
              room root.max_children plan)
            db)

    settle_planner-Change :
        (loads : String → Json) (workflow : ℕ) (plan : String) (db : Db)
        → Post (Change manual grows db) (
            settle_planner h authority workspace_root room to_spec uuid internal now loads workflow
              plan db)
    unfolding settle_planner settle_plan_locked
    settle_planner-Change loads workflow plan db =
        Post-bind (Kept db) (Change manual grows db)
          (settle_plan_locked h authority workspace_root room to_spec uuid internal now workflow
            (loads plan) false db)
          _
          (Post-bind (λ _. Unit {0}) (Kept db) (root_locked workflow db) _
            (Post-of (λ _. Unit {0}) (root_locked workflow db) (λ _ _. tt))
            λ root _ _. settle_root-Change root (loads plan) db)
          λ r _ change. change

-- The settlement of a planner's plan is one that the manager's theorems allow: where it returns, rows
-- of tasks are added and rows that are there change only as Change allows, which freezes tasks that
-- have ended, and distinct ids of tasks stay distinct. This holds for every validator, file system,
-- clock and supply of ids, and whatever the plan says.
pub settle_planner-PlanLaw :
    (manual grows : Bool) (h : Host) (authority : ℕ → TaskDocument) (workspace_root : String)
    (room : ℕ) (to_spec : TaskDocument → Spec) (uuid internal : ℕ → ℕ) (loads : String → Json)
    → PlanLaw manual grows (λ workflow plan now db.
      settle_planner h authority workspace_root room to_spec uuid internal now loads workflow plan
        db)
settle_planner-PlanLaw manual grows h authority workspace_root room to_spec uuid internal loads
      workflow plan now db =
    settle_planner-Change manual grows h authority workspace_root room to_spec uuid internal now
      loads workflow plan db
