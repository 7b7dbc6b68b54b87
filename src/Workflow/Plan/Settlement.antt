-- ===== src/Workflow/Plan/Settlement.antt =====
-- _settle_plan_locked and _record_rejected_locked of boring_agent/workflows.py: what a plan does to the
-- store. The output that a carried child keeps (carried_output) is not part of the model's rows.
pub mod Effects
pub mod Rejected
use boring_orch_agent.Base.{
  ℕ, ◌+◌, max, String, Bool, true, false, Option, none, some, List, [], ◌∷◌, ◌++◌, if◌then◌else◌,
  not, ltb, ◌&&◌, ◌==◌,
}
use boring_orch_agent.Schema.{
  Db, Task, Attempt, Status, AttemptState, Action, Condition, Spec, WorkflowRoot, WorkflowPlan,
  WorkflowChild, PlanOutcome, RootState, Result, ok, err, AgentError, invalid_request, ◌>>=◌, event,
  update_task, update_attempt, root_keyed,
}
use boring_orch_agent.Store.Commands.{new_task, insert_task}
use boring_orch_agent.Document.Json.{Json}
use boring_orch_agent.Document.Task.{Host, TaskDocument}
use boring_orch_agent.Workflow.Admission.{root_locked, update_root}
use boring_orch_agent.Workflow.Plan.Prepare.{
  Prepared, prepare_plan, open_children, has_not_started, awaits_launch,
}

-- SELECT COALESCE(MAX(revision),0) FROM workflow_plans WHERE workflow_id=?
unfoldable pub latest_revision : ℕ → List WorkflowPlan → ℕ
latest_revision workflow [] = 0
latest_revision workflow (p ∷ ps) =
    let rest = latest_revision workflow ps in
    if p.workflow_id == workflow then max p.revision rest else rest

abbrev insert_plan : ℕ → ℕ → Bool → Db → Db
insert_plan workflow revision is_accepted db = record db {
  workflow_plans =
      db.workflow_plans
      ++ record { workflow_id = workflow; revision = revision; accepted = is_accepted } ∷ [];
}

abbrev fail_root : ℕ → WorkflowRoot → WorkflowRoot
fail_root now r = record r {
  state = RootState.failed;
  reason = some "invalid workflow plan";
  updated_at = now;
}

-- _record_rejected_locked; without an accepted plan the workflow fails.
unfoldable pub record_rejected : WorkflowRoot → ℕ → ℕ → Db → Db
record_rejected root revision now db =
    let recorded = insert_plan root.id revision false db in
    event "workflow.plan_rejected" (some root.planner_task_id) none now
      (if root.plan_revision == 0 then update_root root.id (fail_root now) recorded else recorded)

abbrev pub obsolete : Task → Task
obsolete t = record t {
  desired_action = Action.cancel;
  reason = some "obsolete_by_replan";
  version = t.version + 1;
}

-- UPDATE attempts SET … WHERE id=? AND state='Queued'
abbrev pub cancel_queued : ℕ → Attempt → Attempt
cancel_queued now a =
    if awaits_launch a.state
    then record a {
      reserved = false;
      state = AttemptState.cancelled;
      settled = true;
      sequence = a.sequence + 1;
      finished_at = some now;
      heartbeat = now;
      tokens = some 0;
      error_kind = some "cancelled";
      error_message = some "Cancelled before launch";
    }
    else a

abbrev pub withdrawn_child : ℕ → Task → Task
withdrawn_child now t = record t {
  status = Status.cancelled;
  finished_at = some now;
  observation_condition = Condition.fresh;
}

unfoldable pub cancel_current : ℕ → Option ℕ → Db → Db
cancel_current now none db = db
cancel_current now (some k) db = update_attempt k (cancel_queued now) db

-- What becomes of a child of an earlier plan; `before` is the store that the children were read from.
unfoldable pub cancel_obsolete : ℕ → Db → Task → Db → Db
unfolding cancel_current has_not_started
cancel_obsolete now before t db =
    let asked = update_task t.id obsolete db in
    if has_not_started before t
    then event "workflow.child_cancelled" (some t.id) none now
        (update_task t.id (withdrawn_child now) (cancel_current now t.current_attempt_id asked))
    else event "workflow.child_cancel_requested" (some t.id) none now asked

unfoldable pub cancel_all : ℕ → Db → List Task → Db → Db
unfolding cancel_obsolete
cancel_all now before [] db = db
cancel_all now before (t ∷ ts) db = cancel_all now before ts (cancel_obsolete now before t db)

abbrev accept_root : ℕ → ℕ → WorkflowRoot → WorkflowRoot
accept_root revision now r = record r {
  state = RootState.executing;
  plan_revision = revision;
  reason = none;
  updated_at = now;
}

-- _insert_task_locked
unfoldable pub insert_task_locked : (TaskDocument → Spec) → ℕ → TaskDocument → ℕ → Db → Result Db
unfolding insert_task
insert_task_locked to_spec now document task_id db = do
  db₁ ← insert_task (record (new_task task_id (to_spec document) now) { version = 0 }) db
  ok (event "task.accepted" (some task_id) none now db₁)

-- `uuid` and `internal` give the ids for the child of an index; `to_spec` is how the store reads a
-- validated document.
module _ (to_spec : TaskDocument → Spec) (uuid internal : ℕ → ℕ) (now : ℕ) (root : WorkflowRoot)
    (revision : ℕ) where
  abbrev child_row : ℕ → Prepared → ℕ → WorkflowChild
  child_row index p task_id = record {
    internal_id = internal index;
    workflow_id = root.id;
    revision = revision;
    child_index = index;
    child_key = p.child.id;
    task_id = task_id;
    dependencies = p.child.dependencies;
    delivery = p.child.delivery;
    context_bytes = 0;
  }

  unfoldable pub insert_child : ℕ → Prepared → ℕ → Db → Db
  insert_child index p task_id db =
      event "workflow.child_created" (some task_id) none now
        (record db { workflow_children = db.workflow_children ++ child_row index p task_id ∷ [] })

  unfoldable pub add_child : ℕ → Prepared → Db → Result (ℕ × Db)
  unfolding insert_child insert_task_locked
  add_child index p db = elim p.carried [
    | some source ↦ ok (source.task_id, insert_child index p source.task_id db)
    | none ↦ do
      db₁ ← insert_task_locked to_spec now p.task (uuid index) db
      ok (uuid index, insert_child index p (uuid index) db₁)
  ]

  unfoldable pub add_children : ℕ → List Prepared → Db → Result (List ℕ × Db)
  unfolding add_child
  add_children index [] db = ok ([], db)
  add_children index (p ∷ ps) db = do
    r ← add_child index p db
    rest ← add_children (index + 1) ps r.1
    ok (r.0 ∷ rest.0, rest.1)

  unfoldable pub store_plan : List Task → List Prepared → Db → Result (PlanOutcome × Db)
  unfolding cancel_all add_children
  store_plan earlier ps db = do
    r ← add_children 0 ps (insert_plan root.id revision true (cancel_all now db earlier db))
    ok (
      PlanOutcome.accepted revision r.0,
      event "workflow.plan_accepted" (some root.planner_task_id) none now
          (update_root root.id (accept_root revision now) r.1),
    )

module _ (h : Host) (authority : ℕ → TaskDocument) (workspace_root : String) (room : ℕ)
    (to_spec : TaskDocument → Spec) (uuid internal : ℕ → ℕ) (now : ℕ) where
  -- An invalid plan is recorded; any other exception leaves the transaction.
  unfoldable pub settle_prepared :
      WorkflowRoot → ℕ → List Task → Result (List Prepared) → Db → Result (PlanOutcome × Db)
  unfolding record_rejected store_plan
  settle_prepared root revision earlier (ok ps) db =
      store_plan to_spec uuid internal now root revision earlier ps db
  settle_prepared root revision earlier (err invalid_request) db =
      ok (PlanOutcome.rejected revision, record_rejected root revision now db)
  settle_prepared root revision earlier (err e) db = err e

  unfoldable pub settle_root : WorkflowRoot → Json → Bool → Db → Result (PlanOutcome × Db)
  unfolding settle_prepared latest_revision open_children prepare_plan
  settle_root root plan replan db =
      if not replan && ltb 0 root.plan_revision
      then ok (
        PlanOutcome.ignored root.plan_revision,
        event "workflow.plan_ignored" (some root.planner_task_id) none now db,
      )
      else let earlier = if replan then open_children root.id db else [] in
        settle_prepared root
          (max root.plan_revision (latest_revision root.id db.workflow_plans) + 1) earlier
          (prepare_plan h (authority root.id) workspace_root db.settings.allow_write root db earlier
            room root.max_children plan)
          db

  unfoldable pub settle_plan_locked : ℕ → Json → Bool → Db → Result (PlanOutcome × Db)
  unfolding root_locked settle_root
  settle_plan_locked workflow plan replan db = do
    root ← root_locked workflow db
    settle_root root plan replan db

  -- The settlement that Manager.settle asks for when a planner has succeeded; `loads` is json.loads.
  unfoldable pub settle_planner : (String → Json) → ℕ → String → Db → Result Db
  unfolding settle_plan_locked
  settle_planner loads workflow plan db = do
    r ← settle_plan_locked workflow (loads plan) false db
    ok r.1
