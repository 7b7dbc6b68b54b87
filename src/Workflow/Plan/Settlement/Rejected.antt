-- ===== src/Workflow/Plan/Settlement/Rejected.antt =====
-- A replacement plan that _settle_plan_locked of boring_agent/workflows.py rejects.
use boring_orch_agent.Base.{
  ℕ, ◌+◌, ◌<◌, max, ◌≡◌, refl, String, Bool, true, false, not, ltb, ◌&&◌, some, List, [], ◌∷◌, ◌++◌,
  if◌then◌else◌, inl, inr, Bool-cases, find, arith,
}
use boring_orch_agent.Schema.{
  Db, Task, Spec, WorkflowRoot, PlanOutcome, Result, ok, err, invalid_request, not_found, conflict,
  storage_error, gone, uncaught, root_keyed,
}
use boring_orch_agent.Document.Json.{Json}
use boring_orch_agent.Document.Task.{Host, TaskDocument}
use boring_orch_agent.Document.Ensures.{Ensures, returns, raises, step, any, ensured}
use boring_orch_agent.Workflow.Admission.{root_locked}
use boring_orch_agent.Workflow.Plan.Prepare.{Prepared, prepare_plan, open_children}
use boring_orch_agent.Workflow.Plan.Settlement.{
  record_rejected, add_children, store_plan, cancel_all, settle_prepared, settle_root,
  settle_plan_locked, latest_revision,
}

-- What a rejected replacement leaves as it was, and what it adds.
abbrev pub OnlyRecords : WorkflowRoot → ℕ → Db → Db → Type 0
OnlyRecords root revision db db' =
    (db'.tasks ≡ db.tasks)
    × (db'.attempts ≡ db.attempts)
    × (db'.workflow_children ≡ db.workflow_children)
    × (db'.workflow_roots ≡ db.workflow_roots)
    × (db'.workflow_plans
        ≡ db.workflow_plans
          ++ record { workflow_id = root.id; revision = revision; accepted = false } ∷ [])

-- If the outcome is a rejection, it only records.
abbrev Records : WorkflowRoot → Db → PlanOutcome × Db → Type 0
Records root db (PlanOutcome.rejected n, db') = OnlyRecords root n db db'
Records root db (PlanOutcome.ignored n, db') = Unit
Records root db (PlanOutcome.accepted n ids, db') = Unit

record_rejected-OnlyRecords :
    (root : WorkflowRoot) (revision now : ℕ) (db : Db)
    → 0 < root.plan_revision
    → OnlyRecords root revision db (record_rejected root revision now db)
unfolding record_rejected
record_rejected-OnlyRecords root revision now db planned = ground (arith, planned)

module _ (h : Host) (authority : ℕ → TaskDocument) (workspace_root : String) (room : ℕ)
    (to_spec : TaskDocument → Spec) (uuid internal : ℕ → ℕ) (now : ℕ) (root : WorkflowRoot)
    (planned : 0 < root.plan_revision) where
  settle_prepared-Records :
      (revision : ℕ) (earlier : List Task) (prepared : Result (List Prepared)) (db : Db)
      → Ensures (Records root db) (
          settle_prepared h authority workspace_root room to_spec uuid internal now root revision
            earlier prepared db)
  unfolding settle_prepared store_plan
  settle_prepared-Records revision earlier (ok ps) db =
      step
        (any (
          add_children to_spec uuid internal now root revision 0 ps
            (record (cancel_all now db earlier db) {
              workflow_plans =
                  (cancel_all now db earlier db).workflow_plans
                  ++ record { workflow_id = root.id; revision = revision; accepted = true } ∷ [];
            })))
        λ r _. returns _ tt
  settle_prepared-Records revision earlier (err invalid_request) db =
      returns _ (record_rejected-OnlyRecords root revision now db planned)
  settle_prepared-Records revision earlier (err not_found) db = raises not_found
  settle_prepared-Records revision earlier (err conflict) db = raises conflict
  settle_prepared-Records revision earlier (err storage_error) db = raises storage_error
  settle_prepared-Records revision earlier (err gone) db = raises gone
  settle_prepared-Records revision earlier (err uncaught) db = raises uncaught

  settle_root-Records :
      (plan : Json) (replan : Bool) (db : Db)
      → Ensures (Records root db) (
          settle_root h authority workspace_root room to_spec uuid internal now root plan replan db)
  unfolding settle_root
  settle_root-Records plan replan db =
      let earlier = if replan then open_children root.id db else [] in
      elim (Bool-cases (not replan && ltb 0 root.plan_revision)) [
        | inl e ↦ rw (e, settle_root) (returns _ tt)
        | inr e ↦
            rw (e, settle_root)
              (settle_prepared-Records
                (max root.plan_revision (latest_revision root.id db.workflow_plans) + 1) earlier
                (prepare_plan h (authority root.id) workspace_root db.settings.allow_write root db
                  earlier room root.max_children plan)
                db)
      ]

  root_found :
      (workflow : ℕ) (db : Db)
      → find workflow db.workflow_roots ≡ some root
      → root_locked workflow db ≡ ok root
  unfolding root_locked
  root_found workflow db row = rw (row, root_locked) refl

  -- A plan that is rejected in a workflow that has an accepted plan changes nothing but the record: no
  -- task, attempt, child or workflow row is touched, and one row of workflow_plans, not accepted, with
  -- the revision that is returned, is added.
  pub settle_plan_rejected :
      (workflow : ℕ) (plan : Json) (replan : Bool) (db db' : Db) (revision : ℕ)
      → find workflow db.workflow_roots ≡ some root
      → settle_plan_locked h authority workspace_root room to_spec uuid internal now workflow plan
          replan db
        ≡ ok (PlanOutcome.rejected revision, db')
      → OnlyRecords root revision db db'
  unfolding settle_plan_locked
  settle_plan_rejected workflow plan replan db db' revision row rejects =
      ensured (PlanOutcome.rejected revision, db') (settle_root-Records plan replan db)
        (rw (root_found workflow db row, settle_plan_locked) at rejects)
