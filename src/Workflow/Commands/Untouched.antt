-- ===== src/Workflow/Commands/Untouched.antt =====
-- Settling a plan (_settle_plan_locked of boring_agent/workflows.py) leaves the idempotency keys alone.
use boring_orch_agent.Base.{
  ℕ, if◌then◌else◌, ◌+◌, max, ◌≡◌, refl, ◌∙◌, String, Bool, not, ltb, ◌&&◌, List, [], ◌∷◌, inl, inr,
  Option-cases, Bool-cases, arith,
}
use boring_orch_agent.Schema.{
  Db, Task, Spec, WorkflowRoot, Result, ok, err, invalid_request, not_found, conflict,
  storage_error, gone, uncaught,
}
use boring_orch_agent.Store.Commands.{new_task, insert_task}
use boring_orch_agent.Store.Commands.Replay.{insert_task-commands}
use boring_orch_agent.Document.Json.{Json}
use boring_orch_agent.Document.Task.{Host, TaskDocument}
use boring_orch_agent.Document.Ensures.{Ensures, returns, raises, step, any, Post-Ensures}
use boring_orch_agent.Workflow.Admission.{root_locked}
use boring_orch_agent.Workflow.Plan.Prepare.{Prepared, prepare_plan, open_children}
use boring_orch_agent.Workflow.Plan.Settlement.{
  record_rejected, insert_child, insert_task_locked, add_child, add_children, store_plan,
  cancel_current, cancel_obsolete, cancel_all, settle_prepared, settle_root, settle_plan_locked,
  latest_revision,
}

abbrev pub SameCommands : {A : Type 0} → Db → A × Db → Type 0
SameCommands db r = r.1.commands ≡ db.commands

cancel_obsolete-commands :
    (now : ℕ) (before : Db) (t : Task) (db : Db)
    → (cancel_obsolete now before t db).commands ≡ db.commands
unfolding cancel_obsolete cancel_current
cancel_obsolete-commands now before t db = elim (Option-cases t.current_attempt_id) [
  | inl e ↦ rw e (ground arith)
  | inr (k, e) ↦ rw e (ground arith)
]

cancel_all-commands :
    (now : ℕ) (before : Db) (ts : List Task) (db : Db)
    → (cancel_all now before ts db).commands ≡ db.commands
unfolding cancel_all
cancel_all-commands now before [] db = refl
cancel_all-commands now before (t ∷ ts) db =
    rw (cancel_all-commands now before ts (cancel_obsolete now before t db))
      (cancel_obsolete-commands now before t db)

module _ (to_spec : TaskDocument → Spec) (uuid internal : ℕ → ℕ) (now : ℕ) (root : WorkflowRoot)
    (revision : ℕ) where
  add_child-SameCommands :
      (index : ℕ) (p : Prepared) (db : Db)
      → Ensures (SameCommands db) (add_child to_spec uuid internal now root revision index p db)
  unfolding add_child insert_child insert_task_locked
  add_child-SameCommands index p db = elim (Option-cases p.carried) [
    | inl e ↦
        let row = record (new_task (uuid index) (to_spec p.task) now) { version = 0 } in
        rw (e, add_child)
          (step {P = λ d. d.commands ≡ db.commands}
            (step
              (Post-Ensures (λ d. d.commands ≡ db.commands) (insert_task row db)
                (insert_task-commands row db))
              λ d same. returns _ same)
            λ d same. returns _ same)
    | inr (source, e) ↦ rw (e, add_child) (returns _ refl)
  ]

  add_children-SameCommands :
      (index : ℕ) (ps : List Prepared) (db : Db)
      → Ensures (SameCommands db) (add_children to_spec uuid internal now root revision index ps db)
  unfolding add_children
  add_children-SameCommands index [] db = returns _ refl
  add_children-SameCommands index (p ∷ ps) db = step (add_child-SameCommands index p db) λ r first.
      step (add_children-SameCommands (index + 1) ps r.1) λ rest others. returns _ (others ∙ first)

  store_plan-SameCommands :
      (earlier : List Task) (ps : List Prepared) (db : Db)
      → Ensures (SameCommands db) (store_plan to_spec uuid internal now root revision earlier ps db)
  unfolding store_plan
  store_plan-SameCommands earlier ps db =
      step (add_children-SameCommands 0 ps _)
        λ r others. returns _ (others ∙ cancel_all-commands now db earlier db)

record_rejected-commands :
    (root : WorkflowRoot) (revision now : ℕ) (db : Db)
    → (record_rejected root revision now db).commands ≡ db.commands
unfolding record_rejected
record_rejected-commands root revision now db = ground arith

module _ (h : Host) (authority : ℕ → TaskDocument) (workspace_root : String) (room : ℕ)
    (to_spec : TaskDocument → Spec) (uuid internal : ℕ → ℕ) (now : ℕ) where
  settle_prepared-SameCommands :
      (root : WorkflowRoot) (revision : ℕ) (earlier : List Task) (prepared : Result (List Prepared))
      (db : Db)
      → Ensures (SameCommands db) (
          settle_prepared h authority workspace_root room to_spec uuid internal now root revision
            earlier prepared db)
  unfolding settle_prepared
  settle_prepared-SameCommands root revision earlier (ok ps) db =
      store_plan-SameCommands to_spec uuid internal now root revision earlier ps db
  settle_prepared-SameCommands root revision earlier (err invalid_request) db =
      returns _ (record_rejected-commands root revision now db)
  settle_prepared-SameCommands root revision earlier (err not_found) db = raises _
  settle_prepared-SameCommands root revision earlier (err conflict) db = raises _
  settle_prepared-SameCommands root revision earlier (err storage_error) db = raises _
  settle_prepared-SameCommands root revision earlier (err gone) db = raises _
  settle_prepared-SameCommands root revision earlier (err uncaught) db = raises _

  settle_root-SameCommands :
      (root : WorkflowRoot) (plan : Json) (replan : Bool) (db : Db)
      → Ensures (SameCommands db) (
          settle_root h authority workspace_root room to_spec uuid internal now root plan replan db)
  unfolding settle_root
  settle_root-SameCommands root plan replan db =
      let earlier = if replan then open_children root.id db else [] in
      elim (Bool-cases (not replan && ltb 0 root.plan_revision)) [
        | inl e ↦ rw (e, settle_root) (returns _ refl)
        | inr e ↦
            rw (e, settle_root)
              (settle_prepared-SameCommands root
                (max root.plan_revision (latest_revision root.id db.workflow_plans) + 1) earlier
                (prepare_plan h (authority root.id) workspace_root db.settings.allow_write root db
                  earlier room root.max_children plan)
                db)
      ]

  pub settle_plan_locked-SameCommands :
      (workflow : ℕ) (plan : Json) (replan : Bool) (db : Db)
      → Ensures (SameCommands db) (
          settle_plan_locked h authority workspace_root room to_spec uuid internal now workflow plan
            replan db)
  unfolding settle_plan_locked
  settle_plan_locked-SameCommands workflow plan replan db =
      step (any (root_locked workflow db)) λ root _. settle_root-SameCommands root plan replan db
