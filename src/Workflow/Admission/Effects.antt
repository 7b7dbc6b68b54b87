-- ===== src/Workflow/Admission/Effects.antt =====
-- What the accounting of a workflow leaves alone.
use boring_orch_agent.Base.{
  ℕ, ◌≡◌, List, [], ◌∷◌, some, inl, inr, Option-cases, Bool, true, arith, String,
}
use boring_orch_agent.Schema.{
  Db, Task, WorkflowRoot, WorkflowChild, Post, Post-bind, Post-of, task_keyed, root_keyed,
}
use boring_orch_agent.Lifecycle.Change.{TaskStep, Affects, Affects-refl, Affects-update_task}
use boring_orch_agent.Workflow.Admission.{
  child_of, latest, root_locked, refusal, admit, fail_pending, claim_attempt_locked,
  record_usage_locked,
}

pub child_of-task_id :
    (k : ℕ) (cs : List WorkflowChild) (c : WorkflowChild) → child_of k cs ≡ some c → c.task_id ≡ k
unfolding child_of latest
child_of-task_id k [] c h = cc
child_of-task_id k (d ∷ cs) c h = ground (arith, child_of-task_id k cs c)

-- The tables that the manager decides by.
abbrev pub SameRows : Db → Db → Type 0
SameRows db db' =
    (db'.tasks ≡ db.tasks)
    × (db'.attempts ≡ db.attempts)
    × (db'.settings ≡ db.settings)
    × (db'.workers ≡ db.workers)

pub record_usage_locked-SameRows :
    (task_id tokens now : ℕ) (db : Db)
    → Post (SameRows db) (record_usage_locked task_id tokens now db)
unfolding record_usage_locked
record_usage_locked-SameRows task_id tokens now db = ground arith

pub fail_pending-id : (reason : String) (now : ℕ) (t : Task) → (fail_pending reason now t).id ≡ t.id
fail_pending-id reason now t = ground arith

pub fail_pending-TaskStep :
    (reason : String) (now : ℕ) (t : Task) → TaskStep t (fail_pending reason now t)
fail_pending-TaskStep reason now t = ground arith

-- The claim lets the task run exactly as it stands.
pub claim_attempt_locked-tasks :
    (task_id now : ℕ) (db : Db)
    → Post (λ r. r.0 ≡ true → r.1.tasks ≡ db.tasks) (claim_attempt_locked task_id now db)
unfolding claim_attempt_locked
claim_attempt_locked-tasks task_id now db = ground arith

module _ (manual grows : Bool) where
  admit-Affects :
      (task_id : ℕ) (root : WorkflowRoot) (now : ℕ) (db : Db)
      → Affects manual grows task_id db (admit task_id root now db).1
  unfolding admit
  admit-Affects task_id root now db = elim (Option-cases (refusal root)) [
    | inl e ↦ rw (e, admit) (Affects-refl manual grows task_id db)
    | inr (reason, e) ↦
        rw (e, admit)
          (Affects-update_task manual grows task_id (fail_pending reason now) db
            (fail_pending-id reason now) λ t _. fail_pending-TaskStep reason now t)
  ]

  pub claim_attempt_locked-Affects :
      (task_id now : ℕ) (db : Db)
      → Post (λ r. Affects manual grows task_id db r.1) (claim_attempt_locked task_id now db)
  unfolding claim_attempt_locked
  claim_attempt_locked-Affects task_id now db =
      elim (Option-cases (child_of task_id db.workflow_children)) [
        | inl e ↦ rw (e, claim_attempt_locked) (Affects-refl manual grows task_id db)
        | inr (c, e) ↦
            rw (e, claim_attempt_locked)
              (Post-bind (λ _. Unit {0}) (λ r. Affects manual grows task_id db r.1)
                (root_locked c.workflow_id db) _
                (Post-of (λ _. Unit {0}) (root_locked c.workflow_id db) (λ _ _. tt))
                λ root _ _. admit-Affects task_id root now db)
      ]
