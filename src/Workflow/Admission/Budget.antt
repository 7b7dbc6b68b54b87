-- ===== src/Workflow/Admission/Budget.antt =====
-- The budget of a workflow (claim_attempt_locked and record_usage_locked of boring_agent/workflows.py).
use boring_orch_agent.Base.{
  ℕ, ◌+◌, ◌≡◌, ◌<◌, refl, sym, subst, Bool, true, false, some, find, arith, not, ◌&&◌,
  find-modify_self, key-find,
}
use boring_orch_agent.Schema.{Db, WorkflowRoot, WorkflowChild, ok, task_keyed, root_keyed}
use boring_orch_agent.Workflow.Admission.{
  child_of, root_locked, refusal, admit, claim_root, reaches, exceeds, is_failed,
  claim_attempt_locked, spend, record_usage_locked,
}

root_locked-row :
    (k : ℕ) (db : Db) (r : WorkflowRoot)
    → find k db.workflow_roots ≡ some r
    → root_locked k db ≡ ok r
unfolding root_locked
root_locked-row k db r h = rw (h, root_locked) refl

-- A child task's attempt is admitted only while its workflow has not failed, has attempts left and
-- has not reached its ceiling of tokens; the admission takes one attempt from the budget.
pub claim_attempt_locked-budget :
    (k now : ℕ) (db db' : Db) (c : WorkflowChild) (r : WorkflowRoot)
    → child_of k db.workflow_children ≡ some c
    → find c.workflow_id db.workflow_roots ≡ some r
    → claim_attempt_locked k now db ≡ ok (true, db')
    → (r.attempts_used < r.max_attempts)
      × (reaches r.tokens_used r.max_tokens ≡ false)
      × (is_failed r.state ≡ false)
      × (find r.id db'.workflow_roots
          ≡ some (record r { attempts_used = r.attempts_used + 1; updated_at = now }))
unfolding claim_attempt_locked admit refusal
claim_attempt_locked-budget k now db db' c r child root done =
    let locked = root_locked-row c.workflow_id db r root in
    let id = key-find c.workflow_id db.workflow_roots r root in
    let row =
      find-modify_self (claim_root now) (λ _. refl) r.id db.workflow_roots r
        (subst (λ j. find j db.workflow_roots ≡ some r) (sym id) root) in
    ground (arith, done, child, locked, row)

spend-id : (tokens now : ℕ) (r : WorkflowRoot) → (spend tokens now r).id ≡ r.id
spend-id tokens now r = ground arith

-- The ceiling on tokens is passed, and the workflow goes on.
abbrev pub is_overdrawn : WorkflowRoot → Bool
is_overdrawn r = exceeds r.tokens_used r.max_tokens && not (is_failed r.state)

-- Recording the usage of a child task's attempt adds it to its workflow, and a workflow whose usage
-- passes its ceiling has failed then.
pub record_usage_locked-budget :
    (k tokens now : ℕ) (db db' : Db) (c : WorkflowChild) (r : WorkflowRoot)
    → child_of k db.workflow_children ≡ some c
    → find c.workflow_id db.workflow_roots ≡ some r
    → record_usage_locked k tokens now db ≡ ok db'
    → (u : WorkflowRoot) × (find r.id db'.workflow_roots ≡ some u)
      × (u.tokens_used ≡ r.tokens_used + tokens)
      × (is_overdrawn u ≡ false)
unfolding record_usage_locked
record_usage_locked-budget k tokens now db db' c r child root done =
    let locked = root_locked-row c.workflow_id db r root in
    let id = key-find c.workflow_id db.workflow_roots r root in
    let row =
      find-modify_self (spend tokens now) (spend-id tokens now) r.id db.workflow_roots r
        (subst (λ j. find j db.workflow_roots ≡ some r) (sym id) root) in
    (spend tokens now r, ground (arith, done, child, locked, row), ground arith, ground arith)
