-- ===== src/Workflow/Admission.antt =====
-- WorkflowStore.claim_attempt_locked and record_usage_locked of boring_agent/workflows.py.
pub mod Effects
pub mod Budget
use boring_orch_agent.Base.{
  ℕ, ◌+◌, String, Bool, true, false, Option, none, some, List, [], ◌∷◌, find, modify, if◌then◌else◌,
  ltb, leb, ◌==◌, str_eq,
}
use boring_orch_agent.Schema.{
  Db, Task, WorkflowRoot, WorkflowChild, RootState, Status, Result, ok, err, not_found, ◌>>=◌,
  event, update_task, is_pending, root_keyed, task_keyed,
}

-- The later revision of two rows, the second where they are equal.
unfoldable pub latest : Option WorkflowChild → WorkflowChild → WorkflowChild
latest none c = c
latest (some d) c = if ltb c.revision d.revision then d else c

-- SELECT * FROM workflow_children WHERE task_id=? ORDER BY revision DESC LIMIT 1
unfoldable pub child_of : ℕ → List WorkflowChild → Option WorkflowChild
unfolding latest
child_of k [] = none
child_of k (c ∷ cs) =
    let rest = child_of k cs in if c.task_id == k then some (latest rest c) else rest

unfoldable pub root_locked : ℕ → Db → Result WorkflowRoot
root_locked k db = elim (find k db.workflow_roots) [ none ↦ err not_found | some r ↦ ok r ]

abbrev pub update_root : ℕ → (WorkflowRoot → WorkflowRoot) → Db → Db
update_root k f db = record db { workflow_roots = modify k f db.workflow_roots }

abbrev pub reaches : ℕ → Option ℕ → Bool
reaches used none = false
reaches used (some ceiling) = leb ceiling used

abbrev pub exceeds : ℕ → Option ℕ → Bool
exceeds used none = false
exceeds used (some ceiling) = ltb ceiling used

abbrev pub is_failed : RootState → Bool
is_failed RootState.failed = true
is_failed _ = false

-- `text or default` of Python, where None and the empty text count as false.
abbrev or_default : Option String → String → String
or_default none d = d
or_default (some s) d = if str_eq s "" then d else s

-- Why a workflow admits no further attempt, if it does not.
unfoldable pub refusal : WorkflowRoot → Option String
refusal r =
    if reaches r.tokens_used r.max_tokens
    then some "workflow_token_budget_exhausted"
    else if is_failed r.state
    then some (or_default r.reason "workflow_failed")
    else if leb r.max_attempts r.attempts_used
    then some "workflow_attempt_budget_exhausted"
    else none

-- UPDATE tasks SET status='Failed' … WHERE id=? AND status='Pending'
abbrev pub fail_pending : String → ℕ → Task → Task
fail_pending reason now t =
    if is_pending t.status
    then record t {
      status = Status.failed;
      reason = some reason;
      finished_at = some now;
      version = t.version + 1;
    }
    else t

abbrev pub claim_root : ℕ → WorkflowRoot → WorkflowRoot
claim_root now r = record r { attempts_used = r.attempts_used + 1; updated_at = now }

admit : ℕ → WorkflowRoot → ℕ → Db → Bool × Db
unfolding refusal
admit task_id root now db = elim (refusal root) [
  | none ↦ (true, update_root root.id (claim_root now) db)
  | some reason ↦ (
    false,
    event "task.finished" (some task_id) none now
        (update_task task_id (fail_pending reason now) db),
  )
]

unfoldable pub claim_attempt_locked : ℕ → ℕ → Db → Result (Bool × Db)
unfolding child_of root_locked admit
claim_attempt_locked task_id now db = elim (child_of task_id db.workflow_children) [
  | none ↦ ok (true, db)
  | some child ↦ do root ← root_locked child.workflow_id db; ok (admit task_id root now db)
]

abbrev pub spend : ℕ → ℕ → WorkflowRoot → WorkflowRoot
spend tokens now r =
    let used = r.tokens_used + tokens in
    if exceeds used r.max_tokens
    then record r {
      tokens_used = used;
      updated_at = now;
      state = RootState.failed;
      reason = some "workflow_token_budget_exhausted";
    }
    else record r { tokens_used = used; updated_at = now }

unfoldable pub record_usage_locked : ℕ → ℕ → ℕ → Db → Result Db
unfolding child_of root_locked
record_usage_locked task_id tokens now db = elim (child_of task_id db.workflow_children) [
  | none ↦ ok db
  | some child ↦ do
    root ← root_locked child.workflow_id db
    ok (update_root root.id (spend tokens now) db)
]
