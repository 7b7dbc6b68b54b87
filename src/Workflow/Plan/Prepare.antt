-- ===== src/Workflow/Plan/Prepare.antt =====
-- The decision of _settle_plan_locked of boring_agent/workflows.py, before anything is stored, with
-- _carry_source_locked and _open_children_locked.
pub mod Allotted
use Prim.Native.Nat.{◌/◌}
use boring_orch_agent.Base.{
  ℕ, suc, ◌+◌, ◌-◌, String, Bool, true, false, Option, none, some, List, [], ◌∷◌, if◌then◌else◌,
  ◌&&◌, ◌||◌, not, ltb, leb, ◌==◌, is_none, get_or, find, keep_if,
}
use boring_orch_agent.Schema.{
  Db, Task, Status, AttemptState, WorkflowRoot, WorkflowChild, Result, ok, err, invalid_request,
  uncaught, ◌>>=◌, ◌>>◌, raise_if, is_terminal, task_keyed, attempt_keyed,
}
use boring_orch_agent.Document.Json.{Number, whole, negative, Json, num, obj, get}
use boring_orch_agent.Document.Task.{Host, TaskDocument}
use boring_orch_agent.Workflow.Delivery.{source_child}
use boring_orch_agent.Workflow.Plan.Shape.{PlanChild, validate_plan_shape}
use boring_orch_agent.Workflow.Plan.Child.{child_spec}

abbrev has_succeeded : Status → Bool
has_succeeded Status.succeeded = true
has_succeeded _ = false

abbrev pub awaits_launch : AttemptState → Bool
awaits_launch AttemptState.queued = true
awaits_launch _ = false

verified : WorkflowChild → Option Task → Option WorkflowChild
verified source none = none
verified source (some t) = if has_succeeded t.status then some source else none

-- _carry_source_locked
unfoldable pub carry_source : ℕ → String → ℕ → Db → Option WorkflowChild
unfolding source_child verified
carry_source workflow key before db = elim (source_child workflow key before db.workflow_children) [
  | none ↦ none
  | some source ↦ verified source (find source.task_id db.tasks)
]

has_task : ℕ → ℕ → List WorkflowChild → Bool
has_task workflow task_id [] = false
has_task workflow task_id (c ∷ cs) =
    c.workflow_id == workflow && c.task_id == task_id || has_task workflow task_id cs

-- _open_children_locked: the tasks of the workflow's children that have not ended
unfoldable pub open_children : ℕ → Db → List Task
unfolding has_task
open_children workflow db =
    keep_if (λ t. not (is_terminal t.status) && has_task workflow t.id db.workflow_children)
      db.tasks

-- item["not_started"]
unfoldable pub has_not_started : Db → Task → Bool
has_not_started db t = elim t.current_attempt_id [
  | none ↦ true
  | some k ↦ elim (find k db.attempts) [ none ↦ false | some a ↦ awaits_launch a.state ]
]

-- The tokens that the children of earlier plans may still spend.
unfoldable pub still_allocated : Db → List Task → ℕ
unfolding has_not_started
still_allocated db [] = 0
still_allocated db (t ∷ ts) =
    (if has_not_started db t then 0 else get_or t.spec.max_tokens 0 - t.tokens_used)
    + still_allocated db ts

-- What is left of the workflow's tokens, if they are limited.
unfoldable pub available_tokens : WorkflowRoot → ℕ → Result (Option ℕ)
available_tokens root allocated = elim root.max_tokens [
  | none ↦ do raise_if (leb root.max_attempts root.attempts_used) invalid_request; ok none
  | some ceiling ↦ do
    raise_if (leb ceiling root.tokens_used) invalid_request
    raise_if (leb root.max_attempts root.attempts_used) invalid_request
    raise_if (leb (ceiling - root.tokens_used) allocated) invalid_request
    ok (some (ceiling - root.tokens_used - allocated))
]

-- child["task"]["budget"]["max_tokens"], where the child sets it
explicit_tokens : PlanChild → Option Json
unfolding get
explicit_tokens child = elim (get "budget" child.task) [
  | some (obj budget) ↦ get "max_tokens" budget
  | _ ↦ none
]

-- The integers that fresh children ask for: the sum of those from 0 on, and of the others without their
-- sign.
asked : Option Json → ℕ
asked (some (num (whole n))) = n
asked _ = 0

asked_below_zero : Option Json → ℕ
asked_below_zero (some (num (negative n))) = suc n
asked_below_zero _ = 0

total_asked : List PlanChild → ℕ
unfolding explicit_tokens asked
total_asked [] = 0
total_asked (c ∷ cs) = asked (explicit_tokens c) + total_asked cs

total_below_zero : List PlanChild → ℕ
unfolding explicit_tokens asked_below_zero
total_below_zero [] = 0
total_below_zero (c ∷ cs) = asked_below_zero (explicit_tokens c) + total_below_zero cs

-- The number of children that set no ceiling.
implicit_count : List PlanChild → ℕ
unfolding explicit_tokens
implicit_count [] = 0
implicit_count (c ∷ cs) = (if is_none (explicit_tokens c) then 1 else 0) + implicit_count cs

-- (available - allocated) // implicit, which must be at least 1; the sum of what the children ask for
-- may be negative, so its two parts stand on two sides.
unfoldable pub token_share : Option ℕ → List PlanChild → Result (Option ℕ)
unfolding total_asked total_below_zero implicit_count
token_share none fresh = ok none
token_share (some available) fresh =
    if implicit_count fresh == 0
    then ok none
    else if ltb (available + total_below_zero fresh) (total_asked fresh + implicit_count fresh)
    then err invalid_request
    else ok (some ((available + total_below_zero fresh - total_asked fresh) / implicit_count fresh))

-- A child with its task and, if its work is carried over, the child that did it.
pub record Prepared : Type 0 where
  pub child : PlanChild
  pub task : TaskDocument
  pub carried : Option WorkflowChild

abbrev pub for_fresh : Option WorkflowChild → Option ℕ → Option ℕ
for_fresh none share = share
for_fresh (some source) share = none

unfoldable pub fresh_children : ℕ → ℕ → Db → List PlanChild → List PlanChild
unfolding carry_source
fresh_children workflow revision db =
    keep_if (λ c. is_none (carry_source workflow c.id revision db))

-- sum(spec["budget"]["max_tokens"] for fresh children); None cannot be added.
unfoldable pub requested_tokens : List Prepared → Result ℕ
requested_tokens [] = ok 0
requested_tokens (p ∷ ps) = do
  rest ← requested_tokens ps
  if not (is_none p.carried)
      then ok rest
      else elim p.task.budget.max_tokens [ none ↦ err uncaught | some n ↦ ok (n + rest) ]

unfoldable pub check_requested : Option ℕ → List Prepared → Result (Unit {0})
unfolding requested_tokens
check_requested none ps = ok tt
check_requested (some available) ps = do
  requested ← requested_tokens ps
  raise_if (ltb available requested) invalid_request

module _ (h : Host) (authority : TaskDocument) (workspace_root : String) (allow_write : Bool)
    (root : WorkflowRoot) (db : Db) where
  unfoldable pub prepare_each : Option ℕ → Bool → List PlanChild → Result (List Prepared)
  unfolding child_spec carry_source
  prepare_each share bounded [] = ok []
  prepare_each share bounded (c ∷ cs) = do
    task ←
        child_spec h authority c workspace_root allow_write
          (for_fresh (carry_source root.id c.id root.plan_revision db) share) bounded
    rest ← prepare_each share bounded cs
    ok (
        record { child = c; task = task; carried = carry_source root.id c.id root.plan_revision db }
        ∷ rest)

  -- The body of the try block; `earlier` are the open children, if the plan replaces another.
  unfoldable pub prepare_plan : List Task → ℕ → ℕ → Json → Result (List Prepared)
  unfolding validate_plan_shape available_tokens still_allocated fresh_children token_share
      prepare_each check_requested
  prepare_plan earlier room max_children plan = do
    children ← validate_plan_shape h.canonical room plan max_children
    available ← available_tokens root (still_allocated db earlier)
    share ← token_share available (fresh_children root.id root.plan_revision db children)
    ps ← prepare_each share (not (is_none available)) children
    check_requested available ps
    ok ps
