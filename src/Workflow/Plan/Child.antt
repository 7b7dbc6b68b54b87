-- ===== src/Workflow/Plan/Child.antt =====
-- _child_spec of boring_agent/workflows.py: a child's task from the root's authority and the plan.
pub mod Checked
pub mod Ceilings
pub mod Narrower
use boring_orch_agent.Base.{
  ℕ, min, String, Bool, true, false, Option, none, some, List, [], ◌∷◌, if◌then◌else◌, ◌&&◌, ◌||◌,
  not, is_none,
}
use boring_orch_agent.Schema.{
  Runtime, Result, ok, err, invalid_request, uncaught, ◌>>=◌, ◌>>◌, raise_if,
}
use boring_orch_agent.Document.Json.{
  Number, whole, Json, null, bool, num, str, arr, obj, Items, nil, cons, Fields, end, field, get,
  field_or, mem, keys, is_null, is_subset,
}
use boring_orch_agent.Document.Checks.{demand, as_object, as_list}
use boring_orch_agent.Document.Coddy.{Coddy, is_llm}
use boring_orch_agent.Document.Parts.{Budget, RetryPolicy}
use boring_orch_agent.Document.Task.{Host, TaskDocument, may_write}
use boring_orch_agent.Document.Validate.{validate_spec}
use boring_orch_agent.Document.Written.{
  document_fields, budget_entries, retry_entries, of_runtime, of_sandbox, of_texts, of_int, or_null,
}
use boring_orch_agent.Workflow.Plan.Shape.{PlanChild}
use boring_orch_agent.Workflow.Plan.Merge.{
  set_field, overlay, without, has, is_true, is_same, exceeds_number, exceeds_value,
}
use boring_orch_agent.Workflow.Plan.Narrow.{narrow_coddy}

abbrev pub child_task_fields : List String
child_task_fields =
    "objective" ∷ "runtime" ∷ "workspace" ∷ "model" ∷ "sandbox" ∷ "tools" ∷ "output_schema"
    ∷ "budget" ∷ "retry" ∷ "demo" ∷ "expect_files" ∷ "coddy" ∷ []

-- raw = deepcopy(root_spec) without workflow, and without demo if the runtime is not demo
unfoldable pub root_fields : TaskDocument → Fields
unfolding without document_fields
root_fields root =
    let raw = without "workflow" (document_fields root) in
    if is_llm root.runtime then without "demo" raw else raw

unfoldable pub with_coddy : Option Json → Fields → Fields
unfolding set_field
with_coddy none fs = fs
with_coddy (some c) fs = set_field "coddy" c fs

-- The root's fields with the child's on top, and the narrowed coddy block.
unfoldable pub child_raw : TaskDocument → Fields → Option Json → Fields
unfolding root_fields overlay without with_coddy
child_raw root task coddy =
    with_coddy coddy (without "coddy" (overlay (root_fields root) (without "coddy" task)))

is_hashable : Json → Bool
is_hashable (arr xs) = false
is_hashable (obj fs) = false
is_hashable _ = true

unfoldable pub all_hashable : Items → Bool
unfolding is_hashable
all_hashable nil = true
all_hashable (cons x xs) = is_hashable x && all_hashable xs

-- set(child_tools).issubset(root_spec["tools"])
unfoldable pub all_among : List String → Items → Bool
unfolding mem
all_among allowed nil = true
all_among allowed (cons (str s) xs) = mem s allowed && all_among allowed xs
all_among allowed (cons x xs) = false

unfoldable pub check_tools : List String → Json → Result (Unit {0})
unfolding all_hashable all_among
check_tools allowed value = do
  items ← as_list value
  raise_if (not (all_hashable items)) uncaught
  demand (all_among allowed items)

-- The right that is neither the root's nor narrower.
unfoldable pub check_access : TaskDocument → Fields → Result (Unit {0})
unfolding is_same get mem check_tools of_texts
check_access root raw = do
  demand (is_same (field_or "runtime" null raw) (of_runtime root.runtime))
  demand (is_same (field_or "workspace" (str root.workspace) raw) (str root.workspace))
  demand (
      may_write root.sandbox
      || is_same (field_or "sandbox" (str "read-only") raw) (str "read-only"))
  raise_if
      (is_same (field_or "sandbox" (of_sandbox root.sandbox) raw) (str "workspace-write")
        && not (mem "write_file" root.tools))
      invalid_request
  check_tools root.tools (field_or "tools" (arr (of_texts root.tools)) raw)
  demand (is_same (field_or "model" null raw) (or_null str root.model))

-- child_task.get(key, {}), which must be an object
unfoldable pub own_part : String → Fields → Result Fields
unfolding get
own_part k task = as_object (field_or k (obj end) task)

unfoldable pub check_retry : RetryPolicy → Fields → Result (Unit {0})
unfolding exceeds_value get
check_retry root retry = do
  more ← exceeds_value (field_or "max_attempts" (num (whole 1)) retry) (whole root.max_attempts)
  raise_if (more || is_true (field_or "replay_safe" (bool false) retry) && not root.replay_safe)
      invalid_request

-- A value that is a number, and not a truth value, above a ceiling that is there.
unfoldable pub is_above : Json → Json → Bool
unfolding exceeds_number
is_above (num x) (num ceiling) = exceeds_number x ceiling
is_above _ _ = false

unfoldable pub any_above : List String → Fields → Fields → Bool
unfolding is_above get
any_above [] budget root = false
any_above (k ∷ ks) budget root =
    is_above (field_or k null budget) (field_or k null root) || any_above ks budget root

abbrev pub ceilings : List String
ceilings =
    "deadline_seconds" ∷ "attempt_seconds" ∷ "max_steps" ∷ "max_output_bytes" ∷ "request_seconds"
    ∷ "output_tokens" ∷ "max_tokens" ∷ []

unfoldable pub check_budget : Bool → Fields → Fields → Fields → Result (Unit {0})
unfolding any_above get
check_budget workflow_bounded root given budget = do
  raise_if
      (not (is_null (field_or "max_tokens" null root))
        && is_null (field_or "max_tokens" null budget))
      invalid_request
  raise_if
      (workflow_bounded && has "max_tokens" given && is_null (field_or "max_tokens" null given))
      invalid_request
  raise_if (any_above ceilings budget root) invalid_request

-- The share of a child that sets no max_tokens, within what it inherits from the root.
unfoldable pub share_within : ℕ → Option ℕ → Json
share_within share none = of_int share
share_within share (some ceiling) = of_int (min ceiling share)

unfoldable pub with_share : Option ℕ → Budget → Fields → Fields → Fields
unfolding set_field share_within get
with_share none root given budget = budget
with_share (some share) root given budget =
    if has "max_tokens" given
    then budget
    else set_field "max_tokens" (share_within share root.max_tokens) budget

-- The document that is validated for the child.
unfoldable pub narrowed : TaskDocument → Fields → Fields → Fields → Fields
unfolding set_field get of_texts
narrowed root retry budget raw = set_field "workspace" (str root.workspace) (
    set_field "sandbox" (field_or "sandbox" (of_sandbox root.sandbox) raw) (
      set_field "tools" (field_or "tools" (arr (of_texts root.tools)) raw)
        (set_field "budget" (obj budget) (set_field "retry" (obj retry) raw))))

unfoldable pub child_checked :
    Host → TaskDocument → Fields → String → Bool → Option ℕ → Bool → Fields → Result TaskDocument
unfolding check_access own_part overlay check_retry check_budget with_share narrowed validate_spec
    retry_entries budget_entries
child_checked h root task workspace_root allow_write share workflow_bounded raw = do
  check_access root raw
  own_retry ← own_part "retry" task
  own_budget ← own_part "budget" task
  check_retry root.retry (overlay (retry_entries root.retry) own_retry)
  check_budget workflow_bounded (budget_entries root.budget) own_budget
      (overlay (budget_entries root.budget) own_budget)
  validate_spec h
      (obj (
        narrowed root (overlay (retry_entries root.retry) own_retry)
          (with_share share root.budget own_budget
            (overlay (budget_entries root.budget) own_budget))
          raw))
      workspace_root allow_write

unfoldable pub child_spec :
    Host → TaskDocument → PlanChild → String → Bool → Option ℕ → Bool → Result TaskDocument
unfolding keys is_subset narrow_coddy child_raw child_checked
child_spec h root child workspace_root allow_write share workflow_bounded = do
  demand (is_subset (keys child.task) child_task_fields)
  coddy ← narrow_coddy root.coddy child.task
  child_checked h root child.task workspace_root allow_write share workflow_bounded
      (child_raw root child.task coddy)
