-- ===== src/Workflow/Plan/Child/Narrower.antt =====
-- What _child_spec of boring_agent/workflows.py hands to a child is within the root's authority.
use boring_orch_agent.Base.{
  ℕ, ◌≡◌, refl, ◌∙◌, Bool, true, false, Option, some, List, String, not, ◌&&◌, ◌||◌,
}
use boring_orch_agent.Schema.{ok, raise_if, invalid_request, uncaught}
use boring_orch_agent.Document.Json.{
  Json, null, bool, num, str, arr, obj, Items, Fields, field_or, get, mem, is_subset, keys,
}
use boring_orch_agent.Document.Checks.{demand, as_list, texts}
use boring_orch_agent.Document.Parts.{texts_in}
use boring_orch_agent.Document.Task.{Host, TaskDocument, may_write, known_tools}
use boring_orch_agent.Document.Validate.{validate_spec}
use boring_orch_agent.Document.Written.{
  of_runtime, of_sandbox, of_texts, or_null, budget_entries, retry_entries,
}
use boring_orch_agent.Document.Ensures.{
  Ensures, returns, raises, step, any, witnessed, weakened, ensured,
}
use boring_orch_agent.Document.Numbers.{demanded}
use boring_orch_agent.Document.Authority.{never_raised}
use boring_orch_agent.Document.Sets.{is_subset-sorted_set}
use boring_orch_agent.Document.Accepted.{validate_spec-IsBounded}
use boring_orch_agent.Document.Reads.{
  validate_spec-Reads, budget_of-ReadsBudget, retry_of-ReadsRetry,
}
use boring_orch_agent.Workflow.Plan.Shape.{PlanChild}
use boring_orch_agent.Workflow.Plan.Merge.{overlay, get-set_field, is_same}
use boring_orch_agent.Workflow.Plan.Narrow.{narrow_coddy}
use boring_orch_agent.Workflow.Plan.Child.{
  child_spec, child_raw, child_checked, child_task_fields, check_access, check_tools, all_hashable,
  all_among, own_part, check_retry, check_budget, with_share, narrowed,
}
use boring_orch_agent.Workflow.Plan.Child.Checked.{
  IsWithinRetry, check_retry-IsWithinRetry, kept_runtime, narrower_sandbox, texts-all_among,
  same_model,
}
use boring_orch_agent.Workflow.Plan.Child.Ceilings.{IsWithinBudget, check_budget-IsWithinBudget}

-- The task `t` of a child has no right that the root has not.
abbrev pub IsNarrower : TaskDocument → TaskDocument → Type 0
IsNarrower root t =
    (t.runtime ≡ root.runtime)
    × ((may_write t.sandbox && not (may_write root.sandbox)) ≡ false)
    × ((may_write t.sandbox && not (mem "write_file" root.tools)) ≡ false)
    × (is_subset t.tools root.tools ≡ true)
    × (t.model ≡ root.model)
    × IsWithinRetry root.retry t.retry
    × IsWithinBudget root.budget t.budget

abbrev IsAmong : List String → Json → Type 0
IsAmong allowed j = (xs : Items) × (j ≡ arr xs) × (all_among allowed xs ≡ true)

as_list-arr : (j : Json) → Ensures (λ xs. j ≡ arr xs) (as_list j)
as_list-arr (arr xs) = returns xs refl
as_list-arr null = raises invalid_request
as_list-arr (bool b) = raises invalid_request
as_list-arr (num x) = raises invalid_request
as_list-arr (str s) = raises invalid_request
as_list-arr (obj fs) = raises invalid_request

check_tools-IsAmong :
    (allowed : List String) (j : Json) → Ensures (λ _. IsAmong allowed j) (check_tools allowed j)
unfolding check_tools
check_tools-IsAmong allowed j = step (as_list-arr j) λ xs e.
    step (any (raise_if (not (all_hashable xs)) uncaught))
      λ _ _. weakened (demanded (all_among allowed xs)) λ _ h. (xs, e, h)

IsAmong-texts_in :
    (allowed known : List String) (j : Json) (ss : List String)
    → IsAmong allowed j
    → texts_in known j ≡ ok ss
    → is_subset ss allowed ≡ true
IsAmong-texts_in allowed known j ss (xs, e, h) reads = ensured ss (chosen xs h) (rw e at reads)
  where
    chosen :
        (ys : Items)
        → all_among allowed ys ≡ true
        → Ensures (λ zs. is_subset zs allowed ≡ true) (texts_in known (arr ys))
    chosen ys g =
        unfold texts_in in
        (step (witnessed (texts ys)) λ zs f.
          step (any (demand (is_subset zs known)))
            λ _ _. returns zs (texts-all_among allowed ys zs f g))

abbrev Access : TaskDocument → Fields → Type 0
Access root raw =
    (is_same (field_or "runtime" null raw) (of_runtime root.runtime) ≡ true)
    × ((may_write root.sandbox
          || is_same (field_or "sandbox" (str "read-only") raw) (str "read-only"))
        ≡ true)
    × ((is_same (field_or "sandbox" (of_sandbox root.sandbox) raw) (str "workspace-write")
          && not (mem "write_file" root.tools))
        ≡ false)
    × IsAmong root.tools (field_or "tools" (arr (of_texts root.tools)) raw)
    × (is_same (field_or "model" null raw) (or_null str root.model) ≡ true)

check_access-Access :
    (root : TaskDocument) (raw : Fields) → Ensures (λ _. Access root raw) (check_access root raw)
unfolding check_access
check_access-Access root raw =
    step (demanded (is_same (field_or "runtime" null raw) (of_runtime root.runtime))) λ _ a.
      step
        (any
          (demand (is_same (field_or "workspace" (str root.workspace) raw) (str root.workspace))))
        λ _ _.
          step
            (demanded (
              may_write root.sandbox
              || is_same (field_or "sandbox" (str "read-only") raw) (str "read-only")))
            λ _ b.
              step
                (never_raised (
                  is_same (field_or "sandbox" (of_sandbox root.sandbox) raw) (str "workspace-write")
                  && not (mem "write_file" root.tools)))
                λ _ c.
                  step
                    (check_tools-IsAmong root.tools
                      (field_or "tools" (arr (of_texts root.tools)) raw))
                    λ _ d.
                      weakened
                        (demanded (is_same (field_or "model" null raw) (or_null str root.model)))
                        λ _ e. (a, b, c, d, e)

module _ (root : TaskDocument) (retry budget raw : Fields) where
  abbrev Narrowed : Fields
  Narrowed = narrowed root retry budget raw

  narrowed_fields :
      (get "retry" Narrowed ≡ some (obj retry))
      × (get "budget" Narrowed ≡ some (obj budget))
      × (get "tools" Narrowed ≡ some (field_or "tools" (arr (of_texts root.tools)) raw))
      × (get "sandbox" Narrowed ≡ some (field_or "sandbox" (of_sandbox root.sandbox) raw))
      × (get "runtime" Narrowed ≡ get "runtime" raw)
      × (get "model" Narrowed ≡ get "model" raw)
  unfolding narrowed
  narrowed_fields = (
    simp get-set_field,
    simp get-set_field,
    simp get-set_field,
    simp get-set_field,
    simp get-set_field,
    simp get-set_field,
  )

module _ (h : Host) (root : TaskDocument) (workspace_root : String) (allow_write : Bool)
    (share : Option ℕ) where
  -- The document that is handed over, by the child's own retry and budget.
  abbrev Handed : Fields → Fields → Fields → Fields
  Handed own_retry own_budget raw =
      narrowed root (overlay (retry_entries root.retry) own_retry)
        (with_share share root.budget own_budget (overlay (budget_entries root.budget) own_budget))
        raw

  handed-IsNarrower :
      (workflow_bounded : Bool) (own_retry own_budget raw : Fields) (u w : Unit {0})
      (t : TaskDocument)
      → Access root raw
      → check_retry root.retry (overlay (retry_entries root.retry) own_retry) ≡ ok u
      → check_budget workflow_bounded
          (budget_entries root.budget)
          own_budget
          (overlay (budget_entries root.budget) own_budget)
        ≡ ok w
      → validate_spec h (obj (Handed own_retry own_budget raw)) workspace_root allow_write ≡ ok t
      → IsNarrower root t
  handed-IsNarrower workflow_bounded own_retry own_budget raw u w t access retried budgeted
        accepted =
      let own = Handed own_retry own_budget raw in
      let (r, b, tools, s, run, m) =
        narrowed_fields root (overlay (retry_entries root.retry) own_retry)
          (with_share share root.budget own_budget
            (overlay (budget_entries root.budget) own_budget))
          raw in
      let reads = ensured t (validate_spec-Reads h workspace_root allow_write own) accepted in
      let bounded = validate_spec-IsBounded h workspace_root allow_write (obj own) t accepted in
      let sandboxes =
        narrower_sandbox (get "sandbox" raw) root.sandbox t.sandbox (mem "write_file" root.tools)
          access.1 access.2 (rw s at reads.2) in
      let (chosen, chosen_reads, chosen_sorted) = reads.3 in
      (
        kept_runtime (get "runtime" raw) root.runtime t.runtime access.0 (rw run at reads.0),
        sandboxes.0,
        sandboxes.1,
        rw chosen_sorted (
            is_subset-sorted_set chosen root.tools
            ∙ IsAmong-texts_in root.tools known_tools _ chosen access.3 (rw tools at chosen_reads)),
        same_model (field_or "model" null raw) root.model t.model access.4 (rw m at reads.4),
        ensured u
            (check_retry-IsWithinRetry root.retry t.retry
              (overlay (retry_entries root.retry) own_retry)
              (ensured t.retry (retry_of-ReadsRetry _) (rw r at reads.6)))
            retried,
        ensured w (check_budget-IsWithinBudget root.budget own_budget share workflow_bounded)
            budgeted t.budget bounded.0
            (ensured t.budget (budget_of-ReadsBudget _) (rw b at reads.5)),
      )

  child_checked-IsNarrower :
      (workflow_bounded : Bool) (task raw : Fields)
      → Ensures
          (IsNarrower root)
          (child_checked h root task workspace_root allow_write share workflow_bounded raw)
  unfolding child_checked
  child_checked-IsNarrower workflow_bounded task raw =
      step (check_access-Access root raw) λ _ access.
        step (any (own_part "retry" task)) λ own_retry _.
          step (any (own_part "budget" task)) λ own_budget _.
            step (witnessed (check_retry root.retry (overlay (retry_entries root.retry) own_retry)))
              λ u retried.
                step
                  (witnessed (
                    check_budget workflow_bounded (budget_entries root.budget) own_budget
                      (overlay (budget_entries root.budget) own_budget)))
                  λ w budgeted.
                    weakened
                      (witnessed (
                        validate_spec h (obj (Handed own_retry own_budget raw)) workspace_root
                          allow_write))
                      λ t accepted.
                        handed-IsNarrower workflow_bounded own_retry own_budget raw u w t access
                          retried budgeted accepted

  -- Whatever an untrusted plan asks of a child, the task that _child_spec makes of it has the root's
  -- runtime and model, only tools of the root, a sandbox that writes only where the root's does and the
  -- root has write_file, no more attempts, a replay_safe retry only where the root's is, and no field of
  -- the budget above the root's: a token ceiling of the root is kept or lowered.
  pub child_spec-IsNarrower :
      (child : PlanChild) (workflow_bounded : Bool) (t : TaskDocument)
      → child_spec h root child workspace_root allow_write share workflow_bounded ≡ ok t
      → IsNarrower root t
  unfolding child_spec
  child_spec-IsNarrower child workflow_bounded t accepted =
      ensured t
        (step (any (demand (is_subset (keys child.task) child_task_fields))) λ _ _.
          step (any (narrow_coddy root.coddy child.task)) λ coddy _.
            child_checked-IsNarrower workflow_bounded child.task (child_raw root child.task coddy))
        accepted
