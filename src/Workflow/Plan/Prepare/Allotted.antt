-- ===== src/Workflow/Plan/Prepare/Allotted.antt =====
-- What a plan that _settle_plan_locked of boring_agent/workflows.py prepares may spend.
use boring_orch_agent.Base.{
  ℕ, ◌+◌, ◌≤◌, ◌<◌, ◌≡◌, refl, Bool, Option, none, some, List, [], ◌∷◌, String, arith, not, is_none,
  get_or, ltb, All, if◌then◌else◌,
}
use boring_orch_agent.Schema.{Db, Task, WorkflowRoot, ok}
use boring_orch_agent.Document.Json.{Json}
use boring_orch_agent.Document.Task.{Host, TaskDocument}
use boring_orch_agent.Document.Ensures.{
  Ensures, returns, step, any, witnessed, weakened, ensured, Post-Ensures,
}
use boring_orch_agent.Document.Authority.{never_raised}
use boring_orch_agent.Workflow.Plan.Shape.{PlanChild, validate_plan_shape}
use boring_orch_agent.Workflow.Plan.Child.{child_spec}
use boring_orch_agent.Workflow.Plan.Child.Narrower.{IsNarrower, child_spec-IsNarrower}
use boring_orch_agent.Workflow.Plan.Prepare.{
  Prepared, prepare_plan, prepare_each, available_tokens, still_allocated, token_share,
  fresh_children, check_requested, requested_tokens, carry_source, for_fresh,
}

-- The tokens of the tasks that the plan adds.
abbrev pub new_tokens : List Prepared → ℕ
new_tokens [] = 0
new_tokens (p ∷ ps) =
    (if is_none p.carried then get_or p.task.budget.max_tokens 0 else 0) + new_tokens ps

requested-new_tokens : (ps : List Prepared) → Ensures (λ n. n ≡ new_tokens ps) (requested_tokens ps)
unfolding requested_tokens
requested-new_tokens [] = returns 0 refl
requested-new_tokens (p ∷ ps) =
    step (requested-new_tokens ps)
      λ rest e. Post-Ensures (λ n. n ≡ new_tokens (p ∷ ps)) _ (ground (arith, e))

-- The limits under which a plan is prepared: `held` is still allocated to earlier children.
abbrev Available : WorkflowRoot → ℕ → Option ℕ → Type 0
Available root held none = (root.max_tokens ≡ none) × (root.attempts_used < root.max_attempts)
Available root held (some n) =
    (root.max_tokens ≡ some (root.tokens_used + held + n))
    × (root.attempts_used < root.max_attempts)

available_tokens-Available :
    (root : WorkflowRoot) (held : ℕ) → Ensures (Available root held) (available_tokens root held)
unfolding available_tokens
available_tokens-Available root held =
    Post-Ensures (Available root held) (available_tokens root held) (ground arith)

abbrev IsCovered : Option ℕ → List Prepared → Type 0
IsCovered none ps = Unit
IsCovered (some n) ps = new_tokens ps ≤ n

check_requested-IsCovered :
    (available : Option ℕ) (ps : List Prepared)
    → Ensures (λ _. IsCovered available ps) (check_requested available ps)
unfolding check_requested
check_requested-IsCovered none ps = returns tt tt
check_requested-IsCovered (some n) ps =
    step (requested-new_tokens ps)
      λ requested e. weakened (never_raised (ltb n requested)) λ _ h. ground (arith, e, h)

within_ceiling :
    (root : WorkflowRoot) (held : ℕ) (available : Option ℕ) (ps : List Prepared) (ceiling : ℕ)
    → Available root held available
    → IsCovered available ps
    → root.max_tokens ≡ some ceiling
    → (root.tokens_used + held + new_tokens ps ≤ ceiling) × (root.attempts_used < root.max_attempts)
within_ceiling root held none ps ceiling a covered limited = cc (a.0, limited)
within_ceiling root held (some n) ps ceiling a covered limited =
    (ground (arith, a.0, limited, covered), a.1)

module _ (h : Host) (authority : TaskDocument) (workspace_root : String) (allow_write : Bool)
    (root : WorkflowRoot) (db : Db) where
  prepare_each-IsNarrower :
      (share : Option ℕ) (bounded : Bool) (cs : List PlanChild)
      → Ensures
          (λ ps. All (λ p. IsNarrower authority p.task) ps)
          (prepare_each h authority workspace_root allow_write root db share bounded cs)
  unfolding prepare_each
  prepare_each-IsNarrower share bounded [] = returns [] tt
  prepare_each-IsNarrower share bounded (c ∷ cs) =
      step
        (witnessed (
          child_spec h authority c workspace_root allow_write
            (for_fresh (carry_source root.id c.id root.plan_revision db) share) bounded))
        λ t e. step (prepare_each-IsNarrower share bounded cs) λ ps rest. returns _ (
          child_spec-IsNarrower h authority workspace_root allow_write
              (for_fresh (carry_source root.id c.id root.plan_revision db) share) c bounded t e,
          rest,
        )

  module _ (earlier : List Task) (room max_children : ℕ) (plan : Json) where
    prepare_plan-Allotted :
        Ensures
          (λ ps.
            ((available : Option ℕ) × Available root (still_allocated db earlier) available
              × IsCovered available ps)
            × All (λ p. IsNarrower authority p.task) ps)
          (prepare_plan h authority workspace_root allow_write root db earlier room max_children
            plan)
    unfolding prepare_plan
    prepare_plan-Allotted =
        step (any (validate_plan_shape h.canonical room plan max_children)) λ children _.
          step (available_tokens-Available root (still_allocated db earlier)) λ available a.
            step
              (any (token_share available (fresh_children root.id root.plan_revision db children)))
              λ share _.
                step (prepare_each-IsNarrower share (not (is_none available)) children) λ ps narrow.
                  step (check_requested-IsCovered available ps)
                    λ _ covered. returns ps ((available, a, covered), narrow)

    -- A plan that is prepared in a workflow with a token ceiling fits into it: what the workflow has
    -- used, what earlier children that may still run are allocated, and the token ceilings of all tasks
    -- that the plan adds come to no more than the ceiling. Moreover the workflow has an attempt left and
    -- every task of the plan is within the root's authority.
    pub prepare_plan_within :
        (ps : List Prepared) (ceiling : ℕ)
        → prepare_plan h authority workspace_root allow_write root db earlier room max_children plan
          ≡ ok ps
        → root.max_tokens ≡ some ceiling
        → (root.tokens_used + still_allocated db earlier + new_tokens ps ≤ ceiling)
          × (root.attempts_used < root.max_attempts)
          × All (λ p. IsNarrower authority p.task) ps
    prepare_plan_within ps ceiling prepared limited =
        let ((available, a, covered), narrow) = ensured ps prepare_plan-Allotted prepared in
        let (fits, left) =
          within_ceiling root (still_allocated db earlier) available ps ceiling a covered limited in
        (fits, left, narrow)
