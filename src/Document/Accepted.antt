-- ===== src/Document/Accepted.antt =====
-- What holds of every task document that validate_spec of boring_agent/model.py lets through.
use Prim.Native.String.{len}
use text.Mathlib.TextEquality.{eq_iff}
use boring_orch_agent.Base.{
  ◌≡◌, refl, ◌∙◌, Bool, true, false, List, [], ◌∷◌, String, ◌&&◌, not, arith, ltb, and_true, ap,
}
use boring_orch_agent.Schema.{ok, err, invalid_request}
use boring_orch_agent.Document.Json.{
  Json, null, num, str, arr, obj, nil, cons, field, Fields, end, whole, field_or, mem, is_subset,
  keys,
}
use boring_orch_agent.Document.Checks.{fields, optional, bounded_text, demand, as_text}
use boring_orch_agent.Document.Coddy.{is_llm}
use boring_orch_agent.Document.Parts.{expect_files_of, workflow_of}
use boring_orch_agent.Document.Task.{
  Host, TaskDocument, task_fields, accept_task, version_of, runtime_of, sandbox_of, workspace_of,
  schema_of, may_write, known_tools,
}
use boring_orch_agent.Document.Written.{document}
use boring_orch_agent.Document.Validate.{validate_spec, printable}
use boring_orch_agent.Document.Ensures.{Ensures, returns, step, any, ensured}
use boring_orch_agent.Document.Numbers.{
  IsBudget, IsRetryPolicy, IsDemo, IsWorkflow, Given, budget_of-IsBudget, retry_of-IsRetryPolicy,
  demo_of-IsDemo, workflow_of-IsWorkflow, texts_in-is_subset, optional-Given, demanded,
}
use boring_orch_agent.Document.Authority.{never_raised, IsCoddy, validate_coddy-IsCoddy}
use boring_orch_agent.Document.Sets.{mem-sorted_set, is_subset-sorted_set}

-- The numbers of a task document.
abbrev pub IsBounded : TaskDocument → Type 0
IsBounded t =
    IsBudget t.budget × IsRetryPolicy t.retry × IsDemo t.demo_options × Given IsWorkflow t.workflow

module _ (h : Host) (root : String) (allow_write : Bool) where
  -- The rights of a task document under the settings of an installation.
  abbrev pub IsPermitted : TaskDocument → Type 0
  IsPermitted t =
      ((may_write t.sandbox && not allow_write) ≡ false)
      × ((mem "write_file" t.tools && not (may_write t.sandbox)) ≡ false)
      × (is_subset t.tools known_tools ≡ true)
      × (h.is_dir t.workspace ≡ true)
      × (h.is_relative_to t.workspace root ≡ true)

  abbrev pub IsSupervised : TaskDocument → Type 0
  IsSupervised t = Given (λ c. (is_llm t.runtime ≡ true) × IsCoddy c) t.coddy

  abbrev IsAccepted : TaskDocument → Type 0
  IsAccepted t = IsBounded t × IsPermitted t × IsSupervised t

  workspace_of_contained :
      (j : Json)
      → Ensures
          (λ p. (h.is_dir p ≡ true) × (h.is_relative_to p root ≡ true))
          (workspace_of h root j)
  unfolding workspace_of
  workspace_of_contained j = step (any (as_text j)) λ given _.
      step (any (h.resolve_path root given)) λ path _.
        step (demanded (h.is_dir path && h.is_relative_to path root))
          λ _ e. returns path (and_true _ _ e)

  accept_task-IsAccepted : (raw : Fields) → Ensures IsAccepted (accept_task h root allow_write raw)
  unfolding accept_task
  accept_task-IsAccepted raw =
      step (any (version_of (field_or "schema_version" (num (whole 1)) raw))) λ _ _.
        step (any (bounded_text 100000 (field_or "objective" null raw))) λ objective _.
          step (any (runtime_of (field_or "runtime" (str "llm") raw))) λ runtime _.
            step (workspace_of_contained (field_or "workspace" (str root) raw)) λ workspace inside.
              step (any (sandbox_of (field_or "sandbox" (str "read-only") raw))) λ sandbox _.
                step (never_raised (may_write sandbox && not allow_write)) λ _ granted.
                  step
                    (texts_in-is_subset known_tools (
                      field_or "tools" (arr (cons (str "list_files") (cons (str "read_file") nil)))
                        raw))
                    λ tools known.
                      step (never_raised (mem "write_file" tools && not (may_write sandbox)))
                        λ _ writes.
                          step (any (optional (bounded_text 200) (field_or "model" null raw)))
                            λ model _.
                              step
                                (any (
                                  schema_of h (
                                    field_or "output_schema" (obj (field "type" (str "object") end))
                                      raw)))
                                λ schema _.
                                  step (budget_of-IsBudget (field_or "budget" (obj end) raw))
                                    λ budget hb.
                                      step (retry_of-IsRetryPolicy (field_or "retry" (obj end) raw))
                                        λ retry hr.
                                          step
                                            (demo_of-IsDemo runtime (field_or "demo" (obj end) raw))
                                            λ demo_options hd.
                                              step
                                                (any (
                                                  expect_files_of h.paths
                                                    (field_or "expect_files" (arr nil) raw)))
                                                λ files _.
                                                  step
                                                    (optional-Given IsWorkflow
                                                      (workflow_of budget retry)
                                                      (λ j.
                                                        workflow_of-IsWorkflow budget retry j hb hr)
                                                      (field_or "workflow" null raw))
                                                    λ workflow hw.
                                                      step
                                                        (validate_coddy-IsCoddy
                                                          (field_or "coddy" null raw) objective
                                                          runtime)
                                                        λ coddy hc. returns _ (
                                                          (hb, hr, hd, hw),
                                                          (
                                                            granted,
                                                            ap (λ b. b && not (may_write sandbox))
                                                            (mem-sorted_set "write_file" tools)
                                                            ∙ writes,
                                                            is_subset-sorted_set tools known_tools
                                                            ∙ known,
                                                            inside.0,
                                                            inside.1,
                                                          ),
                                                          hc,
                                                        )

  validate_spec-IsAccepted : (j : Json) → Ensures IsAccepted (validate_spec h j root allow_write)
  unfolding validate_spec printable
  validate_spec-IsAccepted j = step (any (fields task_fields j)) λ raw _.
      step (accept_task-IsAccepted raw) λ t ht.
        step (any (h.canonical (document t)))
          λ printed _. step (any (demand (not (ltb 256000 (len printed))))) λ _ _. returns t ht

  module _ (j : Json) (t : TaskDocument)
      (accepted : validate_spec h j root allow_write ≡ ok t) where
    -- Every number of a task document that validate_spec accepts lies within the limits of the code:
    -- those of budget, retry and demo, and each limit of a workflow that is not null. In particular
    -- a retry policy allows 1 to 10 attempts and the output is at most 10485760 bytes.
    pub validate_spec-IsBounded : IsBounded t
    validate_spec-IsBounded = (ensured t (validate_spec-IsAccepted j) accepted).0

    -- A task document that validate_spec accepts has the workspace-write sandbox only where the
    -- installation allows writing, has the tool write_file only in that sandbox, has only the three
    -- known tools, and has a workspace that is a directory inside the configured root.
    pub validate_spec-IsPermitted : IsPermitted t
    validate_spec-IsPermitted = (ensured t (validate_spec-IsAccepted j) accepted).1

    -- Where a task document that validate_spec accepts has coddy options, its runtime is llm, the
    -- permission mode bypass comes with a resumed session, and a mention names a valid subagent and
    -- has its seconds within .1 and 86400.
    pub validate_spec-IsSupervised : IsSupervised t
    validate_spec-IsSupervised = (ensured t (validate_spec-IsAccepted j) accepted).2

unknown_not_subset :
    (k : String) (ks allowed : List String)
    → mem k ks ≡ true
    → mem k allowed ≡ false
    → is_subset ks allowed ≡ false
unfolding mem is_subset
unknown_not_subset k [] allowed m n = cc m
unknown_not_subset k (j ∷ ks) allowed m n =
    ground (arith, m, n, eq_iff j k, unknown_not_subset k ks allowed)

-- A document that has a field which the code does not know is refused as an invalid request, whatever
-- else it holds.
pub unknown_field_refused :
    (h : Host) (fs : Fields) (root : String) (allow_write : Bool) (k : String)
    → mem k (keys fs) ≡ true
    → mem k task_fields ≡ false
    → validate_spec h (obj fs) root allow_write ≡ err invalid_request
unfolding validate_spec fields
unknown_field_refused h fs root allow_write k m n =
    rw (unknown_not_subset k (keys fs) task_fields m n) refl
