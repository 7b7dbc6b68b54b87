-- ===== src/Document/Reads.antt =====
-- Where the values of an accepted task document stand in the JSON that boring_agent/model.py reads.
use Prim.Native.String.{len}
use boring_orch_agent.Base.{
  ℕ, ◌≡◌, refl, ap, subst, Bool, false, none, some, List, [], ◌∷◌, String, arith, not, ◌&&◌, ltb,
}
use boring_orch_agent.Schema.{Result, ok, raise_if, invalid_request}
use boring_orch_agent.Document.Json.{
  Number, whole, Json, null, bool, num, str, arr, obj, nil, cons, Fields, end, field, field_or, mem,
  sorted_set,
}
use boring_orch_agent.Document.Checks.{
  fields, number_in, integer, as_int, as_bool, optional, bounded_text, demand,
}
use boring_orch_agent.Document.Coddy.{tenth, hundredth, validate_coddy}
use boring_orch_agent.Document.Parts.{
  Budget, RetryPolicy, budget_of, budget_fields, retry_of, retry_fields, demo_of, expect_files_of,
  workflow_of, texts_in,
}
use boring_orch_agent.Document.Task.{
  Host, TaskDocument, accept_task, version_of, runtime_of, sandbox_of, workspace_of, schema_of,
  may_write, known_tools, task_fields,
}
use boring_orch_agent.Document.Written.{document, or_null, of_int}
use boring_orch_agent.Document.Validate.{validate_spec, printable}
use boring_orch_agent.Document.Ensures.{
  Ensures, returns, step, any, witnessed, weakened, Post-Ensures,
}

fields_same :
    (allowed : List String) (fs : Fields) → Ensures (λ raw. raw ≡ fs) (fields allowed (obj fs))
unfolding fields
fields_same allowed fs = Post-Ensures (λ raw. raw ≡ fs) (fields allowed (obj fs)) (ground arith)

pub number_in-num : (low high : Number) (j : Json) → Ensures (λ x. j ≡ num x) (number_in low high j)
unfolding number_in
number_in-num low high j = Post-Ensures (λ x. j ≡ num x) (number_in low high j) (ground arith)

as_int-whole : (x : Number) → Ensures (λ n. x ≡ whole n) (as_int x)
as_int-whole x = Post-Ensures (λ n. x ≡ whole n) (as_int x) (ground arith)

pub integer-num : (low high : ℕ) (j : Json) → Ensures (λ n. j ≡ num (whole n)) (integer low high j)
unfolding integer
integer-num low high j =
    step (number_in-num (whole low) (whole high) j)
      λ x e. weakened (as_int-whole x) λ n f. rw e (ap num f)

as_bool-bool : (j : Json) → Ensures (λ b. j ≡ bool b) (as_bool j)
as_bool-bool j = Post-Ensures (λ b. j ≡ bool b) (as_bool j) (ground arith)

optional-or_null {ℓ} :
    {A : Type ℓ} (write : A → Json) (check : Json → Result A)
    → ((j : Json) → Ensures (λ a. j ≡ write a) (check j))
    → (j : Json) → Ensures (λ o. j ≡ or_null write o) (optional check j)
unfolding optional
optional-or_null write check h null = returns none refl
optional-or_null write check h j = step (h j) (λ a e. returns (some a) e)

abbrev pub ReadsBudget : Fields → Budget → Type 0
ReadsBudget fs b =
    (field_or "deadline_seconds" (num (whole 600)) fs ≡ num b.deadline_seconds)
    × (field_or "attempt_seconds" (num (whole 300)) fs ≡ num b.attempt_seconds)
    × (field_or "max_output_bytes" (num (whole 1048576)) fs ≡ of_int b.max_output_bytes)
    × (field_or "max_tokens" null fs ≡ or_null of_int b.max_tokens)
    × (field_or "max_steps" (num (whole 12)) fs ≡ of_int b.max_steps)
    × (field_or "request_seconds" (num (whole 60)) fs ≡ num b.request_seconds)
    × (field_or "output_tokens" (num (whole 2048)) fs ≡ of_int b.output_tokens)

pub budget_of-ReadsBudget : (fs : Fields) → Ensures (ReadsBudget fs) (budget_of (obj fs))
unfolding budget_of
budget_of-ReadsBudget fs = step (fields_same budget_fields fs) λ raw same.
    weakened {P = ReadsBudget raw}
      (step (number_in-num tenth (whole 86400) (field_or "deadline_seconds" (num (whole 600)) raw))
        λ a ha.
          step
            (number_in-num tenth (whole 86400) (field_or "attempt_seconds" (num (whole 300)) raw))
            λ b hb.
              step (integer-num 64 10485760 (field_or "max_output_bytes" (num (whole 1048576)) raw))
                λ c hc.
                  step
                    (optional-or_null of_int (integer 1 1000000000) (integer-num 1 1000000000)
                      (field_or "max_tokens" null raw))
                    λ d hd.
                      step (integer-num 1 100 (field_or "max_steps" (num (whole 12)) raw)) λ e he.
                        step
                          (number_in-num tenth (whole 300)
                            (field_or "request_seconds" (num (whole 60)) raw))
                          λ f hf.
                            step
                              (integer-num 1 65536
                                (field_or "output_tokens" (num (whole 2048)) raw))
                              λ g hg. returns _ (ha, hb, hc, hd, he, hf, hg))
      λ b r. subst (λ q. ReadsBudget q b) same r

abbrev pub ReadsRetry : Fields → RetryPolicy → Type 0
ReadsRetry fs r =
    (field_or "max_attempts" (num (whole 1)) fs ≡ of_int r.max_attempts)
    × (field_or "replay_safe" (bool false) fs ≡ bool r.replay_safe)

pub retry_of-ReadsRetry : (fs : Fields) → Ensures (ReadsRetry fs) (retry_of (obj fs))
unfolding retry_of
retry_of-ReadsRetry fs = step (fields_same retry_fields fs) λ raw same.
    weakened {P = ReadsRetry raw}
      (step (integer-num 1 10 (field_or "max_attempts" (num (whole 1)) raw)) λ a ha.
        step
          (any (number_in hundredth (whole 3600) (field_or "backoff_seconds" (num (whole 1)) raw)))
          λ b _. step (as_bool-bool (field_or "replay_safe" (bool false) raw)) λ c hc.
            step
              (any (
                texts_in ("transient" ∷ "validation" ∷ [])
                  (field_or "on" (arr (cons (str "transient") nil)) raw)))
              λ d _. returns _ (ha, hc))
      λ b r. subst (λ q. ReadsRetry q b) same r

module _ (h : Host) (root : String) (allow_write : Bool) where
  -- The checks that gave the parts of a document.
  abbrev pub Reads : Fields → TaskDocument → Type 0
  Reads raw t =
      (runtime_of (field_or "runtime" (str "llm") raw) ≡ ok t.runtime)
      × (workspace_of h root (field_or "workspace" (str root) raw) ≡ ok t.workspace)
      × (sandbox_of (field_or "sandbox" (str "read-only") raw) ≡ ok t.sandbox)
      × ((tools : List String) × (texts_in known_tools
              (field_or "tools" (arr (cons (str "list_files") (cons (str "read_file") nil))) raw)
            ≡ ok tools)
          × (t.tools ≡ sorted_set tools))
      × (optional (bounded_text 200) (field_or "model" null raw) ≡ ok t.model)
      × (budget_of (field_or "budget" (obj end) raw) ≡ ok t.budget)
      × (retry_of (field_or "retry" (obj end) raw) ≡ ok t.retry)

  accept_task-Reads : (raw : Fields) → Ensures (Reads raw) (accept_task h root allow_write raw)
  unfolding accept_task
  accept_task-Reads raw =
      step (any (version_of (field_or "schema_version" (num (whole 1)) raw))) λ _ _.
        step (any (bounded_text 100000 (field_or "objective" null raw))) λ objective _.
          step (witnessed (runtime_of (field_or "runtime" (str "llm") raw))) λ runtime a.
            step (witnessed (workspace_of h root (field_or "workspace" (str root) raw)))
              λ workspace b.
                step (witnessed (sandbox_of (field_or "sandbox" (str "read-only") raw)))
                  λ sandbox c.
                    step (any (raise_if (may_write sandbox && not allow_write) invalid_request))
                      λ _ _.
                        step
                          (witnessed (
                            texts_in known_tools (
                              field_or "tools"
                                (arr (cons (str "list_files") (cons (str "read_file") nil))) raw)))
                          λ tools d.
                            step
                              (any (
                                raise_if (mem "write_file" tools && not (may_write sandbox))
                                  invalid_request))
                              λ _ _.
                                step
                                  (witnessed
                                    (optional (bounded_text 200) (field_or "model" null raw)))
                                  λ model e.
                                    step
                                      (any (
                                        schema_of h (
                                          field_or "output_schema"
                                            (obj (field "type" (str "object") end)) raw)))
                                      λ schema _.
                                        step
                                          (witnessed (budget_of (field_or "budget" (obj end) raw)))
                                          λ budget f.
                                            step
                                              (witnessed
                                                (retry_of (field_or "retry" (obj end) raw)))
                                              λ retry g.
                                                step
                                                  (any (
                                                    demo_of runtime
                                                      (field_or "demo" (obj end) raw)))
                                                  λ demo_options _.
                                                    step
                                                      (any (
                                                        expect_files_of h.paths
                                                          (field_or "expect_files" (arr nil) raw)))
                                                      λ files _.
                                                        step
                                                          (any (
                                                            optional (workflow_of budget retry)
                                                            (field_or "workflow" null raw)))
                                                          λ workflow _.
                                                            step
                                                            (any (
                                                            validate_coddy
                                                            (field_or "coddy" null raw) objective
                                                            runtime))
                                                            λ coddy _.
                                                            returns _
                                                            (a, b, c, (tools, d, refl), e, f, g)

  pub validate_spec-Reads :
      (fs : Fields) → Ensures (Reads fs) (validate_spec h (obj fs) root allow_write)
  unfolding validate_spec printable
  validate_spec-Reads fs = step (fields_same task_fields fs) λ raw same.
      step (accept_task-Reads raw) λ t reads. step (any (h.canonical (document t))) λ printed _.
        step (any (demand (not (ltb 256000 (len printed)))))
          λ _ _. returns t (subst (λ r. Reads r t) same reads)
