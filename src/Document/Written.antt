-- ===== src/Document/Written.antt =====
-- The JSON object that validate_spec and validate_coddy of boring_agent/model.py return.
use boring_orch_agent.Base.{ℕ, String, Option, none, some, List, [], ◌∷◌}
use boring_orch_agent.Schema.{Runtime, llm, demo, Sandbox, read_only, workspace_write}
use boring_orch_agent.Document.Json.{
  whole, Json, null, bool, num, str, arr, obj, Items, nil, cons, Fields, end, field,
}
use boring_orch_agent.Document.Coddy.{Coddy, Mention, PermissionMode, ask, accept_edits, bypass}
use boring_orch_agent.Document.Parts.{Budget, RetryPolicy, Demo, WorkflowOptions}
use boring_orch_agent.Document.Task.{TaskDocument}

abbrev pub or_null {ℓ} : {A : Type ℓ} → (A → Json) → Option A → Json
or_null write none = null
or_null write (some a) = write a

-- A field that stands in the object only where it has a value.
abbrev optional_field {ℓ} : {A : Type ℓ} → String → (A → Json) → Option A → Fields → Fields
optional_field k write none rest = rest
optional_field k write (some a) rest = field k (write a) rest

abbrev pub of_int : ℕ → Json
of_int n = num (whole n)

unfoldable pub of_texts : List String → Items
of_texts [] = nil
of_texts (s ∷ ss) = cons (str s) (of_texts ss)

abbrev pub of_runtime : Runtime → Json
of_runtime llm = str "llm"
of_runtime demo = str "demo"

abbrev pub of_sandbox : Sandbox → Json
of_sandbox read_only = str "read-only"
of_sandbox workspace_write = str "workspace-write"

abbrev pub of_mode : PermissionMode → Json
of_mode ask = str "ask"
of_mode accept_edits = str "accept_edits"
of_mode bypass = str "bypass"

unfoldable pub mention_entries : Mention → Fields
mention_entries m = field "agent" (str m.agent) (
    field "prompt" (str m.prompt) (
      optional_field "description" str m.description (
        optional_field "model" str m.model (
          optional_field "reasoning" str m.reasoning (
            field "background" (bool m.background) (
              field "notify_on_finish" (bool m.notify_on_finish) (
                optional_field "expected_seconds" num m.expected_seconds (
                  optional_field "timeout_seconds" num m.timeout_seconds
                    (optional_field "permission_mode" of_mode m.permission end)))))))))

unfoldable pub of_mention : Mention → Json
unfolding mention_entries
of_mention m = obj (mention_entries m)

unfoldable pub coddy_fields : Coddy → Fields
unfolding of_mention
coddy_fields c = field "session" (or_null str c.session) (
    field "permission_mode" (or_null of_mode c.permission)
      (field "stream" (bool c.stream) (field "mention" (or_null of_mention c.mention) end)))

unfoldable pub of_coddy : Coddy → Json
unfolding coddy_fields
of_coddy c = obj (coddy_fields c)

unfoldable pub budget_entries : Budget → Fields
budget_entries b = field "deadline_seconds" (num b.deadline_seconds) (
    field "attempt_seconds" (num b.attempt_seconds) (
      field "max_output_bytes" (of_int b.max_output_bytes) (
        field "max_tokens" (or_null of_int b.max_tokens) (
          field "max_steps" (of_int b.max_steps) (
            field "request_seconds" (num b.request_seconds)
              (field "output_tokens" (of_int b.output_tokens) end))))))

unfoldable pub of_budget : Budget → Json
unfolding budget_entries
of_budget b = obj (budget_entries b)

unfoldable pub retry_entries : RetryPolicy → Fields
unfolding of_texts
retry_entries r = field "max_attempts" (of_int r.max_attempts) (
    field "replay_safe" (bool r.replay_safe)
      (field "backoff_seconds" (num r.backoff_seconds) (field "on" (arr (of_texts r.on)) end)))

unfoldable pub of_retry : RetryPolicy → Json
unfolding retry_entries
of_retry r = obj (retry_entries r)

unfoldable pub of_demo : Demo → Json
of_demo d = obj (
    field "delay_seconds" (num d.delay_seconds) (
      field "fail_attempts" (of_int d.fail_attempts) (
        field "failure_kind" (str d.failure_kind) (optional_field "result" (λ j. j) d.result end))))

unfoldable pub of_workflow : WorkflowOptions → Json
of_workflow w = obj (
    field "enabled" (bool w.enabled) (
      field "max_children" (or_null of_int w.max_children) (
        field "max_tokens" (or_null of_int w.max_tokens) (
          field "max_attempts" (or_null of_int w.max_attempts) (
            field "planner_context_threshold" (or_null of_int w.planner_context_threshold)
              (field "planner" (obj w.planner) (field "authority" (obj w.authority) end)))))))

unfoldable pub document_fields : TaskDocument → Fields
unfolding of_budget of_retry of_demo of_workflow of_coddy of_texts
document_fields t = field "schema_version" (of_int 1) (
    field "objective" (str t.objective) (
      field "runtime" (of_runtime t.runtime) (
        field "workspace" (str t.workspace) (
          field "model" (or_null str t.model) (
            field "sandbox" (of_sandbox t.sandbox) (
              field "tools" (arr (of_texts t.tools)) (
                field "output_schema" (obj t.output_schema) (
                  field "budget" (of_budget t.budget) (
                    field "retry" (of_retry t.retry) (
                      field "demo" (of_demo t.demo_options) (
                        field "expect_files" (arr (of_texts t.expect_files)) (
                          optional_field "workflow" of_workflow t.workflow
                            (optional_field "coddy" of_coddy t.coddy end)))))))))))))

abbrev pub document : TaskDocument → Json
document t = obj (document_fields t)
