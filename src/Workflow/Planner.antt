-- ===== src/Workflow/Planner.antt =====
-- PLAN_SCHEMA and the documents of WorkflowStore.create of boring_agent/workflows.py: the root that a client
-- submits, and the task of the planner that is derived from it.
use Prim.Native.String.{◌++◌ as append}
use boring_orch_agent.Base.{String, Bool, false, Option, none, some, List, [], ◌∷◌, keep_if, not}
use boring_orch_agent.Schema.{Result, ok, err, invalid_request, ◌>>=◌, ◌>>◌, raise_if}
use boring_orch_agent.Document.Json.{
  Json, str, num, bool, arr, obj, nil, cons, Fields, end, field, whole, field_or, mem, sorted_set,
}
use boring_orch_agent.Document.Checks.{as_object}
use boring_orch_agent.Document.Parts.{WorkflowOptions}
use boring_orch_agent.Document.Task.{Host, TaskDocument}
use boring_orch_agent.Document.Validate.{validate_spec}
use boring_orch_agent.Document.Written.{of_texts}
use boring_orch_agent.Workflow.Plan.Merge.{set_field, overlay, without}

abbrev of_type : String → Json
of_type t = obj (field "type" (str t) end)

abbrev list_of_text : Json
list_of_text = obj (field "type" (str "array") (field "items" (of_type "string") end))

abbrev plan_child_properties : Fields
plan_child_properties =
    field "id"
      (obj (
        field "type" (str "string")
          (field "minLength" (num (whole 1)) (field "maxLength" (num (whole 200)) end))))
      (field "order" (obj (field "type" (str "integer") (field "minimum" (num (whole 0)) end))) (
        field "task" (of_type "object") (
          field "objective"
            (obj (field "type" (str "string") (field "minLength" (num (whole 1)) end)))
            (field "runtime"
              (obj (field "enum" (arr (cons (str "demo") (cons (str "llm") nil))) end))
              (field "workspace" (of_type "string") (
                field "model"
                  (obj (field "type" (arr (cons (str "string") (cons (str "null") nil))) end))
                  (field "sandbox"
                    (obj (
                      field "enum" (arr (cons (str "read-only") (cons (str "workspace-write") nil)))
                        end))
                    (field "tools" list_of_text (
                      field "output_schema" (of_type "object") (
                        field "budget" (of_type "object") (
                          field "retry" (of_type "object") (
                            field "demo" (of_type "object") (
                              field "expect_files" list_of_text (
                                field "dependencies" list_of_text (
                                  field "deliver"
                                    (obj (
                                      field "type" (str "object") (
                                        field "additionalProperties" (bool false) (
                                          field "properties"
                                            (obj (
                                              field "result" (of_type "boolean")
                                                (field "files" list_of_text end)))
                                            end))))
                                    end)))))))))))))))

-- PLAN_SCHEMA
abbrev pub plan_schema : Json
plan_schema =
    let child = obj (
      field "type" (str "object") (
        field "additionalProperties" (bool false) (
          field "required" (arr (cons (str "id") nil))
            (field "properties" (obj plan_child_properties) end)))) in
    let children = obj (
      field "type" (str "array") (
        field "minItems" (num (whole 1))
          (field "maxItems" (num (whole 1000)) (field "items" child end)))) in
    obj (
      field "$schema" (str "https://json-schema.org/draft/2020-12/schema") (
        field "type" (str "object") (
          field "required" (arr (cons (str "children") nil)) (
            field "additionalProperties" (bool false) (
              field "properties"
                (obj (field "children" children (field "metadata" (of_type "object") end))) end)))))

abbrev read_tools : List String
read_tools = "list_files" ∷ "read_file" ∷ []

-- planner_raw; the fields set last override what workflow.planner says.
unfoldable pub planner_fields : Fields → TaskDocument → WorkflowOptions → Fields
unfolding without overlay set_field keep_if mem sorted_set of_texts
planner_fields raw root config =
    set_field "objective"
      (field_or "objective" (str (append "Plan workflow: " root.objective)) config.planner)
      (set_field "output_schema" plan_schema (
        set_field "tools" (arr (of_texts (sorted_set (keep_if (λ t. mem t read_tools) root.tools))))
          (set_field "sandbox" (str "read-only")
            (overlay (without "workflow" raw) config.planner))))

-- The options of a workflow that asks for a planner.
unfoldable pub planning : Option WorkflowOptions → Result WorkflowOptions
planning none = err invalid_request
planning (some config) = do raise_if (not config.enabled) invalid_request; ok config

pub record Documents : Type 0 where
  pub root : TaskDocument
  pub config : WorkflowOptions
  pub planner : TaskDocument

-- What create checks before its transaction.
unfoldable pub workflow_documents : Host → String → Bool → Json → Result Documents
unfolding validate_spec planning planner_fields
workflow_documents h workspace_root allow_write value = do
  raw ← as_object value
  root ← validate_spec h value workspace_root allow_write
  config ← planning root.workflow
  planner ← validate_spec h (obj (planner_fields raw root config)) workspace_root false
  ok (record { root = root; config = config; planner = planner })
