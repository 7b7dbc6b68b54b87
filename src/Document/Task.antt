-- ===== src/Document/Task.antt =====
-- validate_spec of boring_agent/model.py: the contract that a task is submitted under.
use Prim.Native.String.{count as count_chars}
use text.Mathlib.Text.{starts_with}
use boring_orch_agent.Base.{
  String, Bool, true, false, Option, List, [], ◌∷◌, if◌then◌else◌, not, ◌||◌, ◌&&◌, ltb, ◌==◌,
  str_eq,
}
use boring_orch_agent.Schema.{
  Runtime, llm, demo, Sandbox, read_only, workspace_write, Result, ok, err, invalid_request, ◌>>=◌,
  ◌>>◌, raise_if,
}
use boring_orch_agent.Document.Json.{
  whole, Json, null, num, str, arr, obj, Items, nil, cons, Fields, end, field, field_or, get, mem,
  sorted_set,
}
use boring_orch_agent.Document.Checks.{as_text, as_object, optional, bounded_text, demand}
use boring_orch_agent.Document.Coddy.{Coddy, validate_coddy}
use boring_orch_agent.Document.Parts.{
  Budget, RetryPolicy, Demo, WorkflowOptions, Paths, texts_in, budget_of, retry_of, demo_of,
  expect_files_of, workflow_of,
}

-- What the code asks of the JSON printer, of pathlib and of the schema validator. `resolve_path root path`
-- is (root / path).resolve(), which may raise; an absolute path stays the path that it is. `canonical`
-- raises a ValueError at a number that is not finite, which a literal such as 1e999 gives.
pub record Host : Type 0 where
  pub canonical : Json → Result String
  pub is_schema : Json → Bool
  pub resolve_path : String → String → Result String
  pub is_dir : String → Bool
  pub is_relative_to : String → String → Bool
  pub paths : Paths

pub record TaskDocument : Type 0 where
  pub objective : String
  pub runtime : Runtime
  pub workspace : String
  pub model : Option String
  pub sandbox : Sandbox
  pub tools : List String
  pub output_schema : Fields
  pub budget : Budget
  pub retry : RetryPolicy
  pub demo_options : Demo
  pub expect_files : List String
  pub workflow : Option WorkflowOptions
  pub coddy : Option Coddy

abbrev pub task_fields : List String
task_fields =
    "schema_version" ∷ "objective" ∷ "runtime" ∷ "workspace" ∷ "model" ∷ "sandbox" ∷ "tools"
    ∷ "output_schema" ∷ "budget" ∷ "retry" ∷ "demo" ∷ "expect_files" ∷ "workflow" ∷ "coddy" ∷ []

unfoldable pub version_of : Json → Result (Unit {0})
version_of (num (whole n)) = demand (n == 1)
version_of _ = err invalid_request

unfoldable pub runtime_of : Json → Result Runtime
runtime_of value = do
  s ← as_text value
  if str_eq s "llm" then ok llm else if str_eq s "demo" then ok demo else err invalid_request

unfoldable pub sandbox_of : Json → Result Sandbox
sandbox_of value = do
  s ← as_text value
  if str_eq s "read-only"
      then ok read_only
      else if str_eq s "workspace-write"
      then ok workspace_write
      else err invalid_request

abbrev pub may_write : Sandbox → Bool
may_write workspace_write = true
may_write read_only = false

abbrev pub known_tools : List String
known_tools = "list_files" ∷ "read_file" ∷ "write_file" ∷ []

abbrev is_reference : String → Bool
is_reference k = str_eq k "$ref" || str_eq k "$dynamicRef"

abbrev is_local : Json → Bool
is_local (str s) = starts_with s "#"
is_local _ = false

-- check_refs
unfoldable mutual
  pub check_refs : Json → Bool
  check_refs (obj fs) = check_fields fs
  check_refs (arr xs) = check_items xs
  check_refs _ = true

  pub check_items : Items → Bool
  check_items nil = true
  check_items (cons x xs) = check_refs x && check_items xs

  pub check_fields : Fields → Bool
  check_fields end = true
  check_fields (field k v fs) =
      not (is_reference k && not (is_local v)) && check_refs v && check_fields fs

module _ (h : Host) where
  unfoldable pub workspace_of : String → Json → Result String
  workspace_of root value = do
    given ← as_text value
    path ← h.resolve_path root given
    demand (h.is_dir path && h.is_relative_to path root)
    ok path

  unfoldable pub schema_of : Json → Result Fields
  unfolding check_refs
  schema_of value = do
    schema ← as_object value
    printed ← h.canonical value
    demand (not (ltb 32768 (count_chars printed)))
    demand (check_refs value)
    demand (h.is_schema value)
    ok schema

  -- The document of a task, with every part checked.
  unfoldable pub accept_task : String → Bool → Fields → Result TaskDocument
  unfolding version_of runtime_of sandbox_of workspace_of schema_of texts_in mem optional
      bounded_text budget_of retry_of demo_of expect_files_of workflow_of validate_coddy sorted_set
      get
  accept_task root allow_write raw = do
    version_of (field_or "schema_version" (num (whole 1)) raw)
    objective ← bounded_text 100000 (field_or "objective" null raw)
    runtime ← runtime_of (field_or "runtime" (str "llm") raw)
    workspace ← workspace_of root (field_or "workspace" (str root) raw)
    sandbox ← sandbox_of (field_or "sandbox" (str "read-only") raw)
    raise_if (may_write sandbox && not allow_write) invalid_request
    tools ←
        texts_in known_tools
          (field_or "tools" (arr (cons (str "list_files") (cons (str "read_file") nil))) raw)
    raise_if (mem "write_file" tools && not (may_write sandbox)) invalid_request
    model ← optional (bounded_text 200) (field_or "model" null raw)
    schema ← schema_of (field_or "output_schema" (obj (field "type" (str "object") end)) raw)
    budget ← budget_of (field_or "budget" (obj end) raw)
    retry ← retry_of (field_or "retry" (obj end) raw)
    demo_options ← demo_of runtime (field_or "demo" (obj end) raw)
    files ← expect_files_of h.paths (field_or "expect_files" (arr nil) raw)
    workflow ← optional (workflow_of budget retry) (field_or "workflow" null raw)
    coddy ← validate_coddy (field_or "coddy" null raw) objective runtime
    ok (record {
      objective = objective;
      runtime = runtime;
      workspace = workspace;
      model = model;
      sandbox = sandbox;
      tools = sorted_set tools;
      output_schema = schema;
      budget = budget;
      retry = retry;
      demo_options = demo_options;
      expect_files = files;
      workflow = workflow;
      coddy = coddy;
    })
