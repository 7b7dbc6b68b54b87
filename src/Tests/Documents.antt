-- ===== src/Tests/Documents.antt =====
-- A small task document and an installation that validates it.
use text.Mathlib.Text.{starts_with}
use boring_orch_agent.Base.{false, true, none, some, [], ◌∷◌, str_eq}
use boring_orch_agent.Schema.{ok, Runtime, Sandbox}
use boring_orch_agent.Document.Json.{
  null, num, str, arr, obj, nil, cons, Fields, end, field, whole, float,
}
use boring_orch_agent.Document.Coddy.{PermissionMode}
use boring_orch_agent.Document.Parts.{Paths}
use boring_orch_agent.Document.Task.{Host, TaskDocument}

abbrev pub plain_paths : Paths
plain_paths = record { is_absolute = λ s. starts_with s "/"; parts = λ s. s ∷ [] }

abbrev pub plain_host : Host
plain_host = record {
  canonical = λ j. ok "{}";
  is_schema = λ j. true;
  resolve_path = λ root s. ok s;
  is_dir = λ s. str_eq s "/work";
  is_relative_to = λ s root. str_eq s root;
  paths = plain_paths;
}

abbrev pub small_fields : Fields
small_fields = field "objective" (str "Summarise the report") (
    field "sandbox" (str "workspace-write") (
      field "tools"
        (arr (cons (str "write_file") (cons (str "read_file") (cons (str "write_file") nil))))
        (field "budget"
          (obj (
            field "deadline_seconds" (num (float 601 1))
              (field "max_tokens" (num (whole 5000)) end)))
          (field "retry" (obj (field "max_attempts" (num (whole 3)) end)) (
            field "workflow" (obj (field "max_children" null end)) (
              field "coddy"
                (obj (
                  field "session" (str "@session:sess_0123456789abcdef01234567")
                    (field "permission_mode" (str "bypass") end)))
                end))))))

abbrev pub small_document : TaskDocument
small_document = record {
  objective = "Summarise the report";
  runtime = Runtime.llm;
  workspace = "/work";
  model = none;
  sandbox = Sandbox.workspace_write;
  tools = "read_file" ∷ "write_file" ∷ [];
  output_schema = field "type" (str "object") end;
  budget = record {
    deadline_seconds = float 601 1;
    attempt_seconds = whole 300;
    max_output_bytes = 1048576;
    max_tokens = some 5000;
    max_steps = 12;
    request_seconds = whole 60;
    output_tokens = 2048;
  };
  retry = record {
    max_attempts = 3;
    replay_safe = false;
    backoff_seconds = whole 1;
    on = "transient" ∷ [];
  };
  demo_options = record {
    delay_seconds = float 3602879701896397 55;
    fail_attempts = 0;
    failure_kind = "transient";
    result = none;
  };
  expect_files = [];
  workflow = some (record {
    enabled = true;
    max_children = none;
    max_tokens = some 5000;
    max_attempts = some 3;
    planner_context_threshold = none;
    planner = end;
    authority = end;
  });
  coddy = some (record {
    session = some "@session:sess_0123456789abcdef01234567";
    permission = some PermissionMode.bypass;
    stream = true;
    mention = none;
  });
}
