-- ===== src/Tests/Fixtures.antt =====
-- A small installation: one task, one worker and one attempt in several states.
use boring_orch_agent.Base.{ℕ, ◌+◌, String, Bool, true, false, Option, none, some, List, [], ◌∷◌}
use boring_orch_agent.Schema.{
  Db, Task, Attempt, AttemptState, Status, Action, Condition, Worker, Spec, Runtime, Sandbox,
  WorkflowRoot, WorkflowChild, RootState, ok,
}
use boring_orch_agent.Artifacts.{File, Files, Read}
use boring_orch_agent.Store.Observations.{Data}
use boring_orch_agent.Manager.Settle.{PlanSettler}
use boring_orch_agent.Manager.Validate.Effects.{PlanLaw}
use boring_orch_agent.Lifecycle.Change.{Change-refl}

abbrev pub demo_spec : Spec
demo_spec = record {
  runtime = Runtime.demo;
  sandbox = Sandbox.read_only;
  workspace = "/work";
  output_schema = "{}";
  deadline_seconds = 100;
  max_output_bytes = 1000;
  max_tokens = none;
  retry = record { max_attempts = 3; replay_safe = true; backoff_seconds = 5; on = "timeout" ∷ [] };
}

abbrev pub waiting_task : Task
waiting_task = record {
  id = 1;
  spec = demo_spec;
  status = Status.pending;
  desired_action = Action.run;
  current_attempt_id = none;
  version = 1;
  submitted_at = 10;
  deadline = 110;
  next_run_at = 10;
  finished_at = none;
  reason = none;
  result_path = none;
  result_sha256 = none;
  tokens_used = 0;
  usage_unknown = false;
  observation_condition = Condition.fresh;
  observed_at = none;
}

abbrev pub active_task : Task
active_task = record waiting_task { status = Status.running; current_attempt_id = some 7 }

abbrev pub done_task : Task
done_task = record waiting_task {
  status = Status.succeeded;
  current_attempt_id = some 7;
  finished_at = some 30;
}

abbrev pub only_worker : Worker
only_worker = record {
  id = 4;
  runtimes = Runtime.demo ∷ [];
  slots = 1;
  allow_write = false;
  last_seen = 20;
  pid = 900;
}

abbrev pub queued_attempt : Attempt
queued_attempt = record {
  id = 7;
  task_id = 1;
  number = 1;
  worker_id = 4;
  state = AttemptState.queued;
  reserved = true;
  settled = false;
  sequence = 0;
  created_at = 12;
  started_at = none;
  finished_at = none;
  heartbeat = 12;
  runner_pid = none;
  runner_start = none;
  runtime_pid = none;
  result_path = none;
  result_sha256 = none;
  error_kind = none;
  error_message = none;
  tokens = none;
  known_tokens = 0;
}

abbrev pub running_attempt : Attempt
running_attempt = record queued_attempt {
  state = AttemptState.running;
  sequence = 2;
  known_tokens = 5;
}

abbrev pub unknown_attempt : Attempt
unknown_attempt = record queued_attempt { state = AttemptState.unknown; sequence = 3 }

abbrev pub failed_attempt : Attempt
failed_attempt = record queued_attempt {
  state = AttemptState.failed;
  sequence = 3;
  error_kind = some "timeout";
  tokens = some 0;
  finished_at = some 25;
}

abbrev pub won_attempt : Attempt
won_attempt = record queued_attempt {
  state = AttemptState.succeeded;
  sequence = 3;
  tokens = some 0;
  finished_at = some 25;
  result_path = some "artifacts/7.json";
  result_sha256 = some "aa";
}

abbrev pub settled_attempt : Attempt
settled_attempt = record won_attempt { reserved = false; settled = true }

abbrev pub installation : List Task → List Attempt → Db
installation rows attempts = record {
  settings = record {
    max_active = 2;
    allow_write = false;
    worker_ttl = 10;
    observation_ttl = 10;
    last_worker = 0;
    retention_seconds = 1000;
    idempotency_horizon = 2000;
  };
  tasks = rows;
  commands = [];
  workers = only_worker ∷ [];
  attempts = attempts;
  outbox = [];
  events = [];
  workflow_roots = [];
  workflow_plans = [];
  workflow_plan_commands = [];
  workflow_children = [];
  workflow_deliveries = [];
  retention_intents = [];
}

abbrev pub idle_store : Db
idle_store = installation (waiting_task ∷ []) []

abbrev pub queued_store : Db
queued_store =
    installation (record active_task { status = Status.scheduled } ∷ []) (queued_attempt ∷ [])

abbrev pub active_store : Db
active_store = installation (active_task ∷ []) (running_attempt ∷ [])

abbrev pub unknown_store : Db
unknown_store = installation (active_task ∷ []) (unknown_attempt ∷ [])

abbrev pub failed_store : Db
failed_store = installation (active_task ∷ []) (failed_attempt ∷ [])

abbrev pub won_store : Db
won_store = installation (active_task ∷ []) (won_attempt ∷ [])

abbrev pub done_store : Db
done_store = installation (done_task ∷ []) (settled_attempt ∷ [])

abbrev pub no_data : Data
no_data = record {
  runner_pid = none;
  runner_start = none;
  runtime_pid = none;
  result_path = none;
  result_sha256 = none;
  error_kind = none;
  error_message = none;
  tokens = none;
  known_tokens = none;
}

abbrev pub artifact : File
artifact = record {
  size = 20;
  sha256 = "aa";
  loads = some "{}";
  strict = some "{}";
  text = some "{}";
}

abbrev pub files : Files
files = record {
  artifact_path = λ k. "artifacts/7.json";
  escapes = λ p. false;
  read = λ p. Read.contents artifact;
  conforms = λ schema value. true;
  digest = λ spec. "spec";
  is_absolute = λ p. false;
  parts = λ p. p ∷ [];
  workspace_file = λ w p. none;
  canonical = λ p. "{}";
}

-- A settlement of plans that changes nothing.
abbrev pub no_plans : PlanSettler
no_plans = λ root plan now db. ok db

pub no_plans-PlanLaw : (m g : Bool) → PlanLaw m g no_plans
no_plans-PlanLaw m g root plan now db = Change-refl m g db

abbrev pub nobody : ℕ → Option String
nobody pid = none

abbrev pub fresh_id : ℕ → ℕ
fresh_id k = k + 100

abbrev pub flow_root : WorkflowRoot
flow_root = record {
  id = 50;
  state = RootState.executing;
  planner_task_id = 60;
  plan_revision = 1;
  max_children = 100;
  max_tokens = some 100;
  max_attempts = 4;
  tokens_used = 90;
  attempts_used = 1;
  reason = none;
  updated_at = 10;
}

abbrev pub flow_child : WorkflowChild
flow_child = record {
  internal_id = 70;
  workflow_id = 50;
  revision = 1;
  child_index = 0;
  child_key = "a";
  task_id = 1;
  dependencies = [];
  delivery = record { result = true; files = [] };
  context_bytes = 0;
}

abbrev pub flow_store : Db
flow_store = record idle_store {
  workflow_roots = flow_root ∷ [];
  workflow_children = flow_child ∷ [];
}
