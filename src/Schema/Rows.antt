-- ===== src/Schema/Rows.antt =====
-- The rows of the tables in boring_agent/store.py, SCHEMA, and the values of their columns.
use boring_orch_agent.Base.{
  ◌≡◌, refl, ◌≢◌, ◌⊎◌, inl, inr, arith, ℕ, String, Bool, true, false, Option, none, some, List,
  Keyed, str_eq,
}

pub data Status : Type 0 where
  pending scheduled running succeeded failed cancelled : Status

pub data AttemptState : Type 0 where
  queued launching running succeeded failed cancelled unknown : AttemptState

pub data Action : Type 0 where
  run cancel : Action

pub data Condition : Type 0 where
  fresh stale unknown : Condition

pub data Runtime : Type 0 where
  llm demo : Runtime

pub data Sandbox : Type 0 where
  read_only workspace_write : Sandbox

-- model.TERMINAL, as a test on a task's status and on an attempt's state
abbrev pub is_terminal : Status → Bool
is_terminal Status.succeeded = true
is_terminal Status.failed = true
is_terminal Status.cancelled = true
is_terminal _ = false

abbrev pub is_final : AttemptState → Bool
is_final AttemptState.succeeded = true
is_final AttemptState.failed = true
is_final AttemptState.cancelled = true
is_final _ = false

abbrev pub is_pending : Status → Bool
is_pending Status.pending = true
is_pending _ = false

abbrev pub is_scheduled : Status → Bool
is_scheduled Status.scheduled = true
is_scheduled _ = false

abbrev pub wants_cancel : Action → Bool
wants_cancel cancel = true
wants_cancel run = false

-- state in ("Launching", "Running")
abbrev pub is_launched : AttemptState → Bool
is_launched AttemptState.launching = true
is_launched AttemptState.running = true
is_launched _ = false

abbrev pub is_kind : String → Option String → Bool
is_kind k none = false
is_kind k (some e) = str_eq e k

pub record Retry : Type 0 where
  pub max_attempts : ℕ
  pub replay_safe : Bool
  pub backoff_seconds : ℕ
  pub on : List String

-- What the store and the manager read of a validated task document.
pub record Spec : Type 0 where
  pub runtime : Runtime
  pub sandbox : Sandbox
  pub workspace : String
  pub output_schema : String
  pub deadline_seconds : ℕ
  pub max_output_bytes : ℕ
  pub max_tokens : Option ℕ
  pub retry : Retry

pub record Task : Type 0 where
  pub id : ℕ
  pub spec : Spec
  pub status : Status
  pub desired_action : Action
  pub current_attempt_id : Option ℕ
  pub version : ℕ
  pub submitted_at : ℕ
  pub deadline : ℕ
  pub next_run_at : ℕ
  pub finished_at : Option ℕ
  pub reason : Option String
  pub result_path : Option String
  pub result_sha256 : Option String
  pub tokens_used : ℕ
  pub usage_unknown : Bool
  pub observation_condition : Condition
  pub observed_at : Option ℕ

pub record Command : Type 0 where
  pub id : ℕ
  pub idempotency_key : String
  pub kind : String
  pub task_id : ℕ
  pub payload_hash : String
  pub accepted_at : ℕ

pub record Worker : Type 0 where
  pub id : ℕ
  pub runtimes : List Runtime
  pub slots : ℕ
  pub allow_write : Bool
  pub last_seen : ℕ
  pub pid : ℕ

pub record Attempt : Type 0 where
  pub id : ℕ
  pub task_id : ℕ
  pub number : ℕ
  pub worker_id : ℕ
  pub state : AttemptState
  pub reserved : Bool
  pub settled : Bool
  pub sequence : ℕ
  pub created_at : ℕ
  pub started_at : Option ℕ
  pub finished_at : Option ℕ
  pub heartbeat : ℕ
  pub runner_pid : Option ℕ
  pub runner_start : Option String
  pub runtime_pid : Option ℕ
  pub result_path : Option String
  pub result_sha256 : Option String
  pub error_kind : Option String
  pub error_message : Option String
  pub tokens : Option ℕ
  pub known_tokens : ℕ

pub record Outbox : Type 0 where
  pub attempt_id : ℕ
  pub worker_id : ℕ
  pub delivered_at : Option ℕ

pub record Event : Type 0 where
  pub kind : String
  pub task_id : Option ℕ
  pub attempt_id : Option ℕ
  pub at : ℕ

pub data RootState : Type 0 where
  planning executing failed : RootState

pub record WorkflowRoot : Type 0 where
  pub id : ℕ
  pub state : RootState
  pub planner_task_id : ℕ
  pub plan_revision : ℕ
  pub max_children : ℕ
  pub max_tokens : Option ℕ
  pub max_attempts : ℕ
  pub tokens_used : ℕ
  pub attempts_used : ℕ
  pub reason : Option String
  pub updated_at : ℕ

-- A row of workflow_plans, without the text of the plan.
pub record WorkflowPlan : Type 0 where
  pub workflow_id : ℕ
  pub revision : ℕ
  pub accepted : Bool

-- What _settle_plan_locked returns: the revision and, for an accepted plan, the tasks of its children.
pub data PlanOutcome : Type 0 where
  ignored : ℕ → PlanOutcome
  rejected : ℕ → PlanOutcome
  accepted : ℕ → List ℕ → PlanOutcome

-- What settle_plan returns; a command only where the client gave a key.
pub record PlanReceipt : Type 0 where
  pub outcome : PlanOutcome
  pub command_id : Option ℕ
  pub duplicate : Bool

-- A row of workflow_plan_commands.
pub record PlanCommand : Type 0 where
  pub command_id : ℕ
  pub workflow_id : ℕ
  pub receipt : PlanReceipt
  pub created_at : ℕ

instance abbrev pub plan_command_keyed : Keyed PlanCommand
plan_command_keyed = record { key = λ c. c.command_id }

-- What a child declares that it hands on to the children that depend on it.
pub record Delivery : Type 0 where
  pub result : Bool
  pub files : List String

pub record WorkflowChild : Type 0 where
  pub internal_id : ℕ
  pub workflow_id : ℕ
  pub revision : ℕ
  pub child_index : ℕ
  pub child_key : String
  pub task_id : ℕ
  pub dependencies : List String
  pub delivery : Delivery
  pub context_bytes : ℕ

pub data DeliveryState : Type 0 where
  delivered failed : DeliveryState

pub record WorkflowDelivery : Type 0 where
  pub workflow_id : ℕ
  pub source_task_id : ℕ
  pub target_task_id : ℕ
  pub payload : String
  pub bytes_count : ℕ
  pub state : DeliveryState
  pub error_message : Option String

-- The phase of a deletion that comes next.
pub data Phase : Type 0 where
  dependents_phase task_phase artifact_phase : Phase

-- A row of retention_intents.
pub record Intent : Type 0 where
  pub task_id : ℕ
  pub phase : Phase
  pub artifact_paths : List String
  pub created_at : ℕ

instance abbrev pub intent_keyed : Keyed Intent
intent_keyed = record { key = λ i. i.task_id }

instance abbrev pub task_keyed : Keyed Task
task_keyed = record { key = λ t. t.id }

instance abbrev pub worker_keyed : Keyed Worker
worker_keyed = record { key = λ w. w.id }

instance abbrev pub attempt_keyed : Keyed Attempt
attempt_keyed = record { key = λ a. a.id }

instance abbrev pub root_keyed : Keyed WorkflowRoot
root_keyed = record { key = λ r. r.id }

instance abbrev pub child_keyed : Keyed WorkflowChild
child_keyed = record { key = λ c. c.internal_id }

pub AttemptState-cases :
    (s : AttemptState) → (s ≡ AttemptState.succeeded) ⊎ (s ≢ AttemptState.succeeded)
AttemptState-cases AttemptState.succeeded = inl refl
AttemptState-cases _ = inr (λ e. ground arith)
