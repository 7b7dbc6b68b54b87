-- ===== src/Schema.antt =====
-- boring_agent/store.py (SCHEMA) and boring_agent/model.py (errors, TERMINAL): the tables of the
-- SQLite store as lists of rows, and the statements that several operations share.
-- Identifiers are numbers, in the order of the texts that they stand for; the worker id "" is 0.
-- Times and durations are natural numbers of one unit. A row holds the columns that the code reads.
mod Rows
mod Errors
pub use Rows.*
pub use Errors.*
use boring_orch_agent.Base.{
  ℕ, suc, ◌+◌, ◌≡◌, String, Bool, true, false, Option, none, some, List, [], ◌∷◌, ◌++◌, Keyed, find,
  modify, count, is_none, if◌then◌else◌, ◌==◌, ◌&&◌, not, str_eq,
}

pub record Config : Type 0 where
  pub max_active : ℕ
  pub allow_write : Bool
  pub worker_ttl : ℕ
  pub observation_ttl : ℕ
  pub last_worker : ℕ
  pub retention_seconds : ℕ
  pub idempotency_horizon : ℕ

pub record Db : Type 0 where
  pub settings : Config
  pub tasks : List Task
  pub commands : List Command
  pub workers : List Worker
  pub attempts : List Attempt
  pub outbox : List Outbox
  pub events : List Event
  pub workflow_roots : List WorkflowRoot
  pub workflow_plans : List WorkflowPlan
  pub workflow_plan_commands : List PlanCommand
  pub workflow_children : List WorkflowChild
  pub workflow_deliveries : List WorkflowDelivery
  pub retention_intents : List Intent

-- event(db, kind, task_id, attempt_id); the free-form details are left out.
abbrev pub event : String → Option ℕ → Option ℕ → ℕ → Db → Db
event kind task attempt now db = record db {
  events = db.events ++ record { kind = kind; task_id = task; attempt_id = attempt; at = now } ∷ [];
}

-- UPDATE tasks SET … WHERE id=?
abbrev pub update_task : ℕ → (Task → Task) → Db → Db
update_task k f db = record db { tasks = modify k f db.tasks }

-- UPDATE attempts SET … WHERE id=?
abbrev pub update_attempt : ℕ → (Attempt → Attempt) → Db → Db
update_attempt k f db = record db { attempts = modify k f db.attempts }

-- Store.require_task
unfoldable pub require_task : ℕ → Db → Result Task
require_task k db = elim (find k db.tasks) [ none ↦ err not_found | some t ↦ ok t ]

-- Manager.attempt_row, for a column that may be NULL
unfoldable pub attempt_row : Option ℕ → Db → Option Attempt
attempt_row none db = none
attempt_row (some k) db = find k db.attempts

-- executions: the attempts of a task, a confirmed non-start not counted.
abbrev pub is_execution : ℕ → Attempt → Bool
is_execution k a = a.task_id == k && not (is_kind "not_started" a.error_kind)

unfoldable pub executions : ℕ → Db → ℕ
executions k db = count (is_execution k) db.attempts

abbrev pub reserved_total : Db → ℕ
reserved_total db = count (λ a. a.reserved) db.attempts

abbrev pub is_load_of : ℕ → Attempt → Bool
is_load_of w a = a.worker_id == w && a.reserved

-- SELECT count(*) FROM attempts WHERE worker_id=? AND reserved=1
abbrev pub reserved_on : ℕ → Db → ℕ
reserved_on w db = count (is_load_of w) db.attempts
