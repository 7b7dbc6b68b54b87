-- ===== src/Manager/Schedule.antt =====
-- Manager.schedule of boring_agent/manager.py.
pub mod Effects
pub mod Bounds
pub mod Placed
pub mod Limits
pub mod Order
use boring_orch_agent.Base.{
  keep_if, sort_by, ℕ, ◌+◌, Bool, true, false, Option, none, some, List, [], ◌∷◌, ◌++◌, find, count,
  is_none, if◌then◌else◌, not, ◌||◌, ◌&&◌, ltb, leb, ◌==◌,
}
use boring_orch_agent.Schema.{
  Db, Config, Task, Worker, Attempt, AttemptState, Status, Spec, Result, ok, err, conflict, ◌>>=◌,
  event, update_task, is_pending, wants_cancel, reserved_total, reserved_on, task_keyed,
  attempt_keyed,
}
use boring_orch_agent.Runner.Claim.{is_capable}
use boring_orch_agent.Artifacts.{Files}
use boring_orch_agent.Workflow.Admission.{claim_attempt_locked}
use boring_orch_agent.Workflow.Delivery.{Readiness, waiting, failed, deliver_dependencies}

-- ORDER BY submitted_at, id
abbrev pub is_earlier : Task → Task → Bool
is_earlier s t =
    ltb s.submitted_at t.submitted_at || (s.submitted_at == t.submitted_at && ltb s.id t.id)

abbrev pub is_due : ℕ → Task → Bool
is_due now t = is_pending t.status && not (wants_cancel t.desired_action) && leb t.next_run_at now

-- The pending tasks that are due, in the order of submission.
unfoldable pub due_tasks : ℕ → List Task → List Task
unfolding sort_by keep_if
due_tasks now ts = sort_by is_earlier (keep_if (is_due now) ts)

-- last_seen >= now - worker_ttl
abbrev pub is_live : Config → ℕ → Worker → Bool
is_live cfg now w = leb now (w.last_seen + cfg.worker_ttl)

abbrev pub is_feasible : Config → ℕ → Spec → Db → Worker → Bool
is_feasible cfg now spec db w =
    is_live cfg now w && ltb (reserved_on w.id db) w.slots && is_capable spec w

unfoldable pub feasible : Config → ℕ → Spec → Db → List Worker
unfolding sort_by keep_if
feasible cfg now spec db =
    keep_if (is_feasible cfg now spec db) (sort_by (λ v w. ltb v.id w.id) db.workers)

-- Round robin: the first worker behind the cursor, else the first of all.
unfoldable pub choose : ℕ → Worker → List Worker → Worker
choose cursor first [] = first
choose cursor first (w ∷ ws) = if ltb cursor w.id then w else choose cursor first ws

abbrev is_numbered : ℕ → ℕ → Attempt → Bool
is_numbered task n a = a.task_id == task && a.number == n

-- INSERT INTO attempts; the id is unique, and so is the number within the task.
pub insert_attempt : Attempt → Db → Result Db
insert_attempt a db =
    if is_none (find a.id db.attempts) && count (is_numbered a.task_id a.number) db.attempts == 0
    then ok (record db { attempts = db.attempts ++ a ∷ [] })
    else err conflict

abbrev pub new_attempt : ℕ → ℕ → ℕ → ℕ → ℕ → Attempt
new_attempt attempt_id task_id number worker_id now = record {
  id = attempt_id;
  task_id = task_id;
  number = number;
  worker_id = worker_id;
  state = AttemptState.queued;
  reserved = true;
  settled = false;
  sequence = 0;
  created_at = now;
  started_at = none;
  finished_at = none;
  heartbeat = now;
  runner_pid = none;
  runner_start = none;
  runtime_pid = none;
  result_path = none;
  result_sha256 = none;
  error_kind = none;
  error_message = none;
  tokens = none;
  known_tokens = 0;
}

abbrev pub scheduled : ℕ → Task → Task
scheduled attempt_id t = record t {
  status = Status.scheduled;
  current_attempt_id = some attempt_id;
  reason = none;
  version = t.version + 1;
}

-- dependency["state"] in ("waiting", "failed")
abbrev pub blocks : Readiness → Bool
blocks waiting = true
blocks failed = true
blocks _ = false

-- `uuid` gives the id that uuid4 draws for the new attempt of a task.
module _ (fs : Files) (uuid : ℕ → ℕ) (cfg : Config) (now : ℕ) where
  unfoldable pub assign : Task → Worker → Db → Result Db
  unfolding insert_attempt
  assign task worker db = do
    let attempt_id = uuid task.id
    let number = count (λ a. a.task_id == task.id) db.attempts + 1
    db₁ ← insert_attempt (new_attempt attempt_id task.id number worker.id now) db
    let queued = record db₁ {
      outbox =
          db₁.outbox
          ++ record { attempt_id = attempt_id; worker_id = worker.id; delivered_at = none } ∷ [];
    }
    ok (
        event "task.scheduled" (some task.id) (some attempt_id) now
          (update_task task.id (scheduled attempt_id) queued))

  -- What the loop does once the feasible workers are known: the worker, if the task is placed.
  place_on : Task → Worker → Db → Result (Option Worker × Db)
  unfolding assign
  place_on task worker db = do
    (readiness, db₁) ← deliver_dependencies fs task.id now db
    if blocks readiness then ok (none, db₁) else do
      (claimed, db₂) ← claim_attempt_locked task.id now db₁
      if claimed then (do db₃ ← assign task worker db₂; ok (some worker, db₃)) else ok (none, db₂)

  unfoldable pub place : Task → ℕ → Db → Result (Option Worker × Db)
  unfolding feasible choose place_on
  place task cursor db = elim (feasible cfg now task.spec db) [
    | [] ↦ ok (none, db)
    | w ∷ ws ↦ place_on task (choose cursor w (w ∷ ws)) db
  ]

  -- The loop over the due tasks: it stops where the installation is full.
  unfoldable pub schedule_each : List Task → ℕ → ℕ → Db → Result (ℕ × Db)
  schedule_each [] used cursor db = ok (cursor, db)
  schedule_each (task ∷ rest) used cursor db = elim (leb cfg.max_active used) [
    | true ↦ ok (cursor, db)
    | false ↦ elim (place task cursor db) [
      | err e ↦ err e
      | ok (none, db') ↦ schedule_each rest used cursor db'
      | ok (some w, db') ↦ schedule_each rest (used + 1) w.id db'
    ]
  ]

  unfoldable pub schedule : Db → Result Db
  unfolding due_tasks
  schedule db = do
    (cursor, db') ← schedule_each (due_tasks now db.tasks) (reserved_total db) cfg.last_worker db
    ok (record db' { settings = record (db'.settings) { last_worker = cursor } })
