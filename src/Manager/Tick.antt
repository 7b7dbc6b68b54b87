-- ===== src/Manager/Tick.antt =====
-- Manager.tick and Manager._validate_and_settle of boring_agent/manager.py, and `alive` of
-- boring_agent/process.py.
pub mod Effects
use boring_orch_agent.Base.{
  keep_if, ℕ, ◌+◌, String, Bool, true, false, Option, none, some, List, [], ◌∷◌, ◌++◌, find,
  if◌then◌else◌, not, ◌||◌, ◌&&◌, ltb, leb, ◌==◌, str_eq,
}
use boring_orch_agent.Schema.{
  Db, Config, Task, Worker, Attempt, AttemptState, Status, Action, Condition, Spec, Result, ok, err,
  uncaught, ◌>>=◌, event, update_task, update_attempt, attempt_row, require_task, is_terminal,
  is_final, is_pending, is_scheduled, is_launched, wants_cancel, task_keyed, attempt_keyed,
  worker_keyed,
}
use boring_orch_agent.Store.Observations.{is_queued, is_running, is_unknown}
use boring_orch_agent.Artifacts.{Files}
use boring_orch_agent.Manager.Settle.{PlanSettler, settle, finish_cancelled}
use boring_orch_agent.Manager.Schedule.{schedule}

-- The process that /proc names `identity pid` is the one that was started.
unfoldable pub alive : (ℕ → Option String) → Option ℕ → Option String → Bool
alive identity (some pid) (some start) =
    not (pid == 0)
    && not (str_eq start "")
    && elim (identity pid) [ none ↦ false | some s ↦ str_eq s start ]
alive identity _ _ = false

abbrev is_by : Option ℕ → ℕ → Bool
is_by none d = false
is_by (some f) d = leb f d

abbrev is_succeeded : AttemptState → Bool
is_succeeded AttemptState.succeeded = true
is_succeeded _ = false

unfoldable pub success_before_deadline : Task → Option Attempt → Bool
success_before_deadline task none = false
success_before_deadline task (some a) = is_succeeded a.state && is_by a.finished_at task.deadline

unfoldable pub is_overdue : ℕ → Task → Option Attempt → Bool
unfolding success_before_deadline
is_overdue now task attempt =
    leb task.deadline now
    && not (wants_cancel task.desired_action)
    && not (success_before_deadline task attempt)

abbrev pub overdue : Task → Task
overdue t = record t {
  desired_action = Action.cancel;
  reason = some "deadline_exceeded";
  version = t.version + 1;
}

abbrev pub or_uncaught {ℓ} : {A : Type ℓ} → Option A → Result A
or_uncaught none = err uncaught
or_uncaught (some a) = ok a

abbrev pub never_launched : String → String → ℕ → Attempt → Attempt
never_launched kind message now a = record a {
  state = AttemptState.cancelled;
  sequence = a.sequence + 1;
  finished_at = some now;
  heartbeat = now;
  tokens = some 0;
  error_kind = some kind;
  error_message = some message;
}

abbrev pub lost : Attempt → Attempt
lost a = record a {
  state = AttemptState.unknown;
  sequence = a.sequence + 1;
  tokens = none;
  error_kind = some "unknown";
  error_message = some "Runner lost; runtime outcome is unknown.";
}

abbrev pub Validation : Type 0
Validation = Task × Attempt × Spec

module _ (identity : ℕ → Option String) (cfg : Config) (now : ℕ) where
  -- Intent: a task that is past its deadline is told to stop. The row is read again.
  enforce_deadline : Task → Db → Result (Task × Db)
  unfolding is_overdue attempt_row require_task
  enforce_deadline task db =
      if is_overdue now task (attempt_row task.current_attempt_id db)
      then (do
        let db' =
            event "task.deadline_exceeded" (some task.id) none now (update_task task.id overdue db)
        task' ← require_task task.id db'
        ok (task', db'))
      else ok (task, db)

  abbrev is_gone : Option Worker → Bool
  is_gone none = true
  is_gone (some w) = ltb (w.last_seen + cfg.worker_ttl) now

  -- A queued attempt of a task that is to stop, or whose worker is gone, ends unlaunched.
  end_queued : Task → Attempt → Db → Db
  end_queued task a db =
      if not (is_queued a.state)
      then db
      else if wants_cancel task.desired_action
      then update_attempt a.id (never_launched "cancelled" "Cancelled before launch" now) db
      else if is_gone (find a.worker_id db.workers)
      then event "attempt.worker_lost" (some task.id) (some a.id) now (
          update_attempt a.id
            (never_launched "not_started" "Worker lost before launch; nothing ran" now) db)
      else db

  -- A launched attempt whose runner is gone has an unknown outcome.
  lose_runner : Task → Attempt → Db → Db
  unfolding alive
  lose_runner task a db =
      if is_launched a.state && not (alive identity a.runner_pid a.runner_start)
      then event "attempt.runner_lost" (some task.id) (some a.id) now (update_attempt a.id lost db)
      else db

  condition_of : Attempt → Condition
  condition_of a =
      if is_unknown a.state
      then Condition.unknown
      else if is_launched a.state && ltb (a.heartbeat + cfg.observation_ttl) now
      then Condition.stale
      else Condition.fresh

  abbrev starts : Attempt → Task → Bool
  starts a task = is_running a.state && is_scheduled task.status

  record_condition : Task → Attempt → Db → Db
  unfolding condition_of
  record_condition task a db =
      let observed =
        update_task task.id
          (λ t. record t { observation_condition = condition_of a; observed_at = some a.heartbeat })
          db in
      if starts a task
      then update_task task.id (λ t. record t { status = Status.running; version = t.version + 1 })
          observed
      else observed

  module _ (fs : Files) (settle_plan : PlanSettler) where
    -- A final attempt settles here, but for a success, whose artifact is validated outside.
    settle_final : Task → Attempt → Db → Result (List Validation × Db)
    settle_final task a db =
        if not (is_final a.state) || a.settled
        then ok ([], db)
        else if is_succeeded a.state
        then ok ((task, a, task.spec) ∷ [], db)
        else (do db' ← settle task a task.spec now fs settle_plan none db; ok ([], db'))

    reconcile_attempt : Task → Attempt → Db → Result (List Validation × Db)
    unfolding end_queued lose_runner record_condition settle_final
    reconcile_attempt task a db = do
      let db₁ = end_queued task a db
      a₁ ← or_uncaught (find a.id db₁.attempts)
      let db₂ = lose_runner task a₁ db₁
      a₂ ← or_uncaught (find a.id db₂.attempts)
      settle_final task a₂ (record_condition task a₂ db₂)

    reconcile_pending : Task → Db → Db
    unfolding finish_cancelled
    reconcile_pending task db =
        if wants_cancel task.desired_action then finish_cancelled task now db else db

    reconcile_active : Task → Db → Result (List Validation × Db)
    unfolding attempt_row reconcile_attempt
    reconcile_active task db = elim (attempt_row task.current_attempt_id db) [
      | none ↦ ok ([], db)
      | some a ↦ reconcile_attempt task a db
    ]

    -- The body of the loop over the tasks that are not terminal.
    unfoldable pub reconcile : Task → Db → Result (List Validation × Db)
    unfolding enforce_deadline reconcile_pending reconcile_active
    reconcile task db = do
      (task', db') ← enforce_deadline task db
      if is_pending task'.status
          then ok ([], reconcile_pending task' db')
          else reconcile_active task' db'

    unfoldable pub reconcile_each : List Task → Db → Result (List Validation × Db)
    reconcile_each [] db = ok ([], db)
    reconcile_each (task ∷ rest) db = do
      (vs, db') ← reconcile task db
      (ws, db'') ← reconcile_each rest db'
      ok (vs ++ ws, db'')

-- The first transaction of Manager.tick.
unfoldable pub tick :
    (ℕ → Option String) → Files → PlanSettler → (ℕ → ℕ) → ℕ → Db → Result (List Validation × Db)
unfolding keep_if
tick identity fs settle_plan uuid now db = do
  (vs, db₁) ←
      reconcile_each identity db.settings now fs settle_plan
        (keep_if (λ t. not (is_terminal t.status)) db.tasks) db
  db₂ ← schedule fs uuid db.settings now db₁
  ok (vs, db₂)
