-- ===== src/Manager/Settle.antt =====
-- Manager.finish and Manager.settle of boring_agent/manager.py.
pub mod Effects
pub mod Policy
pub mod Outcomes
pub mod Retries
use boring_orch_agent.Base.{
  ℕ, ◌+◌, ◌-◌, ◌*◌, ◌^◌, String, Bool, true, false, Option, none, some, List, [], ◌∷◌, is_none,
  if◌then◌else◌, not, ◌||◌, ◌&&◌, ltb, ◌==◌, str_eq,
}
use boring_orch_agent.Schema.{
  Db, Task, Attempt, AttemptState, Status, Condition, Spec, Retry, WorkflowRoot, Result, ok, ◌>>=◌,
  event, update_task, update_attempt, executions, is_kind, wants_cancel, task_keyed, attempt_keyed,
}
use boring_orch_agent.Artifacts.{Files, ResultVerdict, read_result}
use boring_orch_agent.Workflow.Admission.{record_usage_locked}

-- WorkflowStore._settle_plan_locked, of a root's id and the plan's text.
abbrev pub PlanSettler : Type 0
PlanSettler = ℕ → String → ℕ → Db → Result Db

abbrev pub path_of : Option Attempt → Option String
path_of none = none
path_of (some a) = a.result_path

abbrev pub checksum_of : Option Attempt → Option String
checksum_of none = none
checksum_of (some a) = a.result_sha256

abbrev pub finished : Status → Option String → Option Attempt → ℕ → Task → Task
finished status reason result now t = record t {
  status = status;
  reason = reason;
  finished_at = some now;
  version = t.version + 1;
  observation_condition = Condition.fresh;
  result_path = path_of result;
  result_sha256 = checksum_of result;
}

unfoldable pub finish : Task → Status → Option String → Option Attempt → ℕ → Db → Db
finish task status reason result now db =
    event "task.finished" (some task.id) task.current_attempt_id now
      (update_task task.id (finished status reason result now) db)

-- A task that was told to stop: past its deadline it has failed.
unfoldable pub finish_cancelled : Task → ℕ → Db → Db
unfolding finish
finish_cancelled task now =
    finish task
      (if is_kind "deadline_exceeded" task.reason then Status.failed else Status.cancelled)
      task.reason none now

abbrev pub requeued : ℕ → Option String → Task → Task
requeued at reason t = record t {
  status = Status.pending;
  current_attempt_id = none;
  next_run_at = at;
  reason = reason;
  version = t.version + 1;
}

-- UPDATE tasks SET status='Pending',current_attempt_id=NULL, …
unfoldable pub requeue : String → Task → Attempt → ℕ → Option String → ℕ → Db → Db
requeue kind task attempt at reason now db =
    event kind (some task.id) (some attempt.id) now (update_task task.id (requeued at reason) db)

abbrev pub listed : Option String → List String → Bool
listed none l = false
listed (some k) [] = false
listed (some k) (x ∷ xs) = str_eq x k || listed (some k) xs

abbrev pub fits : ℕ → Bool → Option ℕ → Bool
fits tokens usage_unknown none = true
fits tokens usage_unknown (some ceiling) = not usage_unknown && ltb tokens ceiling

-- backoff_seconds * 2 ** (executed - 1)
unfoldable pub backoff : Retry → ℕ → ℕ
backoff policy executed = policy.backoff_seconds * 2 ^ (executed - 1)

-- The condition of settle under which a failed attempt is replayed.
unfoldable pub may_retry : Task → Spec → Option String → ℕ → Bool → ℕ → ℕ → Bool
unfolding backoff
may_retry task spec kind tokens usage_unknown executed now =
    spec.retry.replay_safe
    && listed kind spec.retry.on
    && ltb executed spec.retry.max_attempts
    && ltb (now + backoff spec.retry executed) task.deadline
    && fits tokens usage_unknown spec.max_tokens

-- message or kind or "execution_failed"
abbrev or_text : Option String → String → String
or_text none d = d
or_text (some m) d = if str_eq m "" then d else m

abbrev first_text : Option String → Option String → String
first_text message kind = or_text message (or_text kind "execution_failed")

abbrev pub settled_usage : Task → Attempt → ℕ
settled_usage task attempt = task.tokens_used + attempt.known_tokens

abbrev pub usage_lost : Task → Attempt → Bool
usage_lost task attempt = task.usage_unknown || is_none attempt.tokens

abbrev pub released : Attempt → Attempt
released a = record a { reserved = false; settled = true }

abbrev pub rejected : String → Attempt → Attempt
rejected message a = record a { error_kind = some "validation"; error_message = some message }

-- A message of Python's, where None and the empty text count as false.
abbrev pub truthy : Option String → Option String
truthy none = none
truthy (some m) = if str_eq m "" then none else some m

-- The message with which a verdict refuses a result, if it does.
abbrev pub refuses : Option ResultVerdict → Option String
refuses none = some "Missing result validation verdict"
refuses (some v) = truthy v.error

unfoldable pub planner_root : ℕ → List WorkflowRoot → Option WorkflowRoot
planner_root k [] = none
planner_root k (r ∷ rs) = if r.planner_task_id == k then some r else planner_root k rs

module _ (task : Task) (attempt : Attempt) (spec : Spec) (now : ℕ) where
  -- The retry decision at the end of settle.
  unfoldable pub retry_or_fail : Option String → Option String → Db → Db
  unfolding may_retry finish requeue backoff
  retry_or_fail kind message db =
      let executed = executions task.id db in
      if may_retry task spec kind (settled_usage task attempt) (usage_lost task attempt) executed
        now
      then requeue "task.retry_scheduled" task attempt (now + backoff spec.retry executed) message
          now db
      else finish task Status.failed (some (first_text message kind)) none now db

  -- An attempt that settles for another reason than success.
  unfoldable pub settle_unsuccessful : Db → Db
  unfolding retry_or_fail requeue
  settle_unsuccessful db =
      if is_kind "not_started" attempt.error_kind
      then requeue "task.requeued" task attempt now attempt.error_message now db
      else retry_or_fail attempt.error_kind attempt.error_message db

  reject_result : String → Db → Db
  unfolding retry_or_fail
  reject_result message db = retry_or_fail (some "validation") (some message) (
      update_attempt attempt.id (rejected message)
        (event "attempt.result_rejected" (some task.id) (some attempt.id) now db))

  module _ (fs : Files) (settle_plan : PlanSettler) where
    accept_result : Db → Result Db
    unfolding finish planner_root
    accept_result db =
        let done = finish task Status.succeeded (some "output_validated") (some attempt) now db in
        elim (planner_root task.id db.workflow_roots) [
          | none ↦ ok done
          | some root ↦ do plan ← read_result fs attempt spec; settle_plan root.id plan now done
        ]

    unfoldable pub settle_success : Option ResultVerdict → Db → Result Db
    unfolding accept_result reject_result
    settle_success verdict db = elim (refuses verdict) [
      | some message ↦ ok (reject_result message db)
      | none ↦ accept_result db
    ]

    unfoldable pub settle_run : Option ResultVerdict → Db → Result Db
    unfolding settle_success settle_unsuccessful
    settle_run verdict db = elim attempt.state [
      | AttemptState.succeeded ↦
          if is_kind "not_started" attempt.error_kind
          then ok (settle_unsuccessful db)
          else settle_success verdict db
      | _ ↦ ok (settle_unsuccessful db)
    ]

    -- Release the reservation and account the usage, on every way through settle.
    released_db : Db → Db
    released_db db =
        update_task task.id
          (λ t. record t {
            tokens_used = settled_usage task attempt;
            usage_unknown = usage_lost task attempt;
          })
          (update_attempt attempt.id released db)

    unfoldable pub settle : Option ResultVerdict → Db → Result Db
    unfolding released_db settle_run finish_cancelled
    settle verdict db = do
      db' ← record_usage_locked task.id attempt.known_tokens now (released_db db)
      if wants_cancel task.desired_action
          then ok (finish_cancelled task now db')
          else settle_run verdict db'
