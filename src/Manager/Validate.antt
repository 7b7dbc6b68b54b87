-- ===== src/Manager/Validate.antt =====
-- Manager._validate_and_settle of boring_agent/manager.py. The artifact is read before the
-- transaction (`early`) and once more (`late`): another process may replace it in between.
pub mod Effects
pub mod Validated
use boring_orch_agent.Base.{
  ℕ, String, Bool, true, false, Option, none, some, find, if◌then◌else◌, not, ◌||◌, ◌&&◌, ◌==◌,
  opt_eq, str_eq,
}
use boring_orch_agent.Schema.{
  Db, Task, Attempt, AttemptState, Action, Spec, Result, ok, err, ◌>>=◌, require_task, is_terminal,
  wants_cancel, attempt_keyed,
}
use boring_orch_agent.Artifacts.{
  Files, ResultVerdict, error_text, prevalidate_result, artifact_checksum, is_path,
}
use boring_orch_agent.Manager.Settle.{PlanSettler, settle}

abbrev same_text : Option String → Option String → Bool
same_text none none = true
same_text (some a) (some b) = str_eq a b
same_text _ _ = false

abbrev same_action : Action → Action → Bool
same_action Action.run Action.run = true
same_action Action.cancel Action.cancel = true
same_action _ _ = false

abbrev is_success : AttemptState → Bool
is_success AttemptState.succeeded = true
is_success _ = false

-- _invalid_verdict
abbrev invalid_verdict : Files → Attempt → Spec → Action → String → ResultVerdict
invalid_verdict fs a spec desired message = record {
  attempt_id = a.id;
  result_path = a.result_path;
  result_sha256 = a.result_sha256;
  spec_sha256 = fs.digest spec;
  desired_action = desired;
  result = none;
  error = some message;
}

-- The verdict before the content is read again.
unfoldable pub first_verdict : Files → Attempt → Spec → Action → ResultVerdict
first_verdict early a spec desired = elim (prevalidate_result early a spec desired) [
  | ok v ↦ v
  | err e ↦ invalid_verdict early a spec desired (error_text e)
]

abbrev with_error : ResultVerdict → String → ResultVerdict
with_error v message = record v { error = some message }

recheck : Result String → ResultVerdict → ResultVerdict
recheck (err e) v = with_error v (error_text e)
recheck (ok checksum) v =
    if is_path v.result_sha256 checksum
    then v
    else with_error v "Artifact changed after pre-validation"

abbrev is_open : ResultVerdict → Bool
is_open v = elim v.error [ none ↦ true | some _ ↦ false ]

unfoldable pub verdict_of : Files → Files → Task → Attempt → Spec → ResultVerdict
unfolding first_verdict recheck
verdict_of early late task a spec =
    let v = first_verdict early a spec task.desired_action in
    if is_open v && not (wants_cancel task.desired_action)
    then recheck (artifact_checksum late a spec) v
    else v

-- The verdict was given on another result or another contract.
abbrev is_stale : Files → Attempt → Spec → ResultVerdict → Bool
is_stale fs a spec v =
    not (a.id == v.attempt_id)
    || not (same_text a.result_path v.result_path)
    || not (same_text a.result_sha256 v.result_sha256)
    || not (str_eq (fs.digest spec) v.spec_sha256)

module _ (fs : Files) (settle_plan : PlanSettler) (now : ℕ) where
  settle_checked : Task → Attempt → ResultVerdict → Db → Result Db
  settle_checked task a v db =
      if not (same_action task.desired_action v.desired_action)
      then (if wants_cancel task.desired_action
          then settle task a task.spec now fs settle_plan none db
          else ok db)
      else settle task a task.spec now fs settle_plan
          (some
            (if is_stale fs a task.spec v then with_error v "Pre-validated result is stale" else v))
          db

  settle_current : Task → Option Attempt → ResultVerdict → Db → Result Db
  unfolding settle_checked
  settle_current task none v db = ok db
  settle_current task (some a) v db =
      if not (opt_eq task.current_attempt_id a.id)
      then ok db
      else if not (is_success a.state) || a.settled || is_terminal task.status
      then ok db
      else settle_checked task a v db

  -- The transaction.
  unfoldable pub settle_verdict : ℕ → ℕ → ResultVerdict → Db → Result Db
  unfolding settle_current require_task
  settle_verdict task_id attempt_id v db = do
    task ← require_task task_id db
    settle_current task (find attempt_id db.attempts) v db

unfoldable pub validate_and_settle :
    Files → Files → PlanSettler → ℕ → Task → Attempt → Spec → Db → Result Db
unfolding verdict_of settle_verdict
validate_and_settle early late settle_plan now task a spec =
    settle_verdict late settle_plan now task.id a.id (verdict_of early late task a spec)
