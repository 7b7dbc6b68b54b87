-- ===== src/Tests/Manager.antt =====
-- Placement, settlement and validation at the small installation.
use boring_orch_agent.Base.{
  ◌+◌, ◌≡◌, ◌≤◌, ◌⊎◌, ◌↔◌, Occurs, refl, true, false, String, Option, none, some, [], ◌∷◌, find,
  modify, max, Distinct, count, keep_if, sort_by, insert_by,
}
use boring_orch_agent.Schema.{
  Db, Task, Worker, Status, require_task, Result, ok, err, is_kind, wants_cancel, executions,
  reserved_total, reserved_on, task_keyed, attempt_keyed, worker_keyed,
}
use boring_orch_agent.Manager.Schedule.{
  due_tasks, place, schedule, schedule_each, feasible, choose, assign,
}
use boring_orch_agent.Manager.Schedule.Placed.{IsFit, IsAssigned, place-IsFit}
use boring_orch_agent.Manager.Schedule.Limits.{schedule-max_active, schedule-slots}
use boring_orch_agent.Manager.Schedule.Order.{InOrder, IsDue, due_tasks-InOrder}
use boring_orch_agent.Manager.Settle.{
  settle, settle_run, settle_success, settle_unsuccessful, retry_or_fail, may_retry, backoff,
  requeue, finish,
}
use boring_orch_agent.Manager.Settle.Outcomes.{Outcome, settle-Outcome}
use boring_orch_agent.Manager.Settle.Policy.{IsRetriable, FailsWith}
use boring_orch_agent.Manager.Settle.Retries.{settle-IsRetriable}
use boring_orch_agent.Manager.Validate.{
  validate_and_settle, settle_verdict, verdict_of, first_verdict,
}
use boring_orch_agent.Manager.Validate.Validated.{IsValidated, validate_and_settle-IsValidated}
use boring_orch_agent.Artifacts.{
  prevalidate_result, read_result, artifact_checksum, artifact_data, is_path,
}
use boring_orch_agent.Runner.Claim.{is_capable, offers}
use boring_orch_agent.Workflow.Admission.{claim_attempt_locked, record_usage_locked, child_of}
use boring_orch_agent.Workflow.Delivery.{deliver_dependencies}
use boring_orch_agent.Tests.Fixtures.{
  demo_spec, waiting_task, active_task, only_worker, failed_attempt, won_attempt, idle_store,
  failed_store, won_store, files, no_plans, no_plans-PlanLaw, fresh_id,
}

abbrev returned : Db → Result Db → Db
returned db (ok d) = d
returned db (err e) = db

one_worker : Distinct (only_worker ∷ [])
unfolding find
one_worker = (refl, tt)

one_task : (t : Task) → Distinct (t ∷ [])
unfolding find
one_task t = (refl, tt)

due_tasks-InOrder_example :
    InOrder (due_tasks 20 (waiting_task ∷ active_task ∷ []))
    × (Occurs waiting_task (due_tasks 20 (waiting_task ∷ active_task ∷ []))
        ↔ (Occurs waiting_task (waiting_task ∷ active_task ∷ []) × IsDue 20 waiting_task))
due_tasks-InOrder_example = due_tasks-InOrder 20 (waiting_task ∷ active_task ∷ []) waiting_task

abbrev placed_rows : Db → Result (Option Worker × Db) → Db
placed_rows db (ok (w, d)) = d
placed_rows db (err e) = db

abbrev placed_store : Db
placed_store =
    placed_rows idle_store (place files fresh_id idle_store.settings 20 waiting_task 0 idle_store)

places :
    place files fresh_id idle_store.settings 20 waiting_task 0 idle_store
    ≡ ok (some only_worker, placed_store)
unfolding place find modify count keep_if sort_by feasible choose is_capable offers assign
    deliver_dependencies claim_attempt_locked child_of insert_by
places = refl

place-IsFit_example :
    IsFit idle_store.settings 20 demo_spec idle_store only_worker
    × IsAssigned files fresh_id idle_store.settings 20 waiting_task placed_store only_worker
    × (reserved_total placed_store ≤ reserved_total idle_store + 1)
place-IsFit_example =
    place-IsFit files fresh_id idle_store.settings 20 waiting_task 0 idle_store placed_store
      only_worker one_worker places

abbrev scheduled_store : Db
scheduled_store = returned idle_store (schedule files fresh_id idle_store.settings 20 idle_store)

schedules : schedule files fresh_id idle_store.settings 20 idle_store ≡ ok scheduled_store
unfolding schedule schedule_each due_tasks place find modify count keep_if sort_by feasible choose
    is_capable offers assign deliver_dependencies claim_attempt_locked child_of insert_by
schedules = refl

schedule-max_active_example : reserved_total scheduled_store ≤ max (reserved_total idle_store) 2
schedule-max_active_example =
    schedule-max_active files fresh_id idle_store.settings 20 idle_store scheduled_store
      (one_task waiting_task) schedules

schedule-slots_example : reserved_on 4 scheduled_store ≤ max (reserved_on 4 idle_store) 1
unfolding find
schedule-slots_example =
    schedule-slots files fresh_id idle_store.settings 20 idle_store scheduled_store only_worker
      (one_task waiting_task) one_worker refl schedules

abbrev retried_store : Db
retried_store =
    returned failed_store
      (settle active_task failed_attempt demo_spec 30 files no_plans none failed_store)

settles :
    settle active_task failed_attempt demo_spec 30 files no_plans none failed_store
    ≡ ok retried_store
unfolding settle settle_run settle_unsuccessful retry_or_fail may_retry backoff requeue finish find
    modify count executions record_usage_locked child_of
settles = refl

settle-Outcome_example :
    (u : Task) × (find 1 retried_store.tasks ≡ some u)
    × Outcome active_task failed_attempt demo_spec 30 (executions 1 failed_store) none active_task u
unfolding find
settle-Outcome_example =
    settle-Outcome active_task failed_attempt demo_spec 30 none active_task files no_plans
      (no_plans-PlanLaw true true) failed_store retried_store refl refl settles

abbrev retried_task : Task
retried_task = record active_task {
  status = Status.pending;
  current_attempt_id = none;
  next_run_at = 35;
  version = 2;
}

settle-IsRetriable_example :
    (wants_cancel active_task.desired_action ≡ false)
    × ((is_kind "not_started" failed_attempt.error_kind ≡ true)
        ⊎ ((kind message : Option String) × FailsWith failed_attempt none kind message
            × IsRetriable active_task failed_attempt demo_spec 30 (executions 1 failed_store) kind))
unfolding find settle settle_run settle_unsuccessful retry_or_fail may_retry backoff requeue modify
    count executions record_usage_locked child_of
settle-IsRetriable_example =
    settle-IsRetriable active_task failed_attempt demo_spec 30 none active_task retried_task files
      no_plans (no_plans-PlanLaw true true) failed_store retried_store refl refl settles refl refl

abbrev won_task : Task
won_task = record active_task {
  status = Status.succeeded;
  finished_at = some 30;
  version = 2;
  reason = some "output_validated";
  result_path = some "artifacts/7.json";
  result_sha256 = some "aa";
}

abbrev accepted_store : Db
accepted_store =
    returned won_store
      (validate_and_settle files files no_plans 30 active_task won_attempt demo_spec won_store)

accepts :
    validate_and_settle files files no_plans 30 active_task won_attempt demo_spec won_store
    ≡ ok accepted_store
unfolding validate_and_settle settle_verdict verdict_of first_verdict prevalidate_result read_result
    artifact_checksum artifact_data is_path require_task settle settle_run settle_success finish
    find modify record_usage_locked child_of
accepts = refl

validate_and_settle-IsValidated_example : IsValidated files files won_attempt demo_spec
unfolding validate_and_settle settle_verdict verdict_of first_verdict prevalidate_result read_result
    artifact_checksum artifact_data is_path require_task settle settle_run settle_success finish
    find modify record_usage_locked child_of
validate_and_settle-IsValidated_example =
    validate_and_settle-IsValidated files files no_plans 30 (no_plans-PlanLaw true true) active_task
      active_task won_task won_attempt demo_spec won_store accepted_store refl refl accepts refl
      refl
