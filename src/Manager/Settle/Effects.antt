-- ===== src/Manager/Settle/Effects.antt =====
-- The effect of Manager.settle on the rows of tasks and attempts.
use boring_orch_agent.Base.{
  ℕ, ◌≡◌, ◌≢◌, refl, String, Bool, true, false, Option, none, some, arith, find-modify_inv, if_both,
  if◌then◌else◌, Option-cases, inl, inr,
}
use boring_orch_agent.Schema.{
  Db, Task, Attempt, AttemptState, Status, Spec, ok, Post, Post-bind, Post-of, Post-map,
  AttemptState-cases, is_terminal, is_final, is_kind, wants_cancel, executions, event,
  update_attempt, task_keyed, attempt_keyed,
}
use boring_orch_agent.Artifacts.{Files, ResultVerdict, read_result}
use boring_orch_agent.Workflow.Admission.{record_usage_locked}
use boring_orch_agent.Workflow.Admission.Effects.{record_usage_locked-SameRows, SameRows}
use boring_orch_agent.Lifecycle.Change.{
  IsOpen, HasEnded, TaskStep, AttemptStep, Change, Change-trans, Affects, Affects-trans,
  Affects-update_task, Affects-update_attempt, Affects-same,
}
use boring_orch_agent.Manager.Settle.{
  PlanSettler, finished, requeued, released, rejected, finish, finish_cancelled, requeue, may_retry,
  retry_or_fail, settle_unsuccessful, reject_result, refuses, planner_root, accept_result,
  settle_success, settle_run, released_db, settle, settled_usage, usage_lost,
}

finished-TaskStep :
    (status : Status) (reason : Option String) (result : Option Attempt) (now : ℕ) (t : Task)
    → is_terminal t.status ≡ false
    → TaskStep t (finished status reason result now t)
finished-TaskStep status reason result now t h = ground arith

requeued-TaskStep :
    (at : ℕ) (reason : Option String) (t : Task)
    → is_terminal t.status ≡ false
    → TaskStep t (requeued at reason t)
requeued-TaskStep at reason t h = ground arith

module _ (manual grows : Bool) where
  pub finish-Affects :
      (task : Task) (status : Status) (reason : Option String) (result : Option Attempt) (now : ℕ)
      (db : Db)
      → IsOpen task.id db
      → Affects manual grows task.id db (finish task status reason result now db)
  unfolding finish
  finish-Affects task status reason result now db o =
      Affects-update_task manual grows task.id (finished status reason result now) db (λ _. refl)
        λ t e. finished-TaskStep status reason result now t (o t e)

  pub finish_cancelled-Affects :
      (task : Task) (now : ℕ) (db : Db)
      → IsOpen task.id db
      → Affects manual grows task.id db (finish_cancelled task now db)
  unfolding finish_cancelled
  finish_cancelled-Affects task now db = finish-Affects task _ _ none now db

  requeue-Affects :
      (kind : String) (task : Task) (attempt : Attempt) (at : ℕ) (reason : Option String) (now : ℕ)
      (db : Db)
      → IsOpen task.id db
      → Affects manual grows task.id db (requeue kind task attempt at reason now db)
  unfolding requeue
  requeue-Affects kind task attempt at reason now db o =
      Affects-update_task manual grows task.id (requeued at reason) db (λ _. refl)
        λ t e. requeued-TaskStep at reason t (o t e)

  rejected-AttemptStep :
      (message : String) (a : Attempt) → AttemptStep manual a (rejected message a)
  rejected-AttemptStep message a = ground arith

  released-AttemptStep : (a : Attempt) → is_final a.state ≡ true → AttemptStep manual a (released a)
  released-AttemptStep a h = ground arith

  module _ (task : Task) (attempt : Attempt) (spec : Spec) (now : ℕ) where
    retry_or_fail-Affects :
        (kind message : Option String) (db : Db)
        → IsOpen task.id db
        → Affects manual grows task.id db (retry_or_fail task attempt spec now kind message db)
    unfolding retry_or_fail
    retry_or_fail-Affects kind message db o =
        if_both (λ d. Affects manual grows task.id db d)
          (may_retry task spec kind (settled_usage task attempt) (usage_lost task attempt)
            (executions task.id db) now)
          (requeue-Affects "task.retry_scheduled" task attempt _ message now db o)
          (finish-Affects task Status.failed _ none now db o)

    settle_unsuccessful-Affects :
        (db : Db)
        → IsOpen task.id db
        → Affects manual grows task.id db (settle_unsuccessful task attempt spec now db)
    unfolding settle_unsuccessful
    settle_unsuccessful-Affects db o =
        if_both (λ d. Affects manual grows task.id db d) (is_kind "not_started" attempt.error_kind)
          (requeue-Affects "task.requeued" task attempt now attempt.error_message now db o)
          (retry_or_fail-Affects attempt.error_kind attempt.error_message db o)

    reject_result-Affects :
        (message : String) (db : Db)
        → IsOpen task.id db
        → Affects manual grows task.id db (reject_result task attempt spec now message db)
    unfolding reject_result
    reject_result-Affects message db o =
        let marked =
          update_attempt attempt.id (rejected message)
            (event "attempt.result_rejected" (some task.id) (some attempt.id) now db) in
        Affects-trans manual grows task.id db marked
          (reject_result task attempt spec now message db)
          (Affects-update_attempt manual grows task.id attempt.id (rejected message) db
            λ a _. rejected-AttemptStep message a)
          (retry_or_fail-Affects (some "validation") (some message) marked o)

    released_db-Affects :
        (fs : Files) (settle_plan : PlanSettler) (db : Db)
        → IsOpen task.id db
        → HasEnded attempt.id db
        → Affects manual grows task.id db (released_db task attempt spec now fs settle_plan db)
    unfolding released_db
    released_db-Affects fs settle_plan db o e =
        Affects-trans manual grows task.id db (update_attempt attempt.id released db)
          (released_db task attempt spec now fs settle_plan db)
          (Affects-update_attempt manual grows task.id attempt.id released db
            λ a h. released-AttemptStep a (e a h))
          (Affects-update_task manual grows task.id _ (update_attempt attempt.id released db)
            (λ _. refl) λ t h. let open_row = o t h in ground (arith, open_row))

    released_db-IsOpen :
        (fs : Files) (settle_plan : PlanSettler) (db : Db)
        → IsOpen task.id db
        → IsOpen task.id (released_db task attempt spec now fs settle_plan db)
    unfolding released_db
    released_db-IsOpen fs settle_plan db o t h =
        let (u, found, same) = find-modify_inv _ (λ _. refl) task.id db.tasks t h in
        let open_row = o u found in ground (arith, same, open_row)

    module _ (fs : Files) (settle_plan : PlanSettler) where
      -- Every way through settle releases and accounts first, and then decides.
      settle_rule :
          (Q : Db → Type 0) (verdict : Option ResultVerdict) (db : Db)
          → IsOpen task.id db
          → HasEnded attempt.id db
          → ((d : Db)
              → Affects manual grows task.id db d
              → IsOpen task.id d
              → Q (finish_cancelled task now d))
          → ((d : Db)
              → Affects manual grows task.id db d
              → IsOpen task.id d
              → Post Q (settle_run task attempt spec now fs settle_plan verdict d))
          → Post Q (settle task attempt spec now fs settle_plan verdict db)
      unfolding settle
      settle_rule Q verdict db o e stopped ran =
          let released_rows = released_db task attempt spec now fs settle_plan db in
          Post-bind (SameRows released_rows) Q
            (record_usage_locked task.id attempt.known_tokens now released_rows) _
            (record_usage_locked-SameRows task.id attempt.known_tokens now released_rows)
            λ d _ same.
              let now_open : IsOpen task.id d =
                λ t h. released_db-IsOpen fs settle_plan db o t (rw same.0 at h) in
              let reached =
                Affects-same manual grows task.id db released_rows d same.0 same.1 same.3
                  (released_db-Affects fs settle_plan db o e) in
              if_both (Post Q) (wants_cancel task.desired_action) (stopped d reached now_open)
                (ran d reached now_open)

      pub settle_run_unsuccessful :
          (verdict : Option ResultVerdict) (db : Db)
          → attempt.state ≢ AttemptState.succeeded
          → settle_run task attempt spec now fs settle_plan verdict db
            ≡ ok (settle_unsuccessful task attempt spec now db)
      unfolding settle_run
      settle_run_unsuccessful verdict db h = ground arith

      pub settle_run_successful :
          (verdict : Option ResultVerdict) (db : Db)
          → attempt.state ≡ AttemptState.succeeded
          → settle_run task attempt spec now fs settle_plan verdict db ≡ (
              if is_kind "not_started" attempt.error_kind
              then ok (settle_unsuccessful task attempt spec now db)
              else settle_success task attempt spec now fs settle_plan verdict db)
      unfolding settle_run
      settle_run_successful verdict db h = ground arith

      -- An attempt that did not succeed settles its own task and nothing else.
      pub settle_unsuccessful_run-Affects :
          (verdict : Option ResultVerdict) (db : Db)
          → attempt.state ≢ AttemptState.succeeded
          → IsOpen task.id db
          → HasEnded attempt.id db
          → Post
              (λ d. Affects manual grows task.id db d)
              (settle task attempt spec now fs settle_plan verdict db)
      settle_unsuccessful_run-Affects verdict db h o e =
          settle_rule (λ d. Affects manual grows task.id db d) verdict db o e
            (λ d reached now_open.
              Affects-trans manual grows task.id db d (finish_cancelled task now d) reached
                (finish_cancelled-Affects task now d now_open))
            λ d reached now_open. rw (settle_run_unsuccessful verdict d h) (
              Affects-trans manual grows task.id db d (settle_unsuccessful task attempt spec now d)
                reached (settle_unsuccessful-Affects d now_open))

      module _
          (plan_law : (root : ℕ) (plan : String) (at : ℕ) (d : Db)
            → Post (λ d'. Change manual grows d d') (settle_plan root plan at d)) where
        accept_result-Change :
            (db : Db)
            → IsOpen task.id db
            → Post
                (λ d. Change manual grows db d)
                (accept_result task attempt spec now fs settle_plan db)
        unfolding accept_result
        accept_result-Change db o =
            let done =
              finish task Status.succeeded (some "output_validated") (some attempt) now db in
            let step =
              (finish-Affects task Status.succeeded (some "output_validated") (some attempt) now db
                o).0 in
            elim (Option-cases (planner_root task.id db.workflow_roots)) [
              | inl e ↦ rw (e, accept_result) step
              | inr (root, e) ↦
                  rw (e, accept_result)
                    (Post-bind (λ _. Unit {0}) (λ d. Change manual grows db d)
                      (read_result fs attempt spec) _
                      (Post-of (λ _. Unit {0}) (read_result fs attempt spec) (λ _ _. tt))
                      λ plan _ _.
                        Post-map (λ d. Change manual grows done d) (λ d. Change manual grows db d)
                          (settle_plan root.id plan now done)
                          (λ d. Change-trans manual grows db done d step)
                          (plan_law root.id plan now done))
            ]

        settle_success-Change :
            (verdict : Option ResultVerdict) (db : Db)
            → IsOpen task.id db
            → Post
                (λ d. Change manual grows db d)
                (settle_success task attempt spec now fs settle_plan verdict db)
        unfolding settle_success
        settle_success-Change verdict db o = elim (Option-cases (refuses verdict)) [
          | inl e ↦ rw (e, settle_success) (accept_result-Change db o)
          | inr (message, e) ↦ rw (e, settle_success) (reject_result-Affects message db o).0
        ]

        settle_run-Change :
            (verdict : Option ResultVerdict) (db : Db)
            → IsOpen task.id db
            → Post
                (λ d. Change manual grows db d)
                (settle_run task attempt spec now fs settle_plan verdict db)
        settle_run-Change verdict db o = elim (AttemptState-cases attempt.state) [
          | inl e ↦ rw (settle_run_successful verdict db e) (
              if_both (Post (λ d. Change manual grows db d))
                (is_kind "not_started" attempt.error_kind) (settle_unsuccessful-Affects db o).0
                (settle_success-Change verdict db o))
          | inr e ↦ rw (settle_run_unsuccessful verdict db e) (settle_unsuccessful-Affects db o).0
        ]

        -- Whatever the verdict, settling keeps every row as `Change` allows.
        pub settle-Change :
            (verdict : Option ResultVerdict) (db : Db)
            → IsOpen task.id db
            → HasEnded attempt.id db
            → Post
                (λ d. Change manual grows db d)
                (settle task attempt spec now fs settle_plan verdict db)
        settle-Change verdict db o e =
            settle_rule (λ d. Change manual grows db d) verdict db o e
              (λ d reached now_open.
                Change-trans manual grows db d (finish_cancelled task now d) reached.0
                  (finish_cancelled-Affects task now d now_open).0)
              λ d reached now_open.
                Post-map (λ d'. Change manual grows d d') (λ d'. Change manual grows db d')
                  (settle_run task attempt spec now fs settle_plan verdict d)
                  (λ d'. Change-trans manual grows db d d' reached.0)
                  (settle_run-Change verdict d now_open)
