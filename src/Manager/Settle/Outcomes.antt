-- ===== src/Manager/Settle/Outcomes.antt =====
-- The outcome of Manager.settle of boring_agent/manager.py, as a table of cases.
use boring_orch_agent.Base.{
  ℕ, ◌+◌, ◌≡◌, ◌≢◌, ◌⊎◌, refl, sym, ◌∙◌, subst, ap, String, Bool, true, false, Option, none, some,
  List, [], ◌∷◌, find, modify, count, count-modify, arith, if_split, if◌then◌else◌, Option-cases,
  inl, inr, find-modify_self, find-Grows,
}
use boring_orch_agent.Schema.{
  Db, Task, Attempt, AttemptState, AttemptState-cases, Status, Spec, ok, Post, Post-bind, Post-of,
  Post_at, Post-map, event, is_execution, executions, is_kind, wants_cancel, update_attempt,
  task_keyed, attempt_keyed,
}
use boring_orch_agent.Artifacts.{Files, ResultVerdict, read_result}
use boring_orch_agent.Workflow.Admission.{record_usage_locked}
use boring_orch_agent.Workflow.Admission.Effects.{SameRows, record_usage_locked-SameRows}
use boring_orch_agent.Lifecycle.Change.{Change, TaskStep}
use boring_orch_agent.Manager.Settle.{
  PlanSettler, finished, finish, finish_cancelled, requeued, requeue, backoff, may_retry,
  settled_usage, usage_lost, released, rejected, refuses, first_text, retry_or_fail,
  settle_unsuccessful, reject_result, accept_result, settle_success, settle_run, released_db,
  settle, planner_root,
}
use boring_orch_agent.Manager.Settle.Policy.{
  IsRetriable, may_retry-IsRetriable, retriable-may_retry, FailsWith, unsuccessful, refused,
}
use boring_orch_agent.Manager.Settle.Effects.{settle_run_successful, settle_run_unsuccessful}

-- A change that does not matter to the test does not change the count.
count-modify_same :
    (p : Attempt → Bool) (k : ℕ) (f : Attempt → Attempt) (xs : List Attempt)
    → ((a : Attempt) → p (f a) ≡ p a)
    → count p (modify k f xs) ≡ count p xs
unfolding count modify
count-modify_same p k f [] same = refl
count-modify_same p k f (x ∷ xs) same = ground (arith, same x, count-modify_same p k f xs same)

-- The row of the task once the attempt's usage is accounted.
abbrev pub accounted : Task → Attempt → Task → Task
accounted task attempt t = record t {
  tokens_used = settled_usage task attempt;
  usage_unknown = usage_lost task attempt;
}

-- The cases: `t` is the task's row before, `u` after, `n` the executions counted.
pub data Outcome (task : Task) (attempt : Attempt) (spec : Spec) (now n : ℕ)
    (verdict : Option ResultVerdict) (t u : Task) : Type 0 where
  stopped :
      wants_cancel task.desired_action ≡ true
      → u
        ≡ finished
            (if is_kind "deadline_exceeded" task.reason then Status.failed else Status.cancelled)
            task.reason
            none
            now
            (accounted task attempt t)
      → Outcome task attempt spec now n verdict t u
  succeeds :
      wants_cancel task.desired_action ≡ false
      → attempt.state ≡ AttemptState.succeeded
      → refuses verdict ≡ none
      → u
        ≡ finished Status.succeeded
            (some "output_validated")
            (some attempt)
            now
            (accounted task attempt t)
      → Outcome task attempt spec now n verdict t u
  not_started :
      wants_cancel task.desired_action ≡ false
      → is_kind "not_started" attempt.error_kind ≡ true
      → u ≡ requeued now attempt.error_message (accounted task attempt t)
      → Outcome task attempt spec now n verdict t u
  retried :
      (kind message : Option String)
      → wants_cancel task.desired_action ≡ false
      → is_kind "not_started" attempt.error_kind ≡ false
      → FailsWith attempt verdict kind message
      → IsRetriable task attempt spec now n kind
      → u ≡ requeued (now + backoff spec.retry n) message (accounted task attempt t)
      → Outcome task attempt spec now n verdict t u
  fails :
      (kind message : Option String)
      → wants_cancel task.desired_action ≡ false
      → is_kind "not_started" attempt.error_kind ≡ false
      → FailsWith attempt verdict kind message
      → ¬ IsRetriable task attempt spec now n kind
      → u
        ≡ finished Status.failed
            (some (first_text message kind))
            none
            now
            (accounted task attempt t)
      → Outcome task attempt spec now n verdict t u

module _ (task : Task) (attempt : Attempt) (spec : Spec) (now : ℕ) (verdict : Option ResultVerdict)
    (t : Task) where
  -- The row in `d` is one of the outcomes.
  abbrev Ends : ℕ → Db → Type 0
  Ends n d =
      (u : Task) × (find task.id d.tasks ≡ some u) × Outcome task attempt spec now n verdict t u

  finish-row :
      (status : Status) (reason : Option String) (result : Option Attempt) (db : Db) (s : Task)
      → find task.id db.tasks ≡ some s
      → find task.id (finish task status reason result now db).tasks
        ≡ some (finished status reason result now s)
  unfolding finish
  finish-row status reason result db s h =
      find-modify_self (finished status reason result now) (λ _. refl) task.id db.tasks s h

  requeue-row :
      (kind : String) (at : ℕ) (reason : Option String) (db : Db) (s : Task)
      → find task.id db.tasks ≡ some s
      → find task.id (requeue kind task attempt at reason now db).tasks
        ≡ some (requeued at reason s)
  unfolding requeue
  requeue-row kind at reason db s h =
      find-modify_self (requeued at reason) (λ _. refl) task.id db.tasks s h

  retry_or_fail-Ends :
      (kind message : Option String) (db : Db)
      → wants_cancel task.desired_action ≡ false
      → is_kind "not_started" attempt.error_kind ≡ false
      → FailsWith attempt verdict kind message
      → find task.id db.tasks ≡ some (accounted task attempt t)
      → Ends (executions task.id db) (retry_or_fail task attempt spec now kind message db)
  unfolding retry_or_fail
  retry_or_fail-Ends kind message db w k failure h =
      let n = executions task.id db in
      if_split (λ d. Ends n d)
        (may_retry task spec kind (settled_usage task attempt) (usage_lost task attempt) n now)
        (λ yes. (
          _,
          requeue-row "task.retry_scheduled" _ message db _ h,
          retried kind message w k failure (may_retry-IsRetriable task attempt spec now n kind yes)
              refl,
        ))
        (λ no. (
          _,
          finish-row Status.failed _ none db _ h,
          fails kind message w k failure
              (λ may. cc (retriable-may_retry task attempt spec now n kind may, no)) refl,
        ))

  settle_unsuccessful-Ends :
      (db : Db)
      → wants_cancel task.desired_action ≡ false
      → (is_kind "not_started" attempt.error_kind ≡ true) ⊎ (attempt.state ≢ AttemptState.succeeded)
      → find task.id db.tasks ≡ some (accounted task attempt t)
      → Ends (executions task.id db) (settle_unsuccessful task attempt spec now db)
  unfolding settle_unsuccessful
  settle_unsuccessful-Ends db w cause h =
      if_split (λ d. Ends (executions task.id db) d) (is_kind "not_started" attempt.error_kind)
        (λ yes.
          (_, requeue-row "task.requeued" now attempt.error_message db _ h, not_started w yes refl))
        (λ no.
          retry_or_fail-Ends attempt.error_kind attempt.error_message db w no
            (elim cause [ inl k ↦ cc (k, no) | inr ends ↦ unsuccessful ends ]) h)

  finish_cancelled-Ends :
      (n : ℕ) (db : Db)
      → wants_cancel task.desired_action ≡ true
      → find task.id db.tasks ≡ some (accounted task attempt t)
      → Ends n (finish_cancelled task now db)
  unfolding finish_cancelled
  finish_cancelled-Ends n db w h = (_, finish-row _ task.reason none db _ h, stopped w refl)

  reject_result-Ends :
      (message : String) (db : Db)
      → wants_cancel task.desired_action ≡ false
      → attempt.state ≡ AttemptState.succeeded
      → refuses verdict ≡ some message
      → find attempt.id db.attempts ≡ some (released attempt)
      → is_kind "not_started" attempt.error_kind ≡ false
      → find task.id db.tasks ≡ some (accounted task attempt t)
      → Ends (executions task.id db) (reject_result task attempt spec now message db)
  unfolding reject_result executions
  reject_result-Ends message db w won refusal row kind h =
      let p = is_execution task.id in
      let moved = count-modify p attempt.id (rejected message) db.attempts (released attempt) row in
      let n : count p (modify attempt.id (rejected message) db.attempts) ≡ count p db.attempts =
        ground (arith, moved, kind) in
      subst (λ m. Ends m (reject_result task attempt spec now message db)) n
        (retry_or_fail-Ends (some "validation") (some message)
          (update_attempt attempt.id (rejected message)
            (event "attempt.result_rejected" (some task.id) (some attempt.id) now db))
          w kind (refused message won refusal) h)

  module _ (fs : Files) (settle_plan : PlanSettler)
      (law : (root : ℕ) (plan : String) (at : ℕ) (d : Db)
        → Post (λ d'. Change true true d d') (settle_plan root plan at d)) where
    accept_result-Ends :
        (n : ℕ) (db : Db)
        → wants_cancel task.desired_action ≡ false
        → attempt.state ≡ AttemptState.succeeded
        → refuses verdict ≡ none
        → find task.id db.tasks ≡ some (accounted task attempt t)
        → Post (Ends n) (accept_result task attempt spec now fs settle_plan db)
    unfolding accept_result
    accept_result-Ends n db w s v h =
        let done = finish task Status.succeeded (some "output_validated") (some attempt) now db in
        let row = finish-row Status.succeeded (some "output_validated") (some attempt) db _ h in
        elim (Option-cases (planner_root task.id db.workflow_roots)) [
          | inl e ↦ rw (e, accept_result) (_, row, succeeds w s v refl)
          | inr (root, e) ↦
              rw (e, accept_result)
                (Post-bind (λ _. Unit {0}) (Ends n) (read_result fs attempt spec) _
                  (Post-of (λ _. Unit {0}) (read_result fs attempt spec) (λ _ _. tt))
                  λ plan _ _.
                    Post-map (λ d. Change true true done d) (Ends n)
                      (settle_plan root.id plan now done)
                      (λ d step.
                        let (u, found, kept) =
                          find-Grows TaskStep (λ _. Unit {0}) (λ _ _ c. c.id) task.id done.tasks
                            d.tasks _ row step.0 in
                        (u, found, succeeds w s v (kept.frozen refl)))
                      (law root.id plan now done))
        ]

    settle_success-Ends :
        (db : Db)
        → wants_cancel task.desired_action ≡ false
        → attempt.state ≡ AttemptState.succeeded
        → find attempt.id db.attempts ≡ some (released attempt)
        → is_kind "not_started" attempt.error_kind ≡ false
        → find task.id db.tasks ≡ some (accounted task attempt t)
        → Post
            (Ends (executions task.id db))
            (settle_success task attempt spec now fs settle_plan verdict db)
    unfolding settle_success
    settle_success-Ends db w s row kind h = elim (Option-cases (refuses verdict)) [
      | inl e ↦ rw (e, settle_success) (accept_result-Ends (executions task.id db) db w s e h)
      | inr (message, e) ↦ rw (e, settle_success) (reject_result-Ends message db w s e row kind h)
    ]

    settle_run-Ends :
        (db : Db)
        → wants_cancel task.desired_action ≡ false
        → find attempt.id db.attempts ≡ some (released attempt)
        → find task.id db.tasks ≡ some (accounted task attempt t)
        → Post
            (Ends (executions task.id db))
            (settle_run task attempt spec now fs settle_plan verdict db)
    settle_run-Ends db w row h =
        let Q = Ends (executions task.id db) in
        elim (AttemptState-cases attempt.state) [
          | inl e ↦
              rw (settle_run_successful true true task attempt spec now fs settle_plan verdict db e)
                (if_split (Post Q) (is_kind "not_started" attempt.error_kind)
                  (λ k. settle_unsuccessful-Ends db w (inl k) h)
                  (λ k. settle_success-Ends db w e row k h))
          | inr e ↦
              rw
                (settle_run_unsuccessful true true task attempt spec now fs settle_plan verdict db
                  e)
                (settle_unsuccessful-Ends db w (inr e) h)
        ]

    settle-Post :
        (db : Db)
        → find task.id db.tasks ≡ some t
        → find attempt.id db.attempts ≡ some attempt
        → Post
            (Ends (executions task.id db))
            (settle task attempt spec now fs settle_plan verdict db)
    unfolding settle released_db executions
    settle-Post db task_row row =
        let d₀ = released_db task attempt spec now fs settle_plan db in
        let n = executions task.id db in
        let p = is_execution task.id in
        let same_count : count p (modify attempt.id released db.attempts) ≡ count p db.attempts =
          count-modify_same p attempt.id released db.attempts (λ a. refl) in
        let there = find-modify_self released (λ _. refl) attempt.id db.attempts attempt row in
        let told =
          find-modify_self (accounted task attempt) (λ _. refl) task.id db.tasks t task_row in
        Post-bind (SameRows d₀) (Ends n) (record_usage_locked task.id attempt.known_tokens now d₀) _
          (record_usage_locked-SameRows task.id attempt.known_tokens now d₀)
          λ d _ same.
            let h : find task.id d.tasks ≡ some (accounted task attempt t) =
              subst (λ ts. find task.id ts ≡ some (accounted task attempt t)) (sym same.0) told in
            let r : find attempt.id d.attempts ≡ some (released attempt) =
              subst (λ xs. find attempt.id xs ≡ some (released attempt)) (sym same.1) there in
            let m : executions task.id d ≡ n = ap (λ xs. count p xs) same.1 ∙ same_count in
            if_split (Post (Ends n)) (wants_cancel task.desired_action)
              (λ w. finish_cancelled-Ends n d w h)
              (λ w.
                subst
                  (λ k. Post (Ends k) (settle_run task attempt spec now fs settle_plan verdict d)) m
                  (settle_run-Ends d w r h))

    -- Settling an attempt whose row and task are in the store leads, if it returns, to one of the
    -- cases of `Outcome`, with the executions of the task counted before: a task told to stop ends
    -- cancelled, or failed at its deadline; it succeeds only if it is to run, on a succeeded attempt
    -- with a verdict without error; a confirmed non-start is requeued at once; and any other failure,
    -- the attempt's own or the refusal of its result, is requeued after the backoff exactly when the
    -- retry policy admits its kind, and else fails the task. The plan settlement is assumed to keep task
    -- rows as an operation may.
    pub settle-Outcome :
        (db d : Db)
        → find task.id db.tasks ≡ some t
        → find attempt.id db.attempts ≡ some attempt
        → settle task attempt spec now fs settle_plan verdict db ≡ ok d
        → (u : Task) × (find task.id d.tasks ≡ some u)
          × Outcome task attempt spec now (executions task.id db) verdict t u
    settle-Outcome db d task_row row done =
        Post_at (Ends (executions task.id db)) _ d (settle-Post db task_row row) done
