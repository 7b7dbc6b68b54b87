-- ===== src/Manager/Tick/Effects.antt =====
-- The effect of one turn of the loop in Manager.tick: it changes the task it is about, that task's
-- current attempt, and no other task.
use boring_orch_agent.Base.{
  ℕ, ◌+◌, ◌≡◌, refl, sym, subst, String, Bool, true, Option, none, some, List, [], ◌∷◌, find, arith,
  find-modify_self, key-find, if_both, if_split, if◌then◌else◌, Option-cases, Bool-cases, All,
  All-map, All-both, All-keep_if, keep_if, keep_if_passes, Distinct, Distinct-found,
  Distinct-keep_if, inl, inr, not, ◌||◌, ◌&&◌,
}
use boring_orch_agent.Schema.{
  Db, Config, Task, Attempt, Status, ok, Post, Post-bind, Post-map, is_terminal, is_final,
  is_pending, is_launched, wants_cancel, event, update_task, attempt_row, require_task, task_keyed,
  attempt_keyed, worker_keyed,
}
use boring_orch_agent.Store.Observations.{is_queued}
use boring_orch_agent.Artifacts.{Files}
use boring_orch_agent.Lifecycle.Change.{
  IsOpen-update_task, IsOpen, Holds, Holds-IsOpen, Holds-elsewhere, AttemptStep, Change,
  Change-refl, Change-trans, Affects, Affects-refl, Affects-trans, Affects-update_task,
  Affects-update_attempt,
}
use boring_orch_agent.Manager.Settle.{PlanSettler, settle}
use boring_orch_agent.Manager.Settle.Effects.{
  finish_cancelled-Affects, settle_unsuccessful_run-Affects,
}
use boring_orch_agent.Manager.Schedule.{schedule}
use boring_orch_agent.Manager.Schedule.Effects.{schedule-Change}
use boring_orch_agent.Manager.Tick.{
  Validation, alive, is_overdue, overdue, or_uncaught, is_succeeded, never_launched, lost, is_gone,
  enforce_deadline, end_queued, lose_runner, condition_of, starts, record_condition, settle_final,
  reconcile_attempt, reconcile_pending, reconcile_active, reconcile, reconcile_each, tick,
}

row_is {ℓ} : {A : Type ℓ} (o : Option A) (a b : A) → o ≡ some a → o ≡ some b → b ≡ a
row_is o a b e f = ground arith

or_uncaught-Post {ℓ} : {A : Type ℓ} (o : Option A) → Post (λ a. o ≡ some a) (or_uncaught o)
or_uncaught-Post none = tt
or_uncaught-Post (some a) = refl

found_again :
    (k : ℕ) (as' : List Attempt) (a : Attempt) → find k as' ≡ some a → find a.id as' ≡ some a
found_again k as' a h = subst (λ j. find j as' ≡ some a) (sym (key-find k as' a h)) h

attempt_row-find :
    (k : Option ℕ) (db : Db) (a : Attempt)
    → attempt_row k db ≡ some a
    → find a.id db.attempts ≡ some a
unfolding attempt_row
attempt_row-find none db a h = cc
attempt_row-find (some k) db a h = found_again k db.attempts a h

module _ (identity : ℕ → Option String) (cfg : Config) (now : ℕ) (task : Task) (a : Attempt)
    (db : Db) where
  end_queued-tasks : (end_queued identity cfg now task a db).tasks ≡ db.tasks
  unfolding end_queued
  end_queued-tasks = ground arith

  lose_runner-tasks : (lose_runner identity cfg now task a db).tasks ≡ db.tasks
  unfolding lose_runner
  lose_runner-tasks = ground arith

  record_condition-attempts : (record_condition identity cfg now task a db).attempts ≡ db.attempts
  unfolding record_condition
  record_condition-attempts = ground arith

module _ (manual grows : Bool) where
  ended-AttemptStep :
      (kind message : String) (now : ℕ) (a : Attempt)
      → is_queued a.state ≡ true
      → AttemptStep manual a (never_launched kind message now a)
  ended-AttemptStep kind message now a h = ground arith

  lost-AttemptStep : (a : Attempt) → is_launched a.state ≡ true → AttemptStep manual a (lost a)
  lost-AttemptStep a h = ground arith

  module _ (identity : ℕ → Option String) (cfg : Config) (now : ℕ) where
    end_queued-Affects :
        (task : Task) (a : Attempt) (db : Db)
        → find a.id db.attempts ≡ some a
        → Affects manual grows task.id db (end_queued identity cfg now task a db)
    unfolding end_queued
    end_queued-Affects task a db e =
        if_split (λ d. Affects manual grows task.id db d) (not (is_queued a.state))
          (λ _. Affects-refl manual grows task.id db)
          λ q.
            let ends = λ (kind message : String).
              Affects-update_attempt manual grows task.id a.id (never_launched kind message now) db
                λ b f. ended-AttemptStep kind message now b (ground (arith, q, row_is _ a b e f)) in
            if_both (λ d. Affects manual grows task.id db d) (wants_cancel task.desired_action)
              (ends "cancelled" "Cancelled before launch")
              (if_both (λ d. Affects manual grows task.id db d)
                (is_gone identity cfg now (find a.worker_id db.workers))
                (ends "not_started" "Worker lost before launch; nothing ran")
                (Affects-refl manual grows task.id db))

    lose_runner-Affects :
        (task : Task) (a : Attempt) (db : Db)
        → find a.id db.attempts ≡ some a
        → Affects manual grows task.id db (lose_runner identity cfg now task a db)
    unfolding lose_runner
    lose_runner-Affects task a db e =
        if_split (λ d. Affects manual grows task.id db d)
          (is_launched a.state && not (alive identity a.runner_pid a.runner_start))
          (λ q.
            Affects-update_attempt manual grows task.id a.id lost db
              λ b f. lost-AttemptStep b (ground (arith, q, row_is _ a b e f)))
          (λ _. Affects-refl manual grows task.id db)

    record_condition-Affects :
        (task : Task) (a : Attempt) (db : Db)
        → IsOpen task.id db
        → Affects manual grows task.id db (record_condition identity cfg now task a db)
          × IsOpen task.id (record_condition identity cfg now task a db)
    unfolding record_condition
    record_condition-Affects task a db o =
        let f = λ (t : Task). record t {
          observation_condition = condition_of identity cfg now a;
          observed_at = some a.heartbeat;
        } in
        let g = λ (t : Task). record t { status = Status.running; version = t.version + 1 } in
        let seen = update_task task.id f db in
        let step =
          Affects-update_task manual grows task.id f db (λ _. refl)
            λ t h. let open_row = o t h in ground (arith, open_row) in
        let seen_open = IsOpen-update_task task.id f db (λ _. refl) (λ t h. h) o in
        if_both (λ d. Affects manual grows task.id db d × IsOpen task.id d)
          (starts identity cfg now a task)
          (
            Affects-trans manual grows task.id db seen (update_task task.id g seen) step (
                Affects-update_task manual grows task.id g seen (λ _. refl)
                  λ t h. let open_row = seen_open t h in ground (arith, open_row)),
            IsOpen-update_task task.id g seen (λ _. refl) (λ t h. refl) seen_open,
          )
          (step, seen_open)

    -- What the deadline check hands on.
    enforce_deadline_lem :
        (task : Task) (db : Db)
        → find task.id db.tasks ≡ some task
        → enforce_deadline identity cfg now task db ≡ (
            if is_overdue now task (attempt_row task.current_attempt_id db)
            then ok (
              overdue task,
              event "task.deadline_exceeded"
                  (some task.id)
                  none
                  now
                  (update_task task.id overdue db),
            )
            else ok (task, db))
    unfolding enforce_deadline require_task
    enforce_deadline_lem task db e =
        ground (arith, find-modify_self overdue (λ _. refl) task.id db.tasks task e)

    module _ (fs : Files) (settle_plan : PlanSettler) where
      settle_final-Affects :
          (task : Task) (a : Attempt) (db : Db)
          → IsOpen task.id db
          → find a.id db.attempts ≡ some a
          → Post
              (λ r. Affects manual grows task.id db r.1)
              (settle_final identity cfg now fs settle_plan task a db)
      unfolding settle_final
      settle_final-Affects task a db o e =
          let Q = λ (r : List Validation × Db). Affects manual grows task.id db r.1 in
          if_split (Post Q) (not (is_final a.state) || a.settled)
            (λ _. Affects-refl manual grows task.id db)
            λ q.
              if_split (Post Q) (is_succeeded a.state) (λ _. Affects-refl manual grows task.id db)
                λ f.
                  Post-bind (λ d. Affects manual grows task.id db d) Q
                    (settle task a task.spec now fs settle_plan none db) _
                    (settle_unsuccessful_run-Affects manual grows task a task.spec now fs
                      settle_plan none db (λ s. ground (arith, f, s)) o
                      (λ b h. ground (arith, q, row_is _ a b e h)))
                    λ d _ reached. reached

      reconcile_attempt-Affects :
          (task : Task) (a : Attempt) (db : Db)
          → IsOpen task.id db
          → find a.id db.attempts ≡ some a
          → Post
              (λ r. Affects manual grows task.id db r.1)
              (reconcile_attempt identity cfg now fs settle_plan task a db)
      unfolding reconcile_attempt
      reconcile_attempt-Affects task a db o e =
          let Q = λ (r : List Validation × Db). Affects manual grows task.id db r.1 in
          let db₁ = end_queued identity cfg now task a db in
          let step₁ = end_queued-Affects task a db e in
          Post-bind (λ b. find a.id db₁.attempts ≡ some b) Q (or_uncaught (find a.id db₁.attempts))
            _ (or_uncaught-Post (find a.id db₁.attempts))
            λ a₁ _ h₁.
              let e₁ = found_again a.id db₁.attempts a₁ h₁ in
              let db₂ = lose_runner identity cfg now task a₁ db₁ in
              let step₂ =
                Affects-trans manual grows task.id db db₁ db₂ step₁
                  (lose_runner-Affects task a₁ db₁ e₁) in
              Post-bind (λ b. find a.id db₂.attempts ≡ some b) Q
                (or_uncaught (find a.id db₂.attempts)) _ (or_uncaught-Post (find a.id db₂.attempts))
                λ a₂ _ h₂.
                  let open₂ : IsOpen task.id db₂ = λ t h. o t (
                    rw
                      (
                        ← end_queued-tasks identity cfg now task a db,
                        ← lose_runner-tasks identity cfg now task a₁ db₁,
                      )
                      h) in
                  let db₃ = record_condition identity cfg now task a₂ db₂ in
                  let (step₃, open₃) = record_condition-Affects task a₂ db₂ open₂ in
                  let step = Affects-trans manual grows task.id db db₂ db₃ step₂ step₃ in
                  Post-map (λ r. Affects manual grows task.id db₃ r.1) Q
                    (settle_final identity cfg now fs settle_plan task a₂ db₃)
                    (λ r. Affects-trans manual grows task.id db db₃ r.1 step)
                    (settle_final-Affects task a₂ db₃ open₃ (
                      rw (record_condition-attempts identity cfg now task a₂ db₂)
                        (found_again a.id db₂.attempts a₂ h₂)))

      reconcile_active-Affects :
          (task : Task) (db : Db)
          → IsOpen task.id db
          → Post
              (λ r. Affects manual grows task.id db r.1)
              (reconcile_active identity cfg now fs settle_plan task db)
      unfolding reconcile_active
      reconcile_active-Affects task db o =
          elim (Option-cases (attempt_row task.current_attempt_id db)) [
            | inl e ↦ rw (e, reconcile_active) (Affects-refl manual grows task.id db)
            | inr (a, e) ↦
                rw (e, reconcile_active)
                  (reconcile_attempt-Affects task a db o
                    (attempt_row-find task.current_attempt_id db a e))
          ]

      reconcile_pending-Affects :
          (task : Task) (db : Db)
          → IsOpen task.id db
          → Affects manual grows task.id db
              (reconcile_pending identity cfg now fs settle_plan task db)
      unfolding reconcile_pending
      reconcile_pending-Affects task db o =
          if_both (λ d. Affects manual grows task.id db d) (wants_cancel task.desired_action)
            (finish_cancelled-Affects manual grows task now db o)
            (Affects-refl manual grows task.id db)

      -- The second half of a turn, on the row as the deadline check leaves it.
      reconcile_rest-Affects :
          (task : Task) (db : Db)
          → IsOpen task.id db
          → Post
              (λ r. Affects manual grows task.id db r.1)
              (if is_pending task.status
                then ok ([], reconcile_pending identity cfg now fs settle_plan task db)
                else reconcile_active identity cfg now fs settle_plan task db)
      reconcile_rest-Affects task db o =
          if_both (Post (λ r. Affects manual grows task.id db r.1)) (is_pending task.status)
            (reconcile_pending-Affects task db o) (reconcile_active-Affects task db o)

      -- One turn of the loop, on the row that the store has.
      pub reconcile-Affects :
          (task : Task) (db : Db)
          → Holds task db
          → Post
              (λ r. Affects manual grows task.id db r.1)
              (reconcile identity cfg now fs settle_plan task db)
      unfolding reconcile
      reconcile-Affects task db h =
          let late =
            event "task.deadline_exceeded" (some task.id) none now
              (update_task task.id overdue db) in
          let Q = λ (r : List Validation × Db). Affects manual grows task.id db r.1 in
          let step =
            Affects-update_task manual grows task.id overdue db (λ _. refl)
              λ t e. let open_row = Holds-IsOpen h t e in ground (arith, open_row) in
          rw (enforce_deadline_lem task db h.row)
            (elim (Bool-cases (is_overdue now task (attempt_row task.current_attempt_id db))) [
              | inl e ↦ rw e (
                  Post-map (λ r. Affects manual grows task.id late r.1) Q _
                    (λ r. Affects-trans manual grows task.id db late r.1 step)
                    (reconcile_rest-Affects (overdue task) late (
                      IsOpen-update_task task.id overdue db (λ _. refl) (λ t f. f)
                        (Holds-IsOpen h))))
              | inr e ↦ rw e (reconcile_rest-Affects task db (Holds-IsOpen h))
            ])

      -- The loop over the tasks that were read before it.
      pub reconcile_each-Change :
          (ts : List Task) (db : Db)
          → All (λ t. Holds t db) ts
          → Distinct ts
          → Post
              (λ r. Change manual grows db r.1)
              (reconcile_each identity cfg now fs settle_plan ts db)
      unfolding reconcile_each
      reconcile_each-Change [] db h d = Change-refl manual grows db
      reconcile_each-Change (task ∷ rest) db h d =
          let Q = λ (r : List Validation × Db). Change manual grows db r.1 in
          Post-bind (λ r. Affects manual grows task.id db r.1) Q
            (reconcile identity cfg now fs settle_plan task db) _ (reconcile-Affects task db h.0)
            λ r _ step.
              let held = Holds-elsewhere task.id db r.1 rest d.0 step.1 h.1 in
              Post-bind (λ q. Change manual grows r.1 q.1) Q
                (reconcile_each identity cfg now fs settle_plan rest r.1) _
                (reconcile_each-Change rest r.1 held d.1)
                λ q _ later. Change-trans manual grows db r.1 q.1 step.0 later

pub open_tasks-Holds :
    (db : Db)
    → Distinct db.tasks
    → All (λ t. Holds t db) (keep_if (λ t. not (is_terminal t.status)) db.tasks)
open_tasks-Holds db d =
    let p = λ (t : Task). not (is_terminal t.status) in
    All-map (λ t. (find t.id db.tasks ≡ some t) × (p t ≡ true)) (λ t. Holds t db)
      (λ t h. record { row = h.0; unfinished = ground (arith, h.1) }) (keep_if p db.tasks)
      (All-both (λ t. find t.id db.tasks ≡ some t) (λ t. p t ≡ true) (keep_if p db.tasks)
        (All-keep_if (λ t. find t.id db.tasks ≡ some t) p db.tasks (Distinct-found db.tasks d))
        (keep_if_passes p db.tasks))

-- The first transaction of a tick keeps every row as `Change` allows.
pub tick-Change :
    (manual : Bool) (identity : ℕ → Option String) (fs : Files) (settle_plan : PlanSettler)
    (uuid : ℕ → ℕ) (now : ℕ) (db : Db)
    → Distinct db.tasks
    → Post (λ r. Change manual true db r.1) (tick identity fs settle_plan uuid now db)
unfolding tick
tick-Change manual identity fs settle_plan uuid now db d =
    let Q = λ (r : List Validation × Db). Change manual true db r.1 in
    let ts = keep_if (λ t. not (is_terminal t.status)) db.tasks in
    Post-bind Q Q (reconcile_each identity db.settings now fs settle_plan ts db) _
      (reconcile_each-Change manual true identity db.settings now fs settle_plan ts db
        (open_tasks-Holds db d) (Distinct-keep_if (λ t. not (is_terminal t.status)) db.tasks d))
      λ r _ step.
        Post-bind (λ e. Change manual true r.1 e) Q (schedule fs uuid db.settings now r.1) _
          (schedule-Change manual fs uuid db.settings now r.1 (step.2 d))
          λ e _ last. Change-trans manual true db r.1 e step last
