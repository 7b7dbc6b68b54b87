-- ===== src/Manager/Schedule/Effects.antt =====
-- The effect of Manager.schedule: it reserves attempts for tasks that are due, within the limits.
use boring_orch_agent.Base.{
  ℕ, ◌+◌, ◌≡◌, refl, subst, ◌∙◌, Bool, true, false, Option, none, some, List, [], ◌∷◌, find, arith,
  if_split, Bool-cases, List-cases, ◌++◌, ◌==◌, All, All-map, All-both, All-keep_if, All-sort_by,
  keep_if, keep_if_passes, Distinct, Distinct-found, Distinct-keep_if, Distinct-sort_by, inl, inr,
  leb, count,
}
use boring_orch_agent.Schema.{
  Db, Config, Task, Worker, Attempt, Result, ok, err, Post, Post-bind, Post-map, Post-both,
  is_terminal, update_task, reserved_total, task_keyed, attempt_keyed,
}
use boring_orch_agent.Artifacts.{Files}
use boring_orch_agent.Lifecycle.Change.{
  TaskStep, Change, Change-refl, Change-trans, Affects, Affects-refl, Affects-trans,
  Affects-update_task, Affects-insert_attempt, Holds, Holds-IsOpen, Holds-elsewhere, IsOpen,
}
use boring_orch_agent.Workflow.Admission.{claim_attempt_locked}
use boring_orch_agent.Workflow.Admission.Effects.{
  claim_attempt_locked-Affects, claim_attempt_locked-tasks,
}
use boring_orch_agent.Workflow.Delivery.{Readiness, deliver_dependencies}
use boring_orch_agent.Workflow.Delivery.Effects.{Delivers, IsClear, deliver_dependencies-Delivers}
use boring_orch_agent.Manager.Schedule.{
  scheduled, new_attempt, insert_attempt, assign, blocks, place_on, place, feasible, choose,
  schedule_each, schedule, due_tasks, is_due, is_earlier,
}

scheduled-TaskStep :
    (attempt_id : ℕ) (t : Task) → is_terminal t.status ≡ false → TaskStep t (scheduled attempt_id t)
scheduled-TaskStep attempt_id t h = ground arith

-- An insertion appends the row, or is refused.
pub insert_attempt-rows :
    (a : Attempt) (db : Db)
    → Post
        (λ d.
          (d.tasks ≡ db.tasks) × (d.attempts ≡ db.attempts ++ a ∷ []) × (d.workers ≡ db.workers))
        (insert_attempt a db)
unfolding insert_attempt
insert_attempt-rows a db = ground arith

IsClear-of_blocks : (r : Readiness) → blocks r ≡ false → IsClear r
IsClear-of_blocks Readiness.waiting h = cc
IsClear-of_blocks Readiness.failed h = cc
IsClear-of_blocks Readiness.not_workflow h = tt
IsClear-of_blocks (Readiness.ready b n) h = tt

due-unfinished : (now : ℕ) (t : Task) → is_due now t ≡ true → is_terminal t.status ≡ false
due-unfinished now t h = ground arith

pub due_tasks-Holds :
    (now : ℕ) (db : Db) → Distinct db.tasks → All (λ t. Holds t db) (due_tasks now db.tasks)
unfolding due_tasks
due_tasks-Holds now db d =
    All-sort_by (λ t. Holds t db) is_earlier (keep_if (is_due now) db.tasks)
      (All-map _ (λ t. Holds t db)
        (λ t h. record { row = h.0; unfinished = due-unfinished now t h.1 })
        (keep_if (is_due now) db.tasks)
        (All-both (λ t. find t.id db.tasks ≡ some t) (λ t. is_due now t ≡ true)
          (keep_if (is_due now) db.tasks)
          (All-keep_if (λ t. find t.id db.tasks ≡ some t) (is_due now) db.tasks
            (Distinct-found db.tasks d))
          (keep_if_passes (is_due now) db.tasks)))

pub due_tasks-Distinct : (now : ℕ) (db : Db) → Distinct db.tasks → Distinct (due_tasks now db.tasks)
unfolding due_tasks
due_tasks-Distinct now db d =
    Distinct-sort_by is_earlier (keep_if (is_due now) db.tasks)
      (Distinct-keep_if (is_due now) db.tasks d)

module _ (manual : Bool) (fs : Files) (uuid : ℕ → ℕ) (cfg : Config) (now : ℕ) where
  assign-Affects :
      (task : Task) (worker : Worker) (db : Db)
      → IsOpen task.id db
      → Post (λ d. Affects manual true task.id db d) (assign fs uuid cfg now task worker db)
  unfolding assign
  assign-Affects task worker db o =
      let number = count (λ a. a.task_id == task.id) db.attempts + 1 in
      let a = new_attempt (uuid task.id) task.id number worker.id now in
      let added = record db { attempts = db.attempts ++ a ∷ [] } in
      let f = scheduled (uuid task.id) in
      Post-bind
        (λ d.
          (d.tasks ≡ db.tasks) × (d.attempts ≡ db.attempts ++ a ∷ []) × (d.workers ≡ db.workers))
        (λ d. Affects manual true task.id db d) (insert_attempt a db) _ (insert_attempt-rows a db)
        λ d _ same.
          rw (same.0, same.1, same.2)
            (Affects-trans manual true task.id db added (update_task task.id f added)
              (Affects-insert_attempt manual true task.id a db refl)
              (Affects-update_task manual true task.id f added (λ _. refl)
                λ t h. scheduled-TaskStep (uuid task.id) t (o t h)))

  place_on-Affects :
      (task : Task) (worker : Worker) (db : Db)
      → IsOpen task.id db
      → Post (λ r. Affects manual true task.id db r.1) (place_on fs uuid cfg now task worker db)
  unfolding place_on
  place_on-Affects task worker db o =
      let Q = λ (r : Option Worker × Db). Affects manual true task.id db r.1 in
      Post-bind (Delivers manual true task.id db) Q (deliver_dependencies fs task.id now db) _
        (deliver_dependencies-Delivers manual true fs task.id now db)
        λ r _ step₁.
          if_split (Post Q) (blocks r.0) (λ _. step₁.0)
            λ clear.
              let same₁ = step₁.1 (IsClear-of_blocks r.0 clear) in
              Post-bind
                (λ c. Affects manual true task.id r.1 c.1 × (c.0 ≡ true → c.1.tasks ≡ r.1.tasks)) Q
                (claim_attempt_locked task.id now r.1) _
                (Post-both _ _ (claim_attempt_locked task.id now r.1)
                  (claim_attempt_locked-Affects manual true task.id now r.1)
                  (claim_attempt_locked-tasks task.id now r.1))
                λ c _ step₂.
                  let reached = Affects-trans manual true task.id db r.1 c.1 step₁.0 step₂.0 in
                  if_split (Post Q) c.0
                    (λ claimed.
                      let still_open : IsOpen task.id c.1 = λ t h.
                        o t (subst (λ ts. find task.id ts ≡ some t) (step₂.1 claimed ∙ same₁) h) in
                      Post-bind (λ d. Affects manual true task.id c.1 d) Q
                        (assign fs uuid cfg now task worker c.1) _
                        (assign-Affects task worker c.1 still_open)
                        λ d _ last. Affects-trans manual true task.id db c.1 d reached last)
                    (λ _. reached)

  pub place-Affects :
      (task : Task) (cursor : ℕ) (db : Db)
      → IsOpen task.id db
      → Post (λ r. Affects manual true task.id db r.1) (place fs uuid cfg now task cursor db)
  unfolding place
  place-Affects task cursor db o = elim (List-cases (feasible cfg now task.spec db)) [
    | inl e ↦ rw (e, place) (Affects-refl manual true task.id db)
    | inr (w, ws, e) ↦ rw (e, place) (place_on-Affects task (choose cursor w (w ∷ ws)) db o)
  ]

  pub schedule_each-Change :
      (ts : List Task) (used cursor : ℕ) (db : Db)
      → All (λ t. Holds t db) ts
      → Distinct ts
      → Post (λ r. Change manual true db r.1) (schedule_each fs uuid cfg now ts used cursor db)
  unfolding schedule_each
  schedule_each-Change [] used cursor db h d = Change-refl manual true db
  schedule_each-Change (task ∷ rest) used cursor db h d =
      elim (Bool-cases (leb cfg.max_active used)) [
        | inl e ↦ rw (e, schedule_each) (Change-refl manual true db)
        | inr e ↦
            rw (e, schedule_each)
              (after (λ u c db' all. schedule_each-Change rest u c db' all d.1)
                (place fs uuid cfg now task cursor db)
                (place-Affects task cursor db (Holds-IsOpen h.0)))
      ]
    where
      after :
          ((u c : ℕ) (db' : Db)
            → All (λ t. Holds t db') rest
            → Post (λ r. Change manual true db' r.1) (schedule_each fs uuid cfg now rest u c db'))
          → (p : Result (Option Worker × Db)) → Post (λ r. Affects manual true task.id db r.1) p
          → Post
              (λ r. Change manual true db r.1)
              (elim p [
                | err e ↦ err e
                | ok (none, db') ↦ schedule_each fs uuid cfg now rest used cursor db'
                | ok (some w, db') ↦ schedule_each fs uuid cfg now rest (used + 1) w.id db'
              ])
      after next (err e) s = tt
      after next (ok (none, db')) s =
          Post-map (λ r. Change manual true db' r.1) (λ r. Change manual true db r.1) _
            (λ r. Change-trans manual true db db' r.1 s.0)
            (next used cursor db' (Holds-elsewhere task.id db db' rest d.0 s.1 h.1))
      after next (ok (some w, db')) s =
          Post-map (λ r. Change manual true db' r.1) (λ r. Change manual true db r.1) _
            (λ r. Change-trans manual true db db' r.1 s.0)
            (next (used + 1) w.id db' (Holds-elsewhere task.id db db' rest d.0 s.1 h.1))

  -- Admission only moves due tasks on, and adds attempts for them.
  pub schedule-Change :
      (db : Db)
      → Distinct db.tasks
      → Post (λ d. Change manual true db d) (schedule fs uuid cfg now db)
  unfolding schedule
  schedule-Change db d =
      Post-bind (λ r. Change manual true db r.1) (λ e. Change manual true db e)
        (schedule_each fs uuid cfg now (due_tasks now db.tasks) (reserved_total db) cfg.last_worker
          db)
        _
        (schedule_each-Change (due_tasks now db.tasks) (reserved_total db) cfg.last_worker db
          (due_tasks-Holds now db d) (due_tasks-Distinct now db d))
        λ r _ step. step
