-- ===== src/Manager/Schedule/Placed.antt =====
-- Where Manager.schedule of boring_agent/manager.py places a task.
use boring_orch_agent.Base.{
  ℕ, ◌+◌, ◌≤◌, ◌<◌, ◌≡◌, refl, subst, ◌∙◌, true, Option, some, List, [], ◌∷◌, ◌++◌, find, count,
  arith, if_split, Option-cases, Bool-cases, List-cases, ◌==◌, inl, inr, Occurs, Distinct,
  find-append_none,
}
use boring_orch_agent.Schema.{
  Db, Config, Spec, Sandbox, Runtime, Task, Worker, Attempt, ok, Post, Post-bind, Post-of, Post_at,
  reserved_total, reserved_on, attempt_keyed, worker_keyed,
}
use boring_orch_agent.Artifacts.{Files}
use boring_orch_agent.Runner.Claim.{is_capable, offers, same_runtime}
use boring_orch_agent.Workflow.Admission.{claim_attempt_locked}
use boring_orch_agent.Workflow.Delivery.{deliver_dependencies}
use boring_orch_agent.Manager.Schedule.{
  new_attempt, insert_attempt, assign, blocks, place_on, place, feasible, choose,
}
use boring_orch_agent.Manager.Schedule.Bounds.{IsFeasible, place-IsFeasible}

-- The worker is in the table, was seen within its time to live, has a slot that is not reserved, offers
-- the task's runtime, and may write where the task asks for that.
abbrev pub IsFit : Config → ℕ → Spec → Db → Worker → Type 0
IsFit cfg now spec db w =
    (find w.id db.workers ≡ some w)
    × (now ≤ w.last_seen + cfg.worker_ttl)
    × (reserved_on w.id db < w.slots)
    × Occurs spec.runtime w.runtimes
    × (spec.sandbox ≡ Sandbox.workspace_write → w.allow_write ≡ true)

same_runtime-eq : (r s : Runtime) → same_runtime r s ≡ true → r ≡ s
same_runtime-eq r s h = ground (arith, h)

offers-Occurs : (r : Runtime) (rs : List Runtime) → offers r rs ≡ true → Occurs r rs
unfolding offers
offers-Occurs r [] h = cc h
offers-Occurs r (s ∷ rs) h = elim (Bool-cases (same_runtime r s)) [
  | inl e ↦ inl (same_runtime-eq r s e)
  | inr e ↦ inr (offers-Occurs r rs (ground (arith, h, e)))
]

feasible-IsFit :
    (cfg : Config) (now : ℕ) (spec : Spec) (db : Db) (w : Worker)
    → IsFeasible cfg now spec db w
    → IsFit cfg now spec db w
unfolding is_capable
feasible-IsFit cfg now spec db w h =
    let capable : offers spec.runtime w.runtimes ≡ true = ground (arith, h.1) in
    (
      h.0,
      ground (arith, h.1),
      ground (arith, h.1),
      offers-Occurs spec.runtime w.runtimes capable,
      λ e. ground (arith, h.1, e),
    )

insert_attempt-stored :
    (a : Attempt) (db : Db) → Post (λ d. find a.id d.attempts ≡ some a) (insert_attempt a db)
unfolding find insert_attempt
insert_attempt-stored a db = elim (Option-cases (find a.id db.attempts)) [
  | inl e ↦
      let found : find a.id (db.attempts ++ a ∷ []) ≡ some a =
        find-append_none a.id db.attempts (a ∷ []) e ∙ ground arith in
      ground (arith, e, found)
  | inr (b, e) ↦ ground (arith, e)
]

module _ (fs : Files) (uuid : ℕ → ℕ) (cfg : Config) (now : ℕ) where
  -- The new attempt of the task is in the store, for the worker.
  abbrev pub IsAssigned : Task → Db → Worker → Type 0
  IsAssigned task d w =
      (n : ℕ) × (find (uuid task.id) d.attempts
        ≡ some (new_attempt (uuid task.id) task.id n w.id now))

  assign-IsAssigned :
      (task : Task) (worker : Worker) (db : Db)
      → Post (λ d. IsAssigned task d worker) (assign fs uuid cfg now task worker db)
  unfolding assign
  assign-IsAssigned task worker db =
      let number = count (λ a. a.task_id == task.id) db.attempts + 1 in
      let a = new_attempt (uuid task.id) task.id number worker.id now in
      Post-bind (λ d. find a.id d.attempts ≡ some a) (λ d. IsAssigned task d worker)
        (insert_attempt a db) _ (insert_attempt-stored a db) λ d _ row. (number, row)

  abbrev Placed : Task → Option Worker × Db → Type 0
  Placed task r = (w : Worker) → r.0 ≡ some w → IsAssigned task r.1 w

  place_on-Placed :
      (task : Task) (worker : Worker) (db : Db)
      → Post (Placed task) (place_on fs uuid cfg now task worker db)
  unfolding place_on
  place_on-Placed task worker db =
      Post-bind (λ _. Unit {0}) (Placed task) (deliver_dependencies fs task.id now db) _
        (Post-of (λ _. Unit {0}) (deliver_dependencies fs task.id now db) (λ _ _. tt))
        λ r _ _.
          if_split (Post (Placed task)) (blocks r.0) (λ _ w e. cc e)
            λ _.
              Post-bind (λ _. Unit {0}) (Placed task) (claim_attempt_locked task.id now r.1) _
                (Post-of (λ _. Unit {0}) (claim_attempt_locked task.id now r.1) (λ _ _. tt))
                λ c _ _.
                  if_split (Post (Placed task)) c.0
                    (λ _.
                      Post-bind (λ d. IsAssigned task d worker) (Placed task)
                        (assign fs uuid cfg now task worker c.1) _
                        (assign-IsAssigned task worker c.1)
                        λ d _ row w e.
                          subst (λ v. IsAssigned task d v) {x = worker} {y = w} (cc e) row)
                    (λ _ w e. cc e)

  place-Placed :
      (task : Task) (cursor : ℕ) (db : Db)
      → Post (Placed task) (place fs uuid cfg now task cursor db)
  unfolding place
  place-Placed task cursor db = elim (List-cases (feasible cfg now task.spec db)) [
    | inl e ↦ rw (e, place) (λ w h. cc h)
    | inr (v, vs, e) ↦ rw (e, place) (place_on-Placed task (choose cursor v (v ∷ vs)) db)
  ]

  -- A task that is placed goes to a worker that is registered, was seen within its time to live, has a
  -- slot left that is not reserved, offers the task's runtime and may write if the task asks for it; the
  -- new attempt, reserved and queued, names that worker; and at most one attempt more is reserved than
  -- before. Worker ids are distinct.
  pub place-IsFit :
      (task : Task) (cursor : ℕ) (db d : Db) (w : Worker)
      → Distinct db.workers
      → place fs uuid cfg now task cursor db ≡ ok (some w, d)
      → IsFit cfg now task.spec db w
        × IsAssigned task d w
        × (reserved_total d ≤ reserved_total db + 1)
  place-IsFit task cursor db d w distinct done =
      let (good, more) = place-IsFeasible fs uuid cfg now task cursor db d w distinct done in
      (
        feasible-IsFit cfg now task.spec db w good,
        Post_at (Placed task) _ (some w, d) (place-Placed task cursor db) done w refl,
        more,
      )
