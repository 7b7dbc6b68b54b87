-- ===== src/Workflow/Delivery/Effects.antt =====
-- What delivering the dependencies of a task does to the rows of tasks and attempts.
use boring_orch_agent.Base.{
  ℕ, ◌+◌, ◌≡◌, refl, subst, String, Bool, List, [], ◌∷◌, arith, Option-cases, inl, inr,
}
use boring_orch_agent.Schema.{
  Db, Task, Status, WorkflowRoot, WorkflowChild, WorkflowDelivery, Delivery, Result, ok, err,
  AgentError, Post, Post-bind, Post-of, Post-map, task_keyed,
}
use boring_orch_agent.Artifacts.{Files, Payload}
use boring_orch_agent.Lifecycle.Change.{Affects, Affects-refl, Affects-update_task}
use boring_orch_agent.Workflow.Admission.{child_of, root_locked, fail_pending}
use boring_orch_agent.Workflow.Admission.Effects.{
  child_of-task_id, fail_pending-id, fail_pending-TaskStep,
}
use boring_orch_agent.Workflow.Delivery.{
  Readiness, waiting, failed, Progress, goes_on, ends, add_delivery, dependency_failed, source_task,
  deliver_payload, deliver_result, deliver_from, deliver_one, deliver_each, deliver_child,
  deliver_dependencies, source_child, payload_for_source,
}

-- A readiness with which the scheduler goes on.
abbrev pub IsClear : Readiness → Type 0
IsClear waiting = ⊥
IsClear failed = ⊥
IsClear _ = Unit

module _ (manual grows : Bool) where
  -- The rows change as allowed, and not at all where the scheduler may go on.
  abbrev pub Delivers : ℕ → Db → Readiness × Db → Type 0
  Delivers k db r = Affects manual grows k db r.1 × (IsClear r.0 → r.1.tasks ≡ db.tasks)

  Delivers-same :
      (k : ℕ) (a b : Db) (r : Readiness × Db)
      → b.tasks ≡ a.tasks
      → b.attempts ≡ a.attempts
      → b.workers ≡ a.workers
      → Delivers k b r
      → Delivers k a r
  Delivers-same k a b r e f g h = rw (← e, ← f, ← g) h

  add_delivery-rows :
      (d : WorkflowDelivery) (db : Db)
      → ((add_delivery d db).tasks ≡ db.tasks)
        × ((add_delivery d db).attempts ≡ db.attempts)
        × ((add_delivery d db).workers ≡ db.workers)
  unfolding add_delivery
  add_delivery-rows d db = (ground arith, ground arith, ground arith)

  module _ (fs : Files) (root : WorkflowRoot) (child : WorkflowChild) (now : ℕ) where
    dependency_failed-Affects :
        (reason : String) (source : ℕ) (db : Db)
        → Affects manual grows child.task_id db (dependency_failed root child reason source now db)
    unfolding dependency_failed
    dependency_failed-Affects reason source db =
        rw ((add_delivery-rows _ db).0, (add_delivery-rows _ db).1, (add_delivery-rows _ db).2)
          (Affects-update_task manual grows child.task_id (fail_pending _ now) db
            (fail_pending-id _ now) λ t _. fail_pending-TaskStep _ now t)

    abbrev Steps : Db → Progress → Type 0
    Steps db (goes_on n d) =
        (d.tasks ≡ db.tasks) × (d.attempts ≡ db.attempts) × (d.workers ≡ db.workers)
    Steps db (ends r d) = Affects manual grows child.task_id db d × (IsClear r → ⊥)

    deliver_result-Steps :
        (source : Task) (payload : Result Payload) (db : Db)
        → Post (Steps db) (deliver_result fs root child now source payload db)
    unfolding deliver_result deliver_payload
    deliver_result-Steps source (ok payload) db = add_delivery-rows _ db
    deliver_result-Steps source (err AgentError.invalid_request) db =
        (dependency_failed-Affects "invalid dependency" source.id db, λ x. x)
    deliver_result-Steps source (err _) db = tt

    deliver_from-Steps :
        (source : Task) (delivery : Delivery) (db : Db)
        → Post (Steps db) (deliver_from fs root child now source delivery db)
    unfolding deliver_from
    deliver_from-Steps source delivery db =
        elim source.status
          as (λ s. Post (Steps db) (elim s [
            | Status.pending ↦ ok (ends waiting db)
            | Status.scheduled ↦ ok (ends waiting db)
            | Status.running ↦ ok (ends waiting db)
            | Status.succeeded ↦
                deliver_result fs root child now source (payload_for_source fs source delivery db)
                  db
            | _ ↦ ok (
                ends failed
                  (dependency_failed root child "dependency did not succeed" source.id now db))
          ])) [
            | Status.pending ↦ (Affects-refl manual grows child.task_id db, λ x. x)
            | Status.scheduled ↦ (Affects-refl manual grows child.task_id db, λ x. x)
            | Status.running ↦ (Affects-refl manual grows child.task_id db, λ x. x)
            | Status.succeeded ↦
                deliver_result-Steps source (payload_for_source fs source delivery db) db
            | _ ↦ (dependency_failed-Affects "dependency did not succeed" source.id db, λ x. x)
          ]

    deliver_one-Steps :
        (key : String) (db : Db) → Post (Steps db) (deliver_one fs root child now key db)
    unfolding deliver_one
    deliver_one-Steps key db =
        elim (Option-cases
          (source_child child.workflow_id key child.revision db.workflow_children)) [
            | inl e ↦
                rw (e, deliver_one)
                  (dependency_failed-Affects "unknown dependency" child.task_id db, λ x. x)
            | inr (source, e) ↦
                rw (e, deliver_one)
                  (Post-bind (λ _. Unit {0}) (Steps db) (source_task source.task_id db) _
                    (Post-of (λ _. Unit {0}) (source_task source.task_id db) (λ _ _. tt))
                    λ task _ _. deliver_from-Steps task source.delivery db)
          ]

    deliver_each-Delivers :
        (keys : List String) (total number : ℕ) (db : Db)
        → Post (Delivers child.task_id db) (deliver_each fs root child now keys total number db)
    unfolding deliver_each
    deliver_each-Delivers [] total number db =
        (Affects-refl manual grows child.task_id db, λ _. refl)
    deliver_each-Delivers (key ∷ keys) total number db =
        after (λ t n d. deliver_each-Delivers keys t n d) (deliver_one fs root child now key db)
          (deliver_one-Steps key db)
      where
        after :
            ((t n : ℕ) (d : Db)
              → Post (Delivers child.task_id d) (deliver_each fs root child now keys t n d))
            → (p : Result Progress) → Post (Steps db) p
            → Post (Delivers child.task_id db) (elim p [
              | err e ↦ err e
              | ok (ends r db') ↦ ok (r, db')
              | ok (goes_on bytes db') ↦
                  deliver_each fs root child now keys (total + bytes) (number + 1) db'
            ])
        after next (err e) h = tt
        after next (ok (ends r d)) h = (h.0, λ c. absurd (h.1 c))
        after next (ok (goes_on bytes d)) h =
            Post-map (Delivers child.task_id d) (Delivers child.task_id db)
              (deliver_each fs root child now keys (total + bytes) (number + 1) d)
              (λ r. Delivers-same child.task_id db d r h.0 h.1 h.2)
              (next (total + bytes) (number + 1) d)

  deliver_child-Delivers :
      (fs : Files) (root : WorkflowRoot) (child : WorkflowChild) (now : ℕ) (keys : List String)
      (db : Db)
      → Post (Delivers child.task_id db) (deliver_child fs root child now keys db)
  unfolding deliver_child
  deliver_child-Delivers fs root child now [] db =
      (Affects-refl manual grows child.task_id db, λ _. refl)
  deliver_child-Delivers fs root child now (key ∷ keys) db =
      deliver_each-Delivers fs root child now (key ∷ keys) 0 0 db

  -- Delivering the dependencies of a task touches no other task, and not even that one where the
  -- scheduler goes on.
  pub deliver_dependencies-Delivers :
      (fs : Files) (task_id now : ℕ) (db : Db)
      → Post (Delivers task_id db) (deliver_dependencies fs task_id now db)
  unfolding deliver_dependencies
  deliver_dependencies-Delivers fs task_id now db =
      elim (Option-cases (child_of task_id db.workflow_children)) [
        | inl e ↦ rw (e, deliver_dependencies) (Affects-refl manual grows task_id db, λ _. refl)
        | inr (c, e) ↦
            rw (e, deliver_dependencies)
              (Post-bind (λ _. Unit {0}) (Delivers task_id db) (root_locked c.workflow_id db) _
                (Post-of (λ _. Unit {0}) (root_locked c.workflow_id db) (λ _ _. tt))
                λ root _ _.
                  subst (λ k. Post (Delivers k db) (deliver_child fs root c now c.dependencies db))
                    (child_of-task_id task_id db.workflow_children c e)
                    (deliver_child-Delivers fs root c now c.dependencies db))
      ]
