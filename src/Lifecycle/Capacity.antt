-- ===== src/Lifecycle/Capacity.antt =====
-- The reservations of the whole installation, over every operation.
use boring_orch_agent.Base.{
  Option, String, ℕ, ◌≤◌, ◌≡◌, refl, Bool, true, false, List, Distinct, keep_if, not, max, arith,
  Bool-cases, inl, inr, Distinct-keep_if,
}
use boring_orch_agent.Schema.{Db, Post, Post-bind, reserved_total, is_terminal, task_keyed}
use boring_orch_agent.Manager.Settle.{PlanSettler}
use boring_orch_agent.Manager.Schedule.{schedule}
use boring_orch_agent.Manager.Schedule.Bounds.{load, load-Change, all_reserved}
use boring_orch_agent.Manager.Schedule.Limits.{schedule-total}
use boring_orch_agent.Manager.Tick.{tick, reconcile_each, Validation}
use boring_orch_agent.Manager.Tick.Effects.{reconcile_each-Change, open_tasks-Holds}
use boring_orch_agent.Manager.Validate.Effects.{PlanLaw}
use boring_orch_agent.Artifacts.{Files}
use boring_orch_agent.Lifecycle.Change.{Change}
use boring_orch_agent.Lifecycle.History.{Op, ticks, is_tick, perform}
use boring_orch_agent.Lifecycle.Preserved.{step-Change, committed-Post}

total-Change : (db d : Db) → Change true false db d → reserved_total d ≤ reserved_total db
unfolding load
total-Change db d h = load-Change all_reserved db d h

tick-total :
    (identity : ℕ → Option String) (fs : Files) (settle_plan : PlanSettler) (uuid : ℕ → ℕ) (now : ℕ)
    (db : Db)
    → Distinct db.tasks
    → Post
        (λ r. reserved_total r.1 ≤ max (reserved_total db) db.settings.max_active)
        (tick identity fs settle_plan uuid now db)
unfolding tick
tick-total identity fs settle_plan uuid now db d =
    let Q = λ (r : List Validation × Db).
      reserved_total r.1 ≤ max (reserved_total db) db.settings.max_active in
    let ts = keep_if (λ t. not (is_terminal t.status)) db.tasks in
    Post-bind (λ r. Change true false db r.1) Q
      (reconcile_each identity db.settings now fs settle_plan ts db) _
      (reconcile_each-Change true false identity db.settings now fs settle_plan ts db
        (open_tasks-Holds db d) (Distinct-keep_if (λ t. not (is_terminal t.status)) db.tasks d))
      λ r _ step.
        Post-bind (λ e. reserved_total e ≤ max (reserved_total r.1) db.settings.max_active) Q
          (schedule fs uuid db.settings now r.1) _
          (schedule-total fs uuid db.settings now r.1 (step.2 d))
          λ e _ h. let fewer = total-Change db r.1 step in omega (arith, h, fewer)

module _ (settle_plan : PlanSettler) (law : (m g : Bool) → PlanLaw m g settle_plan) where
  ticks-total :
      (op : Op) (db : Db)
      → is_tick op ≡ true
      → Distinct db.tasks
      → reserved_total (perform settle_plan op db) ≤ max (reserved_total db) db.settings.max_active
  unfolding perform
  ticks-total (ticks identity fs uuid now) db e d =
      committed-Post (λ c. reserved_total c ≤ max (reserved_total db) db.settings.max_active) db
        (tick identity fs settle_plan uuid now db) (omega arith)
        (tick-total identity fs settle_plan uuid now db d)
  ticks-total _ db e d = cc e

  -- No operation leaves more attempts reserved than `max_active`, or than there were already.
  -- Task ids are distinct, and the plan settlement is assumed to keep rows (`PlanLaw`).
  pub perform-max_active :
      (op : Op) (db : Db)
      → Distinct db.tasks
      → reserved_total (perform settle_plan op db) ≤ max (reserved_total db) db.settings.max_active
  perform-max_active op db d = elim (Bool-cases (is_tick op)) [
    | inl e ↦ ticks-total op db e d
    | inr e ↦
        let fewer =
          total-Change db (perform settle_plan op db)
            (step-Change settle_plan law op true false db (λ _. refl) (λ f. cc (e, f)) d) in
        omega (arith, fewer)
  ]
