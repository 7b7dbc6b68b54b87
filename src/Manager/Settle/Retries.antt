-- ===== src/Manager/Settle/Retries.antt =====
-- The retries that Manager.settle of boring_agent/manager.py grants.
use boring_orch_agent.Base.{
  ℕ, ◌≡◌, subst, String, true, false, Option, some, find, arith, ◌⊎◌, inl, inr,
}
use boring_orch_agent.Schema.{
  Db, Task, Attempt, Spec, ok, Post, executions, is_kind, is_pending, wants_cancel, task_keyed,
  attempt_keyed,
}
use boring_orch_agent.Artifacts.{Files, ResultVerdict}
use boring_orch_agent.Lifecycle.Change.{Change}
use boring_orch_agent.Manager.Settle.{PlanSettler, settle}
use boring_orch_agent.Manager.Settle.Policy.{IsRetriable, FailsWith}
use boring_orch_agent.Manager.Settle.Outcomes.{
  Outcome, stopped, succeeds, not_started, retried, fails, settle-Outcome,
}

-- A task is pending again after its attempt is settled only if it was not told to stop, and for a
-- confirmed non-start or under the retry policy, which names the kind of the failure: so no task runs
-- more executions than `max_attempts` by way of retries. The plan settlement is assumed to keep task rows as an operation may.
pub settle-IsRetriable :
    (task : Task) (attempt : Attempt) (spec : Spec) (now : ℕ) (verdict : Option ResultVerdict)
    (t u : Task) (fs : Files) (settle_plan : PlanSettler)
    (law : (root : ℕ) (plan : String) (at : ℕ) (d : Db)
      → Post (λ d'. Change true true d d') (settle_plan root plan at d))
    (db d : Db)
    → find task.id db.tasks ≡ some t
    → find attempt.id db.attempts ≡ some attempt
    → settle task attempt spec now fs settle_plan verdict db ≡ ok d
    → find task.id d.tasks ≡ some u
    → is_pending u.status ≡ true
    → (wants_cancel task.desired_action ≡ false)
      × ((is_kind "not_started" attempt.error_kind ≡ true)
          ⊎ ((kind message : Option String) × FailsWith attempt verdict kind message
              × IsRetriable task attempt spec now (executions task.id db) kind))
settle-IsRetriable task attempt spec now verdict t u fs settle_plan law db d task_row row done found
      pending =
    let (v, there, outcome) =
      settle-Outcome task attempt spec now verdict t fs settle_plan law db d task_row row done in
    let same : u ≡ v = ground (arith, there, found) in
    pending_cases v outcome (subst (λ w. is_pending w.status ≡ true) same pending)
  where
    pending_cases :
        (v : Task)
        → Outcome task attempt spec now (executions task.id db) verdict t v
        → is_pending v.status ≡ true
        → (wants_cancel task.desired_action ≡ false)
          × ((is_kind "not_started" attempt.error_kind ≡ true)
              ⊎ ((kind message : Option String) × FailsWith attempt verdict kind message
                  × IsRetriable task attempt spec now (executions task.id db) kind))
    pending_cases v (stopped w e) p = absurd (ground (arith, e, p))
    pending_cases v (succeeds w s r e) p = absurd (ground (arith, e, p))
    pending_cases v (not_started w k e) p = (w, inl k)
    pending_cases v (retried kind message w k failure may e) p =
        (w, inr (kind, message, failure, may))
    pending_cases v (fails kind message w k failure may e) p = absurd (ground (arith, e, p))
