-- ===== src/Manager/Validate/Effects.antt =====
-- The effect of the settlement that follows the validation of a result.
use boring_orch_agent.Store.Commands.Effects.{require_task-row}
use boring_orch_agent.Base.{
  ℕ, ◌≡◌, refl, String, Bool, Option, none, some, find, arith, if_both, if_split, not, ◌||◌, opt_eq,
  key-find, sym, subst,
}
use boring_orch_agent.Schema.{
  Db, Task, Attempt, Post, Post-bind, is_terminal, require_task, wants_cancel, task_keyed,
  attempt_keyed,
}
use boring_orch_agent.Artifacts.{Files, ResultVerdict}
use boring_orch_agent.Lifecycle.Change.{Change, Change-refl, IsOpen, HasEnded}
use boring_orch_agent.Manager.Settle.{PlanSettler}
use boring_orch_agent.Manager.Settle.Effects.{settle-Change}
use boring_orch_agent.Manager.Validate.{
  settle_checked, settle_current, settle_verdict, same_action, is_success,
}

-- What the workflow layer promises of settling a plan.
abbrev pub PlanLaw : Bool → Bool → PlanSettler → Type 0
PlanLaw manual grows settle_plan =
    (root : ℕ) (plan : String) (at : ℕ) (d : Db)
    → Post (λ d'. Change manual grows d d') (settle_plan root plan at d)

module _ (manual grows : Bool) (fs : Files) (settle_plan : PlanSettler) (now : ℕ)
    (law : PlanLaw manual grows settle_plan) where
  settle_checked-Change :
      (task : Task) (a : Attempt) (v : ResultVerdict) (db : Db)
      → IsOpen task.id db
      → HasEnded a.id db
      → Post (λ d. Change manual grows db d) (settle_checked fs settle_plan now task a v db)
  unfolding settle_checked
  settle_checked-Change task a v db o e =
      let Q = λ (d : Db). Change manual grows db d in
      let settles = λ (w : Option ResultVerdict).
        settle-Change manual grows task a task.spec now fs settle_plan law w db o e in
      if_both (Post Q) (not (same_action task.desired_action v.desired_action))
        (if_both (Post Q) (wants_cancel task.desired_action) (settles none)
          (Change-refl manual grows db))
        (settles _)

  settle_current-Change :
      (task : Task) (found : Option Attempt) (v : ResultVerdict) (db : Db)
      → find task.id db.tasks ≡ some task
      → ((a : Attempt) → found ≡ some a → find a.id db.attempts ≡ some a)
      → Post (λ d. Change manual grows db d) (settle_current fs settle_plan now task found v db)
  unfolding settle_current
  settle_current-Change task none v db row there = Change-refl manual grows db
  settle_current-Change task (some a) v db row there =
      let Q = λ (d : Db). Change manual grows db d in
      if_both (Post Q) (not (opt_eq task.current_attempt_id a.id)) (Change-refl manual grows db) (
        if_split (Post Q) (not (is_success a.state) || a.settled || is_terminal task.status)
          (λ _. Change-refl manual grows db)
          λ h.
            settle_checked-Change task a v db (λ t e. ground (arith, h, row, e))
              λ b e. let held = there a refl in ground (arith, h, held, e))

  -- A verdict settles its attempt, or is dropped, within what `Change` allows.
  pub settle_verdict-Change :
      (task_id attempt_id : ℕ) (v : ResultVerdict) (db : Db)
      → Post
          (λ d. Change manual grows db d)
          (settle_verdict fs settle_plan now task_id attempt_id v db)
  unfolding settle_verdict
  settle_verdict-Change task_id attempt_id v db =
      Post-bind (λ t. (find task_id db.tasks ≡ some t) × (t.id ≡ task_id))
        (λ d. Change manual grows db d) (require_task task_id db) _ (require_task-row task_id db)
        λ t _ row.
          settle_current-Change t (find attempt_id db.attempts) v db
            (subst (λ k. find k db.tasks ≡ some t) (sym row.1) row.0)
            λ a e.
              subst (λ k. find k db.attempts ≡ some a) (sym (key-find attempt_id db.attempts a e)) e
