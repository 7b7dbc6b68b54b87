-- ===== src/Lifecycle/Once.antt =====
-- What happens once only, whatever follows: the launch of an attempt (run_attempt of boring_agent/runner.py)
-- and the acceptance of an observation (Store.observe of boring_agent/store.py).
use boring_orch_agent.Base.{
  ℕ, ◌≤◌, ◌≡◌, refl, subst, sym, String, Bool, true, false, Option, some, List, Distinct, find,
  arith, if◌then◌else◌, ◌||◌, ◌==◌, Bool-cases, inl, inr,
}
use boring_orch_agent.Schema.{
  Db, Task, Attempt, AttemptState, ok, err, invalid_request, Post_at, task_keyed, attempt_keyed,
}
use boring_orch_agent.Manager.Settle.{PlanSettler}
use boring_orch_agent.Manager.Validate.Effects.{PlanLaw}
use boring_orch_agent.Lifecycle.Change.{Change, has_left_queue}
use boring_orch_agent.Lifecycle.History.{Op, run}
use boring_orch_agent.Lifecycle.Outcomes.{All-allowed, run-task, run-attempt}
use boring_orch_agent.Runner.Claim.{claim}
use boring_orch_agent.Runner.Claim.Effects.{claim-Change}
use boring_orch_agent.Runner.Claim.Once.{claim-Claimed}
use boring_orch_agent.Store.Observations.{Data, merge, observe, is_queued}
use boring_orch_agent.Store.Observations.Accepted.{observe-Accepted, late_lem}

claim_refused :
    (pid now k w : ℕ) (start : Option String) (db : Db) (a : Attempt)
    → find k db.attempts ≡ some a
    → has_left_queue a.state ≡ true
    → claim pid now k w start db ≡ ok (false, db)
unfolding claim
claim_refused pid now k w start db a row left = rw (row, claim) (ground (arith, left))

-- A state or a number that no observation may have.
invalid_refused :
    (k w seq : ℕ) (state : AttemptState) (d : Data) (now : ℕ) (db : Db)
    → (is_queued state || seq == 0) ≡ true
    → observe k w seq state d now db ≡ err invalid_request
unfolding observe
invalid_refused k w seq state d now db h = ground (arith, h)

module _ (settle_plan : PlanSettler) (law : (m g : Bool) → PlanLaw m g settle_plan) where
  -- An attempt is launched at most once: after a claim has succeeded, whatever history of operations
  -- follows, every further claim of the attempt, by whatever process and worker, is refused and changes
  -- nothing. Task ids are distinct at the start, and the plan settlement is assumed to keep rows
  -- (`PlanLaw`).
  pub claim_once :
      (pid now k w pid' now' w' : ℕ) (start start' : Option String) (ops : List Op) (db db' : Db)
      → Distinct db.tasks
      → claim pid now k w start db ≡ ok (true, db')
      → claim pid' now' k w' start' (run settle_plan ops db') ≡ ok (false, run settle_plan ops db')
  claim_once pid now k w pid' now' w' start start' ops db db' d done =
      let c = claim-Claimed pid now k w start db db' done in
      let change : Change true true db db' =
        Post_at (λ (r : Bool × Db). Change true true db r.1) _ (true, db')
          (claim-Change true true pid now k w start db) done in
      let (b, found, step) =
        run-attempt settle_plan law true ops db' k _ (All-allowed settle_plan law ops) (change.2 d)
          c.launches in
      claim_refused pid' now' k w' start' (run settle_plan ops db') b found (step.dequeued refl)

  -- Delivery may repeat and reorder: once an observation of an attempt is accepted, every later one, in
  -- whatever history, that does not carry a higher sequence number changes nothing, from whomever it
  -- comes: it is invalid where it says queued or carries the number 0, and else it is answered with
  -- False. Task ids are distinct at the start, and the plan settlement is assumed to keep rows
  -- (`PlanLaw`).
  pub observe_once :
      (k w seq w' seq' : ℕ) (state state' : AttemptState) (d d' : Data) (now now' : ℕ)
      (ops : List Op) (db db' : Db)
      → Distinct db.tasks
      → observe k w seq state d now db ≡ ok (true, db')
      → seq' ≤ seq
      → observe k w' seq' state' d' now' (run settle_plan ops db') ≡ (
          if is_queued state' || seq' == 0
          then err invalid_request
          else ok (false, run settle_plan ops db'))
  unfolding merge
  observe_once k w seq w' seq' state state' d d' now now' ops db db' distinct done le =
      let a = observe-Accepted k seq state d now w db db' done in
      let e = run settle_plan ops db' in
      let distinct' = subst (λ (ts : List Task). Distinct ts) (sym a.tasks_same) distinct in
      let task_row =
        subst (λ ts. find a.attempt.task_id ts ≡ some a.task) (sym a.tasks_same) a.task_row in
      let (b, found, step) =
        run-attempt settle_plan law true ops db' k _ (All-allowed settle_plan law ops) distinct'
          a.records in
      let (t, there, same) =
        run-task settle_plan law ops db' a.attempt.task_id a.task distinct' task_row in
      elim (Bool-cases (is_queued state' || seq' == 0)) [
        | inl bad ↦ rw bad (invalid_refused k w' seq' state' d' now' e bad)
        | inr good ↦ rw good (
            late_lem k w' seq' state' d' now' e b t (ground (arith, good)) (ground (arith, good))
              found (rw step.task_id there) (omega (arith, le, step.sequence)))
      ]
