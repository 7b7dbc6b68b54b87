-- ===== src/Lifecycle/Outcomes.antt =====
-- What every history keeps of a task that has ended, of an attempt, and of its reservation.
use boring_orch_agent.Base.{
  ℕ, ◌≤◌, ◌≡◌, refl, subst, Bool, true, false, ◌⊎◌, inl, inr, Bool-cases, some, List, [], ◌∷◌, All,
  Distinct, find, find-Grows,
}
use boring_orch_agent.Schema.{
  Db, Task, Attempt, AttemptState, is_terminal, is_final, task_keyed, attempt_keyed,
}
use boring_orch_agent.Manager.Settle.{PlanSettler}
use boring_orch_agent.Manager.Validate.Effects.{PlanLaw}
use boring_orch_agent.Lifecycle.Change.{Change, Change-refl, Change-trans, TaskStep, AttemptStep}
use boring_orch_agent.Lifecycle.History.{Op, is_manual, perform, run}
use boring_orch_agent.Lifecycle.Preserved.{step-Change}

module _ (settle_plan : PlanSettler) (law : (m g : Bool) → PlanLaw m g settle_plan) where
  run-Change :
      (manual : Bool) (ops : List Op) (db : Db)
      → All (λ op. is_manual op ≡ true → manual ≡ true) ops
      → Distinct db.tasks
      → Change manual true db (run settle_plan ops db)
  unfolding run
  run-Change manual [] db h d = Change-refl manual true db
  run-Change manual (op ∷ ops) db h d =
      let next = perform settle_plan op db in
      let step = step-Change settle_plan law op manual true db h.0 (λ _. refl) d in
      Change-trans manual true db next (run settle_plan ops next) step
        (run-Change manual ops next h.1 (step.2 d))

  pub All-allowed : (ops : List Op) → All (λ op. is_manual op ≡ true → true ≡ true) ops
  All-allowed [] = tt
  All-allowed (op ∷ ops) = (λ _. refl, All-allowed ops)

  -- What became of a task row, after any history.
  pub run-task :
      (ops : List Op) (db : Db) (k : ℕ) (t : Task)
      → Distinct db.tasks
      → find k db.tasks ≡ some t
      → (u : Task) × (find k (run settle_plan ops db).tasks ≡ some u) × TaskStep t u
  run-task ops db k t d h =
      find-Grows TaskStep (λ _. Unit {0}) (λ _ _ s. s.id) k db.tasks (run settle_plan ops db).tasks
        t h (run-Change true ops db (All-allowed ops) d).0

  -- What became of an attempt row, after a history whose manual operations are the allowed ones.
  pub run-attempt :
      (manual : Bool) (ops : List Op) (db : Db) (k : ℕ) (a : Attempt)
      → All (λ op. is_manual op ≡ true → manual ≡ true) ops
      → Distinct db.tasks
      → find k db.attempts ≡ some a
      → (b : Attempt) × (find k (run settle_plan ops db).attempts ≡ some b) × AttemptStep manual a b
  run-attempt manual ops db k a allowed d h =
      find-Grows (AttemptStep manual) (λ _. true ≡ true) (λ _ _ s. s.id) k db.attempts
        (run settle_plan ops db).attempts a h (run-Change manual ops db allowed d).1

  -- A terminal task stays as it is, in every column, whatever history of submissions, cancels,
  -- worker registrations, heartbeats, claims, observations, resolutions, ticks and settlements
  -- follows.
  -- Task ids are distinct at the start, and the plan settlement is assumed to keep rows (`PlanLaw`).
  pub terminal_frozen :
      (ops : List Op) (db : Db) (k : ℕ) (t : Task)
      → Distinct db.tasks
      → find k db.tasks ≡ some t
      → is_terminal t.status ≡ true
      → find k (run settle_plan ops db).tasks ≡ some t
  terminal_frozen ops db k t d h over =
      let (u, found, step) = run-task ops db k t d h in
      subst (λ v. find k (run settle_plan ops db).tasks ≡ some v) (step.frozen over) found

  -- No history of these operations loses a task or changes its contract (specification, time of
  -- submission, deadline), and its version does not fall.
  -- Task ids are distinct at the start, and the plan settlement is assumed to keep rows (`PlanLaw`).
  pub contract_kept :
      (ops : List Op) (db : Db) (k : ℕ) (t : Task)
      → Distinct db.tasks
      → find k db.tasks ≡ some t
      → (u : Task) × (find k (run settle_plan ops db).tasks ≡ some u)
        × (u.spec ≡ t.spec)
        × (u.submitted_at ≡ t.submitted_at)
        × (u.deadline ≡ t.deadline)
        × (t.version ≤ u.version)
  contract_kept ops db k t d h =
      let (u, found, step) = run-task ops db k t d h in
      (u, found, step.spec, step.submitted_at, step.deadline, step.version)

  -- An attempt that has ended, is no longer reserved and is settled keeps its final state and is
  -- never reserved again, in any history; it stays settled.
  -- Task ids are distinct at the start, and the plan settlement is assumed to keep rows (`PlanLaw`).
  pub settled_stays :
      (ops : List Op) (db : Db) (k : ℕ) (a : Attempt)
      → Distinct db.tasks
      → find k db.attempts ≡ some a
      → is_final a.state ≡ true
      → a.reserved ≡ false
      → a.settled ≡ true
      → (b : Attempt) × (find k (run settle_plan ops db).attempts ≡ some b)
        × (b.state ≡ a.state)
        × (b.reserved ≡ false)
        × (b.settled ≡ true)
  settled_stays ops db k a d h over free done =
      let (b, found, step) = run-attempt true ops db k a (All-allowed ops) d h in
      (
        b,
        found,
        step.final over,
        elim (Bool-cases b.reserved) [ inl taken ↦ cc (step.reserve taken, free) | inr r ↦ r ],
        step.settled done,
      )

  -- A reservation is given up only together with a final state of the attempt: in any history a
  -- reserved attempt is still reserved, or has ended.
  -- Task ids are distinct at the start, and the plan settlement is assumed to keep rows (`PlanLaw`).
  pub reservation_held :
      (ops : List Op) (db : Db) (k : ℕ) (a : Attempt)
      → Distinct db.tasks
      → find k db.attempts ≡ some a
      → a.reserved ≡ true
      → (b : Attempt) × (find k (run settle_plan ops db).attempts ≡ some b)
        × ((b.reserved ≡ true) ⊎ (is_final b.state ≡ true))
  reservation_held ops db k a d h held =
      let (b, found, step) = run-attempt true ops db k a (All-allowed ops) d h in
      (b, found, step.release held)

  -- Where no operator resolves attempts, a reserved one of unknown outcome stays unknown and
  -- reserved, in any history: nothing else ends it, and its slot is not given away.
  -- Task ids are distinct at the start, and the plan settlement is assumed to keep rows (`PlanLaw`).
  pub unknown_held :
      (ops : List Op) (db : Db) (k : ℕ) (a : Attempt)
      → All (λ op. is_manual op ≡ false) ops
      → Distinct db.tasks
      → find k db.attempts ≡ some a
      → a.state ≡ AttemptState.unknown
      → a.reserved ≡ true
      → (b : Attempt) × (find k (run settle_plan ops db).attempts ≡ some b)
        × (b.state ≡ AttemptState.unknown)
        × (b.reserved ≡ true)
  unknown_held ops db k a none_manual d h unsure held =
      let (b, found, step) = run-attempt false ops db k a (never ops none_manual) d h in
      let stays = step.uncertain refl unsure in
      (b, found, stays, elim (step.release held) [ inl r ↦ r | inr f ↦ cc (f, stays) ])
    where
      never :
          (ops : List Op)
          → All (λ op. is_manual op ≡ false) ops
          → All (λ op. is_manual op ≡ true → false ≡ true) ops
      never [] m = tt
      never (op ∷ rest) m = (λ e. cc (e, m.0), never rest m.1)

  -- The sequence number and the known usage of an attempt do not fall, in any history, and it stays
  -- with its task and its worker.
  -- Task ids are distinct at the start, and the plan settlement is assumed to keep rows (`PlanLaw`).
  pub counters_grow :
      (ops : List Op) (db : Db) (k : ℕ) (a : Attempt)
      → Distinct db.tasks
      → find k db.attempts ≡ some a
      → (b : Attempt) × (find k (run settle_plan ops db).attempts ≡ some b)
        × (a.sequence ≤ b.sequence)
        × (a.known_tokens ≤ b.known_tokens)
        × (b.task_id ≡ a.task_id)
        × (b.worker_id ≡ a.worker_id)
  counters_grow ops db k a d h =
      let (b, found, step) = run-attempt true ops db k a (All-allowed ops) d h in
      (b, found, step.sequence, step.known_tokens, step.task_id, step.worker_id)
