-- ===== src/Runner/Claim/Effects.antt =====
-- The effect of a runner's claim on the rows of tasks and attempts.
use boring_orch_agent.Base.{
  ℕ, ◌≡◌, subst, String, Bool, true, false, Option, none, some, find, arith, if_both, if_split,
  key-find, sym, Option-cases, inl, inr, not, ◌||◌, ◌==◌, opt_eq,
}
use boring_orch_agent.Schema.{
  Db, Attempt, Post, Post-bind, Post-of, require_task, update_attempt, attempt_keyed, worker_keyed,
}
use boring_orch_agent.Store.Observations.{is_queued}
use boring_orch_agent.Lifecycle.Change.{AttemptStep, Change, Change-refl, Affects-update_attempt}
use boring_orch_agent.Runner.Claim.{
  refused, launched, is_permitted, claim_permitted, claim_current, claim,
}

module _ (manual grows : Bool) (pid now : ℕ) where
  refused-AttemptStep :
      (message : String) (a : Attempt)
      → is_queued a.state ≡ true
      → AttemptStep manual a (refused message now a)
  refused-AttemptStep message a h = ground arith

  launched-AttemptStep :
      (start : String) (a : Attempt)
      → is_queued a.state ≡ true
      → AttemptStep manual a (launched pid start now a)
  launched-AttemptStep start a h = ground arith

  same_row {ℓ} : {A : Type ℓ} (o : Option A) (a b : A) → o ≡ some a → o ≡ some b → a ≡ b
  same_row o a b e f = ground arith

  module _ (a : Attempt) (db : Db) (row : find a.id db.attempts ≡ some a)
      (queued : is_queued a.state ≡ true) where
    moved :
        (f : Attempt → Attempt)
        → AttemptStep manual a (f a)
        → Change manual grows db (update_attempt a.id f db)
    moved f step =
        (Affects-update_attempt manual grows 0 a.id f db
          λ b e. subst (λ x. AttemptStep manual x (f x)) (same_row _ a b row e) step).0

    claim_permitted-Change :
        (permitted : Bool) (start : Option String)
        → Change manual grows db (claim_permitted pid now a permitted start db).1
    unfolding claim_permitted
    claim_permitted-Change false start = moved (refused _ now) (refused-AttemptStep _ a queued)
    claim_permitted-Change true none = moved (refused _ now) (refused-AttemptStep _ a queued)
    claim_permitted-Change true (some start) =
        moved (launched pid start now) (launched-AttemptStep start a queued)

    claim_current-Change :
        (start : Option String)
        → Post (λ r. Change manual grows db r.1) (claim_current pid now a start db)
    unfolding claim_current
    claim_current-Change start =
        let Q = λ (r : Bool × Db). Change manual grows db r.1 in
        Post-bind (λ _. Unit {0}) Q (require_task a.task_id db) _
          (Post-of (λ _. Unit {0}) (require_task a.task_id db) (λ _ _. tt))
          λ t _ _.
            if_both (Post Q) (not (opt_eq t.current_attempt_id a.id)) (Change-refl manual grows db)
              (claim_permitted-Change (is_permitted t.spec (find a.worker_id db.workers)) start)

  -- A claim moves only an attempt that is still queued.
  pub claim-Change :
      (attempt_id worker_id : ℕ) (start : Option String) (db : Db)
      → Post (λ r. Change manual grows db r.1) (claim pid now attempt_id worker_id start db)
  unfolding claim
  claim-Change attempt_id worker_id start db = elim (Option-cases (find attempt_id db.attempts)) [
    | inl e ↦ rw (e, claim) (Change-refl manual grows db)
    | inr (a, e) ↦
        rw (e, claim)
          (if_split (Post (λ (r : Bool × Db). Change manual grows db r.1))
            (not (a.worker_id == worker_id) || not (is_queued a.state))
            (λ _. Change-refl manual grows db)
            λ h.
              claim_current-Change a db
                (subst (λ k. find k db.attempts ≡ some a)
                  (sym (key-find attempt_id db.attempts a e)) e)
                (ground (arith, h)) start)
  ]
