-- ===== src/Store/Observations/Effects.antt =====
-- The effect of observing and resolving attempts on the rows of tasks and attempts.
use boring_orch_agent.Base.{
  ℕ, ◌≡◌, ◌≤◌, refl, subst, inl, inr, String, Bool, true, false, Option, some, find, arith,
  if_split, Option-cases, not, ◌==◌, ◌||◌,
}
use boring_orch_agent.Schema.{
  Db, Task, Attempt, AttemptState, AgentError, Post, Post-bind, Post-of, is_final, require_task,
  task_keyed, attempt_keyed, update_attempt, raise_if,
}
use boring_orch_agent.Lifecycle.Change.{
  has_left_queue, AttemptStep, Change, Change-refl, Affects-update_attempt,
}
use boring_orch_agent.Store.Observations.{
  Data, account, merge, allowed, is_rejected, apply_observation, observe_attempt, find_attempt,
  observe, resolve, resolved, is_unknown, is_queued,
}

-- Known usage never falls.
account-floor :
    (a : Attempt) (d : Data) (s : ℕ) (state : AttemptState) (now : ℕ)
    → a.known_tokens ≤ (merge s state (account a d) now a).known_tokens
unfolding merge account
account-floor a d s state now = ground arith

-- An allowed transition leaves a final state as it is, and the unknown state too.
allowed-keeps :
    (a b : AttemptState)
    → allowed a b ≡ true
    → (is_final a ≡ false) × (a ≡ AttemptState.unknown → b ≡ AttemptState.unknown)
unfolding allowed
allowed-keeps AttemptState.queued AttemptState.queued h = ground arith
allowed-keeps _ _ h = ground arith

pub find_attempt-row :
    (k : ℕ) (db : Db) → Post (λ a. find k db.attempts ≡ some a) (find_attempt k db)
find_attempt-row k db = elim (Option-cases (find k db.attempts)) [
  | inl e ↦ rw (e, find_attempt) tt
  | inr (a, e) ↦ rw (e, find_attempt) refl
]

same_row {ℓ} : {A : Type ℓ} (o : Option A) (a b : A) → o ≡ some a → o ≡ some b → a ≡ b
same_row o a b e f = ground arith

raise_if-not : (b : Bool) (e : AgentError) → Post (λ _. b ≡ true) (raise_if (not b) e)
raise_if-not true e = refl
raise_if-not false e = tt

allowed_leaves : (s t : AttemptState) → allowed s t ≡ true → has_left_queue t ≡ true
unfolding allowed
allowed_leaves s t h = ground (arith, h)

not_rejected :
    (k worker sequence : ℕ) (a : Attempt) (t : Task)
    → is_rejected k worker sequence a t ≡ false
    → a.sequence ≤ sequence
unfolding is_rejected
not_rejected k worker sequence a t h = ground arith

resolved-AttemptStep :
    (message : String) (now : ℕ) (a : Attempt)
    → is_unknown a.state ≡ true
    → AttemptStep true a (resolved message now a)
resolved-AttemptStep message now a h = ground arith

module _ (manual grows : Bool) (attempt_id sequence : ℕ) (state : AttemptState) (d : Data)
    (now : ℕ) where
  merge-AttemptStep :
      (a : Attempt)
      → a.sequence ≤ sequence
      → allowed a.state state ≡ true
      → AttemptStep manual a (merge sequence state (account a d) now a)
  unfolding merge
  merge-AttemptStep a newer step =
      let (unfinished, certain) = allowed-keeps a.state state step in
      record {
        id = refl;
        task_id = refl;
        number = refl;
        worker_id = refl;
        final = λ h. ground (arith, h, unfinished);
        uncertain = λ m h. certain h;
        reserve = λ h. h;
        release = λ h. inl h;
        settled = λ h. h;
        dequeued = λ h. allowed_leaves a.state state step;
        sequence = newer;
        known_tokens = account-floor a d sequence state now;
      }

  apply_observation-rows :
      (a : Attempt) (db : Db)
      → ((apply_observation attempt_id sequence state d now a db).tasks ≡ db.tasks)
        × ((apply_observation attempt_id sequence state d now a db).attempts
            ≡ (update_attempt attempt_id (merge sequence state (account a d) now) db).attempts)
  unfolding apply_observation
  apply_observation-rows a db = (ground arith, ground arith)

  observe_attempt-Change :
      (worker_id : ℕ) (a : Attempt) (db : Db)
      → find attempt_id db.attempts ≡ some a
      → Post
          (λ r. Change manual grows db r.1)
          (observe_attempt attempt_id sequence state d now worker_id a db)
  unfolding observe_attempt
  observe_attempt-Change worker_id a db row =
      let Q = λ (r : Bool × Db). Change manual grows db r.1 in
      Post-bind (λ _. Unit {0}) Q (require_task a.task_id db) _
        (Post-of (λ _. Unit {0}) (require_task a.task_id db) (λ _ _. tt))
        λ t _ _.
          if_split (Post Q) (is_rejected attempt_id worker_id sequence a t)
            (λ _. Change-refl manual grows db)
            λ fresh.
              if_split (Post Q) (allowed a.state state)
                (λ step.
                  rw ((apply_observation-rows a db).0, (apply_observation-rows a db).1)
                    (Affects-update_attempt manual grows 0 attempt_id
                      (merge sequence state (account a d) now) db
                      λ b e.
                        subst (λ x. AttemptStep manual x (merge sequence state (account a d) now x))
                          (same_row _ a b row e)
                          (merge-AttemptStep a
                            (not_rejected attempt_id worker_id sequence a t fresh) step)).0)
                (λ _. tt)

  -- An accepted observation moves one attempt along the transition table.
  pub observe-Change :
      (worker_id : ℕ) (db : Db)
      → Post
          (λ r. Change manual grows db r.1)
          (observe attempt_id worker_id sequence state d now db)
  unfolding observe
  observe-Change worker_id db =
      let Q = λ (r : Bool × Db). Change manual grows db r.1 in
      Post-bind (λ _. Unit {0}) Q (raise_if (is_queued state) AgentError.invalid_request) _
        (Post-of (λ _. Unit {0}) _ (λ _ _. tt))
        λ _ _ _.
          Post-bind (λ _. Unit {0}) Q (raise_if (sequence == 0) AgentError.invalid_request) _
            (Post-of (λ _. Unit {0}) _ (λ _ _. tt))
            λ _ _ _.
              Post-bind (λ a. find attempt_id db.attempts ≡ some a) Q (find_attempt attempt_id db) _
                (find_attempt-row attempt_id db)
                λ a _ row. observe_attempt-Change worker_id a db row

-- An operator's resolution ends an attempt of unknown outcome, and no other.
pub resolve-Change :
    (grows : Bool) (attempt_id : ℕ) (blank : Bool) (message : String) (confirmed_stopped : Bool)
    (now : ℕ) (db : Db)
    → Post
        (λ r. Change true grows db r.1)
        (resolve attempt_id blank message confirmed_stopped now db)
unfolding resolve
resolve-Change grows attempt_id blank message confirmed_stopped now db =
    let Q = λ (r : Unit {0} × Db). Change true grows db r.1 in
    Post-bind (λ _. Unit {0}) Q
      (raise_if (not confirmed_stopped || blank) AgentError.invalid_request) _
      (Post-of (λ _. Unit {0}) _ (λ _ _. tt))
      λ _ _ _.
        Post-bind (λ a. find attempt_id db.attempts ≡ some a) Q (find_attempt attempt_id db) _
          (find_attempt-row attempt_id db)
          λ a _ row.
            Post-bind (λ _. is_unknown a.state ≡ true) Q
              (raise_if (not (is_unknown a.state)) AgentError.conflict) _
              (raise_if-not (is_unknown a.state) AgentError.conflict)
              λ _ _ h.
                (Affects-update_attempt true grows 0 attempt_id (resolved message now) db λ b e.
                  subst (λ x. AttemptStep true x (resolved message now x)) (same_row _ a b row e)
                    (resolved-AttemptStep message now a h)).0
