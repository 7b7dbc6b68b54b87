-- ===== src/Store/Observations/Accepted.antt =====
-- What an accepted observation means, and how repeated and late ones are met (Store.observe of
-- boring_agent/store.py).
use boring_orch_agent.Base.{
  ℕ, ◌≡◌, ◌≤◌, ◌<◌, refl, Bool, true, false, Option, none, some, find, arith, if_split, get_or, max,
  ◌⊎◌, ◌==◌, leb, opt_eq, find-modify_self,
}
use boring_orch_agent.Schema.{
  Db, Task, Attempt, AttemptState, ok, AgentError, Post, Post-bind, Post-of, Post_at, raise_if,
  require_task, is_final, is_terminal, task_keyed, attempt_keyed,
}
use boring_orch_agent.Store.Commands.Effects.{require_task-row}
use boring_orch_agent.Store.Observations.{
  Data, account, merge, allowed, is_rejected, apply_observation, observe_attempt, find_attempt,
  observe, is_queued, reported,
}
use boring_orch_agent.Store.Observations.Effects.{find_attempt-row}

-- An observation that was accepted, as the stores before and after it show it.
pub record Accepted (k w seq : ℕ) (state : AttemptState) (d : Data) (now : ℕ) (db db' : Db)
    : Type 0 where
  pub attempt : Attempt
  pub row : find k db.attempts ≡ some attempt
  pub owner : attempt.worker_id ≡ w
  pub later : attempt.sequence < seq
  pub active : is_final attempt.state ≡ false
  pub transition : allowed attempt.state state ≡ true
  pub task : Task
  pub task_row : find attempt.task_id db.tasks ≡ some task
  pub current : opt_eq task.current_attempt_id k ≡ true
  pub unfinished : is_terminal task.status ≡ false
  pub tasks_same : db'.tasks ≡ db.tasks
  pub records : find k db'.attempts ≡ some (merge seq state (account attempt d) now attempt)

module _ (k seq : ℕ) (state : AttemptState) (d : Data) (now : ℕ) where
  apply_observation-rows :
      (a : Attempt) (db : Db)
      → find k db.attempts ≡ some a
      → ((apply_observation k seq state d now a db).tasks ≡ db.tasks)
        × (find k (apply_observation k seq state d now a db).attempts
            ≡ some (merge seq state (account a d) now a))
  unfolding apply_observation merge
  apply_observation-rows a db row =
      let found =
        find-modify_self (merge seq state (account a d) now) (λ _. refl) k db.attempts a row in
      ground (arith, found)

  observe_attempt-Accepted :
      (w : ℕ) (a : Attempt) (db : Db)
      → find k db.attempts ≡ some a
      → Post
          (λ r. r.0 ≡ true → Accepted k w seq state d now db r.1)
          (observe_attempt k seq state d now w a db)
  unfolding observe_attempt is_rejected
  observe_attempt-Accepted w a db row =
      let Q = λ (r : Bool × Db). r.0 ≡ true → Accepted k w seq state d now db r.1 in
      Post-bind (λ t. (find a.task_id db.tasks ≡ some t) × (t.id ≡ a.task_id)) Q
        (require_task a.task_id db) _ (require_task-row a.task_id db)
        λ t _ e.
          if_split (Post Q) (is_rejected k w seq a t) (λ _ f. cc f)
            λ fresh.
              if_split (Post Q) (allowed a.state state)
                (λ may _.
                  let rows = apply_observation-rows a db row in
                  record {
                    attempt = a;
                    row = row;
                    owner = ground (arith, fresh);
                    later = ground (arith, fresh);
                    active = ground (arith, fresh);
                    transition = may;
                    task = t;
                    task_row = e.0;
                    current = ground (arith, fresh);
                    unfinished = ground (arith, fresh);
                    tasks_same = rows.0;
                    records = rows.1;
                  })
                (λ _. tt)

  observe-Post :
      (w : ℕ) (db : Db)
      → Post
          (λ r. r.0 ≡ true → Accepted k w seq state d now db r.1)
          (observe k w seq state d now db)
  unfolding observe
  observe-Post w db =
      let Q = λ (r : Bool × Db). r.0 ≡ true → Accepted k w seq state d now db r.1 in
      Post-bind (λ _. Unit {0}) Q (raise_if (is_queued state) AgentError.invalid_request) _
        (Post-of (λ _. Unit {0}) _ (λ _ _. tt))
        λ _ _ _.
          Post-bind (λ _. Unit {0}) Q (raise_if (seq == 0) AgentError.invalid_request) _
            (Post-of (λ _. Unit {0}) _ (λ _ _. tt))
            λ _ _ _.
              Post-bind (λ a. find k db.attempts ≡ some a) Q (find_attempt k db) _
                (find_attempt-row k db) λ a _ row. observe_attempt-Accepted w a db row

  -- An observation is accepted only from the worker that owns the attempt, with a sequence number
  -- above the recorded one, for an attempt that has not ended and is the current one of a task that
  -- has not ended either, and for a transition that the table allows. It leaves the tasks as they
  -- are and records the new state, the sequence number and the accounted usage.
  pub observe-Accepted :
      (w : ℕ) (db db' : Db)
      → observe k w seq state d now db ≡ ok (true, db')
      → Accepted k w seq state d now db db'
  observe-Accepted w db db' done =
      Post_at (λ (r : Bool × Db). r.0 ≡ true → Accepted k w seq state d now db r.1) _ (true, db')
        (observe-Post w db) done refl

-- What a late observation is answered with.
pub late_lem :
    (k w seq : ℕ) (state : AttemptState) (d : Data) (now : ℕ) (db : Db) (a : Attempt) (t : Task)
    → is_queued state ≡ false
    → (seq == 0) ≡ false
    → find k db.attempts ≡ some a
    → find a.task_id db.tasks ≡ some t
    → seq ≤ a.sequence
    → observe k w seq state d now db ≡ ok (false, db)
unfolding observe observe_attempt require_task is_rejected
late_lem k w seq state d now db a t q z row task late = ground (arith, q, z, row, task, late)

-- The total, where it is known, covers the known usage.
abbrev pub covers : Option ℕ → ℕ → Bool
covers none known = true
covers (some total) known = leb known total

-- Where an observation reports a total, or reports none and one was known before: the known usage after it
-- is the greatest of what was known and what is reported, and that total is recorded if it covers the known
-- usage, and as unknown if it does not. The total known before covered the usage known before.
pub merge-covers :
    (seq : ℕ) (state : AttemptState) (d : Data) (now : ℕ) (a : Attempt) (total : ℕ)
    → covers a.tokens a.known_tokens ≡ true
    → get_or d.tokens a.tokens ≡ some total
    → let b = merge seq state (account a d) now a in
      (b.known_tokens ≡ max (max a.known_tokens (get_or d.known_tokens 0)) (reported d.tokens))
      × (((b.tokens ≡ some total) × (b.known_tokens ≤ total))
          ⊎ ((b.tokens ≡ none) × (total < b.known_tokens)))
unfolding merge account
merge-covers seq state d now a total covered given = ground (arith, covered, given)
