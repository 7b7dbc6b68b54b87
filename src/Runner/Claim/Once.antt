-- ===== src/Runner/Claim/Once.antt =====
-- What a runner that claims an attempt may rely on (run_attempt of boring_agent/runner.py).
use boring_orch_agent.Base.{
  ℕ, ◌≡◌, refl, sym, subst, String, Bool, true, false, Option, none, some, find, arith, if_split,
  not, ◌||◌, ◌==◌, opt_eq, Option-cases, Bool-cases, inl, inr, key-find, find-modify_self,
}
use boring_orch_agent.Schema.{
  Db, Task, Worker, Attempt, ok, Post, Post-bind, Post_at, require_task, attempt_keyed,
  worker_keyed, task_keyed,
}
use boring_orch_agent.Store.Observations.{is_queued}
use boring_orch_agent.Store.Commands.Effects.{require_task-row}
use boring_orch_agent.Runner.Claim.{
  is_capable, is_permitted, launched, claim_permitted, claim_current, claim,
}

-- The claim of the attempt, as the stores before and after it show it.
pub record Claimed (pid now attempt_id worker_id : ℕ) (db db' : Db) : Type 0 where
  pub attempt : Attempt
  pub start : String
  pub row : find attempt_id db.attempts ≡ some attempt
  pub owner : attempt.worker_id ≡ worker_id
  pub queued : is_queued attempt.state ≡ true
  pub task : Task
  pub task_row : find attempt.task_id db.tasks ≡ some task
  pub current : opt_eq task.current_attempt_id attempt_id ≡ true
  pub worker : Worker
  pub worker_row : find worker_id db.workers ≡ some worker
  pub capable : is_capable task.spec worker ≡ true
  pub launches : find attempt_id db'.attempts ≡ some (launched pid start now attempt)

module _ (pid now : ℕ) where
  claim_permitted-true :
      (a : Attempt) (permitted : Bool) (start : Option String) (db : Db)
      → find a.id db.attempts ≡ some a
      → (claim_permitted pid now a permitted start db).0 ≡ true
      → (permitted ≡ true)
        × (s : String) × (find a.id (claim_permitted pid now a permitted start db).1.attempts
            ≡ some (launched pid s now a))
  unfolding claim_permitted
  claim_permitted-true a false start db h e = cc e
  claim_permitted-true a true none db h e = cc e
  claim_permitted-true a true (some s) db h e =
      (refl, s, find-modify_self (launched pid s now) (λ _. refl) a.id db.attempts a h)

  permitted-worker :
      (t : Task) (o : Option Worker)
      → is_permitted t.spec o ≡ true
      → (w : Worker) × (o ≡ some w) × (is_capable t.spec w ≡ true)
  unfolding is_permitted
  permitted-worker t none h = cc h
  permitted-worker t (some w) h = (w, refl, h)

  current-Claimed :
      (a : Attempt) (start : Option String) (db : Db)
      → find a.id db.attempts ≡ some a
      → is_queued a.state ≡ true
      → Post
          (λ r. r.0 ≡ true → Claimed pid now a.id a.worker_id db r.1)
          (claim_current pid now a start db)
  unfolding claim_current
  current-Claimed a start db row queued =
      Post-bind (λ t. (find a.task_id db.tasks ≡ some t) × (t.id ≡ a.task_id))
        (λ r. r.0 ≡ true → Claimed pid now a.id a.worker_id db r.1) (require_task a.task_id db) _
        (require_task-row a.task_id db)
        λ t _ e.
          if_split (Post (λ (r : Bool × Db). r.0 ≡ true → Claimed pid now a.id a.worker_id db r.1))
            (not (opt_eq t.current_attempt_id a.id)) (λ _ f. cc f)
            λ current claimed.
              let (permitted, s, launches) =
                claim_permitted-true a (is_permitted t.spec (find a.worker_id db.workers)) start db
                  row claimed in
              let (w, there, fit) = permitted-worker t (find a.worker_id db.workers) permitted in
              record {
                attempt = a;
                start = s;
                row = row;
                owner = refl;
                queued = queued;
                task = t;
                task_row = e.0;
                current = ground (arith, current);
                worker = w;
                worker_row = there;
                capable = fit;
                launches = launches;
              }

  -- A runner that is told to go on holds an attempt that was queued for its worker, that is the
  -- current attempt of its task, and whose task the worker's registration still permits; the row
  -- now says that this process launches it.
  pub claim-Claimed :
      (attempt_id worker_id : ℕ) (start : Option String) (db db' : Db)
      → claim pid now attempt_id worker_id start db ≡ ok (true, db')
      → Claimed pid now attempt_id worker_id db db'
  unfolding claim
  claim-Claimed attempt_id worker_id start db db' done =
      elim (Option-cases (find attempt_id db.attempts)) [
        | inl e ↦ ground (arith, done, e)
        | inr (a, e) ↦
            let id = key-find attempt_id db.attempts a e in
            elim (Bool-cases (not (a.worker_id == worker_id) || not (is_queued a.state))) [
              | inl bad ↦ ground (arith, done, e, bad)
              | inr good ↦
                  let owner : a.worker_id ≡ worker_id = ground (arith, good) in
                  let run : claim_current pid now a start db ≡ ok (true, db') =
                    ground (arith, done, e, good) in
                  subst (λ k. Claimed pid now k worker_id db db') id
                    (subst (λ w. Claimed pid now a.id w db db') owner
                      (Post_at _ _ (true, db')
                        (current-Claimed a start db
                          (subst (λ k. find k db.attempts ≡ some a) (sym id) e)
                          (ground (arith, good)))
                        run refl))
            ]
      ]
