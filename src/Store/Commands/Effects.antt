-- ===== src/Store/Commands/Effects.antt =====
-- The effect of submitting and cancelling on the rows of tasks and attempts.
use boring_orch_agent.Base.{
  ℕ, ◌≡◌, refl, sym, subst, String, Bool, Option, none, some, find, arith, if_both, if_split,
  key-find, Option-cases, inl, inr, str_eq, ◌++◌, ◌∷◌, [],
}
use boring_orch_agent.Schema.{
  Db, Task, Command, Spec, Result, ok, err, Post, Post-bind, Post-of, is_terminal, is_pending,
  require_task, update_task, task_keyed, attempt_keyed,
}
use boring_orch_agent.Lifecycle.Change.{
  Change, Change-refl, Change-insert_task, Affects-trans, Affects-update_task, Change-from, IsOpen,
  IsOpen-update_task,
}
use boring_orch_agent.Store.Commands.{
  Receipt, find_command, key_check, replay, insert_task, insert_command, new_task, new_command,
  accept, submit, asked_to_stop, withdrawn, cancel_task, begin_cancel, cancel,
}

-- A task is inserted behind the others, under an id that none of them has.
pub insert_task-rows :
    (t : Task) (db : Db)
    → Post
        (λ d.
          (find t.id db.tasks ≡ none)
          × (d.tasks ≡ db.tasks ++ t ∷ [])
          × (d.attempts ≡ db.attempts)
          × (d.workers ≡ db.workers))
        (insert_task t db)
unfolding insert_task
insert_task-rows t db = elim (Option-cases (find t.id db.tasks)) [
  | inl e ↦ rw (e, insert_task) (refl, refl, refl, refl)
  | inr (u, e) ↦ rw (e, insert_task) tt
]

insert_command-rows :
    (c : Command) (db : Db)
    → Post
        (λ d. (d.tasks ≡ db.tasks) × (d.attempts ≡ db.attempts) × (d.workers ≡ db.workers))
        (insert_command c db)
unfolding insert_command
insert_command-rows c db = ground arith

pub require_task-row :
    (k : ℕ) (db : Db) → Post (λ t. (find k db.tasks ≡ some t) × (t.id ≡ k)) (require_task k db)
unfolding require_task
require_task-row k db = elim (Option-cases (find k db.tasks)) [
  | inl e ↦ rw (e, require_task) tt
  | inr (t, e) ↦ rw (e, require_task) (refl, key-find k db.tasks t e)
]

module _ (manual grows : Bool) (key payload_hash : String) (now command_id : ℕ) where
  replay-Change :
      (c : Command) (db : Db) → Post (λ r. Change manual grows db r.1) (replay c payload_hash db)
  unfolding replay
  replay-Change c db =
      if_both (Post (λ (r : Receipt × Db). Change manual grows db r.1))
        (str_eq c.payload_hash payload_hash) (Change-refl manual grows db) tt

  accept-Change :
      (task_id : ℕ) (validated : Result Spec) (db : Db)
      → Post
          (λ r. Change manual grows db r.1)
          (accept key payload_hash now command_id task_id validated db)
  unfolding accept
  accept-Change task_id (err e) db = tt
  accept-Change task_id (ok spec) db =
      let t = new_task task_id spec now in
      let c = new_command command_id key "submit" task_id payload_hash now in
      let Q = λ (r : Receipt × Db). Change manual grows db r.1 in
      Post-bind _ Q (insert_task t db) _ (insert_task-rows t db) λ d₁ _ added.
        Post-bind _ Q (insert_command c d₁) _ (insert_command-rows c d₁) λ d₂ _ same.
          rw (same.0, same.1, added.1, added.2) (Change-insert_task manual grows t db added.0)

  cancel_task-Change :
      (task : Task) (db : Db)
      → find task.id db.tasks ≡ some task
      → Change manual grows db (cancel_task key payload_hash now command_id task db)
  unfolding cancel_task
  cancel_task-Change task db row =
      if_split (λ d. Change manual grows db d) (is_terminal task.status)
        (λ _. Change-refl manual grows db)
        λ h.
          let still_open : IsOpen task.id db = λ t e. ground (arith, h, row, e) in
          let told = update_task task.id asked_to_stop db in
          let step =
            Affects-update_task manual grows task.id asked_to_stop db (λ _. refl)
              λ t e. let open_row = still_open t e in ground (arith, open_row) in
          let told_open =
            IsOpen-update_task task.id asked_to_stop db (λ _. refl) (λ t e. e) still_open in
          if_both (λ d. Change manual grows db d) (is_pending task.status)
            (Affects-trans manual grows task.id db told (update_task task.id (withdrawn now) told)
              step
              (Affects-update_task manual grows task.id (withdrawn now) told (λ _. refl)
                λ t e. let open_row = told_open t e in ground (arith, open_row))).0
            step.0

  begin_cancel-Change :
      (task_id : ℕ) (db : Db)
      → Post
          (λ r. Change manual grows db r.1)
          (begin_cancel key payload_hash now command_id task_id db)
  unfolding begin_cancel
  begin_cancel-Change task_id db =
      let Q = λ (r : Receipt × Db). Change manual grows db r.1 in
      let c = new_command command_id key "cancel" task_id payload_hash now in
      Post-bind (λ t. (find task_id db.tasks ≡ some t) × (t.id ≡ task_id)) Q
        (require_task task_id db) _ (require_task-row task_id db)
        λ t _ row.
          Post-bind
            (λ d. (d.tasks ≡ db.tasks) × (d.attempts ≡ db.attempts) × (d.workers ≡ db.workers)) Q
            (insert_command c db) _ (insert_command-rows c db)
            λ d _ same.
              Change-from manual grows db d (cancel_task key payload_hash now command_id t d) same.0
                same.1
                (cancel_task-Change t d (
                  subst (λ k. find k d.tasks ≡ some t) (sym row.1)
                    (subst (λ ts. find task_id ts ≡ some t) (sym same.0) row.0)))

  pub submit-Change :
      (task_id : ℕ) (validated : Result Spec) (db : Db)
      → Post
          (λ r. Change manual grows db r.1)
          (submit key payload_hash now command_id task_id validated db)
  unfolding submit
  submit-Change task_id validated db =
      Post-bind (λ _. Unit {0}) (λ (r : Receipt × Db). Change manual grows db r.1) (key_check key) _
        (Post-of (λ _. Unit {0}) (key_check key) (λ _ _. tt))
        λ _ _ _. answer (find_command key db.commands)
    where
      answer :
          (found : Option Command)
          → Post
              (λ (r : Receipt × Db). Change manual grows db r.1)
              (elim found [
                | some c ↦ replay c payload_hash db
                | none ↦ accept key payload_hash now command_id task_id validated db
              ])
      answer none = accept-Change task_id validated db
      answer (some c) = replay-Change c db

  pub cancel-Change :
      (task_id : ℕ) (db : Db)
      → Post (λ r. Change manual grows db r.1) (cancel key payload_hash now command_id task_id db)
  unfolding cancel
  cancel-Change task_id db =
      Post-bind (λ _. Unit {0}) (λ (r : Receipt × Db). Change manual grows db r.1) (key_check key) _
        (Post-of (λ _. Unit {0}) (key_check key) (λ _ _. tt))
        λ _ _ _. answer (find_command key db.commands)
    where
      answer :
          (found : Option Command)
          → Post
              (λ (r : Receipt × Db). Change manual grows db r.1)
              (elim found [
                | some c ↦ replay c payload_hash db
                | none ↦ begin_cancel key payload_hash now command_id task_id db
              ])
      answer none = begin_cancel-Change task_id db
      answer (some c) = replay-Change c db
