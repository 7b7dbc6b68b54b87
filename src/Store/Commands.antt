-- ===== src/Store/Commands.antt =====
-- Store.submit and Store.cancel of boring_agent/store.py. `payload_hash` is the digest of the
-- request, `validated` what validate_spec makes of it, and the new ids are those of uuid4.
pub mod Effects
pub mod Replay
use Prim.Native.String.{count as len}
use boring_orch_agent.Base.{
  ℕ, ◌+◌, String, Bool, true, false, Option, none, some, List, [], ◌∷◌, ◌++◌, find, is_none,
  if◌then◌else◌, not, ◌||◌, ltb, ◌==◌, str_eq,
}
use boring_orch_agent.Schema.{
  Db, Task, Command, Status, Action, Condition, Spec, Result, ok, err, invalid_request, conflict,
  ◌>>=◌, ◌>>◌, raise_if, event, update_task, require_task, is_terminal, is_pending, task_keyed,
}

pub record Receipt : Type 0 where
  pub command_id : ℕ
  pub task_id : ℕ
  pub accepted_at : ℕ
  pub duplicate : Bool

-- SELECT * FROM commands WHERE idempotency_key=?
unfoldable pub find_command : String → List Command → Option Command
find_command k [] = none
find_command k (c ∷ cs) = if str_eq c.idempotency_key k then some c else find_command k cs

unfoldable pub key_check : String → Result (Unit {0})
key_check key = raise_if (len key == 0 || ltb 200 (len key)) invalid_request

abbrev pub receipt : Command → Bool → Receipt
receipt c duplicate = record {
  command_id = c.id;
  task_id = c.task_id;
  accepted_at = c.accepted_at;
  duplicate = duplicate;
}

-- An idempotency key that is taken: the old receipt for the same payload, else a conflict.
unfoldable pub replay : Command → String → Db → Result (Receipt × Db)
replay c payload_hash db =
    if str_eq c.payload_hash payload_hash then ok (receipt c true, db) else err conflict

-- INSERT INTO tasks; the primary key refuses an id that is there.
unfoldable pub insert_task : Task → Db → Result Db
insert_task t db =
    if is_none (find t.id db.tasks)
    then ok (record db { tasks = db.tasks ++ t ∷ [] })
    else err conflict

has_command : ℕ → List Command → Bool
has_command k [] = false
has_command k (c ∷ cs) = c.id == k || has_command k cs

-- INSERT INTO commands; the id and the key are unique.
unfoldable pub insert_command : Command → Db → Result Db
unfolding has_command
insert_command c db =
    if has_command c.id db.commands || not (is_none (find_command c.idempotency_key db.commands))
    then err conflict
    else ok (record db { commands = db.commands ++ c ∷ [] })

abbrev pub new_task : ℕ → Spec → ℕ → Task
new_task task_id spec now = record {
  id = task_id;
  spec = spec;
  status = Status.pending;
  desired_action = Action.run;
  current_attempt_id = none;
  version = 1;
  submitted_at = now;
  deadline = now + spec.deadline_seconds;
  next_run_at = now;
  finished_at = none;
  reason = none;
  result_path = none;
  result_sha256 = none;
  tokens_used = 0;
  usage_unknown = false;
  observation_condition = Condition.fresh;
  observed_at = none;
}

abbrev pub new_command : ℕ → String → String → ℕ → String → ℕ → Command
new_command command_id key kind task_id payload_hash now = record {
  id = command_id;
  idempotency_key = key;
  kind = kind;
  task_id = task_id;
  payload_hash = payload_hash;
  accepted_at = now;
}

abbrev pub asked_to_stop : Task → Task
asked_to_stop t = record t {
  desired_action = Action.cancel;
  reason = some "user_cancelled";
  version = t.version + 1;
}

abbrev pub withdrawn : ℕ → Task → Task
withdrawn now t = record t {
  status = Status.cancelled;
  finished_at = some now;
  observation_condition = Condition.fresh;
}

module _ (key payload_hash : String) (now command_id : ℕ) where
  accept : ℕ → Result Spec → Db → Result (Receipt × Db)
  unfolding insert_task insert_command
  accept task_id validated db = do
    spec ← validated
    db₁ ← insert_task (new_task task_id spec now) db
    db₂ ← insert_command (new_command command_id key "submit" task_id payload_hash now) db₁
    ok (
      receipt (new_command command_id key "submit" task_id payload_hash now) false,
      event "task.accepted" (some task_id) none now db₂,
    )

  unfoldable pub submit : ℕ → Result Spec → Db → Result (Receipt × Db)
  unfolding key_check replay accept
  submit task_id validated db = key_check key >> elim (find_command key db.commands) [
    | some c ↦ replay c payload_hash db
    | none ↦ accept task_id validated db
  ]

  -- The effect of a recorded cancel on its task. A pending task has nothing that runs, so it ends
  -- in the same transaction.
  unfoldable pub cancel_task : Task → Db → Db
  cancel_task task db =
      let requested =
        event "task.cancel_requested" (some task.id) none now
          (update_task task.id asked_to_stop db) in
      if is_terminal task.status
      then event "task.cancel_ignored_terminal" (some task.id) none now db
      else if is_pending task.status
      then event "task.finished" (some task.id) none now
          (update_task task.id (withdrawn now) requested)
      else requested

  begin_cancel : ℕ → Db → Result (Receipt × Db)
  unfolding require_task insert_command cancel_task
  begin_cancel task_id db = do
    task ← require_task task_id db
    db₁ ← insert_command (new_command command_id key "cancel" task_id payload_hash now) db
    ok (
      receipt (new_command command_id key "cancel" task_id payload_hash now) false,
      cancel_task task db₁,
    )

  unfoldable pub cancel : ℕ → Db → Result (Receipt × Db)
  unfolding key_check replay begin_cancel
  cancel task_id db = key_check key >> elim (find_command key db.commands) [
    | some c ↦ replay c payload_hash db
    | none ↦ begin_cancel task_id db
  ]
