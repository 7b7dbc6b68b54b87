-- ===== src/Store/Commands/Replay.antt =====
-- Idempotency keys: what repeating an accepted request answers (Store.submit, Store.cancel and
-- Store._replay_or_conflict of boring_agent/store.py).
use text.Mathlib.TextEquality.{eq_iff}
use text.Mathlib.TextPositions.{eq_refl}
use boring_orch_agent.Base.{
  ℕ, ◌≡◌, refl, String, true, none, some, List, [], ◌∷◌, ◌++◌, arith, if_split, Option-cases, inl,
  inr, str_eq, if◌then◌else◌,
}
use boring_orch_agent.Schema.{
  Db, Task, Command, Spec, Result, ok, err, conflict, Post, Post-bind, Post-of, Post_at,
  require_task, task_keyed,
}
use boring_orch_agent.Store.Commands.{
  Receipt, receipt, find_command, key_check, replay, insert_task, insert_command, new_task,
  new_command, accept, submit, cancel_task, begin_cancel, cancel,
}

-- The key's command is recorded with this receipt and digest.
record Recorded (key payload_hash : String) (r : Receipt) (db : Db) : Type 0 where
  pub command : Command
  pub found : find_command key db.commands ≡ some command
  pub digest : str_eq command.payload_hash payload_hash ≡ true
  pub given : receipt command r.duplicate ≡ r
  pub accepted_key : key_check key ≡ ok tt

find_command-append :
    (key : String) (cs : List Command) (c : Command)
    → find_command key cs ≡ none
    → str_eq c.idempotency_key key ≡ true
    → find_command key (cs ++ c ∷ []) ≡ some c
unfolding find_command
find_command-append key [] c h e = rw e
find_command-append key (d ∷ cs) c h e = ground (arith, h, e, find_command-append key cs c)

pub insert_command-found :
    (c : Command) (db : Db)
    → find_command c.idempotency_key db.commands ≡ none
    → Post (λ d. find_command c.idempotency_key d.commands ≡ some c) (insert_command c db)
unfolding insert_command
insert_command-found c db h =
    let found = find_command-append c.idempotency_key db.commands c h (eq_refl c.idempotency_key) in
    ground (arith, found)

pub insert_task-commands :
    (t : Task) (db : Db) → Post (λ d. d.commands ≡ db.commands) (insert_task t db)
unfolding insert_task
insert_task-commands t db = ground arith

module _ (key payload_hash : String) (now command_id : ℕ) where
  cancel_task-commands :
      (t : Task) (db : Db)
      → (cancel_task key payload_hash now command_id t db).commands ≡ db.commands
  unfolding cancel_task
  cancel_task-commands t db = ground arith

  accept-Recorded :
      (task_id : ℕ) (validated : Result Spec) (db : Db)
      → key_check key ≡ ok tt
      → find_command key db.commands ≡ none
      → Post
          (λ r. Recorded key payload_hash r.0 r.1)
          (accept key payload_hash now command_id task_id validated db)
  unfolding accept
  accept-Recorded task_id (err e) db k h = tt
  accept-Recorded task_id (ok spec) db k h =
      let t = new_task task_id spec now in
      let c = new_command command_id key "submit" task_id payload_hash now in
      let Q = λ (r : Receipt × Db). Recorded key payload_hash r.0 r.1 in
      Post-bind _ Q (insert_task t db) _ (insert_task-commands t db) λ d _ same.
        Post-bind _ Q (insert_command c d) _ (insert_command-found c d (rw same h)) λ d₂ _ found.
          record {
            command = c;
            found = found;
            digest = eq_refl payload_hash;
            given = refl;
            accepted_key = k;
          }

  begin_cancel-Recorded :
      (task_id : ℕ) (db : Db)
      → key_check key ≡ ok tt
      → find_command key db.commands ≡ none
      → Post
          (λ r. Recorded key payload_hash r.0 r.1)
          (begin_cancel key payload_hash now command_id task_id db)
  unfolding begin_cancel
  begin_cancel-Recorded task_id db k h =
      let c = new_command command_id key "cancel" task_id payload_hash now in
      let Q = λ (r : Receipt × Db). Recorded key payload_hash r.0 r.1 in
      Post-bind (λ _. Unit {0}) Q (require_task task_id db) _
        (Post-of (λ _. Unit {0}) _ (λ _ _. tt))
        λ t _ _. Post-bind _ Q (insert_command c db) _ (insert_command-found c db h) λ d _ found.
          record {
            command = c;
            found = rw (cancel_task-commands t d) found;
            digest = eq_refl payload_hash;
            given = refl;
            accepted_key = k;
          }

  replay-Recorded :
      (c : Command) (db : Db)
      → key_check key ≡ ok tt
      → find_command key db.commands ≡ some c
      → Post (λ r. Recorded key payload_hash r.0 r.1) (replay c payload_hash db)
  unfolding replay
  replay-Recorded c db k h =
      if_split (Post (λ (r : Receipt × Db). Recorded key payload_hash r.0 r.1))
        (str_eq c.payload_hash payload_hash)
        (λ same. record { command = c; found = h; digest = same; given = refl; accepted_key = k })
        λ _. tt

  submit-Recorded :
      (task_id : ℕ) (validated : Result Spec) (db : Db)
      → Post
          (λ r. Recorded key payload_hash r.0 r.1)
          (submit key payload_hash now command_id task_id validated db)
  unfolding submit
  submit-Recorded task_id validated db =
      Post-bind (λ _. Unit {0}) (λ (r : Receipt × Db). Recorded key payload_hash r.0 r.1)
        (key_check key) _ (Post-of (λ _. Unit {0}) (key_check key) (λ _ _. tt))
        λ _ k _. elim (Option-cases (find_command key db.commands)) [
          | inl e ↦ rw e (accept-Recorded task_id validated db k e)
          | inr (c, e) ↦ rw e (replay-Recorded c db k e)
        ]

  cancel-Recorded :
      (task_id : ℕ) (db : Db)
      → Post
          (λ r. Recorded key payload_hash r.0 r.1)
          (cancel key payload_hash now command_id task_id db)
  unfolding cancel
  cancel-Recorded task_id db =
      Post-bind (λ _. Unit {0}) (λ (r : Receipt × Db). Recorded key payload_hash r.0 r.1)
        (key_check key) _ (Post-of (λ _. Unit {0}) (key_check key) (λ _ _. tt))
        λ _ k _. elim (Option-cases (find_command key db.commands)) [
          | inl e ↦ rw e (begin_cancel-Recorded task_id db k e)
          | inr (c, e) ↦ rw e (replay-Recorded c db k e)
        ]

-- A recorded key answers every later request under it, and changes nothing.
submit-replays :
    (key payload_hash hash : String) (r : Receipt) (db : Db) (now command_id task_id : ℕ)
    (validated : Result Spec)
    → Recorded key payload_hash r db
    → submit key hash now command_id task_id validated db
      ≡ (if str_eq payload_hash hash then ok (record r { duplicate = true }, db) else err conflict)
unfolding submit replay
submit-replays key payload_hash hash r db now command_id task_id validated rec =
    let same = (eq_iff rec.command.payload_hash payload_hash).0 rec.digest in
    rw (rec.accepted_key, rec.found, same, ← rec.given) refl

cancel-replays :
    (key payload_hash hash : String) (r : Receipt) (db : Db) (now command_id task_id : ℕ)
    → Recorded key payload_hash r db
    → cancel key hash now command_id task_id db
      ≡ (if str_eq payload_hash hash then ok (record r { duplicate = true }, db) else err conflict)
unfolding cancel replay
cancel-replays key payload_hash hash r db now command_id task_id rec =
    let same = (eq_iff rec.command.payload_hash payload_hash).0 rec.digest in
    rw (rec.accepted_key, rec.found, same, ← rec.given) refl

-- Once a submission has returned a receipt, every further submission under its idempotency key
-- leaves the store as it is: with the same digest it returns the same receipt, marked as a
-- duplicate, and with another digest it is a conflict, whatever its specification.
pub submit_again :
    (key payload_hash hash : String) (now command_id task_id now' command_id' task_id' : ℕ)
    (validated validated' : Result Spec) (db db' : Db) (r : Receipt)
    → submit key payload_hash now command_id task_id validated db ≡ ok (r, db')
    → submit key hash now' command_id' task_id' validated' db'
      ≡ (if str_eq payload_hash hash then ok (record r { duplicate = true }, db') else err conflict)
submit_again key payload_hash hash now command_id task_id now' command_id' task_id' validated
      validated' db db' r done =
    submit-replays key payload_hash hash r db' now' command_id' task_id' validated' (
      Post_at (λ (q : Receipt × Db). Recorded key payload_hash q.0 q.1) _ (r, db')
        (submit-Recorded key payload_hash now command_id task_id validated db) done)

-- Once a cancellation has returned a receipt, a further cancellation under its idempotency key
-- leaves the store as it is: with the same digest it returns the same receipt, marked as a
-- duplicate, and with another digest it is a conflict.
pub cancel_again :
    (key payload_hash hash : String) (now command_id task_id now' command_id' task_id' : ℕ)
    (db db' : Db) (r : Receipt)
    → cancel key payload_hash now command_id task_id db ≡ ok (r, db')
    → cancel key hash now' command_id' task_id' db'
      ≡ (if str_eq payload_hash hash then ok (record r { duplicate = true }, db') else err conflict)
cancel_again key payload_hash hash now command_id task_id now' command_id' task_id' db db' r done =
    cancel-replays key payload_hash hash r db' now' command_id' task_id' (
      Post_at (λ (q : Receipt × Db). Recorded key payload_hash q.0 q.1) _ (r, db')
        (cancel-Recorded key payload_hash now command_id task_id db) done)
