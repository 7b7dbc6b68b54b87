-- ===== src/Runner/Claim.antt =====
-- The transaction at the head of run_attempt in boring_agent/runner.py.
pub mod Effects
pub mod Once
use boring_orch_agent.Base.{
  ℕ, ◌+◌, String, Bool, true, false, Option, none, some, List, [], ◌∷◌, find, if◌then◌else◌, not,
  ◌||◌, ◌&&◌, ◌==◌, opt_eq, map,
}
use boring_orch_agent.Schema.{
  Db, Worker, Attempt, AttemptState, Outbox, Spec, Runtime, Sandbox, Result, ok, ◌>>=◌, event,
  update_attempt, require_task, attempt_keyed, worker_keyed,
}
use boring_orch_agent.Store.Observations.{is_queued}
use Runtime.{llm, demo}

abbrev pub same_runtime : Runtime → Runtime → Bool
same_runtime llm llm = true
same_runtime demo demo = true
same_runtime _ _ = false

-- spec["runtime"] in json.loads(worker["runtimes"])
unfoldable pub offers : Runtime → List Runtime → Bool
offers r [] = false
offers r (x ∷ xs) = same_runtime r x || offers r xs

abbrev pub is_read_only : Sandbox → Bool
is_read_only Sandbox.read_only = true
is_read_only Sandbox.workspace_write = false

-- The worker may run the task: its runtime is offered, and writing is allowed where it is asked for.
unfoldable pub is_capable : Spec → Worker → Bool
is_capable spec w = offers spec.runtime w.runtimes && (is_read_only spec.sandbox || w.allow_write)

unfoldable pub is_permitted : Spec → Option Worker → Bool
unfolding is_capable
is_permitted spec none = false
is_permitted spec (some w) = is_capable spec w

abbrev pub refused : String → ℕ → Attempt → Attempt
refused message now a = record a {
  state = AttemptState.failed;
  sequence = a.sequence + 1;
  finished_at = some now;
  heartbeat = now;
  tokens = some 0;
  error_kind = some "permanent";
  error_message = some message;
}

abbrev pub launched : ℕ → String → ℕ → Attempt → Attempt
launched pid start now a = record a {
  state = AttemptState.launching;
  sequence = a.sequence + 1;
  runner_pid = some pid;
  runner_start = some start;
  heartbeat = now;
}

abbrev acknowledge : ℕ → ℕ → Outbox → Outbox
acknowledge k now o = if o.attempt_id == k then record o { delivered_at = some now } else o

-- `start` is the identity that /proc gives, if it can be read. The flag says that the runner holds
-- the attempt and goes on to run it.
module _ (pid now : ℕ) where
  claim_permitted : Attempt → Bool → Option String → Db → Bool × Db
  claim_permitted a false start db = (
    false,
    event "attempt.rejected" (some a.task_id) (some a.id) now
        (update_attempt a.id (refused "Worker capabilities changed before launch" now) db),
  )
  claim_permitted a true none db = (
    false,
    event "attempt.rejected" (some a.task_id) (some a.id) now
        (update_attempt a.id (refused "Runner cannot read its process identity from /proc" now) db),
  )
  claim_permitted a true (some start) db = (
    true,
    event "attempt.claimed" (some a.task_id) (some a.id) now
        (record (update_attempt a.id (launched pid start now) db) {
          outbox = map (acknowledge a.id now) db.outbox;
        }),
  )

  claim_current : Attempt → Option String → Db → Result (Bool × Db)
  unfolding claim_permitted is_permitted require_task
  claim_current a start db = do
    task ← require_task a.task_id db
    if not (opt_eq task.current_attempt_id a.id)
        then ok (false, db)
        else ok (claim_permitted a (is_permitted task.spec (find a.worker_id db.workers)) start db)

  unfoldable pub claim : ℕ → ℕ → Option String → Db → Result (Bool × Db)
  unfolding claim_current
  claim attempt_id worker_id start db = elim (find attempt_id db.attempts) [
    | none ↦ ok (false, db)
    | some a ↦
        if not (a.worker_id == worker_id) || not (is_queued a.state)
        then ok (false, db)
        else claim_current a start db
  ]
