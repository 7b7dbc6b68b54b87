-- ===== src/Store/Observations.antt =====
-- Store.observe and Store.resolve of boring_agent/store.py.
pub mod Effects
pub mod Accepted
use boring_orch_agent.Base.{
  ℕ, ◌+◌, max, String, Bool, true, false, Option, none, some, is_none, get_or, find, if◌then◌else◌,
  not, ◌||◌, ◌&&◌, ltb, leb, ◌==◌, opt_eq,
}
use boring_orch_agent.Schema.{
  Db, Task, Attempt, AttemptState, Result, ok, err, invalid_request, not_found, conflict, ◌>>=◌,
  ◌>>◌, raise_if, event, update_attempt, require_task, is_terminal, is_final, attempt_keyed,
}
use AttemptState.{queued, launching, running, succeeded, failed, cancelled, unknown}

-- The keyword arguments of observe. `none` is an argument that is not given, `some none` one that
-- is given as None.
pub record Data : Type 0 where
  pub runner_pid : Option (Option ℕ)
  pub runner_start : Option (Option String)
  pub runtime_pid : Option (Option ℕ)
  pub result_path : Option (Option String)
  pub result_sha256 : Option (Option String)
  pub error_kind : Option (Option String)
  pub error_message : Option (Option String)
  pub tokens : Option (Option ℕ)
  pub known_tokens : Option ℕ

abbrev pub is_queued : AttemptState → Bool
is_queued AttemptState.queued = true
is_queued _ = false

abbrev pub is_running : AttemptState → Bool
is_running AttemptState.running = true
is_running _ = false

abbrev pub is_unknown : AttemptState → Bool
is_unknown AttemptState.unknown = true
is_unknown _ = false

-- The table `transitions`; a final state has no successors.
unfoldable pub allowed : AttemptState → AttemptState → Bool
allowed queued launching = true
allowed queued cancelled = true
allowed queued failed = true
allowed launching running = true
allowed launching cancelled = true
allowed launching failed = true
allowed launching unknown = true
allowed running running = true
allowed running succeeded = true
allowed running failed = true
allowed running cancelled = true
allowed running unknown = true
allowed unknown unknown = true
allowed _ _ = false

-- data.get("tokens") or 0
abbrev pub reported : Option (Option ℕ) → ℕ
reported (some (some n)) = n
reported _ = 0

abbrev pub mentions_usage : Data → Bool
mentions_usage d = not (is_none d.tokens) || not (is_none d.known_tokens)

abbrev pub floor_of : Attempt → Data → ℕ
floor_of a d = max (max a.known_tokens (get_or d.known_tokens 0)) (reported d.tokens)

abbrev below : Option ℕ → ℕ → Bool
below none n = false
below (some t) n = ltb t n

-- The reported total contradicts what is known to be used.
abbrev pub is_inconsistent : Attempt → Data → Bool
is_inconsistent a d = mentions_usage d && below (get_or d.tokens a.tokens) (floor_of a d)

-- Usage is cumulative within an attempt.
unfoldable pub account : Attempt → Data → Data
account a d =
    if mentions_usage d
    then (if is_inconsistent a d
        then record d { known_tokens = some (floor_of a d); tokens = some none }
        else record d { known_tokens = some (floor_of a d) })
    else d

-- The UPDATE that an accepted observation makes.
unfoldable pub merge : ℕ → AttemptState → Data → ℕ → Attempt → Attempt
merge sequence state d now a = record a {
  state = state;
  sequence = sequence;
  heartbeat = now;
  runner_pid = get_or d.runner_pid a.runner_pid;
  runner_start = get_or d.runner_start a.runner_start;
  runtime_pid = get_or d.runtime_pid a.runtime_pid;
  result_path = get_or d.result_path a.result_path;
  result_sha256 = get_or d.result_sha256 a.result_sha256;
  error_kind = get_or d.error_kind a.error_kind;
  error_message = get_or d.error_message a.error_message;
  tokens = get_or d.tokens a.tokens;
  known_tokens = get_or d.known_tokens a.known_tokens;
  started_at = if is_running state && is_none a.started_at then some now else a.started_at;
  finished_at = if is_final state then some now else a.finished_at;
}

-- The observation comes late, or from a worker that does not own the attempt.
unfoldable pub is_rejected : ℕ → ℕ → ℕ → Attempt → Task → Bool
is_rejected attempt_id worker_id sequence a t =
    not (a.worker_id == worker_id)
    || leb sequence a.sequence
    || is_final a.state
    || not (opt_eq t.current_attempt_id attempt_id)
    || is_terminal t.status

same_state : AttemptState → AttemptState → Bool
same_state queued queued = true
same_state launching launching = true
same_state running running = true
same_state succeeded succeeded = true
same_state failed failed = true
same_state cancelled cancelled = true
same_state unknown unknown = true
same_state _ _ = false

module _ (attempt_id sequence : ℕ) (state : AttemptState) (d : Data) (now : ℕ) where
  unfoldable pub apply_observation : Attempt → Db → Db
  unfolding same_state
  apply_observation a db =
      let usage =
        if is_inconsistent a d
        then event "attempt.usage_inconsistent" (some a.task_id) (some attempt_id) now db
        else db in
      let updated = update_attempt attempt_id (merge sequence state (account a d) now) usage in
      if same_state state a.state
      then updated
      else event "attempt.observed" (some a.task_id) (some attempt_id) now updated

  observe_attempt : ℕ → Attempt → Db → Result (Bool × Db)
  unfolding is_rejected allowed apply_observation require_task
  observe_attempt worker_id a db = do
    task ← require_task a.task_id db
    if is_rejected attempt_id worker_id sequence a task
        then ok (false, db)
        else if allowed a.state state
        then ok (true, apply_observation a db)
        else err conflict

abbrev find_attempt : ℕ → Db → Result Attempt
find_attempt k db = elim (find k db.attempts) [ none ↦ err not_found | some a ↦ ok a ]

unfoldable pub observe : ℕ → ℕ → ℕ → AttemptState → Data → ℕ → Db → Result (Bool × Db)
unfolding observe_attempt
observe attempt_id worker_id sequence state d now db = do
  raise_if (is_queued state) invalid_request
  raise_if (sequence == 0) invalid_request
  a ← find_attempt attempt_id db
  observe_attempt attempt_id sequence state d now worker_id a db

-- The operator's evidence that an attempt of unknown outcome has stopped.
abbrev pub resolved : String → ℕ → Attempt → Attempt
resolved message now a = record a {
  state = failed;
  error_kind = some "permanent";
  error_message = some message;
  sequence = a.sequence + 1;
  heartbeat = now;
  finished_at = some now;
}

-- `blank` says that the note is empty but for spaces; `message` is the note behind its prefix.
unfoldable pub resolve : ℕ → Bool → String → Bool → ℕ → Db → Result (Unit {0} × Db)
resolve attempt_id blank message confirmed_stopped now db = do
  raise_if (not confirmed_stopped || blank) invalid_request
  a ← find_attempt attempt_id db
  raise_if (not (is_unknown a.state)) conflict
  ok (
    tt,
    event "attempt.resolved" (some a.task_id) (some attempt_id) now
        (update_attempt attempt_id (resolved message now) db),
  )
