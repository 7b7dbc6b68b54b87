-- ===== src/Store/Retention.antt =====
-- Store.retain and Store._delete_task_dependents of boring_agent/store.py. Each phase of a deletion
-- is a transaction of its own, recorded in retention_intents, so that a crash between two phases
-- leaves what is still to do.
pub mod Complete
pub mod Safe
pub mod Deleted
use boring_orch_agent.Base.{
  ℕ, zero, suc, ◌+◌, String, Bool, true, false, Option, none, some, List, [], ◌∷◌, ◌++◌, find,
  modify, keep_if, sort_by, is_none, if◌then◌else◌, not, ◌||◌, ◌&&◌, ltb, leb, ◌==◌, opt_eq,
}
use boring_orch_agent.Schema.{
  Db, Config, Task, Attempt, Outbox, Event, Command, WorkflowRoot, WorkflowChild, WorkflowDelivery,
  Phase, Intent, is_terminal, task_keyed, attempt_keyed, intent_keyed,
}

pub names_child : ℕ → List WorkflowChild → Bool
names_child k [] = false
names_child k (c ∷ cs) = c.task_id == k || names_child k cs

pub names_planner : ℕ → List WorkflowRoot → Bool
names_planner k [] = false
names_planner k (r ∷ rs) = r.planner_task_id == k || names_planner k rs

-- finished_at IS NOT NULL AND finished_at <= now - retention_seconds
abbrev is_old : ℕ → ℕ → Option ℕ → Bool
is_old now retention none = false
is_old now retention (some f) = leb (f + retention) now

-- The task may be deleted: it has ended long ago, and no workflow refers to it.
unfoldable pub is_retired : ℕ → Db → Task → Bool
unfolding names_child names_planner
is_retired now db t =
    is_terminal t.status
    && is_old now db.settings.retention_seconds t.finished_at
    && not (names_child t.id db.workflow_children)
    && not (names_planner t.id db.workflow_roots)

result_paths : ℕ → List Attempt → List String
result_paths k [] = []
result_paths k (a ∷ as') =
    let rest = result_paths k as' in
    if a.task_id == k then elim a.result_path [ none ↦ rest | some p ↦ p ∷ rest ] else rest

abbrev new_intent : ℕ → Db → Task → Intent
new_intent now db t = record {
  task_id = t.id;
  phase = Phase.dependents_phase;
  artifact_paths = result_paths t.id db.attempts;
  created_at = now;
}

-- The first transaction: an intent for each task that may be deleted and has none yet.
unfoldable pub plan_intents : ℕ → List Task → Db → Db
unfolding is_retired result_paths
plan_intents now [] db = db
plan_intents now (t ∷ ts) db = plan_intents now ts (
    if is_retired now db t && is_none (find t.id db.retention_intents)
    then record db { retention_intents = db.retention_intents ++ new_intent now db t ∷ [] }
    else db)

attempt_of : ℕ → List Attempt → ℕ → Bool
attempt_of k [] j = false
attempt_of k (a ∷ as') j = (a.task_id == k && a.id == j) || attempt_of k as' j

-- Every row that refers to the task
unfoldable pub delete_task_dependents : ℕ → Db → Db
unfolding keep_if attempt_of
delete_task_dependents k db = record db {
  workflow_deliveries =
      keep_if (λ d. not (d.source_task_id == k || d.target_task_id == k)) db.workflow_deliveries;
  workflow_children = keep_if (λ c. not (c.task_id == k)) db.workflow_children;
  outbox = keep_if (λ o. not (attempt_of k db.attempts o.attempt_id)) db.outbox;
  attempts = keep_if (λ a. not (a.task_id == k)) db.attempts;
  events = keep_if (λ e. not (opt_eq e.task_id k)) db.events;
}

abbrev in_phase : Phase → Intent → Intent
in_phase p i = record i { phase = p }

abbrev set_phase : ℕ → Phase → Db → Db
set_phase k p db = record db { retention_intents = modify k (in_phase p) db.retention_intents }

-- One transaction of the loop, and the artifacts that it removes.
unfoldable pub advance : Intent → Db → List String × Db
unfolding delete_task_dependents
advance i db = elim i.phase [
  | Phase.dependents_phase ↦
      ([], set_phase i.task_id Phase.task_phase (delete_task_dependents i.task_id db))
  | Phase.task_phase ↦ (
    [],
    set_phase i.task_id Phase.artifact_phase (record (delete_task_dependents i.task_id db) {
      tasks = keep_if (λ t. not (t.id == i.task_id)) db.tasks;
    }),
  )
  | Phase.artifact_phase ↦ (
    i.artifact_paths,
    record db {
      retention_intents = keep_if (λ j. not (j.task_id == i.task_id)) db.retention_intents;
    },
  )
]

-- ORDER BY created_at, task_id
abbrev pub is_older : Intent → Intent → Bool
is_older i j =
    ltb i.created_at j.created_at || (i.created_at == j.created_at && ltb i.task_id j.task_id)

abbrev pub first {ℓ} : {A : Type ℓ} → List A → Option A
first [] = none
first (x ∷ xs) = some x

unfoldable pub next_intent : Db → Option Intent
unfolding sort_by
next_intent db = first (sort_by is_older db.retention_intents)

abbrev same_phase : Phase → Phase → Bool
same_phase Phase.dependents_phase Phase.dependents_phase = true
same_phase Phase.task_phase Phase.task_phase = true
same_phase Phase.artifact_phase Phase.artifact_phase = true
same_phase _ _ = false

abbrev pub stops : Option Phase → Phase → Bool
stops none p = false
stops (some q) p = same_phase q p

-- The loop; `fuel` bounds its transactions.
unfoldable pub retain_each : ℕ → Option Phase → Db → List String × Db
unfolding advance next_intent
retain_each zero stop_after db = ([], db)
retain_each (suc fuel) stop_after db = elim (next_intent db) [
  | none ↦ ([], db)
  | some i ↦
      let step = advance i db in
      elim (stops stop_after i.phase) [
        | true ↦ step
        | false ↦ let later = retain_each fuel stop_after step.1 in (step.0 ++ later.0, later.1)
      ]
]

-- The phases that an intent has before it.
abbrev pub weight : Intent → ℕ
weight i = elim i.phase [
  | Phase.dependents_phase ↦ 3
  | Phase.task_phase ↦ 2
  | Phase.artifact_phase ↦ 1
]

unfoldable pub work : List Intent → ℕ
work [] = 0
work (i ∷ is) = weight i + work is

abbrev is_tombstone_over : ℕ → Db → Command → Bool
is_tombstone_over now db c =
    ltb (c.accepted_at + db.settings.idempotency_horizon) now && is_none (find c.task_id db.tasks)

unfoldable pub retain : ℕ → Option Phase → Db → List String × Db
unfolding plan_intents retain_each work keep_if
retain now stop_after db =
    let planned = plan_intents now db.tasks db in
    let done = retain_each (work planned.retention_intents) stop_after planned in
    (
      done.0,
      record (done.1) {
        commands = keep_if (λ c. not (is_tombstone_over now (done.1) c)) (done.1).commands;
      },
    )
