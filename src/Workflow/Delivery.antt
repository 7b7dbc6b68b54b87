-- ===== src/Workflow/Delivery.antt =====
-- WorkflowStore._deliver_dependencies_locked of boring_agent/workflows.py, with
-- _source_child_locked, _payload_for_source_locked and _dependency_failed_locked.
pub mod Effects
use Prim.Native.String.{len, ◌++◌ as append}
use text.Mathlib.Text.{starts_with}
use boring_orch_agent.Base.{
  ℕ, ◌+◌, String, Bool, true, false, Option, none, some, List, [], ◌∷◌, ◌++◌, find, modify,
  if◌then◌else◌, not, ◌||◌, ◌&&◌, ltb, leb, ◌==◌, str_eq,
}
use boring_orch_agent.Schema.{
  Db, Task, Attempt, Status, WorkflowRoot, WorkflowChild, WorkflowDelivery, Delivery, DeliveryState,
  Result, ok, err, AgentError, invalid_request, uncaught, ◌>>=◌, ◌>>◌, raise_if, event, update_task,
  task_keyed, child_keyed, root_keyed,
}
use boring_orch_agent.Artifacts.{Files, Read, contents, Payload, artifact_checksum, is_path}
use boring_orch_agent.Workflow.Admission.{latest, child_of, root_locked, update_root, fail_pending}

abbrev is_source : ℕ → String → ℕ → WorkflowChild → Bool
is_source workflow key before c =
    c.workflow_id == workflow && str_eq c.child_key key && leb c.revision before

-- _source_child_locked
unfoldable pub source_child : ℕ → String → ℕ → List WorkflowChild → Option WorkflowChild
unfolding latest
source_child workflow key before [] = none
source_child workflow key before (c ∷ cs) =
    let rest = source_child workflow key before cs in
    if is_source workflow key before c then some (latest rest c) else rest

-- task["attempts"][-1]: the attempt of the task with the greatest number
last_attempt : ℕ → List Attempt → Option Attempt
last_attempt k [] = none
last_attempt k (a ∷ as') =
    let rest = last_attempt k as' in
    if a.task_id == k
    then elim rest [ none ↦ some a | some b ↦ if ltb a.number b.number then some b else some a ]
    else rest

has_hidden : List String → Bool
has_hidden [] = false
has_hidden (p ∷ ps) = starts_with p "." || has_hidden ps

abbrev or_raise {ℓ} : {A : Type ℓ} → Option A → AgentError → Result A
or_raise none e = err e
or_raise (some a) e = ok a

module _ (fs : Files) where
  loads_of : Read → Option String
  loads_of (contents f) = f.loads
  loads_of _ = none

  result_payload : Task → Db → Result String
  unfolding last_attempt loads_of is_path artifact_checksum
  result_payload task db = do
    path ← or_raise task.result_path invalid_request
    attempt ← or_raise (last_attempt task.id db.attempts) uncaught
    value ← or_raise (loads_of (fs.read path)) invalid_request
    checksum ← artifact_checksum fs attempt task.spec
    raise_if (not (is_path task.result_sha256 checksum)) invalid_request
    ok value

  -- A file that is not UTF-8 raises a UnicodeDecodeError.
  file_payload : String → String → Result (String × String)
  unfolding has_hidden
  file_payload workspace relative = do
    raise_if (fs.is_absolute relative || str_eq relative "" || has_hidden (fs.parts relative))
        invalid_request
    file ← or_raise (fs.workspace_file workspace relative) invalid_request
    raise_if (ltb 1048576 file.size) invalid_request
    text ← or_raise file.text uncaught
    ok (relative, text)

  files_payload : String → List String → Result (List (String × String))
  unfolding file_payload
  files_payload workspace [] = ok []
  files_payload workspace (f ∷ fs') = do
    entry ← file_payload workspace f
    rest ← files_payload workspace fs'
    ok (entry ∷ rest)

  result_part : Bool → Task → Db → Result (Option String)
  unfolding result_payload
  result_part false task db = ok none
  result_part true task db = do value ← result_payload task db; ok (some value)

  -- _payload_for_source_locked
  unfoldable pub payload_for_source : Task → Delivery → Db → Result Payload
  unfolding result_part files_payload
  payload_for_source task delivery db = do
    result ← result_part delivery.result task db
    files ← files_payload task.spec.workspace delivery.files
    ok (record { source_task_id = task.id; result = result; files = files })

pub data Readiness : Type 0 where
  not_workflow waiting failed : Readiness
  ready : ℕ → ℕ → Readiness

abbrev is_delivery : ℕ → ℕ → ℕ → WorkflowDelivery → Bool
is_delivery workflow source target d =
    d.workflow_id == workflow && d.source_task_id == source && d.target_task_id == target

unfoldable pub has_delivery : ℕ → ℕ → ℕ → List WorkflowDelivery → Bool
has_delivery workflow source target [] = false
has_delivery workflow source target (d ∷ ds) =
    is_delivery workflow source target d || has_delivery workflow source target ds

-- INSERT OR IGNORE: one row for each source and target of a workflow
unfoldable pub add_delivery : WorkflowDelivery → Db → Db
unfolding has_delivery
add_delivery d db =
    if has_delivery d.workflow_id d.source_task_id d.target_task_id db.workflow_deliveries
    then db
    else record db { workflow_deliveries = db.workflow_deliveries ++ d ∷ [] }

-- _dependency_failed_locked
unfoldable pub dependency_failed : WorkflowRoot → WorkflowChild → String → ℕ → ℕ → Db → Db
unfolding add_delivery
dependency_failed root child reason source_task_id now db =
    event "workflow.dependency_failed" (some child.task_id) none now (
      update_root root.id (λ r. record r { reason = some reason; updated_at = now })
        (update_task child.task_id (fail_pending (append "dependency_transfer_failed: " reason) now)
          (add_delivery
            (record {
              workflow_id = child.workflow_id;
              source_task_id = source_task_id;
              target_task_id = child.task_id;
              payload = "{}";
              bytes_count = 0;
              state = DeliveryState.failed;
              error_message = some reason;
            })
            db)))

-- SELECT status FROM tasks WHERE id=?, for a task that a foreign key names
abbrev source_task : ℕ → Db → Result Task
source_task k db = elim (find k db.tasks) [ none ↦ err uncaught | some t ↦ ok t ]

-- What one dependency adds: the bytes of its payload, or the outcome that ends the loop.
pub data Progress : Type 0 where
  goes_on : ℕ → Db → Progress
  ends : Readiness → Db → Progress

module _ (fs : Files) (root : WorkflowRoot) (child : WorkflowChild) (now : ℕ) where
  -- Record the delivery, if it is the first from this source.
  deliver_payload : Task → Payload → Db → Db
  unfolding add_delivery
  deliver_payload source payload = add_delivery (record {
    workflow_id = child.workflow_id;
    source_task_id = source.id;
    target_task_id = child.task_id;
    payload = fs.canonical payload;
    bytes_count = len (fs.canonical payload);
    state = DeliveryState.delivered;
    error_message = none;
  })

  deliver_result : Task → Result Payload → Db → Result Progress
  unfolding deliver_payload dependency_failed
  deliver_result source (ok payload) db =
      ok (goes_on (len (fs.canonical payload)) (deliver_payload source payload db))
  deliver_result source (err invalid_request) db =
      ok (ends failed (dependency_failed root child "invalid dependency" source.id now db))
  deliver_result source (err e) db = err e

  deliver_from : Task → Delivery → Db → Result Progress
  unfolding deliver_result payload_for_source dependency_failed
  deliver_from source delivery db = elim source.status [
    | Status.pending ↦ ok (ends waiting db)
    | Status.scheduled ↦ ok (ends waiting db)
    | Status.running ↦ ok (ends waiting db)
    | Status.succeeded ↦ deliver_result source (payload_for_source fs source delivery db) db
    | _ ↦
        ok
          (ends failed (dependency_failed root child "dependency did not succeed" source.id now db))
  ]

  deliver_one : String → Db → Result Progress
  unfolding source_child deliver_from dependency_failed
  deliver_one key db =
      elim (source_child child.workflow_id key child.revision db.workflow_children) [
        | none ↦
            ok
              (ends failed (dependency_failed root child "unknown dependency" child.task_id now db))
        | some source ↦ do
          task ← source_task source.task_id db
          deliver_from task source.delivery db
      ]

  -- The loop over the dependencies; the recursive call waits in the case.
  deliver_each : List String → ℕ → ℕ → Db → Result (Readiness × Db)
  unfolding deliver_one
  deliver_each [] total number db = ok (
    ready total number,
    event "workflow.dependencies_delivered" (some child.task_id) none now (record db {
      workflow_children =
          modify child.internal_id (λ c. record c { context_bytes = total }) db.workflow_children;
    }),
  )
  deliver_each (key ∷ keys) total number db = elim (deliver_one key db) [
    | err e ↦ err e
    | ok (ends r db') ↦ ok (r, db')
    | ok (goes_on bytes db') ↦ deliver_each keys (total + bytes) (number + 1) db'
  ]

-- _deliver_dependencies_locked
deliver_child :
    Files → WorkflowRoot → WorkflowChild → ℕ → List String → Db → Result (Readiness × Db)
unfolding deliver_each
deliver_child fs root child now [] db = ok (ready 0 0, db)
deliver_child fs root child now (key ∷ keys) db = deliver_each fs root child now (key ∷ keys) 0 0 db

unfoldable pub deliver_dependencies : Files → ℕ → ℕ → Db → Result (Readiness × Db)
unfolding deliver_child child_of root_locked
deliver_dependencies fs task_id now db = elim (child_of task_id db.workflow_children) [
  | none ↦ ok (not_workflow, db)
  | some child ↦ do
    root ← root_locked child.workflow_id db
    deliver_child fs root child now child.dependencies db
]
