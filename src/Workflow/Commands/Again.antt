-- ===== src/Workflow/Commands/Again.antt =====
-- Idempotency keys of WorkflowStore.settle_plan (boring_agent/workflows.py).
use text.Mathlib.TextEquality.{eq_iff}
use text.Mathlib.TextPositions.{eq_refl}
use boring_orch_agent.Base.{
  ℕ, ◌≡◌, refl, ◌∙◌, String, Bool, true, none, some, [], ◌∷◌, arith, Bool-cases, ltb, ◌&&◌,
  Option-cases, inl, inr, str_eq, if◌then◌else◌, find, find-append_none, not,
}
use boring_orch_agent.Schema.{
  Db, Command, PlanOutcome, PlanReceipt, PlanCommand, WorkflowRoot, Spec, ok, err, conflict,
  plan_command_keyed, raise_if,
}
use boring_orch_agent.Store.Commands.{find_command, key_check, insert_command, new_command}
use boring_orch_agent.Store.Commands.Replay.{insert_command-found}
use boring_orch_agent.Document.Json.{Json}
use boring_orch_agent.Document.Task.{Host, TaskDocument}
use boring_orch_agent.Document.Ensures.{
  Ensures, returns, raises, step, any, ensured, witnessed, Post-Ensures,
}
use boring_orch_agent.Workflow.Admission.{root_locked}
use boring_orch_agent.Workflow.Commands.{
  plan_kind, replay_plan, insert_plan_command, keyed_receipt, record_command, settle_once,
  settle_keyed, settle_plan,
}
use boring_orch_agent.Workflow.Commands.Untouched.{settle_plan_locked-SameCommands}

-- The key's command is recorded with this digest, and its receipt is stored.
record PlanRecorded (key payload_hash : String) (r : PlanReceipt × Db) : Type 0 where
  pub command : Command
  pub stored : PlanCommand
  pub found : find_command key r.1.commands ≡ some command
  pub digest : str_eq command.payload_hash payload_hash ≡ true
  pub kept : find command.id r.1.workflow_plan_commands ≡ some stored
  pub given : record stored.receipt { duplicate = r.0.duplicate } ≡ r.0
  pub accepted_key : key_check key ≡ ok tt

insert_plan_command-kept :
    (c : PlanCommand) (db : Db)
    → Ensures
        (λ d. (find c.command_id d.workflow_plan_commands ≡ some c) × (d.commands ≡ db.commands))
        (insert_plan_command c db)
unfolding insert_plan_command find
insert_plan_command-kept c db = elim (Option-cases (find c.command_id db.workflow_plan_commands)) [
  | inl e ↦
      rw (e, insert_plan_command)
        (returns _
          (find-append_none c.command_id db.workflow_plan_commands (c ∷ []) e ∙ ground arith, refl))
  | inr (d, e) ↦ rw (e, insert_plan_command) (raises conflict)
]

replay_plan-PlanRecorded :
    (key payload_hash : String) (c : Command) (db : Db)
    → key_check key ≡ ok tt
    → find_command key db.commands ≡ some c
    → Ensures (PlanRecorded key payload_hash) (replay_plan c payload_hash db)
unfolding replay_plan
replay_plan-PlanRecorded key payload_hash c db k h =
    elim (Bool-cases (str_eq c.payload_hash payload_hash)) [
      | inl same ↦ elim (Option-cases (find c.id db.workflow_plan_commands)) [
        | inl e ↦ rw (same, e, replay_plan) (raises conflict)
        | inr (stored, e) ↦
            rw (same, e, replay_plan)
              (returns _ (record {
                command = c;
                stored = stored;
                found = h;
                digest = same;
                kept = e;
                given = refl;
                accepted_key = k;
              }))
      ]
      | inr other ↦ rw (other, replay_plan) (raises conflict)
    ]

module _ (h : Host) (authority : ℕ → TaskDocument) (workspace_root : String) (room : ℕ)
    (to_spec : TaskDocument → Spec) (uuid internal : ℕ → ℕ) (now command_id : ℕ) (workflow : ℕ)
    (plan : Json) (replan : Bool) (key payload_hash : String) where
  record_command-PlanRecorded :
      (root : WorkflowRoot) (outcome : PlanOutcome) (db : Db)
      → key_check key ≡ ok tt
      → find_command key db.commands ≡ none
      → Ensures (PlanRecorded key payload_hash) (
          record_command h authority workspace_root room to_spec uuid internal now command_id
            workflow plan replan key payload_hash root outcome db)
  unfolding record_command
  record_command-PlanRecorded root outcome db k new =
      let c = new_command command_id key (plan_kind replan) root.planner_task_id payload_hash now in
      step
        (Post-Ensures (λ d. find_command key d.commands ≡ some c) (insert_command c db)
          (insert_command-found c db new))
        λ d found.
          step
            (insert_plan_command-kept
              (record {
                command_id = command_id;
                workflow_id = workflow;
                receipt = keyed_receipt outcome command_id;
                created_at = now;
              })
              d)
            λ d₂ kept. returns _ (record {
              command = c;
              stored = record {
                command_id = command_id;
                workflow_id = workflow;
                receipt = keyed_receipt outcome command_id;
                created_at = now;
              };
              found = rw kept.1 found;
              digest = eq_refl payload_hash;
              kept = kept.0;
              given = refl;
              accepted_key = k;
            })

  settle_once-SameCommands :
      (db : Db)
      → Ensures
          (λ r. r.1.1.commands ≡ db.commands)
          (settle_once h authority workspace_root room to_spec uuid internal now command_id workflow
            plan replan db)
  unfolding settle_once
  settle_once-SameCommands db = step (any (root_locked workflow db)) λ root _.
      step (any (raise_if (not replan && ltb 0 root.plan_revision) conflict)) λ _ _.
        step
          (settle_plan_locked-SameCommands h authority workspace_root room to_spec uuid internal now
            workflow plan replan db)
          λ r same. returns _ same

  settle_plan-PlanRecorded :
      (db : Db)
      → Ensures (PlanRecorded key payload_hash) (
          settle_plan h authority workspace_root room to_spec uuid internal now command_id workflow
            plan replan
            (some (key, ok payload_hash))
            db)
  unfolding settle_plan settle_keyed
  settle_plan-PlanRecorded db = step (witnessed (key_check key)) λ _ k.
      elim (Option-cases (find_command key db.commands)) [
        | inl e ↦
            rw (e, settle_keyed)
              (step (settle_once-SameCommands db)
                λ r same. record_command-PlanRecorded r.0 r.1.0 r.1.1 k (rw same e))
        | inr (c, e) ↦ rw e (replay_plan-PlanRecorded key payload_hash c db k e)
      ]

-- A key that is recorded answers every later settlement under it, and changes nothing.
module _ (h : Host) (authority : ℕ → TaskDocument) (workspace_root : String) (room : ℕ)
    (to_spec : TaskDocument → Spec) (uuid internal : ℕ → ℕ) where
  settle_plan-replays :
      (key payload_hash hash : String) (now command_id workflow : ℕ) (plan : Json) (replan : Bool)
      (r : PlanReceipt) (db : Db)
      → PlanRecorded key payload_hash (r, db)
      → settle_plan h authority workspace_root room to_spec uuid internal now command_id workflow
          plan replan
          (some (key, ok hash))
          db
        ≡ (if str_eq payload_hash hash
            then ok (record r { duplicate = true }, db)
            else err conflict)
  unfolding settle_plan replay_plan
  settle_plan-replays key payload_hash hash now command_id workflow plan replan r db rec =
      let same = (eq_iff rec.command.payload_hash payload_hash).0 rec.digest in
      elim (Bool-cases (str_eq payload_hash hash)) [
        | inl e ↦ rw (rec.accepted_key, rec.found, same, e, rec.kept, ← rec.given) refl
        | inr e ↦ rw (rec.accepted_key, rec.found, same, e) refl
      ]

  -- Once settle_plan has returned a receipt for a key, every further settlement under that key leaves
  -- the store as it is: with the same digest it returns the same receipt, marked as a duplicate, and
  -- with another digest it is a conflict, whatever its workflow, plan and kind. So a plan whose request
  -- is repeated is settled once.
  pub settle_plan_again :
      (key payload_hash hash : String) (now command_id workflow now' command_id' workflow' : ℕ)
      (plan plan' : Json) (replan replan' : Bool) (db db' : Db) (r : PlanReceipt)
      → settle_plan h authority workspace_root room to_spec uuid internal now command_id workflow
          plan replan
          (some (key, ok payload_hash))
          db
        ≡ ok (r, db')
      → settle_plan h authority workspace_root room to_spec uuid internal now' command_id' workflow'
          plan' replan'
          (some (key, ok hash))
          db'
        ≡ (if str_eq payload_hash hash
            then ok (record r { duplicate = true }, db')
            else err conflict)
  settle_plan_again key payload_hash hash now command_id workflow now' command_id' workflow' plan
        plan' replan replan' db db' r settled =
      settle_plan-replays key payload_hash hash now' command_id' workflow' plan' replan' r db' (
        ensured (r, db')
          (settle_plan-PlanRecorded h authority workspace_root room to_spec uuid internal now
            command_id workflow plan replan key payload_hash db)
          settled)
