-- ===== src/Store/Retention/Deleted.antt =====
-- What Store.retain of boring_agent/store.py deletes, when it is not interrupted.
use boring_orch_agent.Base.{
  ℕ, ◌+◌, ◌≤◌, ◌≢◌, ◌≡◌, true, false, none, some, find, ◌==◌, is_none, is_none, All,
}
use boring_orch_agent.Schema.{Db, Task, Phase, Intent, is_terminal, task_keyed, intent_keyed}

-- Neither the task nor an attempt of it is in the store.
abbrev pub IsDeleted : ℕ → Db → Type 0
IsDeleted k db = (find k db.tasks ≡ none) × All (λ a. (a.task_id == k) ≡ false) db.attempts

-- What has to be deleted: a task whose deletion was begun and has not come to its artifacts, or one that
-- ended at least the retention time ago and that no child and no root of a workflow names.
pub data IsCondemned (now : ℕ) (db : Db) (k : ℕ) : Type 0 where
  begun :
      (i : Intent)
      → find k db.retention_intents ≡ some i
      → i.phase ≢ Phase.artifact_phase
      → IsCondemned now db k
  expired :
      (t : Task) (f : ℕ)
      → find k db.retention_intents ≡ none
      → find k db.tasks ≡ some t
      → is_terminal t.status ≡ true
      → t.finished_at ≡ some f
      → f + db.settings.retention_seconds ≤ now
      → All (λ c. c.task_id ≢ k) db.workflow_children
      → All (λ r. r.planner_task_id ≢ k) db.workflow_roots
      → IsCondemned now db k
