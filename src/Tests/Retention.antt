-- ===== src/Tests/Retention.antt =====
-- Retention at the small installation.
use boring_orch_agent.Base.{◌≡◌, refl, none, some, [], find, modify}
use boring_orch_agent.Schema.{Phase, task_keyed, intent_keyed}
use boring_orch_agent.Store.Retention.{retain}
use boring_orch_agent.Store.Retention.Safe.{untimed, retain-row}
use boring_orch_agent.Tests.Fixtures.{waiting_task, done_store, idle_store}

retain-row_example :
    find 1 (retain 2000 (some Phase.task_phase) idle_store).1.tasks ≡ some waiting_task
unfolding find
retain-row_example =
    retain-row 1 2000 (some Phase.task_phase) idle_store waiting_task (refl, tt) tt refl
      (untimed refl) refl

-- A task that ended long ago is deleted.
deletes : (retain 2000 none done_store).1.tasks ≡ []
unfolding retain find modify
deletes = refl
