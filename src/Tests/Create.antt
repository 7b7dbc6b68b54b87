-- ===== src/Tests/Create.antt =====
-- A workflow that is created from a small document.
use boring_orch_agent.Base.{◌≡◌, refl, true, false, find}
use boring_orch_agent.Schema.{Db, Spec, ok, err, Result}
use boring_orch_agent.Store.Commands.{find_command}
use boring_orch_agent.Document.Json.{Json, obj, field, end}
use boring_orch_agent.Document.Task.{TaskDocument}
use boring_orch_agent.Document.Validate.{spec_of}
use boring_orch_agent.Workflow.Create.{WorkflowReceipt, create}
use boring_orch_agent.Workflow.Create.Fresh.{IsCreated, create_read_only}
use boring_orch_agent.Tests.Fixtures.{idle_store}
use boring_orch_agent.Tests.Documents.{plain_host, small_fields}

abbrev workflow_value : Json
workflow_value = obj (field "workflow" (obj end) small_fields)

abbrev plain_spec : TaskDocument → Spec
plain_spec = spec_of (λ x. 600) (λ j. "{}")

abbrev writing_store : Db
writing_store = record idle_store { settings = record idle_store.settings { allow_write = true } }

abbrev after : Result (WorkflowReceipt × Db) → Db
after (ok r) = r.1
after (err e) = writing_store

abbrev created_store : Db
unfolding create find_command find
created_store = after (
    create plain_spec "key" "digest" 20 400 401 402 plain_host "/work" workflow_value writing_store)

abbrev created : WorkflowReceipt
created = record { command_id = 402; task_id = 401; workflow_id = 400; duplicate = false }

creates :
    create plain_spec "key" "digest" 20 400 401 402 plain_host "/work" workflow_value writing_store
    ≡ ok (created, created_store)
unfolding create find_command find
creates = refl

create_read_only_example :
    IsCreated (λ x. 600) (λ j. "{}") 20 plain_host "/work" workflow_value true created created_store
create_read_only_example =
    create_read_only (λ x. 600) (λ j. "{}") 20 plain_host "/work" workflow_value "key" "digest" 400
      401 402 writing_store created_store created creates refl
