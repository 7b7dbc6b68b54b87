-- ===== src/Lib.antt =====
-- Verification of boring_agent, an orchestrator that runs tasks for agents on the workers of one
-- machine. Its state is a SQLite store. Clients submit and cancel tasks, workers register and claim
-- attempts, runners report observations, an operator may resolve an attempt, and a manager polls:
-- it enforces deadlines, reconciles attempts with what their processes do, settles attempts that
-- have ended and schedules tasks that are due. Each of these is one transaction.
--
-- What models which part (paths from the repository's root):
-- - Schema, Schema.Rows, Schema.Errors: the tables of boring_agent/store.py (SCHEMA) as lists of
--   rows, the statuses and exceptions of boring_agent/model.py. A statement `UPDATE … WHERE id=?` is
--   `modify`, a transaction is a function from a store to a result with a new store, and a raised
--   exception (`err`) leaves the store as it was (`committed`).
-- - Store.Commands: Store.submit and Store.cancel; Store.Observations: Store.observe and
--   Store.resolve; Store.Workers: register_worker, heartbeat_worker and capacity;
--   Store.Retention: retain.
-- - Document: boring_agent/model.py. Json has values and their fields, Text and Checks the tests of
--   texts and numbers, Mentions, Coddy and Parts the parts of a task, Task and Validate
--   validate_spec, NativeJob validate_native_job.
-- - Artifacts: _artifact_data, artifact_checksum, read_result and prevalidate_result of
--   boring_agent/artifacts.py.
-- - Runner.Claim: the transaction at the head of run_attempt in boring_agent/runner.py.
-- - Workflow.Admission and Workflow.Delivery: claim_attempt_locked, record_usage_locked and
--   _deliver_dependencies_locked of boring_agent/workflows.py.
-- - Workflow.Plan: the plans of boring_agent/workflows.py. Entries has PLAN_SCHEMA, Graph and Shape
--   _validate_plan_shape, Merge and Narrow _narrow_coddy, Child _child_spec, Prepare what
--   _settle_plan_locked decides and Settlement what it then writes. Workflow.Commands has
--   settle_plan; Workflow.Planner and Workflow.Create have create.
-- - Manager.Settle (finish, settle), Manager.Schedule (schedule), Manager.Tick (tick) and
--   Manager.Validate (_validate_and_settle) of boring_agent/manager.py; `alive` of
--   boring_agent/process.py is in Manager.Tick.
-- - Lifecycle.History: histories, sequences of these operations, but for retain, in any order
--   and with any arguments; Lifecycle.Change says what an operation may do to the rows of tasks and attempts,
--   and the modules called Effects show it of each component.
-- - Base holds what the parts share: tables addressed by keys, how their rows may change (`Grows`),
--   filtering and sorting. Tests evaluates the theorems on a small installation.
--
-- How the model stands to the code:
-- - Identifiers are natural numbers in the order of the texts that they stand for. Times are natural
--   numbers of one unit; a transaction reads the clock once, where the code may read it twice within
--   one transaction. Ids drawn by uuid4, process identities of /proc and the digest of a request are
--   arguments. Store.submit takes the outcome of validate_spec as one; Document.Validate.spec_of says
--   which columns of a task the store reads from a document.
-- - A JSON number is an integer or an integer divided by a power of two, as a Python float is; a
--   bound such as 0.1 is compared exactly. The JSON printer, the schema validator, the resolution of
--   paths and pathlib are the record `Host`. Objects are lists of fields.
-- - The file system, hashing, JSON and the schema validator are the record `Files`; the two reads of
--   an artifact in _validate_and_settle take two of them, since the files may change in between.
-- - The settlement of a workflow's plan is the parameter `PlanSettler` of the manager, and theorems that
--   need it assume `PlanLaw`: it adds tasks and changes rows only as `Change` allows.
--   Workflow.Plan.Settlement gives the settler of the source. It takes the root's authority as an
--   argument, since no statement of the source changes that column, and holds neither the output of
--   a carried child nor the count of iterations.
-- - The search for cycles in a plan nests one call for each node of a path; `room` is the number of
--   calls that Python's stack has left. Where they do not suffice, a RecursionError makes the plan invalid.
-- - Events carry their kinds and ids without details; messages of validation errors are carried by
--   the kind of the error, and two messages of failed dependencies are shortened.
-- - A backoff is `backoff_seconds * 2 ^ (executed - 1)` with the subtraction of the naturals: an
--   attempt that is not a confirmed non-start settles there, so `executed` is at least 1.
-- - Loops are recursion on the list of rows that they run over. The loop of retain runs on fuel, the
--   number of phases that the intents have before them; each of its transactions does one.
--
-- Not modelled: the parsing of JSON text, the views of workflows, expire_artifacts and migrations,
-- the runner's control loop, providers, the ACP client, sessions, discovery, the HTTP API, the
-- command line, process locks and the repository's tools.
pub mod Base
pub mod Schema
pub mod Store
pub mod Artifacts
pub mod Runner
pub mod Workflow
pub mod Manager
pub mod Lifecycle
pub mod Document
pub mod Tests
