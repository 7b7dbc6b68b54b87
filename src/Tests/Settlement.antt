-- ===== src/Tests/Settlement.antt =====
-- Plans for a small workflow: one that is accepted, and a replacement that is rejected.
use boring_orch_agent.Base.{
  ◌+◌, ◌≤◌, ◌<◌, ◌≡◌, refl, true, false, some, List, [], ◌∷◌, arith, All, find, keep_if,
}
use boring_orch_agent.Store.Commands.{find_command}
use boring_orch_agent.Workflow.Commands.{settle_plan, settle_once}
use boring_orch_agent.Workflow.Commands.Again.{settle_plan_again}
use boring_orch_agent.Schema.{
  Db, Spec, WorkflowRoot, PlanOutcome, PlanReceipt, ok, err, Result, root_keyed,
}
use boring_orch_agent.Document.Json.{Json, str, arr, obj, nil, cons, end, field}
use boring_orch_agent.Document.Task.{TaskDocument}
use boring_orch_agent.Document.Validate.{spec_of}
use boring_orch_agent.Lifecycle.Change.{Change}
use boring_orch_agent.Schema.{Post}
use boring_orch_agent.Workflow.Plan.Child.Narrower.{IsNarrower}
use boring_orch_agent.Workflow.Plan.Prepare.{Prepared, prepare_plan, still_allocated}
use boring_orch_agent.Workflow.Plan.Prepare.Allotted.{prepare_plan_within, new_tokens}
use boring_orch_agent.Workflow.Plan.Settlement.{settle_plan_locked, settle_planner}
use boring_orch_agent.Workflow.Plan.Settlement.Effects.{settle_planner-PlanLaw}
use boring_orch_agent.Workflow.Plan.Settlement.Rejected.{OnlyRecords, settle_plan_rejected}
use boring_orch_agent.Tests.Fixtures.{flow_root, flow_store, idle_store}
use boring_orch_agent.Tests.Documents.{plain_host, small_document}

abbrev one_child : Json
one_child = obj (
    field "children"
      (arr (cons (obj (field "id" (str "a") (field "objective" (str "Fetch") end))) nil)) end)

abbrev no_children : Json
no_children = obj (field "children" (arr nil) end)

abbrev plain_spec : TaskDocument → Spec
plain_spec = spec_of (λ x. 600) (λ j. "{}")

abbrev prepared_or_none : Result (List Prepared) → List Prepared
prepared_or_none (ok ps) = ps
prepared_or_none (err e) = []

abbrev one_prepared : List Prepared
unfolding prepare_plan keep_if find
one_prepared =
    prepared_or_none (
      prepare_plan plain_host small_document "/work" true flow_root flow_store [] 900 100 one_child)

one_accepted :
    prepare_plan plain_host small_document "/work" true flow_root flow_store [] 900 100 one_child
    ≡ ok one_prepared
unfolding prepare_plan keep_if find
one_accepted = refl

one_tokens : new_tokens one_prepared ≡ 10
unfolding prepare_plan keep_if find
one_tokens = refl

prepare_plan_within_example :
    (90 + still_allocated flow_store [] + new_tokens one_prepared ≤ 100)
    × (1 < 4)
    × All (λ p. IsNarrower small_document p.task) one_prepared
prepare_plan_within_example =
    prepare_plan_within plain_host small_document "/work" true flow_root flow_store [] 900 100
      one_child one_prepared 100 one_accepted refl

-- The manager settles a plan of a workflow that has no plan yet.
abbrev unplanned_root : WorkflowRoot
unplanned_root = record flow_root { plan_revision = 0 }

abbrev new_store : Db
new_store = record flow_store {
  workflow_roots = unplanned_root ∷ [];
  settings = record idle_store.settings { allow_write = true };
}

settle_planner-PlanLaw_example : Post (Change true true new_store) (
    settle_planner plain_host
      (λ k. small_document)
      "/work"
      900
      plain_spec
      (λ i. 200 + i)
      (λ i. 300 + i)
      20
      (λ text. one_child)
      50
      "{}"
      new_store)
settle_planner-PlanLaw_example =
    settle_planner-PlanLaw true true plain_host (λ k. small_document) "/work" 900 plain_spec
      (λ i. 200 + i) (λ i. 300 + i) (λ text. one_child) 50 "{}" 20 new_store

abbrev outcome : Result (PlanOutcome × Db) → PlanOutcome
outcome (ok r) = r.0
outcome (err e) = PlanOutcome.rejected 0

abbrev after : Db → Result (PlanOutcome × Db) → Db
after db (ok r) = r.1
after db (err e) = db

settles :
    outcome (
      settle_plan_locked plain_host
        (λ k. small_document)
        "/work"
        900
        plain_spec
        (λ i. 200 + i)
        (λ i. 300 + i)
        20
        50
        one_child
        false
        new_store)
    ≡ PlanOutcome.accepted 1 (200 ∷ [])
unfolding settle_plan_locked find keep_if
settles = refl

-- A replacement without children.
abbrev recorded : Db
unfolding settle_plan_locked find keep_if
recorded = after flow_store (
    settle_plan_locked plain_host (λ k. small_document) "/work" 900 plain_spec (λ i. 200 + i)
      (λ i. 300 + i) 20 50 no_children true flow_store)

replaced :
    settle_plan_locked plain_host
      (λ k. small_document)
      "/work"
      900
      plain_spec
      (λ i. 200 + i)
      (λ i. 300 + i)
      20
      50
      no_children
      true
      flow_store
    ≡ ok (PlanOutcome.rejected 2, recorded)
unfolding settle_plan_locked find keep_if
replaced = refl

settle_plan_rejected_example : OnlyRecords flow_root 2 flow_store recorded
unfolding find
settle_plan_rejected_example =
    settle_plan_rejected plain_host (λ k. small_document) "/work" 900 plain_spec (λ i. 200 + i)
      (λ i. 300 + i) 20 flow_root (omega arith) 50 no_children true flow_store recorded 2 refl
      replaced

-- The same plan twice under a key.
abbrev first_receipt : PlanReceipt
first_receipt = record {
  outcome = PlanOutcome.accepted 1 (200 ∷ []);
  command_id = some 500;
  duplicate = false;
}

abbrev after_plan : Db → Result (PlanReceipt × Db) → Db
after_plan db (ok r) = r.1
after_plan db (err e) = db

abbrev planned : Db
unfolding settle_plan settle_once settle_plan_locked find keep_if find_command
planned = after_plan new_store (
    settle_plan plain_host (λ k. small_document) "/work" 900 plain_spec (λ i. 200 + i)
      (λ i. 300 + i) 20 500 50 one_child false (some ("key", ok "digest")) new_store)

first_run :
    settle_plan plain_host
      (λ k. small_document)
      "/work"
      900
      plain_spec
      (λ i. 200 + i)
      (λ i. 300 + i)
      20
      500
      50
      one_child
      false
      (some ("key", ok "digest"))
      new_store
    ≡ ok (first_receipt, planned)
unfolding settle_plan settle_once settle_plan_locked find keep_if find_command
first_run = refl

settle_plan_again_example :
    settle_plan plain_host
      (λ k. small_document)
      "/work"
      900
      plain_spec
      (λ i. 200 + i)
      (λ i. 300 + i)
      30
      501
      50
      one_child
      false
      (some ("key", ok "digest"))
      planned
    ≡ ok (record first_receipt { duplicate = true }, planned)
settle_plan_again_example =
    settle_plan_again plain_host (λ k. small_document) "/work" 900 plain_spec (λ i. 200 + i)
      (λ i. 300 + i) "key" "digest" "digest" 20 500 50 30 501 50 one_child one_child false false
      new_store planned first_receipt first_run
