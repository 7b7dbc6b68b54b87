-- ===== src/Tests/Workflow.antt =====
-- The budget of a small workflow.
use boring_orch_agent.Base.{◌+◌, ◌≡◌, ◌<◌, refl, true, false, some, find, modify}
use boring_orch_agent.Schema.{Db, WorkflowRoot, ok, root_keyed}
use boring_orch_agent.Workflow.Admission.{
  child_of, latest, root_locked, refusal, claim_attempt_locked, record_usage_locked, claim_root,
  spend, reaches, is_failed, update_root,
}
use boring_orch_agent.Workflow.Admission.Budget.{
  claim_attempt_locked-budget, record_usage_locked-budget, is_overdrawn,
}
use boring_orch_agent.Tests.Fixtures.{flow_root, flow_child, flow_store}

abbrev admitted : Db
admitted = update_root 50 (claim_root 20) flow_store

admits : claim_attempt_locked 1 20 flow_store ≡ ok (true, admitted)
unfolding claim_attempt_locked child_of latest root_locked refusal find modify
admits = refl

claim_attempt_locked-budget_example :
    (1 < 4)
    × (reaches 90 (some 100) ≡ false)
    × (is_failed flow_root.state ≡ false)
    × (find 50 admitted.workflow_roots
        ≡ some (record flow_root { attempts_used = 2; updated_at = 20 }))
unfolding child_of latest find
claim_attempt_locked-budget_example =
    claim_attempt_locked-budget 1 20 flow_store admitted flow_child flow_root refl refl admits

abbrev spent : Db
spent = update_root 50 (spend 15 20) flow_store

spends : record_usage_locked 1 15 20 flow_store ≡ ok spent
unfolding record_usage_locked child_of latest root_locked find modify
spends = refl

record_usage_locked-budget_example :
    (u : WorkflowRoot) × (find 50 spent.workflow_roots ≡ some u)
    × (u.tokens_used ≡ 90 + 15)
    × (is_overdrawn u ≡ false)
unfolding child_of latest find
record_usage_locked-budget_example =
    record_usage_locked-budget 1 15 20 flow_store spent flow_child flow_root refl refl spends
