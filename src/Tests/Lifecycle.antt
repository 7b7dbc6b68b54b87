-- ===== src/Tests/Lifecycle.antt =====
-- Histories of the small installation.
use boring_orch_agent.Base.{
  ◌≡◌, ◌≤◌, ◌⊎◌, refl, true, false, some, List, [], ◌∷◌, find, max, Distinct,
}
use boring_orch_agent.Schema.{
  Task, Attempt, AttemptState, is_final, reserved_total, task_keyed, attempt_keyed,
}
use boring_orch_agent.Lifecycle.History.{Op, ticks, cancels, heartbeats, perform, run}
use boring_orch_agent.Lifecycle.Outcomes.{
  terminal_frozen, contract_kept, settled_stays, reservation_held, unknown_held, counters_grow,
}
use boring_orch_agent.Runner.Claim.{claim}
use boring_orch_agent.Schema.{ok}
use boring_orch_agent.Base.{arith}
use boring_orch_agent.Store.Observations.{observe}
use boring_orch_agent.Lifecycle.Once.{claim_once, observe_once}
use boring_orch_agent.Tests.Fixtures.{queued_store, no_data}
use boring_orch_agent.Tests.Store.{claimed_store, runner_claims, observed, observes}
use boring_orch_agent.Lifecycle.Capacity.{perform-max_active}
use boring_orch_agent.Tests.Fixtures.{
  waiting_task, active_task, done_task, running_attempt, unknown_attempt, settled_attempt,
  idle_store, active_store, unknown_store, done_store, files, no_plans, no_plans-PlanLaw, nobody,
  fresh_id,
}

abbrev a_tick : Op
a_tick = ticks nobody files fresh_id 20

abbrev a_history : List Op
a_history = cancels "k" "h" 21 500 1 ∷ heartbeats 4 22 ∷ a_tick ∷ []

one_task : (t : Task) → Distinct (t ∷ [])
unfolding find
one_task t = (refl, tt)

terminal_frozen_example : find 1 (run no_plans a_history done_store).tasks ≡ some done_task
unfolding find
terminal_frozen_example =
    terminal_frozen no_plans no_plans-PlanLaw a_history done_store 1 done_task (one_task done_task)
      refl refl

contract_kept_example :
    (u : Task) × (find 1 (run no_plans a_history idle_store).tasks ≡ some u)
    × (u.spec ≡ waiting_task.spec)
    × (u.submitted_at ≡ 10)
    × (u.deadline ≡ 110)
    × (1 ≤ u.version)
unfolding find
contract_kept_example =
    contract_kept no_plans no_plans-PlanLaw a_history idle_store 1 waiting_task
      (one_task waiting_task) refl

settled_stays_example :
    (b : Attempt) × (find 7 (run no_plans a_history done_store).attempts ≡ some b)
    × (b.state ≡ AttemptState.succeeded)
    × (b.reserved ≡ false)
    × (b.settled ≡ true)
unfolding find
settled_stays_example =
    settled_stays no_plans no_plans-PlanLaw a_history done_store 7 settled_attempt
      (one_task done_task) refl refl refl refl

reservation_held_example :
    (b : Attempt) × (find 7 (run no_plans a_history active_store).attempts ≡ some b)
    × ((b.reserved ≡ true) ⊎ (is_final b.state ≡ true))
unfolding find
reservation_held_example =
    reservation_held no_plans no_plans-PlanLaw a_history active_store 7 running_attempt
      (one_task active_task) refl refl

unknown_held_example :
    (b : Attempt) × (find 7 (run no_plans a_history unknown_store).attempts ≡ some b)
    × (b.state ≡ AttemptState.unknown)
    × (b.reserved ≡ true)
unfolding find
unknown_held_example =
    unknown_held no_plans no_plans-PlanLaw a_history unknown_store 7 unknown_attempt
      (refl, (refl, (refl, tt))) (one_task active_task) refl refl refl

counters_grow_example :
    (b : Attempt) × (find 7 (run no_plans a_history active_store).attempts ≡ some b)
    × (2 ≤ b.sequence)
    × (5 ≤ b.known_tokens)
    × (b.task_id ≡ 1)
    × (b.worker_id ≡ 4)
unfolding find
counters_grow_example =
    counters_grow no_plans no_plans-PlanLaw a_history active_store 7 running_attempt
      (one_task active_task) refl

perform-max_active_example :
    reserved_total (perform no_plans a_tick idle_store) ≤ max (reserved_total idle_store) 2
perform-max_active_example =
    perform-max_active no_plans no_plans-PlanLaw a_tick idle_store (one_task waiting_task)

claim_once_example :
    claim 901 30 7 4 (some "boot:2") (run no_plans a_history claimed_store)
    ≡ ok (false, run no_plans a_history claimed_store)
unfolding find
claim_once_example =
    claim_once no_plans no_plans-PlanLaw 900 15 7 4 901 30 4 (some "boot:1") (some "boot:2")
      a_history queued_store claimed_store (refl, tt) runner_claims

observe_once_example :
    observe 7 9 2 AttemptState.failed no_data 30 (run no_plans a_history observed)
    ≡ ok (false, run no_plans a_history observed)
unfolding find
observe_once_example =
    observe_once no_plans no_plans-PlanLaw 7 4 3 9 2 AttemptState.running AttemptState.failed
      no_data no_data 15 30 a_history active_store observed (refl, tt) observes (omega arith)
