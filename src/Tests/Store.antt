-- ===== src/Tests/Store.antt =====
-- Requests, observations and claims at the small installation.
use boring_orch_agent.Base.{◌≡◌, refl, true, false, some, find, modify, str_eq, if◌then◌else◌}
use boring_orch_agent.Schema.{
  Db, AttemptState, Result, ok, err, conflict, require_task, task_keyed, attempt_keyed,
}
use boring_orch_agent.Store.Commands.{
  Receipt, submit, cancel, find_command, key_check, insert_task, insert_command, cancel_task,
  replay,
}
use boring_orch_agent.Store.Commands.Replay.{submit_again, cancel_again}
use boring_orch_agent.Store.Observations.{Data}
use boring_orch_agent.Base.{none, ◌≤◌, ◌<◌, ◌⊎◌}
use boring_orch_agent.Store.Observations.{
  observe, allowed, account, merge, is_rejected, apply_observation,
}
use boring_orch_agent.Store.Observations.Accepted.{Accepted, observe-Accepted, merge-covers}
use boring_orch_agent.Runner.Claim.{claim, is_capable, is_permitted, offers}
use boring_orch_agent.Runner.Claim.Once.{Claimed, claim-Claimed}
use boring_orch_agent.Tests.Fixtures.{
  demo_spec, running_attempt, idle_store, queued_store, active_store, no_data,
}

-- The store after a computation that returns.
abbrev after {ℓ} : {A : Type ℓ} → Db → Result (A × Db) → Db
after db (ok (a, d)) = d
after db (err e) = db

abbrev submitted : Db
submitted = after idle_store (submit "k" "h" 12 500 2 (ok demo_spec) idle_store)

abbrev first_receipt : Receipt
first_receipt = record { command_id = 500; task_id = 2; accepted_at = 12; duplicate = false }

submits : submit "k" "h" 12 500 2 (ok demo_spec) idle_store ≡ ok (first_receipt, submitted)
unfolding submit find find_command key_check insert_task insert_command replay
submits = refl

submit_again_example : submit "k" "other" 13 501 3 (ok demo_spec) submitted ≡ (
    if str_eq "h" "other"
    then ok (record first_receipt { duplicate = true }, submitted)
    else err conflict)
submit_again_example =
    submit_again "k" "h" "other" 12 500 2 13 501 3 (ok demo_spec) (ok demo_spec) idle_store
      submitted first_receipt submits

abbrev cancelled_store : Db
cancelled_store = after idle_store (cancel "c" "h" 12 500 1 idle_store)

abbrev cancel_receipt : Receipt
cancel_receipt = record { command_id = 500; task_id = 1; accepted_at = 12; duplicate = false }

cancels : cancel "c" "h" 12 500 1 idle_store ≡ ok (cancel_receipt, cancelled_store)
unfolding cancel find modify find_command key_check insert_command replay require_task cancel_task
cancels = refl

cancel_again_example : cancel "c" "h" 13 501 1 cancelled_store ≡ (
    if str_eq "h" "h"
    then ok (record cancel_receipt { duplicate = true }, cancelled_store)
    else err conflict)
cancel_again_example =
    cancel_again "c" "h" "h" 12 500 1 13 501 1 idle_store cancelled_store cancel_receipt cancels

abbrev pub observed : Db
observed = after active_store (observe 7 4 3 AttemptState.running no_data 15 active_store)

pub observes : observe 7 4 3 AttemptState.running no_data 15 active_store ≡ ok (true, observed)
unfolding observe find modify require_task is_rejected allowed apply_observation merge account
observes = refl

observe-Accepted_example : Accepted 7 4 3 AttemptState.running no_data 15 active_store observed
observe-Accepted_example =
    observe-Accepted 7 3 AttemptState.running no_data 15 4 active_store observed observes

-- The total of 10 contradicts the known usage of 12.
abbrev contradicting : Data
contradicting = record no_data { tokens = some (some 10); known_tokens = some 12 }

merge-covers_example :
    let b =
      merge 3 AttemptState.running (account running_attempt contradicting) 15 running_attempt in
    (b.known_tokens ≡ 12)
    × (((b.tokens ≡ some 10) × (b.known_tokens ≤ 10)) ⊎ ((b.tokens ≡ none) × (10 < b.known_tokens)))
merge-covers_example =
    merge-covers 3 AttemptState.running contradicting 15 running_attempt 10 refl refl

abbrev pub claimed_store : Db
claimed_store = after queued_store (claim 900 15 7 4 (some "boot:1") queued_store)

pub runner_claims : claim 900 15 7 4 (some "boot:1") queued_store ≡ ok (true, claimed_store)
unfolding claim find modify require_task is_permitted is_capable offers
runner_claims = refl

claim-Claimed_example : Claimed 900 15 7 4 queued_store claimed_store
claim-Claimed_example =
    claim-Claimed 900 15 7 4 (some "boot:1") queued_store claimed_store runner_claims
