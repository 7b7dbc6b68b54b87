-- ===== src/Lifecycle/Preserved.antt =====
-- What the operations of a history may do to the rows of tasks and attempts.
use boring_orch_agent.Base.{ℕ, ◌≡◌, refl, Bool, true, List, Distinct, arith}
use boring_orch_agent.Schema.{Db, Result, ok, err, committed, Post, task_keyed, Runtime}
use boring_orch_agent.Store.Workers.{register_worker, heartbeat_worker}
use boring_orch_agent.Store.Commands.{submit, cancel}
use boring_orch_agent.Store.Commands.Effects.{submit-Change, cancel-Change}
use boring_orch_agent.Store.Observations.{observe, resolve}
use boring_orch_agent.Store.Observations.Effects.{observe-Change, resolve-Change}
use boring_orch_agent.Runner.Claim.{claim}
use boring_orch_agent.Runner.Claim.Effects.{claim-Change}
use boring_orch_agent.Manager.Settle.{PlanSettler}
use boring_orch_agent.Manager.Tick.{tick}
use boring_orch_agent.Manager.Tick.Effects.{tick-Change}
use boring_orch_agent.Manager.Validate.{settle_verdict}
use boring_orch_agent.Manager.Validate.Effects.{PlanLaw, settle_verdict-Change}
use boring_orch_agent.Lifecycle.Change.{Change, Change-refl}
use boring_orch_agent.Lifecycle.History.{
  Op, submits, cancels, registers, heartbeats, claims, observes, resolves, ticks, settles,
  is_manual, is_tick, perform, plain,
}

-- What holds of a returned store, and of the old one, holds of what is committed.
pub committed-Post {ℓ} :
    {A : Type ℓ} (P : Db → Type 0) (db : Db) (r : Result (A × Db))
    → P db
    → Post (λ x. P x.1) r
    → P (committed db r)
committed-Post P db (ok (a, d)) old new = new
committed-Post P db (err e) old new = old

registers-rows :
    (worker len : ℕ) (runtimes : List Runtime) (slots : ℕ) (write : Bool) (now pid : ℕ) (db : Db)
    → let r = register_worker worker len runtimes slots write now pid db in
      ((committed db r).tasks ≡ db.tasks) × ((committed db r).attempts ≡ db.attempts)
unfolding register_worker
registers-rows worker len runtimes slots write now pid db = ground arith

module _ (manual grows : Bool) where
  heartbeats-Change :
      (worker now : ℕ) (db : Db) → Change manual grows db (heartbeat_worker worker now db)
  unfolding heartbeat_worker
  heartbeats-Change worker now db = Change-refl manual grows db

  registers-Change :
      (worker len : ℕ) (runtimes : List Runtime) (slots : ℕ) (write : Bool) (now pid : ℕ) (db : Db)
      → Change manual grows db
          (committed db (register_worker worker len runtimes slots write now pid db))
  registers-Change worker len runtimes slots write now pid db =
      let same = registers-rows worker len runtimes slots write now pid db in
      rw (same.0, same.1) (Change-refl manual grows db)

  plain-Post :
      (db : Db) (r : Result Db)
      → Post (λ d. Change manual grows db d) r
      → Post (λ q. Change manual grows db q.1) (plain r)
  plain-Post db (ok d) h = h
  plain-Post db (err e) h = tt

-- What an operation may do, where only resolutions are manual and only ticks add attempts.
module _ (settle_plan : PlanSettler) (law : (m g : Bool) → PlanLaw m g settle_plan) where
  pub step-Change :
      (op : Op) (manual grows : Bool) (db : Db)
      → (is_manual op ≡ true → manual ≡ true)
      → (is_tick op ≡ true → grows ≡ true)
      → Distinct db.tasks
      → Change manual grows db (perform settle_plan op db)
  unfolding perform
  step-Change (submits key hash now command task validated) m g db hm hg d =
      committed-Post (λ e. Change m g db e) db (submit key hash now command task validated db)
        (Change-refl m g db) (submit-Change m g key hash now command task validated db)
  step-Change (cancels key hash now command task) m g db hm hg d =
      committed-Post (λ e. Change m g db e) db (cancel key hash now command task db)
        (Change-refl m g db) (cancel-Change m g key hash now command task db)
  step-Change (registers worker len runtimes slots write now pid) m g db hm hg d =
      registers-Change m g worker len runtimes slots write now pid db
  step-Change (heartbeats worker now) m g db hm hg d = heartbeats-Change m g worker now db
  step-Change (claims pid now attempt worker start) m g db hm hg d =
      committed-Post (λ e. Change m g db e) db (claim pid now attempt worker start db)
        (Change-refl m g db) (claim-Change m g pid now attempt worker start db)
  step-Change (observes attempt worker sequence state d now) m g db hm hg _ =
      committed-Post (λ e. Change m g db e) db (observe attempt worker sequence state d now db)
        (Change-refl m g db) (observe-Change m g attempt sequence state d now worker db)
  step-Change (resolves attempt blank message confirmed now) m g db hm hg d = rw (hm refl) (
      committed-Post (λ e. Change true g db e) db (resolve attempt blank message confirmed now db)
        (Change-refl true g db) (resolve-Change g attempt blank message confirmed now db))
  step-Change (ticks identity fs uuid now) m g db hm hg d = rw (hg refl) (
      committed-Post (λ e. Change m true db e) db (tick identity fs settle_plan uuid now db)
        (Change-refl m true db) (tick-Change m identity fs settle_plan uuid now db d))
  step-Change (settles fs now task attempt verdict) m g db hm hg d =
      committed-Post (λ e. Change m g db e) db
        (plain (settle_verdict fs settle_plan now task attempt verdict db)) (Change-refl m g db)
        (plain-Post m g db _
          (settle_verdict-Change m g fs settle_plan now (law m g) task attempt verdict db))
