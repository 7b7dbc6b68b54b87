-- ===== src/Lifecycle/History.antt =====
-- Histories: any sequence of the operations of the store, the manager and the runners, each a
-- transaction of its own. An operation that raises leaves the store as it was. The deletion of old
-- tasks (retain) and the commands on workflows and sessions are not among them.
use boring_orch_agent.Base.{ℕ, String, Bool, true, false, Option, List, [], ◌∷◌}
use boring_orch_agent.Schema.{
  Db, AttemptState, Runtime, Spec, Result, ok, committed, ◌>>=◌, task_keyed,
}
use boring_orch_agent.Artifacts.{Files, ResultVerdict}
use boring_orch_agent.Store.Commands.{submit, cancel}
use boring_orch_agent.Store.Observations.{Data, observe, resolve}
use boring_orch_agent.Store.Workers.{register_worker, heartbeat_worker}
use boring_orch_agent.Runner.Claim.{claim}
use boring_orch_agent.Manager.Settle.{PlanSettler}
use boring_orch_agent.Manager.Tick.{tick}
use boring_orch_agent.Manager.Validate.{settle_verdict}

pub data Op : Type 0 where
  submits : String → String → ℕ → ℕ → ℕ → Result Spec → Op
  cancels : String → String → ℕ → ℕ → ℕ → Op
  registers : ℕ → ℕ → List Runtime → ℕ → Bool → ℕ → ℕ → Op
  heartbeats : ℕ → ℕ → Op
  claims : ℕ → ℕ → ℕ → ℕ → Option String → Op
  observes : ℕ → ℕ → ℕ → AttemptState → Data → ℕ → Op
  resolves : ℕ → Bool → String → Bool → ℕ → Op
  ticks : (ℕ → Option String) → Files → (ℕ → ℕ) → ℕ → Op
  settles : Files → ℕ → ℕ → ℕ → ResultVerdict → Op

-- Only the operator's operation may end an attempt of unknown outcome.
abbrev pub is_manual : Op → Bool
is_manual (resolves _ _ _ _ _) = true
is_manual _ = false

-- Only the manager's tick adds attempts.
abbrev pub is_tick : Op → Bool
is_tick (ticks _ _ _ _) = true
is_tick _ = false

abbrev pub plain : Result Db → Result (Unit {0} × Db)
plain r = do db ← r; ok (tt, db)

module _ (settle_plan : PlanSettler) where
  unfoldable pub perform : Op → Db → Db
  perform (submits key hash now command task validated) db =
      committed db (submit key hash now command task validated db)
  perform (cancels key hash now command task) db =
      committed db (cancel key hash now command task db)
  perform (registers worker len runtimes slots write now pid) db =
      committed db (register_worker worker len runtimes slots write now pid db)
  perform (heartbeats worker now) db = heartbeat_worker worker now db
  perform (claims pid now attempt worker start) db =
      committed db (claim pid now attempt worker start db)
  perform (observes attempt worker sequence state d now) db =
      committed db (observe attempt worker sequence state d now db)
  perform (resolves attempt blank message confirmed now) db =
      committed db (resolve attempt blank message confirmed now db)
  perform (ticks identity fs uuid now) db = committed db (tick identity fs settle_plan uuid now db)
  perform (settles fs now task attempt verdict) db =
      committed db (plain (settle_verdict fs settle_plan now task attempt verdict db))

  unfoldable pub run : List Op → Db → Db
  run [] db = db
  run (op ∷ ops) db = run ops (perform op db)
