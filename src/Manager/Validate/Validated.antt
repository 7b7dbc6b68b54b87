-- ===== src/Manager/Validate/Validated.antt =====
-- What a task that Manager._validate_and_settle of boring_agent/manager.py lets succeed has shown.
use boring_orch_agent.Base.{
  ℕ, ◌≡◌, ◌≢◌, ap, refl, sym, subst, ◌∙◌, str_eq, String, Bool, true, false, Option, none, some,
  find, arith, if_split, if◌then◌else◌, not, ◌||◌, ◌&&◌, Bool-cases, Option-cases, inl, inr, opt_eq,
  key-find,
}
use boring_orch_agent.Schema.{
  Db, Task, Attempt, Action, Status, Spec, Result, ok, err, AgentError, Post, require_task, bind_ok,
  Result-cases, is_terminal, wants_cancel, executions, task_keyed, attempt_keyed,
}
use boring_orch_agent.Artifacts.{
  File, Files, ResultVerdict, is_path, artifact_checksum, read_result, prevalidate_result,
  error_text,
}
use boring_orch_agent.Artifacts.Reads.{IsIntact, read_result-IsIntact, artifact_checksum-IsIntact}
use boring_orch_agent.Lifecycle.Change.{Change}
use boring_orch_agent.Manager.Settle.{PlanSettler, settle, refuses, truthy}
use boring_orch_agent.Manager.Settle.Outcomes.{
  Outcome, stopped, succeeds, not_started, retried, fails, settle-Outcome,
}
use boring_orch_agent.Manager.Validate.{
  first_verdict, recheck, verdict_of, with_error, is_open, is_success, same_action, is_stale,
  settle_checked, settle_current, settle_verdict, validate_and_settle,
}

-- Its content, when first read, satisfied the schema; its bytes, when read again, are those recorded.
pub record IsValidated (early late : Files) (a : Attempt) (spec : Spec) : Type 0 where
  pub first : File
  pub again : File
  pub intact : IsIntact early a spec first
  pub value : String
  pub content : first.strict ≡ some value
  pub conforms : early.conforms spec.output_schema value ≡ true
  pub unchanged : IsIntact late a spec again

first_verdict-none :
    (early : Files) (a : Attempt) (spec : Spec) (desired : Action)
    → (first_verdict early a spec desired).error ≡ none
    → (value : String) × (read_result early a spec ≡ ok value)
unfolding first_verdict prevalidate_result
first_verdict-none early a spec desired h =
    elim (Result-cases (prevalidate_result early a spec desired)) [
      | inl (v, e) ↦
          let (value, read, _) = bind_ok (read_result early a spec) _ v e in (value, read)
      | inr (x, e) ↦ absurd (ground (arith, e, h))
    ]

first_verdict-fields :
    (early : Files) (a : Attempt) (spec : Spec) (desired : Action)
    → let v = first_verdict early a spec desired in
      (v.result_sha256 ≡ a.result_sha256) × (v.desired_action ≡ desired)
unfolding first_verdict prevalidate_result
first_verdict-fields early a spec desired = ground arith

recheck-none :
    (r : Result String) (v : ResultVerdict)
    → (recheck r v).error ≡ none
    → (checksum : String) × (r ≡ ok checksum)
      × (is_path v.result_sha256 checksum ≡ true)
      × (v.error ≡ none)
unfolding recheck
recheck-none (err e) v h = cc h
recheck-none (ok checksum) v h = elim (Bool-cases (is_path v.result_sha256 checksum)) [
  | inl e ↦ (checksum, refl, e, ground (arith, e, h))
  | inr e ↦ absurd (ground (arith, e, h))
]

verdict_of-none :
    (early late : Files) (task : Task) (a : Attempt) (spec : Spec)
    → (verdict_of early late task a spec).error ≡ none
    → wants_cancel task.desired_action ≡ false
    → (value : String) × (read_result early a spec ≡ ok value)
      × (checksum : String) × (artifact_checksum late a spec ≡ ok checksum)
      × (is_path a.result_sha256 checksum ≡ true)
unfolding verdict_of
verdict_of-none early late task a spec h runs =
    let v = first_verdict early a spec task.desired_action in
    let fields = first_verdict-fields early a spec task.desired_action in
    elim (Option-cases v.error) [
      | inl e ↦
          let r : (recheck (artifact_checksum late a spec) v).error ≡ none =
            ground (arith, h, e, runs) in
          let (checksum, read, same, _) = recheck-none (artifact_checksum late a spec) v r in
          let (value, first) = first_verdict-none early a spec task.desired_action e in
          (value, first, checksum, read, subst (λ o. is_path o checksum ≡ true) fields.0 same)
      | inr (m, e) ↦ absurd (ground (arith, h, e))
    ]

verdict_of-desired :
    (early late : Files) (task : Task) (a : Attempt) (spec : Spec)
    → (verdict_of early late task a spec).desired_action ≡ task.desired_action
unfolding verdict_of recheck
verdict_of-desired early late task a spec =
    let fields = first_verdict-fields early a spec task.desired_action in ground (arith, fields.1)

error_text-truthy : (e : AgentError) → str_eq (error_text e) "" ≡ false
error_text-truthy AgentError.gone = refl
error_text-truthy _ = refl

-- No error of a verdict is the empty text.
first_verdict-truthy :
    (early : Files) (a : Attempt) (spec : Spec) (desired : Action)
    → let v = first_verdict early a spec desired in truthy v.error ≡ v.error
unfolding first_verdict prevalidate_result
first_verdict-truthy early a spec desired = elim (Result-cases (read_result early a spec)) [
  | inl (value, e) ↦ ground (arith, e)
  | inr (x, e) ↦ let named = error_text-truthy x in ground (arith, e, named)
]

recheck-truthy :
    (r : Result String) (v : ResultVerdict)
    → truthy v.error ≡ v.error
    → truthy (recheck r v).error ≡ (recheck r v).error
unfolding recheck
recheck-truthy (err e) v h = let named = error_text-truthy e in ground (arith, named)
recheck-truthy (ok checksum) v h = ground (arith, h)

verdict_of-truthy :
    (early late : Files) (task : Task) (a : Attempt) (spec : Spec)
    → let v = verdict_of early late task a spec in truthy v.error ≡ v.error
unfolding verdict_of
verdict_of-truthy early late task a spec =
    let v = first_verdict early a spec task.desired_action in
    let named = first_verdict-truthy early a spec task.desired_action in
    if_split (λ (w : ResultVerdict). truthy w.error ≡ w.error)
      (is_open v && not (wants_cancel task.desired_action))
      (λ _. recheck-truthy (artifact_checksum late a spec) v named) (λ _. named)

-- A verdict without error, for a task that is to run, has validated the artifact twice.
pub verdict_of-IsValidated :
    (early late : Files) (task : Task) (a : Attempt) (spec : Spec)
    → (verdict_of early late task a spec).error ≡ none
    → wants_cancel task.desired_action ≡ false
    → IsValidated early late a spec
verdict_of-IsValidated early late task a spec h runs =
    let (value, first, checksum, again, same) = verdict_of-none early late task a spec h runs in
    let (f, intact, content, conforms) = read_result-IsIntact early a spec value first in
    let (g, unchanged) = artifact_checksum-IsIntact late a spec checksum again same in
    record {
      first = f;
      again = g;
      intact = intact;
      value = value;
      content = content;
      conforms = conforms;
      unchanged = unchanged;
    }

module _ (fs : Files) (settle_plan : PlanSettler) (now : ℕ)
    (law : (root : ℕ) (plan : String) (at : ℕ) (d : Db)
      → Post (λ d'. Change true true d d') (settle_plan root plan at d)) where
  -- A task that is open before and succeeded after settling has an attempt settled with no error.
  settle-no_error :
      (task : Task) (a : Attempt) (verdict : Option ResultVerdict) (db d : Db) (u : Task)
      → find task.id db.tasks ≡ some task
      → find a.id db.attempts ≡ some a
      → settle task a task.spec now fs settle_plan verdict db ≡ ok d
      → find task.id d.tasks ≡ some u
      → u.status ≡ Status.succeeded
      → (refuses verdict ≡ none) × (wants_cancel task.desired_action ≡ false)
  settle-no_error task a verdict db d u row held done found won =
      let (v, there, outcome) =
        settle-Outcome task a task.spec now verdict task fs settle_plan law db d row held done in
      let same : u ≡ v = ground (arith, there, found) in
      won_cases v outcome (subst (λ w. w.status ≡ Status.succeeded) same won)
    where
      won_cases :
          (v : Task)
          → Outcome task a task.spec now (executions task.id db) verdict task v
          → v.status ≡ Status.succeeded
          → (refuses verdict ≡ none) × (wants_cancel task.desired_action ≡ false)
      won_cases v (stopped w e) p = absurd (ground (arith, e, p))
      won_cases v (succeeds w s r e) p = (r, w)
      won_cases v (not_started w k e) p = absurd (ground (arith, e, p))
      won_cases v (retried kind message w k failure may e) p = absurd (ground (arith, e, p))
      won_cases v (fails kind message w k failure may e) p = absurd (ground (arith, e, p))

  with_error-refuses :
      (b : Bool) (v : ResultVerdict) (m : String)
      → str_eq m "" ≡ false
      → refuses (some (if b then with_error v m else v)) ≡ none
      → truthy v.error ≡ none
  with_error-refuses true v m e h = ground (arith, e, h)
  with_error-refuses false v m e h = h

  same_action-wants : (x y : Action) → same_action x y ≡ true → wants_cancel x ≡ wants_cancel y
  same_action-wants x y h = ground (arith, h)

  -- The same of the transaction that applies a verdict.
  settle_current-no_error :
      (task : Task) (found_attempt : Option Attempt) (v : ResultVerdict) (db d : Db) (u : Task)
      → find task.id db.tasks ≡ some task
      → ((a : Attempt) → found_attempt ≡ some a → find a.id db.attempts ≡ some a)
      → is_terminal task.status ≡ false
      → settle_current fs settle_plan now task found_attempt v db ≡ ok d
      → find task.id d.tasks ≡ some u
      → u.status ≡ Status.succeeded
      → (truthy v.error ≡ none) × (wants_cancel v.desired_action ≡ false)
  unfolding settle_current settle_checked
  settle_current-no_error task none v db d u row there live done found won =
      absurd (ground (arith, done, row, found, won, live))
  settle_current-no_error task (some a) v db d u row there live done found won =
      let unchanged : db ≢ d = λ e. absurd (
        ground (arith, subst (λ c. find task.id c.tasks ≡ some u) (sym e) found, row, won, live)) in
      elim (Bool-cases (not (opt_eq task.current_attempt_id a.id))) [
        | inl e ↦ absurd (unchanged (ground (arith, done, e)))
        | inr e₁ ↦
            elim (Bool-cases (not (is_success a.state) || a.settled || is_terminal task.status)) [
              | inl e ↦ absurd (unchanged (ground (arith, done, e₁, e)))
              | inr e₂ ↦ elim (Bool-cases (same_action task.desired_action v.desired_action)) [
                | inl e ↦
                    let verdict = some (
                      if is_stale fs a task.spec v
                      then with_error v "Pre-validated result is stale"
                      else v) in
                    let run : settle task a task.spec now fs settle_plan verdict db ≡ ok d =
                      ground (arith, done, e₁, e₂, e) in
                    let (fine, runs) =
                      settle-no_error task a verdict db d u row (there a refl) run found won in
                    (
                      with_error-refuses (is_stale fs a task.spec v) v
                          "Pre-validated result is stale" refl fine,
                      sym (same_action-wants task.desired_action v.desired_action e) ∙ runs,
                    )
                | inr e ↦ elim (Bool-cases (wants_cancel task.desired_action)) [
                  | inl c ↦
                      let run : settle task a task.spec now fs settle_plan none db ≡ ok d =
                        ground (arith, done, e₁, e₂, e, c) in
                      let (fine, _) =
                        settle-no_error task a none db d u row (there a refl) run found won in
                      cc fine
                  | inr c ↦ absurd (unchanged (ground (arith, done, e₁, e₂, e, c)))
                ]
              ]
            ]
      ]

-- A task that is open when the result of its attempt is validated and settled, and has succeeded
-- afterwards, has a validated result: at the first read the artifact was within the size limit of
-- the specification, had the recorded checksum, and its content satisfied the output schema; at the
-- second read it was again within the limit with the recorded checksum. The plan settlement is
-- assumed to keep task rows as an operation may.
pub validate_and_settle-IsValidated :
    (early late : Files) (settle_plan : PlanSettler) (now : ℕ)
    (law : (root : ℕ) (plan : String) (at : ℕ) (d : Db)
      → Post (λ d'. Change true true d d') (settle_plan root plan at d))
    (task t u : Task) (a : Attempt) (spec : Spec) (db d : Db)
    → find task.id db.tasks ≡ some t
    → is_terminal t.status ≡ false
    → validate_and_settle early late settle_plan now task a spec db ≡ ok d
    → find task.id d.tasks ≡ some u
    → u.status ≡ Status.succeeded
    → IsValidated early late a spec
unfolding validate_and_settle settle_verdict require_task
validate_and_settle-IsValidated early late settle_plan now law task t u a spec db d row live done
      found won =
    let v = verdict_of early late task a spec in
    let id = key-find task.id db.tasks t row in
    let run : settle_current late settle_plan now t (find a.id db.attempts) v db ≡ ok d =
      ground (arith, done, row) in
    let (fine, runs) =
      settle_current-no_error late settle_plan now law t (find a.id db.attempts) v db d u
        (subst (λ k. find k db.tasks ≡ some t) (sym id) row)
        (λ b e. subst (λ k. find k db.attempts ≡ some b) (sym (key-find a.id db.attempts b e)) e)
        live run (subst (λ k. find k d.tasks ≡ some u) (sym id) found) won in
    verdict_of-IsValidated early late task a spec
      (sym (verdict_of-truthy early late task a spec) ∙ fine)
      (ap wants_cancel (sym (verdict_of-desired early late task a spec)) ∙ runs)
