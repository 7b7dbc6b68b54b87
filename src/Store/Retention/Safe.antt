-- ===== src/Store/Retention/Safe.antt =====
-- The tasks that Store.retain of boring_agent/store.py deletes and those that it leaves.
use boring_orch_agent.Base.{
  ℕ, zero, suc, ◌≡◌, ◌≢◌, ◌<◌, ◌+◌, refl, subst, ◌∙◌, Bool, true, false, Option, none, some, List,
  [], ◌∷◌, ◌++◌, find, keep_if, arith, not, ◌&&◌, ◌==◌, ap, All-map, Distinct-found, is_none,
  Bool-cases, Option-cases, inl, inr, Occurs, Distinct, All, find-append_none, find-modify-none,
  find-keep_if-none,
}
use boring_orch_agent.Schema.{
  Db, Task, Status, WorkflowChild, WorkflowRoot, Phase, Intent, task_keyed, intent_keyed,
}
use boring_orch_agent.Store.Retention.{
  advance, delete_task_dependents, next_intent, retain_each, retain, plan_intents, is_retired,
  new_intent, in_phase, stops, work, names_child, names_planner,
}
use boring_orch_agent.Store.Retention.Complete.{
  next_intent-find, advance-Distinct, plan_intents-Distinct, Phase-cases,
}

find-keep_if_ne :
    (k j : ℕ) (ts : List Task) → k ≢ j → find k (keep_if (λ t. not (t.id == j)) ts) ≡ find k ts
unfolding find keep_if
find-keep_if_ne k j [] h = refl
find-keep_if_ne k j (t ∷ ts) h = ground (arith, h, find-keep_if_ne k j ts h)

-- A transaction for another task leaves the task alone.
advance-row :
    (k : ℕ) (i : Intent) (db : Db) → k ≢ i.task_id → find k (advance i db).1.tasks ≡ find k db.tasks
unfolding advance delete_task_dependents
advance-row k i db h = elim (Phase-cases i.phase) [
  | inl e ↦ rw e refl
  | inr (inl e) ↦ rw e (find-keep_if_ne k i.task_id db.tasks h)
  | inr (inr e) ↦ rw e refl
]

advance-absent :
    (k : ℕ) (i : Intent) (db : Db)
    → find k db.retention_intents ≡ none
    → find k (advance i db).1.retention_intents ≡ none
unfolding advance delete_task_dependents
advance-absent k i db h = elim (Phase-cases i.phase) [
  | inl e ↦
      rw e (
        find-modify-none (in_phase Phase.task_phase) (λ _. refl) i.task_id k db.retention_intents h)
  | inr (inl e) ↦ rw e (
      find-modify-none (in_phase Phase.artifact_phase) (λ _. refl) i.task_id k db.retention_intents
        h)
  | inr (inr e) ↦
      rw e (find-keep_if-none (λ j. not (j.task_id == i.task_id)) k db.retention_intents h)
]

retain_each-row :
    (k fuel : ℕ) (stop_after : Option Phase) (db : Db)
    → Distinct db.retention_intents
    → find k db.retention_intents ≡ none
    → find k (retain_each fuel stop_after db).1.tasks ≡ find k db.tasks
unfolding retain_each
retain_each-row k zero stop_after db d h = refl
retain_each-row k (suc fuel) stop_after db d h = elim (Option-cases (next_intent db)) [
  | inl e ↦ rw (e, retain_each) refl
  | inr (i, e) ↦
      let found = next_intent-find db i d e in
      let same =
        advance-row k i db (λ p. cc (subst (λ j. find j db.retention_intents ≡ none) p h, found)) in
      elim (Bool-cases (stops stop_after i.phase)) [
        | inl s ↦ rw (e, s, retain_each) same
        | inr s ↦
            rw (e, s, retain_each)
              (retain_each-row k fuel stop_after (advance i db).1 (advance-Distinct i db d)
                  (advance-absent k i db h)
                ∙ same)
      ]
]

not_both : (a b c : Bool) → (a && b) ≡ false → (b && c) ≡ true → a ≡ false
not_both a b c h e = ground (arith, h, e)

plan_intents-absent :
    (k now : ℕ) (ts : List Task) (db : Db)
    → All (λ t. ((t.id == k) && is_retired now db t) ≡ false) ts
    → find k db.retention_intents ≡ none
    → (find k (plan_intents now ts db).retention_intents ≡ none)
      × ((plan_intents now ts db).tasks ≡ db.tasks)
unfolding plan_intents is_retired find
plan_intents-absent k now [] db h n = (n, refl)
plan_intents-absent k now (t ∷ ts) db h n =
    elim (Bool-cases (is_retired now db t && is_none (find t.id db.retention_intents))) [
      | inl e ↦
          let other =
            not_both (t.id == k) (is_retired now db t) (is_none (find t.id db.retention_intents))
              h.0 e in
          let single : find k (new_intent now db t ∷ []) ≡ none = ground (arith, other) in
          let added =
            find-append_none k db.retention_intents (new_intent now db t ∷ []) n ∙ single in
          rw (e, plan_intents)
            (plan_intents-absent k now ts
              (record db { retention_intents = db.retention_intents ++ new_intent now db t ∷ [] })
              h.1 added)
      | inr e ↦ rw (e, plan_intents) (plan_intents-absent k now ts db h.1 n)
    ]

retired_only :
    (k now : ℕ) (db : Db) (t : Task)
    → Distinct db.tasks
    → find k db.tasks ≡ some t
    → is_retired now db t ≡ false
    → All (λ s. ((s.id == k) && is_retired now db s) ≡ false) db.tasks
retired_only k now db t d h keep =
    All-map (λ s. find s.id db.tasks ≡ some s) (λ s. ((s.id == k) && is_retired now db s) ≡ false)
      (λ s e. elim (Bool-cases (s.id == k)) [
        | inl same ↦ let is : s ≡ t = ground (arith, same, e, h) in ground (arith, same, is, keep)
        | inr other ↦ rw other refl
      ])
      db.tasks (Distinct-found db.tasks d)

-- A reason not to delete a task: it has not ended, or is not recorded as ended, or ended within the
-- retention time, or is the task of a child of a workflow, or the planner of one.
pub data Stays (now : ℕ) (db : Db) (t : Task) : Type 0 where
  unfinished :
      t.status ≢ Status.succeeded
      → t.status ≢ Status.failed
      → t.status ≢ Status.cancelled
      → Stays now db t
  untimed : t.finished_at ≡ none → Stays now db t
  recent :
      (f : ℕ) → t.finished_at ≡ some f → now < f + db.settings.retention_seconds → Stays now db t
  is_child : (c : WorkflowChild) → Occurs c db.workflow_children → c.task_id ≡ t.id → Stays now db t
  is_planner :
      (r : WorkflowRoot) → Occurs r db.workflow_roots → r.planner_task_id ≡ t.id → Stays now db t

names_child-Occurs :
    (k : ℕ) (c : WorkflowChild) (cs : List WorkflowChild)
    → Occurs c cs
    → c.task_id ≡ k
    → names_child k cs ≡ true
unfolding names_child
names_child-Occurs k c [] m e = absurd m
names_child-Occurs k c (d ∷ cs) (inl same) e =
    let f : d.task_id ≡ k = rw same at e in ground (arith, f)
names_child-Occurs k c (d ∷ cs) (inr m) e = ground (arith, names_child-Occurs k c cs m e)

names_planner-Occurs :
    (k : ℕ) (r : WorkflowRoot) (rs : List WorkflowRoot)
    → Occurs r rs
    → r.planner_task_id ≡ k
    → names_planner k rs ≡ true
unfolding names_planner
names_planner-Occurs k r [] m e = absurd m
names_planner-Occurs k r (s ∷ rs) (inl same) e =
    let f : s.planner_task_id ≡ k = rw same at e in ground (arith, f)
names_planner-Occurs k r (s ∷ rs) (inr m) e = ground (arith, names_planner-Occurs k r rs m e)

not_retired : (now : ℕ) (db : Db) (t : Task) → Stays now db t → is_retired now db t ≡ false
unfolding is_retired
not_retired now db t (unfinished a b c) = ground (arith, a, b, c)
not_retired now db t (untimed e) = ground (arith, e)
not_retired now db t (recent f e later) = ground (arith, e, later)
not_retired now db t (is_child c m e) =
    let n = names_child-Occurs t.id c db.workflow_children m e in ground (arith, n)
not_retired now db t (is_planner r m e) =
    let n = names_planner-Occurs t.id r db.workflow_roots m e in ground (arith, n)

-- Retention leaves a task in the store, as it is, that has a reason to stay (`Stays`): it has not ended,
-- or within the retention time, or is a child or the planner of a workflow. It does so unless the task's
-- deletion was begun earlier, and whether it is interrupted or not. Task ids are distinct, and so are the tasks of the intents.
pub retain-row :
    (k now : ℕ) (stop_after : Option Phase) (db : Db) (t : Task)
    → Distinct db.tasks
    → Distinct db.retention_intents
    → find k db.tasks ≡ some t
    → Stays now db t
    → find k db.retention_intents ≡ none
    → find k (retain now stop_after db).1.tasks ≡ some t
unfolding retain
retain-row k now stop_after db t d di h keep free =
    let planned = plan_intents now db.tasks db in
    let (absent, same) =
      plan_intents-absent k now db.tasks db
        (retired_only k now db t d h (not_retired now db t keep)) free in
    retain_each-row k (work planned.retention_intents) stop_after planned
      (plan_intents-Distinct now db.tasks db di) absent
    ∙ ap (λ ts. find k ts) same
    ∙ h
