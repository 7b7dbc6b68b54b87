-- ===== src/Store/Retention/Complete.antt =====
-- The loop of Store.retain of boring_agent/store.py, followed to its end.
use boring_orch_agent.Base.{
  ℕ, zero, suc, ◌+◌, ◌≤◌, ◌≢◌, ◌⊎◌, ◌≡◌, refl, subst, true, Option, none, some, List, [], ◌∷◌, find,
  modify, keep_if, sort_by, insert_by, arith, not, ◌&&◌, is_none, if_split, and_true,
  Distinct-append, ◌==◌, Distinct, Distinct-modify, Distinct-keep_if, Distinct-found, All,
  All-sort_by, Option-cases, Bool-cases, inl, inr,
}
use boring_orch_agent.Schema.{Db, Task, Phase, task_keyed, Intent, intent_keyed}
use boring_orch_agent.Store.Retention.{
  advance, delete_task_dependents, next_intent, first, is_older, retain_each, plan_intents, work,
  weight, in_phase, is_retired, new_intent,
}

keep_if_absent :
    (k : ℕ) (xs : List Intent) → find k xs ≡ none → keep_if (λ j. not (j.task_id == k)) xs ≡ xs
unfolding find keep_if
keep_if_absent k [] h = refl
keep_if_absent k (x ∷ xs) h = ground (arith, keep_if_absent k xs, h)

work-delete :
    (k : ℕ) (xs : List Intent) (i : Intent)
    → Distinct xs
    → find k xs ≡ some i
    → work (keep_if (λ j. not (j.task_id == k)) xs) + weight i ≡ work xs
unfolding work find keep_if
work-delete k [] i d h = cc h
work-delete k (x ∷ xs) i d h = elim (Bool-cases (x.task_id == k)) [
  | inl hit ↦ let same = keep_if_absent k xs in ground (arith, hit, h, same, d.0)
  | inr miss ↦ ground (arith, miss, h, work-delete k xs i d.1)
]

work-modify :
    (k : ℕ) (p : Phase) (xs : List Intent) (i : Intent)
    → find k xs ≡ some i
    → work (modify k (in_phase p) xs) + weight i ≡ work xs + weight (in_phase p i)
unfolding work find modify
work-modify k p [] i h = cc h
work-modify k p (x ∷ xs) i h = elim (Bool-cases (x.task_id == k)) [
  | inl hit ↦ ground (arith, hit, h)
  | inr miss ↦ ground (arith, miss, h, work-modify k p xs i)
]

pub Phase-cases :
    (p : Phase)
    → (p ≡ Phase.dependents_phase) ⊎ ((p ≡ Phase.task_phase) ⊎ (p ≡ Phase.artifact_phase))
Phase-cases Phase.dependents_phase = inl refl
Phase-cases Phase.task_phase = inr (inl refl)
Phase-cases Phase.artifact_phase = inr (inr refl)

weight_pos : (i : Intent) → 1 ≤ weight i
weight_pos i = ground arith

pub work_nil : (xs : List Intent) → work xs ≡ 0 → xs ≡ []
unfolding work
work_nil [] h = refl
work_nil (x ∷ xs) h = let p = weight_pos x in absurd (omega (arith, h, p))

-- Each transaction of the loop does one phase of one intent.
pub advance-work :
    (i : Intent) (db : Db)
    → Distinct db.retention_intents
    → find i.task_id db.retention_intents ≡ some i
    → work (advance i db).1.retention_intents + 1 ≡ work db.retention_intents
unfolding advance delete_task_dependents
advance-work i db d h = elim (Phase-cases i.phase) [
  | inl e ↦
      let moved = work-modify i.task_id Phase.task_phase db.retention_intents i h in
      rw e (ground (arith, moved, e))
  | inr (inl e) ↦
      let moved = work-modify i.task_id Phase.artifact_phase db.retention_intents i h in
      rw e (ground (arith, moved, e))
  | inr (inr e) ↦
      let gone = work-delete i.task_id db.retention_intents i d h in rw e (ground (arith, gone, e))
]

pub advance-Distinct :
    (i : Intent) (db : Db)
    → Distinct db.retention_intents
    → Distinct (advance i db).1.retention_intents
unfolding advance delete_task_dependents
advance-Distinct i db d = elim (Phase-cases i.phase) [
  | inl e ↦
      rw e
        (Distinct-modify (in_phase Phase.task_phase) (λ _. refl) i.task_id db.retention_intents d)
  | inr (inl e) ↦
      rw e (
        Distinct-modify (in_phase Phase.artifact_phase) (λ _. refl) i.task_id db.retention_intents
          d)
  | inr (inr e) ↦ rw e (Distinct-keep_if (λ j. not (j.task_id == i.task_id)) db.retention_intents d)
]

first_All :
    (P : Intent → Type 0) (xs : List Intent) (i : Intent) → All P xs → first xs ≡ some i → P i
first_All P [] i h e = cc e
first_All P (x ∷ xs) i h e = subst P (ground (arith, e)) h.0

insert_by_cons : (x : Intent) (xs : List Intent) → first (insert_by is_older x xs) ≢ none
unfolding insert_by
insert_by_cons x [] e = cc e
insert_by_cons x (y ∷ ys) e = ground (arith, e)

first-sort_by-none : (xs : List Intent) → first (sort_by is_older xs) ≡ none → xs ≡ []
unfolding sort_by
first-sort_by-none [] h = refl
first-sort_by-none (x ∷ xs) h = absurd (insert_by_cons x (sort_by is_older xs) h)

pub next_intent-find :
    (db : Db) (i : Intent)
    → Distinct db.retention_intents
    → next_intent db ≡ some i
    → find i.task_id db.retention_intents ≡ some i
unfolding next_intent
next_intent-find db i d h =
    first_All (λ j. find j.task_id db.retention_intents ≡ some j)
      (sort_by is_older db.retention_intents) i
      (All-sort_by (λ j. find j.task_id db.retention_intents ≡ some j) is_older db.retention_intents
        (Distinct-found db.retention_intents d))
      h

pub next_intent-none : (db : Db) → next_intent db ≡ none → db.retention_intents ≡ []
unfolding next_intent
next_intent-none db h = first-sort_by-none db.retention_intents h

-- With as many transactions as there are phases left, no intent is left.
pub retain_each_complete :
    (fuel : ℕ) (db : Db)
    → Distinct db.retention_intents
    → work db.retention_intents ≡ fuel
    → (retain_each fuel none db).1.retention_intents ≡ []
unfolding retain_each
retain_each_complete zero db d h = work_nil db.retention_intents h
retain_each_complete (suc fuel) db d h = elim (Option-cases (next_intent db)) [
  | inl e ↦ rw (e, retain_each) (next_intent-none db e)
  | inr (i, e) ↦
      let found = next_intent-find db i d e in
      let less = advance-work i db d found in
      rw (e, retain_each)
        (retain_each_complete fuel (advance i db).1 (advance-Distinct i db d)
          (omega (arith, less, h)))
]

pub plan_intents-Distinct :
    (now : ℕ) (ts : List Task) (db : Db)
    → Distinct db.retention_intents
    → Distinct (plan_intents now ts db).retention_intents
unfolding plan_intents
plan_intents-Distinct now [] db d = d
plan_intents-Distinct now (t ∷ ts) db d = plan_intents-Distinct now ts _ (
    if_split (λ (e : Db). Distinct e.retention_intents)
      (is_retired now db t && is_none (find t.id db.retention_intents))
      (λ h.
        Distinct-append db.retention_intents (new_intent now db t)
          (is_none-none (find t.id db.retention_intents) (and_true _ _ h).1) d)
      (λ _. d))
  where
    is_none-none : (o : Option Intent) → is_none o ≡ true → o ≡ none
    is_none-none none h = refl
    is_none-none (some i) h = cc h
