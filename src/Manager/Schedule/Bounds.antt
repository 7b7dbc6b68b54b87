-- ===== src/Manager/Schedule/Bounds.antt =====
-- The limits within which Manager.schedule of boring_agent/manager.py reserves attempts.
use boring_orch_agent.Base.{
  ℕ, ◌+◌, ◌≤◌, ◌≡◌, refl, sym, Bool, true, false, Option, none, some, List, [], ◌∷◌, ◌++◌, find,
  arith, if_split, Bool-cases, List-cases, ◌==◌, All, All-both, All-keep_if, All-sort_by, keep_if,
  sort_by, keep_if_passes, Distinct, Distinct-found, ◌&&◌, subst, is_none, not, inl, inr, ltb,
  count, count-append, count_single, count-Grows, one_if, max,
}
use boring_orch_agent.Schema.{
  Db, Config, Spec, Task, Worker, Attempt, ok, Post, Post-bind, Post-map, Post-both, Post_at,
  reserved_total, reserved_on, is_load_of, task_keyed, attempt_keyed, worker_keyed,
}
use boring_orch_agent.Artifacts.{Files}
use boring_orch_agent.Lifecycle.Change.{AttemptStep, Change}
use boring_orch_agent.Workflow.Admission.{claim_attempt_locked}
use boring_orch_agent.Workflow.Admission.Effects.{claim_attempt_locked-Affects}
use boring_orch_agent.Workflow.Delivery.{deliver_dependencies}
use boring_orch_agent.Workflow.Delivery.Effects.{Delivers, deliver_dependencies-Delivers}
use boring_orch_agent.Manager.Schedule.{
  new_attempt, insert_attempt, assign, blocks, place_on, place, feasible, is_feasible, choose,
}
use boring_orch_agent.Manager.Schedule.Effects.{insert_attempt-rows}

-- A kind of attempt that changes do not create, and whether it holds of a new one for a worker.
pub record Load : Type 0 where
  pub holds : Attempt → Bool
  pub back : (a b : Attempt) → AttemptStep true a b → holds b ≡ true → holds a ≡ true
  pub new : ℕ → Bool
  pub starts : (i t n w now : ℕ) → holds (new_attempt i t n w now) ≡ new w

unfoldable pub load : Load → Db → ℕ
load l db = count l.holds db.attempts

abbrev pub all_reserved : Load
all_reserved = record {
  holds = λ a. a.reserved;
  back = λ a b step. step.reserve;
  new = λ w. true;
  starts = λ i t n w now. refl;
}

and_true : (b : Bool) → (b && true) ≡ b
and_true true = refl
and_true false = refl

load_of-back :
    (w : ℕ) (a b : Attempt) → AttemptStep true a b → is_load_of w b ≡ true → is_load_of w a ≡ true
load_of-back w a b step h = ground (arith, step.worker_id, step.reserve, h)

-- The reservations of a worker.
abbrev load_of : ℕ → Load
load_of w = record {
  holds = is_load_of w;
  back = load_of-back w;
  new = λ v. v == w;
  starts = λ i t n v now. and_true (v == w);
}

-- Where no attempts are added, no load grows.
pub load-Change : (l : Load) (db d : Db) → Change true false db d → load l d ≤ load l db
unfolding load
load-Change l db d h =
    count-Grows (AttemptStep true) (λ _. false ≡ true) l.holds l.back (λ a e. cc e) db.attempts
      d.attempts h.1

abbrev pub adds : Load → Option Worker → ℕ
adds l none = 0
adds l (some w) = one_if (l.new w.id)

module _ (l : Load) (fs : Files) (uuid : ℕ → ℕ) (cfg : Config) (now : ℕ) where
  assign-load :
      (task : Task) (worker : Worker) (db : Db)
      → Post
          (λ d. load l d ≡ load l db + one_if (l.new worker.id))
          (assign fs uuid cfg now task worker db)
  unfolding assign load
  assign-load task worker db =
      let number = count (λ a. a.task_id == task.id) db.attempts + 1 in
      let a = new_attempt (uuid task.id) task.id number worker.id now in
      Post-bind
        (λ d.
          (d.tasks ≡ db.tasks) × (d.attempts ≡ db.attempts ++ a ∷ []) × (d.workers ≡ db.workers))
        (λ d. count l.holds d.attempts ≡ count l.holds db.attempts + one_if (l.new worker.id))
        (insert_attempt a db) _ (insert_attempt-rows a db)
        λ d _ same. rw (
          same.1,
          count-append l.holds db.attempts (a ∷ []),
          count_single l.holds a,
          l.starts (uuid task.id) task.id number worker.id now,
        )

  place_on-load :
      (task : Task) (worker : Worker) (db : Db)
      → Post
          (λ r. (load l r.1 ≤ load l db + adds l r.0) × ((w : Worker) → r.0 ≡ some w → w ≡ worker))
          (place_on fs uuid cfg now task worker db)
  unfolding place_on
  place_on-load task worker db =
      let Q = λ (r : Option Worker × Db).
        (load l r.1 ≤ load l db + adds l r.0) × ((w : Worker) → r.0 ≡ some w → w ≡ worker) in
      Post-bind (Delivers true false task.id db) Q (deliver_dependencies fs task.id now db) _
        (deliver_dependencies-Delivers true false fs task.id now db)
        λ r _ step₁.
          let le₁ = load-Change l db r.1 step₁.0.0 in
          if_split (Post Q) (blocks r.0) (λ _. (omega (arith, le₁), λ w e. cc e))
            λ _.
              Post-bind (λ c. load l c.1 ≤ load l r.1) Q (claim_attempt_locked task.id now r.1) _
                (Post-map _ _ (claim_attempt_locked task.id now r.1)
                  (λ c h. load-Change l r.1 c.1 h.0)
                  (claim_attempt_locked-Affects true false task.id now r.1))
                λ c _ le₂.
                  if_split (Post Q) c.0
                    (λ _.
                      Post-bind (λ d. load l d ≡ load l c.1 + one_if (l.new worker.id)) Q
                        (assign fs uuid cfg now task worker c.1) _ (assign-load task worker c.1)
                        λ d _ more. (omega (arith, le₁, le₂, more), λ w e. cc e))
                    (λ _. (omega (arith, le₁, le₂), λ w e. cc e))

-- What holds of all workers holds of the chosen one.
All-choose :
    (P : Worker → Type 0) (cursor : ℕ) (first : Worker) (ws : List Worker)
    → P first
    → All P ws
    → P (choose cursor first ws)
unfolding choose
All-choose P cursor first [] h hs = h
All-choose P cursor first (w ∷ ws) h hs =
    if_split P (ltb cursor w.id) (λ _. hs.0) (λ _. All-choose P cursor first ws h hs.1)

-- The worker is in the table, live, capable of the task and below its slots.
abbrev pub IsFeasible : Config → ℕ → Spec → Db → Worker → Type 0
IsFeasible cfg now spec db w =
    (find w.id db.workers ≡ some w) × (is_feasible cfg now spec db w ≡ true)

feasible-IsFeasible :
    (cfg : Config) (now : ℕ) (spec : Spec) (db : Db)
    → Distinct db.workers
    → All (IsFeasible cfg now spec db) (feasible cfg now spec db)
unfolding feasible
feasible-IsFeasible cfg now spec db d =
    let p = is_feasible cfg now spec db in
    let sorted = sort_by (λ (v w : Worker). ltb v.id w.id) db.workers in
    All-both (λ w. find w.id db.workers ≡ some w) (λ w. p w ≡ true) (keep_if p sorted)
      (All-keep_if (λ w. find w.id db.workers ≡ some w) p sorted
        (All-sort_by (λ w. find w.id db.workers ≡ some w) (λ v w. ltb v.id w.id) db.workers
          (Distinct-found db.workers d)))
      (keep_if_passes p sorted)

module _ (fs : Files) (uuid : ℕ → ℕ) (cfg : Config) (now : ℕ) where
  place-fits :
      (task : Task) (cursor : ℕ) (db : Db)
      → Distinct db.workers
      → Post
          (λ r.
            ((w : Worker) → r.0 ≡ some w → IsFeasible cfg now task.spec db w)
            × (reserved_total r.1 ≤ reserved_total db + one_if (not (is_none r.0))))
          (place fs uuid cfg now task cursor db)
  unfolding place load
  place-fits task cursor db d = elim (List-cases (feasible cfg now task.spec db)) [
    | inl e ↦ rw (e, place) (λ w h. cc h, omega arith)
    | inr (v, vs, e) ↦
        let fit =
          subst (All (IsFeasible cfg now task.spec db)) e
            (feasible-IsFeasible cfg now task.spec db d) in
        let good = All-choose (IsFeasible cfg now task.spec db) cursor v (v ∷ vs) fit.0 fit in
        rw (e, place)
          (Post-map _ _ (place_on fs uuid cfg now task (choose cursor v (v ∷ vs)) db)
            (λ r h. (
              λ w found. subst (IsFeasible cfg now task.spec db) (sym (h.1 w found)) good,
              at_most r.0 (load all_reserved r.1) (load all_reserved db) h.0,
            ))
            (place_on-load all_reserved fs uuid cfg now task (choose cursor v (v ∷ vs)) db))
  ]
    where
      at_most :
          (o : Option Worker) (a b : ℕ)
          → a ≤ b + adds all_reserved o
          → a ≤ b + one_if (not (is_none o))
      at_most none a b h = h
      at_most (some w) a b h = h

  -- A task that is placed goes to a worker that is registered, was seen within its time to live,
  -- has a slot left that is not reserved, runs the task's runtime and may give the sandbox that it
  -- asks for; and at most one attempt more is reserved than before. Worker ids are distinct.
  pub place-IsFeasible :
      (task : Task) (cursor : ℕ) (db d : Db) (w : Worker)
      → Distinct db.workers
      → place fs uuid cfg now task cursor db ≡ ok (some w, d)
      → IsFeasible cfg now task.spec db w × (reserved_total d ≤ reserved_total db + 1)
  place-IsFeasible task cursor db d w distinct done =
      let fits =
        Post_at
          (λ (r : Option Worker × Db).
            ((v : Worker) → r.0 ≡ some v → IsFeasible cfg now task.spec db v)
            × (reserved_total r.1 ≤ reserved_total db + one_if (not (is_none r.0))))
          _ (some w, d) (place-fits task cursor db distinct) done in
      (fits.0 w refl, fits.1)

  pub place-load :
      (l : Load) (task : Task) (cursor : ℕ) (db : Db)
      → Post (λ r. load l r.1 ≤ load l db + adds l r.0) (place fs uuid cfg now task cursor db)
  unfolding place
  place-load l task cursor db = elim (List-cases (feasible cfg now task.spec db)) [
    | inl e ↦ rw (e, place) (omega arith)
    | inr (v, vs, e) ↦
        rw (e, place)
          (Post-map _ _ (place_on fs uuid cfg now task (choose cursor v (v ∷ vs)) db) (λ r h. h.0)
            (place_on-load l fs uuid cfg now task (choose cursor v (v ∷ vs)) db))
  ]

  -- A placement leaves a worker's reservations as many, or within its slots.
  pub place-slots :
      (w : Worker) (task : Task) (cursor : ℕ) (db : Db)
      → Distinct db.workers
      → find w.id db.workers ≡ some w
      → Post
          (λ r. reserved_on w.id r.1 ≤ max (reserved_on w.id db) w.slots)
          (place fs uuid cfg now task cursor db)
  unfolding load
  place-slots w task cursor db d row =
      Post-map _ _ (place fs uuid cfg now task cursor db)
        (λ r h. within r.0 (reserved_on w.id r.1) h.0 h.1)
        (Post-both _ _ (place fs uuid cfg now task cursor db)
          (Post-map _ _ (place fs uuid cfg now task cursor db) (λ r h. h.0)
            (place-fits task cursor db d))
          (place-load (load_of w.id) task cursor db))
    where
      within :
          (o : Option Worker) (a : ℕ)
          → ((v : Worker) → o ≡ some v → IsFeasible cfg now task.spec db v)
          → a ≤ reserved_on w.id db + adds (load_of w.id) o
          → a ≤ max (reserved_on w.id db) w.slots
      within none a fits h = omega (arith, h)
      within (some v) a fits h = elim (Bool-cases (v.id == w.id)) [
        | inl same ↦
            let fit = fits v refl in
            let is : v.slots ≡ w.slots = ground (arith, same, fit.0, row) in
            ground (arith, fit.1, h, same)
        | inr other ↦ ground (arith, other, h)
      ]
