-- ===== src/Manager/Schedule/Limits.antt =====
-- The limits of the installation and of each worker, over the whole loop of Manager.schedule.
use boring_orch_agent.Base.{
  ℕ, ◌+◌, ◌≤◌, ◌≡◌, refl, sym, ◌∙◌, subst, true, false, Option, none, some, List, [], ◌∷◌, find,
  arith, Bool-cases, All, Distinct, inl, inr, leb, max,
}
use boring_orch_agent.Schema.{
  Db, Config, Task, Worker, Result, ok, err, Post, Post-bind, Post-map, Post-both, Post_at,
  reserved_total, reserved_on, task_keyed, worker_keyed,
}
use boring_orch_agent.Artifacts.{Files}
use boring_orch_agent.Lifecycle.Change.{Affects, Holds, Holds-IsOpen, Holds-elsewhere, IsOpen}
use boring_orch_agent.Manager.Schedule.{place, schedule_each, schedule, due_tasks}
use boring_orch_agent.Manager.Schedule.Effects.{place-Affects, due_tasks-Holds, due_tasks-Distinct}
use boring_orch_agent.Manager.Schedule.Bounds.{load, adds, all_reserved, place-load, place-slots}

abbrev placed : Option Worker → ℕ
placed none = 0
placed (some w) = 1

module _ (fs : Files) (uuid : ℕ → ℕ) (cfg : Config) (now : ℕ) where
  -- What every placement keeps, with the count of reservations in hand, the loop keeps.
  schedule_each_rule :
      (I : ℕ → Db → Type 0)
      → ((task : Task) (used cursor : ℕ) (db : Db)
          → IsOpen task.id db
          → leb cfg.max_active used ≡ false
          → I used db
          → Post (λ r. I (used + placed r.0) r.1) (place fs uuid cfg now task cursor db))
      → (ts : List Task) (used cursor : ℕ) (db : Db) → All (λ t. Holds t db) ts
      → Distinct ts
      → I used db
      → Post (λ r. (u : ℕ) × I u r.1) (schedule_each fs uuid cfg now ts used cursor db)
  unfolding schedule_each
  schedule_each_rule I keeps [] used cursor db h d i = (used, i)
  schedule_each_rule I keeps (task ∷ rest) used cursor db h d i =
      elim (Bool-cases (leb cfg.max_active used)) [
        | inl e ↦ rw (e, schedule_each) (used, i)
        | inr e ↦
            rw (e, schedule_each)
              (after (λ u c db' all. schedule_each_rule I keeps rest u c db' all d.1)
                (place fs uuid cfg now task cursor db)
                (Post-both _ _ (place fs uuid cfg now task cursor db)
                  (place-Affects true fs uuid cfg now task cursor db (Holds-IsOpen h.0))
                  (keeps task used cursor db (Holds-IsOpen h.0) e i)))
      ]
    where
      after :
          ((u c : ℕ) (db' : Db)
            → All (λ t. Holds t db') rest
            → I u db'
            → Post (λ r. (n : ℕ) × I n r.1) (schedule_each fs uuid cfg now rest u c db'))
          → (p : Result (Option Worker × Db))
          → Post (λ r. Affects true true task.id db r.1 × I (used + placed r.0) r.1) p
          → Post
              (λ r. (n : ℕ) × I n r.1)
              (elim p [
                | err e ↦ err e
                | ok (none, db') ↦ schedule_each fs uuid cfg now rest used cursor db'
                | ok (some w, db') ↦ schedule_each fs uuid cfg now rest (used + 1) w.id db'
              ])
      after next (err e) s = tt
      after next (ok (none, db')) s =
          next used cursor db' (Holds-elsewhere task.id db db' rest d.0 s.0.1 h.1)
            (subst (λ n. I n db') (omega arith) s.1)
      after next (ok (some w, db')) s =
          next (used + 1) w.id db' (Holds-elsewhere task.id db db' rest d.0 s.0.1 h.1) s.1

  schedule_rule :
      (I : ℕ → Db → Type 0)
      → ((task : Task) (used cursor : ℕ) (db : Db)
          → IsOpen task.id db
          → leb cfg.max_active used ≡ false
          → I used db
          → Post (λ r. I (used + placed r.0) r.1) (place fs uuid cfg now task cursor db))
      → (db : Db) → Distinct db.tasks
      → I (reserved_total db) db
      → Post
          (λ r. (u : ℕ) × I u r.1)
          (schedule_each fs uuid cfg now
            (due_tasks now db.tasks)
            (reserved_total db)
            cfg.last_worker
            db)
  schedule_rule I keeps db d i =
      schedule_each_rule I keeps (due_tasks now db.tasks) (reserved_total db) cfg.last_worker db
        (due_tasks-Holds now db d) (due_tasks-Distinct now db d) i

  pub schedule-total :
      (db : Db)
      → Distinct db.tasks
      → Post
          (λ d. reserved_total d ≤ max (reserved_total db) cfg.max_active)
          (schedule fs uuid cfg now db)
  unfolding schedule load
  schedule-total db d =
      let I = λ (used : ℕ) (e : Db).
        (reserved_total e ≤ used) × (used ≤ max (reserved_total db) cfg.max_active) in
      Post-bind (λ r. (u : ℕ) × I u r.1)
        (λ e. reserved_total e ≤ max (reserved_total db) cfg.max_active)
        (schedule_each fs uuid cfg now (due_tasks now db.tasks) (reserved_total db) cfg.last_worker
          db)
        _
        (schedule_rule I
          (λ task used cursor e o room i.
            Post-map _ _ (place fs uuid cfg now task cursor e)
              (λ r. within used r.0 (reserved_total r.1) (reserved_total e) room i)
              (place-load fs uuid cfg now all_reserved task cursor e))
          db d (omega arith, omega arith))
        λ r _ h. omega (arith, h.1.0, h.1.1)
    where
      within :
          (used : ℕ) (o : Option Worker) (a b : ℕ)
          → leb cfg.max_active used ≡ false
          → (b ≤ used) × (used ≤ max (reserved_total db) cfg.max_active)
          → a ≤ b + adds all_reserved o
          → (a ≤ used + placed o) × (used + placed o ≤ max (reserved_total db) cfg.max_active)
      within used none a b room i h = (omega (arith, i.0, h), omega (arith, i.1))
      within used (some w) a b room i h = (omega (arith, i.0, h), ground (arith, room))

  schedule-loads :
      (db : Db) (w : Worker)
      → Distinct db.tasks
      → Distinct db.workers
      → find w.id db.workers ≡ some w
      → Post
          (λ d. reserved_on w.id d ≤ max (reserved_on w.id db) w.slots)
          (schedule fs uuid cfg now db)
  unfolding schedule
  schedule-loads db w d dw row =
      let I = λ (used : ℕ) (e : Db).
        (e.workers ≡ db.workers) × (reserved_on w.id e ≤ max (reserved_on w.id db) w.slots) in
      Post-bind (λ r. (u : ℕ) × I u r.1)
        (λ e. reserved_on w.id e ≤ max (reserved_on w.id db) w.slots)
        (schedule_each fs uuid cfg now (due_tasks now db.tasks) (reserved_total db) cfg.last_worker
          db)
        _
        (schedule_rule I
          (λ task used cursor e o room i.
            Post-map _ _ (place fs uuid cfg now task cursor e)
              (λ r h. (h.0.2 ∙ i.0, omega (arith, h.1, i.1)))
              (Post-both _ _ (place fs uuid cfg now task cursor e)
                (place-Affects true fs uuid cfg now task cursor e o)
                (place-slots fs uuid cfg now w task cursor e
                  (subst (λ ws. Distinct ws) (sym i.0) dw)
                  (subst (λ ws. find w.id ws ≡ some w) (sym i.0) row))))
          db d (refl, omega arith))
        λ r _ h. h.1.1

  -- The installation's limit: scheduling leaves at most `max_active` attempts reserved, or as many
  -- as there were already. Task ids are distinct.
  pub schedule-max_active :
      (db d : Db)
      → Distinct db.tasks
      → schedule fs uuid cfg now db ≡ ok d
      → reserved_total d ≤ max (reserved_total db) cfg.max_active
  schedule-max_active db d distinct done =
      Post_at (λ e. reserved_total e ≤ max (reserved_total db) cfg.max_active) _ d
        (schedule-total db distinct) done

  -- The limit of a worker: scheduling leaves at most its `slots` attempts reserved on it, or as many
  -- as there were already. Task ids and worker ids are distinct.
  pub schedule-slots :
      (db d : Db) (w : Worker)
      → Distinct db.tasks
      → Distinct db.workers
      → find w.id db.workers ≡ some w
      → schedule fs uuid cfg now db ≡ ok d
      → reserved_on w.id d ≤ max (reserved_on w.id db) w.slots
  schedule-slots db d w distinct distinct_workers row done =
      Post_at (λ e. reserved_on w.id e ≤ max (reserved_on w.id db) w.slots) _ d
        (schedule-loads db w distinct distinct_workers row) done
