-- ===== src/Lifecycle/Change.antt =====
-- What an operation may do to the rows of tasks and attempts.
use boring_orch_agent.Base.{
  ℕ, ◌≤◌, ◌≡◌, refl, ◌∙◌, ◌⊎◌, inl, inr, Bool, true, false, some, find, some, List, find-modify_inv,
  All, All-elsewhere, Grows, arith, Grows-refl, Grows-trans, Grows-modify, Grows-append, ◌++◌, ◌∷◌,
  [], ◌≢◌, none, Distinct, Distinct-modify, Distinct-append, find-modify_ne,
}
use boring_orch_agent.Schema.{
  Db, Task, Attempt, AttemptState, is_terminal, is_final, update_task, update_attempt, task_keyed,
  attempt_keyed,
}

-- The task is not terminal, as the store has it.
abbrev pub IsOpen : ℕ → Db → Type 0
IsOpen k db = (t : Task) → find k db.tasks ≡ some t → is_terminal t.status ≡ false

-- The attempt has ended, as the store has it.
abbrev pub HasEnded : ℕ → Db → Type 0
HasEnded k db = (a : Attempt) → find k db.attempts ≡ some a → is_final a.state ≡ true

-- The row of the task is the one that is held, and it is not terminal.
pub record Holds (task : Task) (db : Db) : Type 0 where
  pub row : find task.id db.tasks ≡ some task
  pub unfinished : is_terminal task.status ≡ false

pub Holds-IsOpen : {task : Task} {db : Db} → Holds task db → IsOpen task.id db
Holds-IsOpen {task} {db} h t e = ground (arith, h.row, h.unfinished, e)

-- What is held of other tasks survives a change to task `k`.
pub Holds-elsewhere :
    (k : ℕ) (db db' : Db) (ts : List Task)
    → find k ts ≡ none
    → ((j : ℕ) → j ≢ k → find j db'.tasks ≡ find j db.tasks)
    → All (λ t. Holds t db) ts
    → All (λ t. Holds t db') ts
Holds-elsewhere k db db' ts n local =
    All-elsewhere (λ t. Holds t db) (λ t. Holds t db') k ts n
      λ t ne h. record { row = local t.id ne ∙ h.row; unfinished = h.unfinished }

pub IsOpen-update_task :
    (k : ℕ) (f : Task → Task) (db : Db)
    → ((t : Task) → (f t).id ≡ t.id)
    → ((t : Task) → is_terminal t.status ≡ false → is_terminal (f t).status ≡ false)
    → IsOpen k db
    → IsOpen k (update_task k f db)
IsOpen-update_task k f db keeps opens o t h =
    let (u, found, same) = find-modify_inv f keeps k db.tasks t h in rw same (opens u (o u found))

-- A task keeps its identity and its contract, and once terminal it never changes.
pub record TaskStep (t u : Task) : Type 0 where
  pub id : u.id ≡ t.id
  pub spec : u.spec ≡ t.spec
  pub submitted_at : u.submitted_at ≡ t.submitted_at
  pub deadline : u.deadline ≡ t.deadline
  pub version : t.version ≤ u.version
  pub frozen : is_terminal t.status ≡ true → u ≡ t

-- Not queued any more: the attempt was launched, or has ended without.
abbrev pub has_left_queue : AttemptState → Bool
has_left_queue AttemptState.queued = false
has_left_queue _ = true

-- An attempt keeps its identity and its final state, and is never queued again. Its reservation is never taken again, and is
-- given up only with a final state; usage and sequence numbers do not fall. Only an operator
-- (`manual`) moves an attempt out of the unknown state.
pub record AttemptStep (manual : Bool) (a b : Attempt) : Type 0 where
  pub id : b.id ≡ a.id
  pub task_id : b.task_id ≡ a.task_id
  pub number : b.number ≡ a.number
  pub worker_id : b.worker_id ≡ a.worker_id
  pub final : is_final a.state ≡ true → b.state ≡ a.state
  pub uncertain : manual ≡ false → a.state ≡ AttemptState.unknown → b.state ≡ AttemptState.unknown
  pub reserve : b.reserved ≡ true → a.reserved ≡ true
  pub release : a.reserved ≡ true → (b.reserved ≡ true) ⊎ (is_final b.state ≡ true)
  pub settled : a.settled ≡ true → b.settled ≡ true
  pub dequeued : has_left_queue a.state ≡ true → has_left_queue b.state ≡ true
  pub sequence : a.sequence ≤ b.sequence
  pub known_tokens : a.known_tokens ≤ b.known_tokens

pub TaskStep-refl : (t : Task) → TaskStep t t
TaskStep-refl t = ground arith

pub TaskStep-trans : (t u v : Task) → TaskStep t u → TaskStep u v → TaskStep t v
TaskStep-trans t u v p q = record {
  id = q.id ∙ p.id;
  spec = q.spec ∙ p.spec;
  submitted_at = q.submitted_at ∙ p.submitted_at;
  deadline = q.deadline ∙ p.deadline;
  version = omega (arith, p.version, q.version);
  frozen = λ h. q.frozen (rw (p.frozen h) h) ∙ p.frozen h;
}

module _ (manual : Bool) where
  pub AttemptStep-refl : (a : Attempt) → AttemptStep manual a a
  AttemptStep-refl a = record {
    id = refl;
    task_id = refl;
    number = refl;
    worker_id = refl;
    final = λ h. refl;
    uncertain = λ m h. h;
    reserve = λ h. h;
    release = λ h. inl h;
    settled = λ h. h;
    dequeued = λ h. h;
    sequence = omega arith;
    known_tokens = omega arith;
  }

  pub AttemptStep-trans :
      (a b c : Attempt) → AttemptStep manual a b → AttemptStep manual b c → AttemptStep manual a c
  AttemptStep-trans a b c p q = record {
    id = q.id ∙ p.id;
    task_id = q.task_id ∙ p.task_id;
    number = q.number ∙ p.number;
    worker_id = q.worker_id ∙ p.worker_id;
    final = λ h. q.final (rw (p.final h) h) ∙ p.final h;
    uncertain = λ m h. q.uncertain m (p.uncertain m h);
    reserve = λ h. p.reserve (q.reserve h);
    release = λ h. elim (p.release h) [ inl r ↦ q.release r | inr f ↦ inr (rw (q.final f) f) ];
    settled = λ h. q.settled (p.settled h);
    dequeued = λ h. q.dequeued (p.dequeued h);
    sequence = omega (arith, p.sequence, q.sequence);
    known_tokens = omega (arith, p.known_tokens, q.known_tokens);
  }

  -- The rows of two states of the store, the later reached from the earlier. Attempts are added only
  -- by an operation that may reserve (`grows`); tasks may be added by any. Task ids stay distinct.
  module _ (grows : Bool) where
    abbrev pub Change : Db → Db → Type 0
    Change db db' =
        Grows TaskStep (λ _. Unit {0}) db.tasks db'.tasks
        × Grows (AttemptStep manual) (λ _. grows ≡ true) db.attempts db'.attempts
        × (Distinct db.tasks → Distinct db'.tasks)

    pub Change-refl : (db : Db) → Change db db
    Change-refl db = (
      Grows-refl TaskStep _ TaskStep-refl db.tasks,
      Grows-refl (AttemptStep manual) _ AttemptStep-refl db.attempts,
      λ d. d,
    )

    pub Change-trans : (a b c : Db) → Change a b → Change b c → Change a c
    Change-trans a b c p q = (
      Grows-trans TaskStep _ TaskStep-trans (λ _ _ _ _. tt) a.tasks b.tasks c.tasks p.0 q.0,
      Grows-trans (AttemptStep manual) _ AttemptStep-trans (λ _ _ _ h. h) a.attempts b.attempts
          c.attempts p.1 q.1,
      λ d. q.2 (p.2 d),
    )

    -- The same, where of the old task rows only that of task `k` may have changed, and no worker.
    abbrev pub Affects : ℕ → Db → Db → Type 0
    Affects k db db' =
        Change db db'
        × ((j : ℕ) → j ≢ k → find j db'.tasks ≡ find j db.tasks)
        × (db'.workers ≡ db.workers)

    pub Affects-refl : (k : ℕ) (db : Db) → Affects k db db
    Affects-refl k db = (Change-refl db, λ j ne. refl, refl)

    pub Affects-trans : (k : ℕ) (a b c : Db) → Affects k a b → Affects k b c → Affects k a c
    Affects-trans k a b c p q = (Change-trans a b c p.0 q.0, λ j ne. q.1 j ne ∙ p.1 j ne, q.2 ∙ p.2)

    pub Affects-update_task :
        (k : ℕ) (f : Task → Task) (db : Db)
        → ((t : Task) → (f t).id ≡ t.id)
        → ((t : Task) → find k db.tasks ≡ some t → TaskStep t (f t))
        → Affects k db (update_task k f db)
    Affects-update_task k f db keeps h = (
      (
        Grows-modify TaskStep _ TaskStep-refl k f db.tasks h,
        Grows-refl (AttemptStep manual) _ AttemptStep-refl db.attempts,
        Distinct-modify f keeps k db.tasks,
      ),
      λ j ne. find-modify_ne f keeps k j db.tasks ne,
      refl,
    )

    pub Affects-update_attempt :
        (j k : ℕ) (f : Attempt → Attempt) (db : Db)
        → ((a : Attempt) → find k db.attempts ≡ some a → AttemptStep manual a (f a))
        → Affects j db (update_attempt k f db)
    Affects-update_attempt j k f db h = (
      (
        Grows-refl TaskStep _ TaskStep-refl db.tasks,
        Grows-modify (AttemptStep manual) _ AttemptStep-refl k f db.attempts h,
        λ d. d,
      ),
      λ i ne. refl,
      refl,
    )

    pub Change-insert_task :
        (t : Task) (db : Db)
        → find t.id db.tasks ≡ none
        → Change db (record db { tasks = db.tasks ++ t ∷ [] })
    Change-insert_task t db h = (
      Grows-append TaskStep _ TaskStep-refl db.tasks t tt,
      Grows-refl (AttemptStep manual) _ AttemptStep-refl db.attempts,
      Distinct-append db.tasks t h,
    )

    pub Affects-insert_attempt :
        (k : ℕ) (a : Attempt) (db : Db)
        → grows ≡ true
        → Affects k db (record db { attempts = db.attempts ++ a ∷ [] })
    Affects-insert_attempt k a db h = (
      (
        Grows-refl TaskStep _ TaskStep-refl db.tasks,
        Grows-append (AttemptStep manual) _ AttemptStep-refl db.attempts a h,
        λ d. d,
      ),
      λ i ne. refl,
      refl,
    )

    -- Other tables do not matter.
    pub Affects-same :
        (k : ℕ) (a b c : Db)
        → c.tasks ≡ b.tasks
        → c.attempts ≡ b.attempts
        → c.workers ≡ b.workers
        → Affects k a b
        → Affects k a c
    Affects-same k a b c e f g h = rw (e, f, g) h

    pub Change-from :
        (a b c : Db) → b.tasks ≡ a.tasks → b.attempts ≡ a.attempts → Change b c → Change a c
    Change-from a b c e f h = rw (← e, ← f) h
