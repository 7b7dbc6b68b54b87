-- ===== src/Manager/Schedule/Order.antt =====
-- The tasks that Manager.schedule of boring_agent/manager.py considers, and their order.
use boring_orch_agent.Base.{
  ℕ, ◌≡◌, ◌≤◌, ◌<◌, ◌⊎◌, ◌↔◌, true, false, List, [], ◌∷◌, arith, All, All-map, keep_if, Occurs,
  Occurs-sort_by, Sorted, sort_by-Sorted,
}
use boring_orch_agent.Schema.{Task, Status, Action}
use boring_orch_agent.Manager.Schedule.{is_earlier, is_due, due_tasks}

is_earlier-asym : (s t : Task) → is_earlier s t ≡ true → is_earlier t s ≡ false
is_earlier-asym s t h = ground (arith, h)

is_earlier-weak :
    (a b c : Task) → is_earlier b a ≡ false → is_earlier c b ≡ false → is_earlier c a ≡ false
is_earlier-weak a b c h g = ground (arith, h, g)

-- A pending task that is to run, and whose next run is due.
abbrev pub IsDue : ℕ → Task → Type 0
IsDue now t = (t.status ≡ Status.pending) × (t.desired_action ≡ Action.run) × (t.next_run_at ≤ now)

-- The task was submitted first, or at the same time with no greater id.
abbrev pub IsNoLater : Task → Task → Type 0
IsNoLater s t =
    (s.submitted_at < t.submitted_at) ⊎ ((s.submitted_at ≡ t.submitted_at) × (s.id ≤ t.id))

abbrev pub InOrder : List Task → Type 0
InOrder [] = Unit
InOrder (t ∷ ts) = All (IsNoLater t) ts × InOrder ts

is_due-IsDue : (now : ℕ) (t : Task) → is_due now t ≡ true → IsDue now t
is_due-IsDue now t h = ground (arith, h)

due-is_due : (now : ℕ) (t : Task) → IsDue now t → is_due now t ≡ true
due-is_due now t h = ground (arith, h.0, h.1, h.2)

not_earlier-IsNoLater : (s t : Task) → is_earlier t s ≡ false → IsNoLater s t
not_earlier-IsNoLater s t h = ground (arith, h)

Sorted-InOrder : (ts : List Task) → Sorted is_earlier ts → InOrder ts
Sorted-InOrder [] s = tt
Sorted-InOrder (t ∷ ts) s = (
  All-map (λ u. is_earlier u t ≡ false) (IsNoLater t) (not_earlier-IsNoLater t) ts s.0,
  Sorted-InOrder ts s.1,
)

-- The tasks to be admitted are exactly the rows of the table that are pending, not told to stop and due,
-- and they are considered in the order of their submission, ties by their ids.
pub due_tasks-InOrder :
    (now : ℕ) (ts : List Task) (t : Task)
    → InOrder (due_tasks now ts) × (Occurs t (due_tasks now ts) ↔ (Occurs t ts × IsDue now t))
unfolding due_tasks
due_tasks-InOrder now ts t =
    let same = Occurs-sort_by t is_earlier (is_due now) ts in
    (
      Sorted-InOrder (due_tasks now ts)
          (sort_by-Sorted is_earlier is_earlier-asym is_earlier-weak (keep_if (is_due now) ts)),
      (
        λ h. let (there, due) = same.0 h in (there, is_due-IsDue now t due),
        λ h. same.1 (h.0, due-is_due now t h.1),
      ),
    )
