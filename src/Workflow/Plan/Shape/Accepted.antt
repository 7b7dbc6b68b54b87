-- ===== src/Workflow/Plan/Shape/Accepted.antt =====
-- Which plans _validate_plan_shape of boring_agent/workflows.py accepts.
use boring_orch_agent.Base.{
  ℕ, ◌+◌, ◌≤◌, ◌<◌, ◌≡◌, ◌↔◌, refl, String, true, List, [], ◌∷◌, leb, All, arith, sort_by, ◌==◌,
  not, false,
}
use boring_orch_agent.Schema.{ok}
use boring_orch_agent.Document.Json.{keys, is_subset, is_distinct}
use boring_orch_agent.Document.Ensures.{Ensures, returns, step, ensured, witnessed}
use boring_orch_agent.Document.Numbers.{demanded}
use boring_orch_agent.Workflow.Plan.Entries.{PlanEntry}
use boring_orch_agent.Workflow.Plan.Graph.{ids, search_cycle}
use boring_orch_agent.Workflow.Plan.Graph.Depends.{IsAcyclic}
use boring_orch_agent.Workflow.Plan.Graph.Complete.{length, search_cycle_iff}
use boring_orch_agent.Workflow.Plan.Shape.{
  PlanChild, entry_total, entry_ids, is_disjoint, child_at, children_from, orders_from, counts_up,
  is_less, graph_of, is_before, ordered_children,
}

-- What is asked of one child, where `known` are the ids of the plan.
abbrev pub IsFitting : List String → PlanEntry → Type 0
IsFitting known e =
    (is_distinct e.dependencies ≡ true)
    × (is_subset e.dependencies known ≡ true)
    × (is_disjoint (keys e.own) (keys e.task) ≡ true)
    × (is_distinct e.delivery.files ≡ true)

abbrev pub IsPlan : ℕ → List PlanEntry → Type 0
IsPlan max_children es =
    (1 ≤ entry_total es)
    × (entry_total es ≤ max_children)
    × (is_distinct (entry_ids es) ≡ true)
    × (counts_up 0 (sort_by is_less (orders_from 0 es)) ≡ true)
    × All (IsFitting (entry_ids es)) es
    × IsAcyclic (graph_of es)

module _ (known : List String) where
  child_at-IsFitting :
      (position : ℕ) (e : PlanEntry) → Ensures (λ _. IsFitting known e) (child_at known position e)
  unfolding child_at
  child_at-IsFitting position e = step (demanded (is_distinct e.dependencies)) λ _ a.
      step (demanded (is_subset e.dependencies known)) λ _ b.
        step (demanded (is_disjoint (keys e.own) (keys e.task)))
          λ _ c. step (demanded (is_distinct e.delivery.files)) λ _ d. returns _ (a, b, c, d)

  children_from-IsFitting :
      (position : ℕ) (es : List PlanEntry)
      → Ensures (λ _. All (IsFitting known) es) (children_from known position es)
  unfolding children_from
  children_from-IsFitting position [] = returns [] tt
  children_from-IsFitting position (e ∷ es) =
      step (child_at-IsFitting position e)
        λ c h. step (children_from-IsFitting (position + 1) es) λ cs hs. returns (c ∷ cs) (h, hs)

  child_at_returns :
      (position : ℕ) (e : PlanEntry)
      → IsFitting known e
      → (c : PlanChild) × (child_at known position e ≡ ok c)
  unfolding child_at
  child_at_returns position e h = rw (h.0, h.1, h.2, h.3) (_, refl)

  children_from_returns :
      (position : ℕ) (es : List PlanEntry)
      → All (IsFitting known) es
      → (cs : List PlanChild) × (children_from known position es ≡ ok cs)
  unfolding children_from
  children_from_returns position [] h = ([], refl)
  children_from_returns position (e ∷ es) h =
      let (c, p) = child_at_returns position e h.0 in
      let (cs, q) = children_from_returns (position + 1) es h.1 in rw (p, q) (c ∷ cs, refl)

ids-graph_of : (es : List PlanEntry) → ids (graph_of es) ≡ entry_ids es
unfolding ids graph_of entry_ids
ids-graph_of [] = refl
ids-graph_of (e ∷ es) = rw (ids-graph_of es) refl

length-ids : (es : List PlanEntry) → length (ids (graph_of es)) ≡ entry_total es
unfolding ids graph_of entry_total
length-ids [] = refl
length-ids (e ∷ es) = omega (arith, length-ids es)

known_dependencies :
    (known : List String) (es : List PlanEntry)
    → All (IsFitting known) es
    → All (λ n. is_subset n.dependencies known ≡ true) (graph_of es)
unfolding graph_of
known_dependencies known [] h = tt
known_dependencies known (e ∷ es) h = (h.0.1, known_dependencies known es h.1)

module _ (room max_children : ℕ) (es : List PlanEntry) (deep : entry_total es < room) where
  finds_no_cycle :
      All (IsFitting (entry_ids es)) es
      → ((visited : List String) × (search_cycle room (graph_of es) ≡ ok visited))
        ↔ IsAcyclic (graph_of es)
  finds_no_cycle h =
      search_cycle_iff (graph_of es) room
        (rw (ids-graph_of es) (known_dependencies (entry_ids es) es h))
        (omega (arith, length-ids es))

  ordered_children-IsPlan :
      Ensures (λ _. IsPlan max_children es) (ordered_children room max_children es)
  unfolding ordered_children
  ordered_children-IsPlan = step (demanded (not (entry_total es == 0))) λ _ z.
      step (demanded (leb (entry_total es) max_children)) λ _ a.
        step (demanded (is_distinct (entry_ids es))) λ _ b.
          step (demanded (counts_up 0 (sort_by is_less (orders_from 0 es)))) λ _ c.
            step (children_from-IsFitting (entry_ids es) 0 es) λ cs d.
              step (witnessed (search_cycle room (graph_of es))) λ visited e.
                returns _
                  (ground (arith, z), ground (arith, a), b, c, d, (finds_no_cycle d).0 (visited, e))

  ordered_children_returns :
      IsPlan max_children es
      → (cs : List PlanChild) × (ordered_children room max_children es ≡ ok cs)
  unfolding ordered_children
  ordered_children_returns h =
      let filled : (entry_total es == 0) ≡ false = ground (arith, h.0) in
      let small : leb (entry_total es) max_children ≡ true = ground (arith, h.1) in
      let (cs, p) = children_from_returns (entry_ids es) 0 es h.4 in
      let (visited, q) = (finds_no_cycle h.4).1 h.5 in
      rw (filled, small, h.2, h.3, p, q) (sort_by is_before cs, refl)

  -- A plan is accepted exactly when it has at least one and at most max_children children with distinct ids, their
  -- orders are 0, 1, 2 and so on in some arrangement, each child has distinct dependencies on children
  -- of the plan, sets no task field twice and delivers no file twice, and no child needs itself,
  -- directly or through others. This holds where Python's stack has room for a chain of all children.
  pub ordered_children_iff :
      ((cs : List PlanChild) × (ordered_children room max_children es ≡ ok cs))
      ↔ IsPlan max_children es
  ordered_children_iff = (λ r. ensured r.0 ordered_children-IsPlan r.1, ordered_children_returns)
