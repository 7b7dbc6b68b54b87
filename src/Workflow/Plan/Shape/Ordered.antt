-- ===== src/Workflow/Plan/Shape/Ordered.antt =====
-- The order in which _validate_plan_shape of boring_agent/workflows.py returns the children.
use boring_orch_agent.Base.{
  ℕ, zero, suc, ◌+◌, ◌⊎◌, Option, none, some, All, All-sort_by, All-map, ◌==◌, not, subst, ◌≡◌,
  refl, ap, ◌∙◌, String, true, List, [], ◌∷◌, leb, arith, sort_by, insert_by, get_or,
}
use boring_orch_agent.Schema.{ok}
use boring_orch_agent.Document.Json.{is_distinct, is_subset, keys}
use boring_orch_agent.Document.Checks.{demand}
use boring_orch_agent.Document.Ensures.{Ensures, returns, step, any, ensured}
use boring_orch_agent.Document.Numbers.{demanded}
use boring_orch_agent.Workflow.Plan.Entries.{PlanEntry}
use boring_orch_agent.Workflow.Plan.Graph.{search_cycle}
use boring_orch_agent.Workflow.Plan.Graph.Complete.{length}
use boring_orch_agent.Workflow.Plan.Shape.{
  PlanChild, entry_total, entry_ids, is_disjoint, child_at, children_from, orders_from, counts_up,
  is_less, graph_of, is_before, ordered_children,
}

abbrev pub orders : List PlanChild → List ℕ
orders [] = []
orders (c ∷ cs) = c.order ∷ orders cs

orders-insert_by :
    (c : PlanChild) (cs : List PlanChild)
    → orders (insert_by is_before c cs) ≡ insert_by is_less c.order (orders cs)
unfolding insert_by
orders-insert_by c [] = refl
orders-insert_by c (d ∷ cs) = ground (arith, orders-insert_by c cs)

orders-sort_by : (cs : List PlanChild) → orders (sort_by is_before cs) ≡ sort_by is_less (orders cs)
unfolding sort_by
orders-sort_by [] = refl
orders-sort_by (c ∷ cs) =
    orders-insert_by c (sort_by is_before cs) ∙ ap (insert_by is_less c.order) (orders-sort_by cs)

length-insert_by :
    (c : PlanChild) (cs : List PlanChild) → length (insert_by is_before c cs) ≡ suc (length cs)
unfolding insert_by
length-insert_by c [] = refl
length-insert_by c (d ∷ cs) = ground (arith, length-insert_by c cs)

length-sort_by : (cs : List PlanChild) → length (sort_by is_before cs) ≡ length cs
unfolding sort_by
length-sort_by [] = refl
length-sort_by (c ∷ cs) = length-insert_by c (sort_by is_before cs) ∙ ap suc (length-sort_by cs)

-- The entry in a position of the plan.
abbrev pub entry_at : ℕ → List PlanEntry → Option PlanEntry
entry_at i [] = none
entry_at zero (e ∷ es) = some e
entry_at (suc i) (e ∷ es) = entry_at i es

-- The child is what the entry in position i asks for; without an order of its own, its order is i.
abbrev pub IsChildOf : ℕ → PlanEntry → PlanChild → Type 0
IsChildOf i e c =
    (c.id ≡ e.id)
    × ((e.order ≡ some c.order) ⊎ ((e.order ≡ none) × (c.order ≡ i)))
    × (c.dependencies ≡ e.dependencies)
    × (c.delivery ≡ e.delivery)

-- The child comes from an entry of a plan whose first entry has the position `start`.
abbrev From : ℕ → List PlanEntry → PlanChild → Type 0
From start es c = (i : ℕ) × (e : PlanEntry) × (entry_at i es ≡ some e) × IsChildOf (start + i) e c

-- The child comes from an entry of the plan.
abbrev pub ComesFrom : List PlanEntry → PlanChild → Type 0
ComesFrom es c = (i : ℕ) × (e : PlanEntry) × (entry_at i es ≡ some e) × IsChildOf i e c

add_zero : (n : ℕ) → n ≡ n + 0
add_zero n = omega arith

From-next :
    (start : ℕ) (e : PlanEntry) (es : List PlanEntry) (c : PlanChild)
    → From (start + 1) es c
    → From start (e ∷ es) c
From-next start e es c (i, f, there, h) =
    let moved : start + 1 + i ≡ start + suc i = omega arith in
    (suc i, f, there, subst (λ n. IsChildOf n f c) moved h)

From-ComesFrom : (es : List PlanEntry) (c : PlanChild) → From 0 es c → ComesFrom es c
From-ComesFrom es c (i, e, there, h) =
    let same : 0 + i ≡ i = omega arith in (i, e, there, subst (λ n. IsChildOf n e c) same h)

IsChildOf-order :
    (i : ℕ) (e : PlanEntry) (c : PlanChild) → IsChildOf i e c → c.order ≡ get_or e.order i
IsChildOf-order i e c h = ground (arith, h.1)

module _ (known : List String) where
  child_at-IsChildOf :
      (position : ℕ) (e : PlanEntry) → Ensures (IsChildOf position e) (child_at known position e)
  unfolding child_at
  child_at-IsChildOf position e = step (any (demand (is_distinct e.dependencies))) λ _ _.
      step (any (demand (is_subset e.dependencies known))) λ _ _.
        step (any (demand (is_disjoint (keys e.own) (keys e.task)))) λ _ _.
          step (any (demand (is_distinct e.delivery.files)))
            λ _ _. returns _ (refl, order, refl, refl)
    where
      order :
          (e.order ≡ some (get_or e.order position))
          ⊎ ((e.order ≡ none) × (get_or e.order position ≡ position))
      order = ground arith

  -- `start` is the position of the first entry.
  children_from-ComesFrom :
      (start : ℕ) (es : List PlanEntry)
      → Ensures
          (λ cs.
            All (From start es) cs
            × (orders cs ≡ orders_from start es)
            × (length cs ≡ entry_total es))
          (children_from known start es)
  unfolding children_from orders_from entry_total
  children_from-ComesFrom start [] = returns [] (tt, refl, refl)
  children_from-ComesFrom start (e ∷ es) = step (child_at-IsChildOf start e) λ c h.
      step (children_from-ComesFrom (start + 1) es) λ cs hs. returns (c ∷ cs) (
        (
          (0, e, refl, subst (λ n. IsChildOf n e c) (add_zero start) h),
          All-map (From (start + 1) es) (From start (e ∷ es)) (From-next start e es) cs hs.0,
        ),
        rw (IsChildOf-order start e c h, hs.1) refl,
        ap suc hs.2,
      )

ordered_children-Ordered :
    (room max_children : ℕ) (es : List PlanEntry)
    → Ensures
        (λ cs.
          All (ComesFrom es) cs × (counts_up 0 (orders cs) ≡ true) × (length cs ≡ entry_total es))
        (ordered_children room max_children es)
unfolding ordered_children
ordered_children-Ordered room max_children es =
    step (any (demand (not (entry_total es == 0)))) λ _ _.
      step (any (demand (leb (entry_total es) max_children))) λ _ _.
        step (any (demand (is_distinct (entry_ids es)))) λ _ _.
          step (demanded (counts_up 0 (sort_by is_less (orders_from 0 es)))) λ _ c.
            step (children_from-ComesFrom (entry_ids es) 0 es) λ cs h.
              step (any (search_cycle room (graph_of es))) λ visited _.
                returns (sort_by is_before cs) (
                  All-sort_by (ComesFrom es) is_before cs
                      (All-map (From 0 es) (ComesFrom es) (From-ComesFrom es) cs h.0),
                  rw (orders-sort_by cs, h.1) c,
                  length-sort_by cs ∙ h.2,
                )

-- An accepted plan has one child for each entry. Each child comes from an entry, whose id, dependencies
-- and delivery it has, and whose order, or position where no order is given; and the children stand in
-- their order: the child in position i, counted from 0, is the one whose order is i.
pub ordered_children-in_order :
    (room max_children : ℕ) (es : List PlanEntry) (cs : List PlanChild)
    → ordered_children room max_children es ≡ ok cs
    → All (ComesFrom es) cs × (counts_up 0 (orders cs) ≡ true) × (length cs ≡ entry_total es)
ordered_children-in_order room max_children es cs h =
    ensured cs (ordered_children-Ordered room max_children es) h
