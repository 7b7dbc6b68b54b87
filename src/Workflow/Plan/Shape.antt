-- ===== src/Workflow/Plan/Shape.antt =====
-- _validate_plan_shape of boring_agent/workflows.py.
pub mod Accepted
pub mod Ordered
use Prim.Native.String.{len}
use boring_orch_agent.Base.{
  ℕ, zero, suc, ◌+◌, String, Bool, true, false, Option, none, some, List, [], ◌∷◌, map,
  if◌then◌else◌, ◌&&◌, not, ltb, leb, ◌==◌, get_or, sort_by,
}
use boring_orch_agent.Schema.{Result, ok, err, invalid_request, ◌>>=◌, ◌>>◌, Delivery}
use boring_orch_agent.Document.Json.{
  Json, obj, Fields, end, field, mem, keys, is_subset, is_distinct,
}
use boring_orch_agent.Document.Checks.{as_object, demand}
use boring_orch_agent.Workflow.Plan.Entries.{PlanEntry, plan_entries}
use boring_orch_agent.Workflow.Plan.Graph.{Node, search_cycle}

-- A child of an accepted plan.
pub record PlanChild : Type 0 where
  pub id : String
  pub order : ℕ
  pub task : Fields
  pub dependencies : List String
  pub delivery : Delivery

unfoldable pub entry_total : List PlanEntry → ℕ
entry_total [] = 0
entry_total (e ∷ es) = suc (entry_total es)

-- [child["id"] for child in children]
unfoldable pub entry_ids : List PlanEntry → List String
entry_ids [] = []
entry_ids (e ∷ es) = e.id ∷ entry_ids es

unfoldable pub put_last : Fields → Fields → Fields
put_last end gs = gs
put_last (field k v fs) gs = field k v (put_last fs gs)

unfoldable pub is_disjoint : List String → List String → Bool
unfolding mem
is_disjoint [] ks = true
is_disjoint (j ∷ js) ks = not (mem j ks) && is_disjoint js ks

-- One child with its checks; `position` is its place in the plan.
unfoldable pub child_at : List String → ℕ → PlanEntry → Result PlanChild
unfolding is_distinct is_subset is_disjoint keys put_last
child_at known position e = do
  demand (is_distinct e.dependencies)
  demand (is_subset e.dependencies known)
  demand (is_disjoint (keys e.own) (keys e.task))
  demand (is_distinct e.delivery.files)
  ok (record {
    id = e.id;
    order = get_or e.order position;
    task = put_last e.task e.own;
    dependencies = e.dependencies;
    delivery = e.delivery;
  })

unfoldable pub children_from : List String → ℕ → List PlanEntry → Result (List PlanChild)
unfolding child_at
children_from known position [] = ok []
children_from known position (e ∷ es) = do
  c ← child_at known position e
  cs ← children_from known (position + 1) es
  ok (c ∷ cs)

-- [child.get("order", index) for index, child in enumerate(children)]
unfoldable pub orders_from : ℕ → List PlanEntry → List ℕ
orders_from position [] = []
orders_from position (e ∷ es) = get_or e.order position ∷ orders_from (position + 1) es

abbrev pub is_less : ℕ → ℕ → Bool
is_less a b = ltb a b

-- orders == list(range(start, start + n)) of a list of length n
unfoldable pub counts_up : ℕ → List ℕ → Bool
counts_up start [] = true
counts_up start (n ∷ ns) = n == start && counts_up (start + 1) ns

unfoldable pub graph_of : List PlanEntry → List Node
graph_of [] = []
graph_of (e ∷ es) = record { id = e.id; dependencies = e.dependencies } ∷ graph_of es

abbrev pub is_before : PlanChild → PlanChild → Bool
is_before c d = ltb c.order d.order

-- The plan of a schema-conforming text; that the orders are unique follows from their contiguity.
unfoldable pub ordered_children : ℕ → ℕ → List PlanEntry → Result (List PlanChild)
unfolding entry_total entry_ids is_distinct orders_from counts_up children_from graph_of
    search_cycle sort_by
ordered_children room max_children es = do
  demand (not (entry_total es == 0))
  demand (leb (entry_total es) max_children)
  demand (is_distinct (entry_ids es))
  demand (counts_up 0 (sort_by is_less (orders_from 0 es)))
  cs ← children_from (entry_ids es) 0 es
  visited ← search_cycle room (graph_of es)
  ok (sort_by is_before cs)

-- `room` is the depth that Python's stack leaves to the search for cycles.
unfoldable pub validate_plan_shape : (Json → Result String) → ℕ → Json → ℕ → Result (List PlanChild)
unfolding plan_entries ordered_children
validate_plan_shape canonical room plan max_children = do
  raw ← as_object plan
  printed ← canonical (obj raw)
  demand (not (ltb 256000 (len printed)))
  es ← plan_entries plan
  ordered_children room max_children es
