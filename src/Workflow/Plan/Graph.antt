-- ===== src/Workflow/Plan/Graph.antt =====
-- The search for a dependency cycle in _validate_plan_shape of boring_agent/workflows.py.
pub mod Depends
pub mod Acyclic
pub mod Complete
use boring_orch_agent.Base.{
  ℕ, zero, suc, String, Bool, true, false, List, [], ◌∷◌, if◌then◌else◌, str_eq,
}
use boring_orch_agent.Schema.{Result, ok, err, invalid_request, ◌>>=◌}
use boring_orch_agent.Document.Json.{mem}

-- graph: the dependencies of each child, by its id.
pub record Node : Type 0 where
  pub id : String
  pub dependencies : List String

unfoldable pub dependencies_in : List Node → String → List String
dependencies_in [] id = []
dependencies_in (n ∷ ns) id =
    let rest = dependencies_in ns id in if str_eq n.id id then n.dependencies else rest

-- for dependency in graph[node]: visit(dependency)
unfoldable pub visit_each :
    (String → List String → Result (List String)) → List String → List String → Result (List String)
visit_each go [] visited = ok visited
visit_each go (d ∷ ds) visited = do visited' ← go d visited; visit_each go ds visited'

-- visit(node), with the nodes that are being visited in front of the one that was visited last, and
-- the calls that Python's stack has room for. A RecursionError makes the plan invalid like a cycle.
-- The result is the set of visited nodes.
unfoldable pub visit : ℕ → List Node → List String → String → List String → Result (List String)
unfolding mem dependencies_in visit_each
visit zero graph visiting node visited = err invalid_request
visit (suc room) graph visiting node visited =
    if mem node visiting then err invalid_request else if mem node visited then ok visited else do
      visited' ←
          visit_each (visit room graph (node ∷ visiting)) (dependencies_in graph node) visited
      ok (node ∷ visited')

unfoldable pub ids : List Node → List String
ids [] = []
ids (n ∷ ns) = n.id ∷ ids ns

-- for node in graph: visit(node)
unfoldable pub search_cycle : ℕ → List Node → Result (List String)
unfolding visit visit_each ids
search_cycle room graph = visit_each (visit room graph []) (ids graph) []
