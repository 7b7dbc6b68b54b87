-- ===== src/Tests/Plan.antt =====
-- A plan of three children, and the task of one of them.
use boring_orch_agent.Base.{
  ℕ, ◌≤◌, ◌≡◌, ◌↔◌, refl, true, false, none, some, List, [], ◌∷◌, String, arith, All,
}
use boring_orch_agent.Schema.{ok, err, invalid_request, uncaught, Delivery, Result}
use boring_orch_agent.Document.Json.{
  num, str, arr, obj, nil, cons, Fields, end, get, field, whole, is_subset, mem,
}
use boring_orch_agent.Document.Task.{TaskDocument}
use boring_orch_agent.Workflow.Plan.Entries.{PlanEntry}
use boring_orch_agent.Workflow.Plan.Graph.{ids, search_cycle}
use boring_orch_agent.Workflow.Plan.Graph.Depends.{IsAcyclic}
use boring_orch_agent.Workflow.Plan.Graph.Complete.{search_cycle_iff, length}
use boring_orch_agent.Workflow.Plan.Shape.{
  PlanChild, ordered_children, entry_total, counts_up, graph_of,
}
use boring_orch_agent.Workflow.Plan.Shape.Accepted.{IsPlan, ordered_children_iff}
use boring_orch_agent.Workflow.Plan.Shape.Ordered.{ordered_children-in_order, orders, ComesFrom}
use boring_orch_agent.Document.Coddy.{Coddy, PermissionMode, permission_mode}
use boring_orch_agent.Document.Written.{coddy_fields}
use boring_orch_agent.Workflow.Plan.Merge.{overlay}
use boring_orch_agent.Workflow.Plan.Narrow.{narrow_requested, is_other_session}
use boring_orch_agent.Workflow.Plan.Narrow.Kept.{narrow_requested-kept, no_new_mention}
use boring_orch_agent.Workflow.Plan.Child.{child_spec}
use boring_orch_agent.Workflow.Plan.Child.Narrower.{IsNarrower, child_spec-IsNarrower}
use boring_orch_agent.Tests.Documents.{plain_host, small_document}

abbrev silent : Delivery
silent = record { result = false; files = [] }

abbrev entry : String → ℕ → List String → PlanEntry
entry id order needs = record {
  id = id;
  order = some order;
  task = end;
  own = end;
  dependencies = needs;
  delivery = silent;
}

abbrev three_entries : List PlanEntry
three_entries =
    entry "report" 2 ("fetch" ∷ "clean" ∷ [])
    ∷ entry "fetch" 0 []
    ∷ entry "clean" 1 ("fetch" ∷ [])
    ∷ []

abbrev child : String → ℕ → List String → PlanChild
child id order needs = record {
  id = id;
  order = order;
  task = end;
  dependencies = needs;
  delivery = silent;
}

abbrev three_children : List PlanChild
three_children =
    child "fetch" 0 []
    ∷ child "clean" 1 ("fetch" ∷ [])
    ∷ child "report" 2 ("fetch" ∷ "clean" ∷ [])
    ∷ []

three_ordered : ordered_children 900 100 three_entries ≡ ok three_children
unfolding ordered_children
three_ordered = refl

ordered_children_iff_example :
    ((cs : List PlanChild) × (ordered_children 900 100 three_entries ≡ ok cs))
    ↔ IsPlan 100 three_entries
unfolding entry_total
ordered_children_iff_example = ordered_children_iff 900 100 three_entries (omega arith)

ordered_children-in_order_example :
    All (ComesFrom three_entries) three_children
    × (counts_up 0 (orders three_children) ≡ true)
    × (length three_children ≡ entry_total three_entries)
ordered_children-in_order_example =
    ordered_children-in_order 900 100 three_entries three_children three_ordered

search_cycle_iff_example :
    ((visited : List String) × (search_cycle 900 (graph_of three_entries) ≡ ok visited))
    ↔ IsAcyclic (graph_of three_entries)
unfolding graph_of ids is_subset mem
search_cycle_iff_example =
    search_cycle_iff (graph_of three_entries) 900 (refl, (refl, (refl, tt))) (omega arith)

-- Two children that need one another.
cycle_refused :
    ordered_children 900 100 (entry "a" 0 ("b" ∷ []) ∷ entry "b" 1 ("a" ∷ []) ∷ [])
    ≡ err invalid_request
unfolding ordered_children
cycle_refused = refl

-- A child that tightens its budget and keeps the rest.
abbrev tight_child : PlanChild
tight_child = record {
  id = "fetch";
  order = 0;
  task = field "objective" (str "Fetch the data") (
      field "sandbox" (str "read-only") (
        field "tools" (arr (cons (str "read_file") nil))
          (field "budget" (obj (field "max_steps" (num (whole 4)) end)) end)));
  dependencies = [];
  delivery = silent;
}

abbrev given : Result TaskDocument → TaskDocument → TaskDocument
given (ok t) d = t
given (err e) d = d

abbrev tight_task : TaskDocument
unfolding child_spec
tight_task =
    given (child_spec plain_host small_document tight_child "/work" true (some 1000) true)
      small_document

tight_accepted :
    child_spec plain_host small_document tight_child "/work" true (some 1000) true ≡ ok tight_task
unfolding child_spec
tight_accepted = refl

child_spec-IsNarrower_example : IsNarrower small_document tight_task
child_spec-IsNarrower_example =
    child_spec-IsNarrower plain_host small_document "/work" true (some 1000) tight_child true
      tight_task tight_accepted

tight_tokens : tight_task.budget.max_tokens ≡ some 1000
unfolding child_spec
tight_tokens = refl

-- A child that asks for another runtime is refused.
runtime_refused :
    child_spec plain_host small_document
      (record tight_child { task = field "runtime" (str "demo") end })
      "/work"
      true
      none
      true
    ≡ err invalid_request
unfolding child_spec
runtime_refused = refl

-- A child that lowers the permission mode of a root that resumes a session with accept_edits.
abbrev edits_root : Coddy
edits_root = record {
  session = some "@session:sess_0123456789abcdef01234567";
  permission = some PermissionMode.accept_edits;
  stream = true;
  mention = none;
}

abbrev asks : Fields
asks = field "permission_mode" (str "ask") end

abbrev asking : Fields
unfolding overlay coddy_fields
asking = overlay (coddy_fields edits_root) asks

asks_less : narrow_requested edits_root asks ≡ ok asking
unfolding narrow_requested
asks_less = refl

narrow_requested-kept_example :
    (0 ≤ 1)
    × (is_other_session (str "@session:sess_0123456789abcdef01234567") edits_root.session ≡ false)
    × (no_new_mention edits_root asking ≡ true)
unfolding overlay coddy_fields get permission_mode
narrow_requested-kept_example =
    narrow_requested-kept edits_root asks asking (some PermissionMode.ask) asks_less refl

-- A list as a permission mode raises a TypeError, which no handler of the settlement catches.
unhashable_refused :
    narrow_requested edits_root (field "permission_mode" (arr nil) end) ≡ err uncaught
unfolding narrow_requested
unhashable_refused = refl
