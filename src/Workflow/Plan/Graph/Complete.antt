-- ===== src/Workflow/Plan/Graph/Complete.antt =====
-- A search of boring_agent/workflows.py over a plan without a cycle ends without an error, if Python's
-- stack has room for a chain of all children.
use text.Mathlib.TextEquality.{eq_iff}
use boring_orch_agent.Base.{
  All, ℕ, zero, suc, ◌+◌, ◌≤◌, ◌<◌, String, true, false, List, [], ◌∷◌, ◌≡◌, ◌↔◌, refl, subst, inl,
  inr, Bool-cases, arith, if◌then◌else◌, str_eq, not, and_true,
}
use boring_orch_agent.Schema.{Result, ok}
use boring_orch_agent.Document.Json.{mem, is_subset, is_distinct}
use boring_orch_agent.Workflow.Plan.Graph.{
  Node, dependencies_in, visit_each, visit, ids, search_cycle,
}
use boring_orch_agent.Workflow.Plan.Graph.Depends.{
  Depends, direct, through, IsAcyclic, mem-is_subset, mem_here, mem_there, mem-cons,
}
use boring_orch_agent.Workflow.Plan.Graph.Acyclic.{search_cycle-IsAcyclic}

abbrev pub length {ℓ} : {A : Type ℓ} → List A → ℕ
length [] = 0
length (x ∷ xs) = suc (length xs)

remove : String → List String → List String
remove k [] = []
remove k (j ∷ js) = let rest = remove k js in if str_eq j k then js else j ∷ rest

length-remove :
    (k : String) (js : List String) → mem k js ≡ true → length js ≡ suc (length (remove k js))
unfolding mem remove
length-remove k [] m = cc m
length-remove k (j ∷ js) m = elim (Bool-cases (str_eq j k)) [
  | inl e ↦ rw e refl
  | inr e ↦ rw e (ground (arith, e, length-remove k js (ground (arith, e, m))))
]

mem-remove :
    (i k : String) (js : List String)
    → str_eq k i ≡ false
    → mem i js ≡ true
    → mem i (remove k js) ≡ true
unfolding mem remove
mem-remove i k [] n m = cc m
mem-remove i k (j ∷ js) n m =
    ground (arith, n, m, eq_iff j k, eq_iff j i, eq_iff k i, mem-remove i k js n)

is_subset-remove :
    (k : String) (is js : List String)
    → mem k is ≡ false
    → is_subset is js ≡ true
    → is_subset is (remove k js) ≡ true
unfolding is_subset mem
is_subset-remove k [] js n s = refl
is_subset-remove k (i ∷ is) js n s =
    ground (arith, n, s, eq_iff i k, eq_iff k i, mem-remove i k js, is_subset-remove k is js)

-- A list without repetition is no longer than a list that holds it.
length_le :
    (is js : List String) → is_distinct is ≡ true → is_subset is js ≡ true → length is ≤ length js
unfolding is_distinct is_subset
length_le [] js d s = omega arith
length_le (i ∷ is) js d s =
    let (i_in, rest_in) = and_true (mem i js) (is_subset is js) s in
    let (i_new, rest_distinct) = and_true (not (mem i is)) (is_distinct is) d in
    let new : mem i is ≡ false = ground (arith, i_new) in
    omega (
      arith,
      length-remove i js i_in,
      length_le is (remove i js) rest_distinct (is_subset-remove i is js new rest_in),
    )

abbrev Returns {ℓ} : {A : Type ℓ} → Result A → Type ℓ
Returns {A} r = (a : A) × (r ≡ ok a)

extended :
    (graph : List Node) (p a b : String)
    → Depends graph p a
    → mem b (dependencies_in graph a) ≡ true
    → Depends graph p b
extended graph p a b (direct p' a' e) f = through p' a' b e (direct a' b f)
extended graph p a b (through p' q a' e d) f = through p' q b e (extended graph q a' b d f)

visit_each-Returns :
    (go : String → List String → Result (List String)) (ds us : List String)
    → ((d : String) (vs : List String) → mem d ds ≡ true → Returns (go d vs))
    → Returns (visit_each go ds us)
unfolding visit_each
visit_each-Returns go [] us h = (us, refl)
visit_each-Returns go (d ∷ ds) us h =
    let (vs, e) = h d us (mem_here d ds) in
    rw e (visit_each-Returns go ds vs (λ k ws m. h k ws (mem_there d k ds m)))

module _ (graph : List Node) (acyclic : IsAcyclic graph)
    (closed : (a b : String)
      → mem b (dependencies_in graph a) ≡ true
      → mem b (ids graph) ≡ true) where
  -- The nodes that are being visited lead to the node that comes next.
  abbrev Leads : List String → String → Type 0
  Leads visiting node = (p : String) → mem p visiting ≡ true → Depends graph p node

  chain_on :
      (visiting : List String) (node d : String)
      → Leads visiting node
      → mem d (dependencies_in graph node) ≡ true
      → Leads (node ∷ visiting) d
  chain_on visiting node d leads e p m = elim (mem-cons node p visiting m) [
    | inl same ↦ subst (λ q. Depends graph q d) same (direct node d e)
    | inr old ↦ extended graph p node d (leads p old) e
  ]

  visit-Returns :
      (room : ℕ) (visiting : List String) (node : String) (us : List String)
      → length (ids graph) < room + length visiting
      → is_distinct visiting ≡ true
      → is_subset visiting (ids graph) ≡ true
      → mem node (ids graph) ≡ true
      → Leads visiting node
      → Returns (visit room graph visiting node us)
  unfolding visit is_distinct is_subset
  visit-Returns zero visiting node us room_left distinct known m leads =
      absurd (omega (arith, length_le visiting (ids graph) distinct known))
  visit-Returns (suc room) visiting node us room_left distinct known m leads =
      elim (Bool-cases (mem node visiting)) [
        | inl e ↦ absurd (acyclic node (leads node e))
        | inr e ↦ elim (Bool-cases (mem node us)) [
          | inl f ↦ rw (e, f) (us, refl)
          | inr f ↦
              let (vs, r) =
                visit_each-Returns (visit room graph (node ∷ visiting)) (dependencies_in graph node)
                  us
                  λ d ws edge.
                    visit-Returns room (node ∷ visiting) d ws (omega arith)
                      (ground (arith, e, distinct)) (ground (arith, m, known)) (closed node d edge)
                      (chain_on visiting node d leads edge) in
              rw (e, f, r) (node ∷ vs, refl)
        ]
      ]

  search_cycle_total : (room : ℕ) → length (ids graph) < room → Returns (search_cycle room graph)
  unfolding search_cycle is_distinct is_subset mem
  search_cycle_total room h =
      visit_each-Returns (visit room graph []) (ids graph) []
        λ d us m. visit-Returns room [] d us (omega arith) refl refl m (λ p e. cc e)

each_known :
    (graph : List Node) (known : List String) (a b : String)
    → All (λ n. is_subset n.dependencies known ≡ true) graph
    → mem b (dependencies_in graph a) ≡ true
    → mem b known ≡ true
unfolding dependencies_in mem
each_known [] known a b h m = cc m
each_known (n ∷ graph) known a b h m = elim (Bool-cases (str_eq n.id a)) [
  | inl e ↦ mem-is_subset b n.dependencies known (ground (arith, e, m)) h.0
  | inr e ↦ each_known graph known a b h.1 (ground (arith, e, m))
]

-- Where children depend on children of the plan only and Python's stack has room for a chain of all of
-- them, the search for cycles ends without an error exactly when no child needs itself, directly or
-- through others.
pub search_cycle_iff :
    (graph : List Node) (room : ℕ)
    → All (λ n. is_subset n.dependencies (ids graph) ≡ true) graph
    → length (ids graph) < room
    → ((visited : List String) × (search_cycle room graph ≡ ok visited)) ↔ IsAcyclic graph
search_cycle_iff graph room known h = (
  λ r. search_cycle-IsAcyclic graph room r.0 r.1,
  λ acyclic.
      search_cycle_total graph acyclic (λ a b m. each_known graph (ids graph) a b known m) room h,
)
