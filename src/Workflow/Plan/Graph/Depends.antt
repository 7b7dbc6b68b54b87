-- ===== src/Workflow/Plan/Graph/Depends.antt =====
-- Dependencies between the children of a plan, and sets of names.
use text.Mathlib.TextEquality.{eq_iff}
use boring_orch_agent.Base.{String, true, List, [], ◌∷◌, ◌≡◌, ◌⊎◌, refl, arith}
use boring_orch_agent.Document.Json.{mem, is_subset}
use boring_orch_agent.Workflow.Plan.Graph.{Node, dependencies_in}

-- a needs b, directly or through other children.
pub data Depends (graph : List Node) : String → String → Type 0 where
  direct : (a b : String) → mem b (dependencies_in graph a) ≡ true → Depends graph a b
  through :
      (a b c : String)
      → mem b (dependencies_in graph a) ≡ true
      → Depends graph b c
      → Depends graph a c

abbrev pub IsAcyclic : List Node → Type 0
IsAcyclic graph = (a : String) → ¬ (Depends graph a a)

pub mem-is_subset :
    (k : String) (ks ls : List String) → mem k ks ≡ true → is_subset ks ls ≡ true → mem k ls ≡ true
unfolding mem is_subset
mem-is_subset k [] ls m s = cc m
mem-is_subset k (j ∷ ks) ls m s = ground (arith, m, s, eq_iff j k, mem-is_subset k ks ls)

-- What is in the one is in the other.
abbrev pub Keeps : List String → List String → Type 0
Keeps us vs = (k : String) → mem k us ≡ true → mem k vs ≡ true

pub is_subset-Keeps :
    (ks us vs : List String) → Keeps us vs → is_subset ks us ≡ true → is_subset ks vs ≡ true
unfolding is_subset
is_subset-Keeps [] us vs keeps s = refl
is_subset-Keeps (k ∷ ks) us vs keeps s = ground (arith, s, keeps k, is_subset-Keeps ks us vs keeps)

pub mem_here : (k : String) (ks : List String) → mem k (k ∷ ks) ≡ true
unfolding mem
mem_here k ks = ground (arith, eq_iff k k)

pub mem_there : (j k : String) (ks : List String) → mem k ks ≡ true → mem k (j ∷ ks) ≡ true
unfolding mem
mem_there j k ks m = ground (arith, m)

pub mem-cons :
    (j k : String) (ks : List String) → mem k (j ∷ ks) ≡ true → (j ≡ k) ⊎ (mem k ks ≡ true)
unfolding mem
mem-cons j k ks m = ground (arith, m, eq_iff j k)
