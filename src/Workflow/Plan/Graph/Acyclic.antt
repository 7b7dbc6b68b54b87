-- ===== src/Workflow/Plan/Graph/Acyclic.antt =====
-- A search of boring_agent/workflows.py that ends without an error has met no dependency cycle.
use boring_orch_agent.Base.{
  ℕ, zero, suc, String, true, List, [], ◌∷◌, ◌≡◌, refl, inl, inr, if_split, arith,
}
use boring_orch_agent.Schema.{Result, ok, invalid_request}
use boring_orch_agent.Document.Json.{mem, is_subset}
use boring_orch_agent.Document.Ensures.{Ensures, raises, returns, step, ensured, weakened}
use boring_orch_agent.Workflow.Plan.Graph.{
  Node, dependencies_in, visit_each, visit, ids, search_cycle,
}
use boring_orch_agent.Workflow.Plan.Graph.Depends.{
  Depends, direct, through, IsAcyclic, Keeps, mem-is_subset, mem_here, mem_there, mem-cons,
}

cons_subset :
    (d : String) (ds us : List String)
    → mem d us ≡ true
    → is_subset ds us ≡ true
    → is_subset (d ∷ ds) us ≡ true
unfolding is_subset
cons_subset d ds us m s = ground (arith, m, s)

nil_subset : (us : List String) → is_subset [] us ≡ true
unfolding is_subset
nil_subset us = refl

named :
    (graph : List Node) (a b : String)
    → mem b (dependencies_in graph a) ≡ true
    → mem a (ids graph) ≡ true
unfolding mem dependencies_in ids
named [] a b m = cc m
named (n ∷ graph) a b m = ground (arith, m, named graph a b)

module _ (graph : List Node) where
  -- Every visited node stands in front of what it needs.
  abbrev Settled : List String → Type 0
  Settled [] = Unit
  Settled (n ∷ v) = (is_subset (dependencies_in graph n) v ≡ true) × Settled v

  abbrev After : List String → List String → List String → Type 0
  After ns us vs = Settled vs × Keeps us vs × (is_subset ns vs ≡ true)

  visit_each-After :
      (go : String → List String → Result (List String))
      → ((d : String) (us : List String) → Settled us → Ensures (After (d ∷ []) us) (go d us))
      → (ds us : List String) → Settled us
      → Ensures (After ds us) (visit_each go ds us)
  unfolding visit_each is_subset
  visit_each-After go h [] us s = returns us (s, (λ k m. m), refl)
  visit_each-After go h (d ∷ ds) us s = step (h d us s) λ vs hv.
      weakened (visit_each-After go h ds vs hv.0) λ ws hw. (
        hw.0,
        (λ k m. hw.1 k (hv.1 k m)),
        cons_subset d ds ws (hw.1 d (mem-is_subset d (d ∷ []) vs (mem_here d []) hv.2)) hw.2,
      )

  -- A node is settled in front of what it needs.
  settle_node :
      (node : String) (us vs : List String)
      → After (dependencies_in graph node) us vs
      → After (node ∷ []) us (node ∷ vs)
  settle_node node us vs h = (
    (h.2, h.0),
    (λ k m. mem_there node k vs (h.1 k m)),
    cons_subset node [] (node ∷ vs) (mem_here node vs) (nil_subset (node ∷ vs)),
  )

  visit-After :
      (room : ℕ) (visiting : List String) (node : String) (us : List String)
      → Settled us
      → Ensures (After (node ∷ []) us) (visit room graph visiting node us)
  unfolding visit
  visit-After zero visiting node us s = raises invalid_request
  visit-After (suc room) visiting node us s =
      if_split (Ensures (After (node ∷ []) us)) (mem node visiting) (λ _. raises invalid_request)
        λ _.
          if_split (Ensures (After (node ∷ []) us)) (mem node us)
            (λ old. returns us (s, (λ k m. m), cons_subset node [] us old (nil_subset us)))
            λ _.
              step
                (visit_each-After (visit room graph (node ∷ visiting))
                  (visit-After room (node ∷ visiting)) (dependencies_in graph node) us s)
                λ vs h. returns (node ∷ vs) (settle_node node us vs h)

  mem_of_edge :
      (v : List String) (a b : String)
      → Settled v
      → mem a v ≡ true
      → mem b (dependencies_in graph a) ≡ true
      → mem b v ≡ true
  unfolding mem
  mem_of_edge [] a b s m e = cc m
  mem_of_edge (n ∷ v) a b s m e = elim (mem-cons n a v m) [
    | inl same ↦ mem_there n b v (mem-is_subset b (dependencies_in graph n) v (rw same e) s.0)
    | inr old ↦ mem_there n b v (mem_of_edge v a b s.1 old e)
  ]

  -- What a settled node needs is settled.
  Depends-mem :
      (v : List String) {a c : String}
      → Settled v
      → Depends graph a c
      → mem a v ≡ true
      → mem c v ≡ true
  Depends-mem v s (direct a b e) m = mem_of_edge v a b s m e
  Depends-mem v s (through a b c e d) m = Depends-mem v s d (mem_of_edge v a b s m e)

  -- So is what a node needs that stands in front of a settled list.
  mem_of_need :
      (v : List String) {a c : String}
      → Settled v
      → Depends graph a c
      → is_subset (dependencies_in graph a) v ≡ true
      → mem c v ≡ true
  mem_of_need v s (direct a b e) h = mem-is_subset b (dependencies_in graph a) v e h
  mem_of_need v s (through a b c e d) h =
      Depends-mem v s d (mem-is_subset b (dependencies_in graph a) v e h)

  Settled-acyclic :
      (v : List String) (a : String) → Settled v → mem a v ≡ true → ¬ (Depends graph a a)
  unfolding mem
  Settled-acyclic [] a s m d = cc m
  Settled-acyclic (n ∷ v) a s m d = elim (mem-cons n a v m) [
    | inl same ↦ Settled-acyclic v a s.1 (mem_of_need v s.1 d (rw same at s.0)) d
    | inr old ↦ Settled-acyclic v a s.1 old d
  ]

  -- A name that is no child needs nothing.
  Depends-ids : {a c : String} → Depends graph a c → mem a (ids graph) ≡ true
  Depends-ids (direct a b e) = named graph a b e
  Depends-ids (through a b c e d) = named graph a b e

  pub search_cycle-IsAcyclic :
      (room : ℕ) (visited : List String) → search_cycle room graph ≡ ok visited → IsAcyclic graph
  unfolding search_cycle
  search_cycle-IsAcyclic room visited h a d =
      let after =
        ensured visited
          (visit_each-After (visit room graph []) (visit-After room []) (ids graph) [] tt) h in
      Settled-acyclic visited a after.0
        (mem-is_subset a (ids graph) visited (Depends-ids d) after.2) d
