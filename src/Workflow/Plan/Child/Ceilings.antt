-- ===== src/Workflow/Plan/Child/Ceilings.antt =====
-- The budget that _child_spec of boring_agent/workflows.py hands to a child.
use boring_orch_agent.Base.{
  ℕ, ◌≤◌, ◌≡◌, refl, Bool, true, false, Option, none, some, List, [], ◌∷◌, String, arith, not, ◌&&◌,
  str_eq, All, get_or, inl, inr, Option-cases,
}
use boring_orch_agent.Schema.{raise_if, invalid_request}
use boring_orch_agent.Document.Json.{
  Number, whole, Json, null, num, Fields, field_or, get, is_null, is_at_most,
}
use boring_orch_agent.Document.Coddy.{tenth}
use boring_orch_agent.Document.Parts.{Budget}
use boring_orch_agent.Document.Written.{budget_entries, of_int, or_null}
use boring_orch_agent.Document.Numbers.{Within, IsBudget}
use boring_orch_agent.Document.Ensures.{Ensures, step, any, weakened}
use boring_orch_agent.Document.Authority.{never_raised}
use boring_orch_agent.Document.Reads.{ReadsBudget}
use boring_orch_agent.Workflow.Plan.Merge.{
  overlay, has, first_of, get-overlay, get-set_field, exceeds_number,
}
use boring_orch_agent.Workflow.Plan.Child.{
  check_budget, any_above, is_above, ceilings, with_share, share_within,
}

-- A ceiling that the root has, the child has too, and no higher.
abbrev pub NoMore : Option ℕ → Option ℕ → Type 0
NoMore child none = Unit
NoMore none (some c) = ⊥
NoMore (some n) (some c) = n ≤ c

abbrev pub IsWithinBudget : Budget → Budget → Type 0
IsWithinBudget root b =
    (is_at_most b.deadline_seconds root.deadline_seconds ≡ true)
    × (is_at_most b.attempt_seconds root.attempt_seconds ≡ true)
    × (b.max_output_bytes ≤ root.max_output_bytes)
    × NoMore b.max_tokens root.max_tokens
    × (b.max_steps ≤ root.max_steps)
    × (is_at_most b.request_seconds root.request_seconds ≡ true)
    × (b.output_tokens ≤ root.output_tokens)

not_exceeded :
    (high x c : Number) → Within tenth high x → exceeds_number x c ≡ false → is_at_most x c ≡ true
unfolding exceeds_number is_at_most
not_exceeded high x c w h = ground arith

whole_not_exceeded : (n c : ℕ) → exceeds_number (whole n) (whole c) ≡ false → n ≤ c
unfolding exceeds_number is_at_most
whole_not_exceeded n c h = ground arith

value_below :
    (o : Option Json) (default : Json) (c x : Number)
    → is_above (get_or (first_of o (some (num c))) null) (num c) ≡ false
    → get_or (first_of o (some (num c))) default ≡ num x
    → exceeds_number x c ≡ false
unfolding is_above
value_below none default c x low reads = ground arith
value_below (some v) default c x low reads = rw reads at low

-- What the child has for max_tokens, by its share and what it asks for.
abbrev shared : Option ℕ → Option Json → Option ℕ → Option Json
shared none o r = first_of o (some (or_null of_int r))
shared (some s) none r = some (share_within s r)
shared (some s) (some v) r = some v

tokens_below :
    (share : Option ℕ) (o : Option Json) (r b : Option ℕ)
    → (not (is_null (or_null of_int r))
        && is_null (get_or (first_of o (some (or_null of_int r))) null))
      ≡ false
    → is_above (get_or (first_of o (some (or_null of_int r))) null) (or_null of_int r) ≡ false
    → get_or (shared share o r) null ≡ or_null of_int b
    → NoMore b r
unfolding is_above exceeds_number is_at_most share_within
tokens_below share o r b kept low reads = ground arith

abbrev NotAbove : Fields → Fields → String → Type 0
NotAbove fs root k = is_above (field_or k null fs) (field_or k null root) ≡ false

any_above-All :
    (ks : List String) (fs root : Fields) → any_above ks fs root ≡ false → All (NotAbove fs root) ks
unfolding any_above
any_above-All [] fs root h = tt
any_above-All (k ∷ ks) fs root h = (ground (arith, h), any_above-All ks fs root (ground (arith, h)))

module _ (root : Budget) (given : Fields) (share : Option ℕ) where
  abbrev merged : Fields
  merged = overlay (budget_entries root) given

  abbrev handed : Fields
  handed = with_share share root given merged

  get-with_share : (k : String) → str_eq "max_tokens" k ≡ false → get k handed ≡ get k merged
  unfolding with_share
  get-with_share k n = elim (Option-cases share) [
    | inl e ↦ rw (e, with_share) refl
    | inr (s, e) ↦
        rw (e, with_share)
          (ground (arith, n, get-set_field k "max_tokens" (share_within s root.max_tokens) merged))
  ]

  handed_below :
      (k : String) (default : Json) (c x : Number)
      → str_eq "max_tokens" k ≡ false
      → get k (budget_entries root) ≡ some (num c)
      → is_above (field_or k null merged) (field_or k null (budget_entries root)) ≡ false
      → field_or k default handed ≡ num x
      → exceeds_number x c ≡ false
  unfolding is_above
  handed_below k default c x n has_root low reads =
      let found : get k merged ≡ first_of (get k given) (some (num c)) =
        rw has_root at (get-overlay k (budget_entries root) given) in
      value_below (get k given) default c x (rw (found, has_root) at low)
        (rw (get-with_share k n, found) at reads)

  root_tokens : get "max_tokens" (budget_entries root) ≡ some (or_null of_int root.max_tokens)
  unfolding get budget_entries
  root_tokens = refl

  merged_tokens :
      get "max_tokens" merged
      ≡ first_of (get "max_tokens" given) (some (or_null of_int root.max_tokens))
  merged_tokens = rw root_tokens at (get-overlay "max_tokens" (budget_entries root) given)

  get-handed_tokens :
      get "max_tokens" handed ≡ shared share (get "max_tokens" given) root.max_tokens
  unfolding with_share
  get-handed_tokens = elim (Option-cases share) [
    | inl e ↦ rw (e, with_share) merged_tokens
    | inr (s, e) ↦
        rw (e, with_share)
          (elim (Option-cases (get "max_tokens" given)) [
            | inl f ↦
                rw f
                  (get-set_field "max_tokens" "max_tokens" (share_within s root.max_tokens) merged)
            | inr (v, f) ↦ rw f (rw f at merged_tokens)
          ])
  ]

  handed_tokens :
      (b : Option ℕ)
      → (not (is_null (field_or "max_tokens" null (budget_entries root)))
          && is_null (field_or "max_tokens" null merged))
        ≡ false
      → is_above
          (field_or "max_tokens" null merged)
          (field_or "max_tokens" null (budget_entries root))
        ≡ false
      → field_or "max_tokens" null handed ≡ or_null of_int b
      → NoMore b root.max_tokens
  handed_tokens b kept low reads =
      tokens_below share (get "max_tokens" given) root.max_tokens b
        (rw (root_tokens, merged_tokens) at kept) (rw (root_tokens, merged_tokens) at low)
        (rw get-handed_tokens at reads)

  within_budget :
      (b : Budget)
      → IsBudget b
      → ReadsBudget handed b
      → (not (is_null (field_or "max_tokens" null (budget_entries root)))
          && is_null (field_or "max_tokens" null merged))
        ≡ false
      → All (NotAbove merged (budget_entries root)) ceilings
      → IsWithinBudget root b
  unfolding budget_entries get
  within_budget b ok_b reads kept low = (
    not_exceeded _ _ _ ok_b.0
        (handed_below "deadline_seconds" _ root.deadline_seconds _ refl refl low.0 reads.0),
    not_exceeded _ _ _ ok_b.1
        (handed_below "attempt_seconds" _ root.attempt_seconds _ refl refl low.1.0 reads.1),
    whole_not_exceeded _ _ (
        handed_below "max_output_bytes" _ (whole root.max_output_bytes) _ refl refl low.1.1.1.0
          reads.2),
    handed_tokens b.max_tokens kept low.1.1.1.1.1.1.0 reads.3,
    whole_not_exceeded _ _
        (handed_below "max_steps" _ (whole root.max_steps) _ refl refl low.1.1.0 reads.4),
    not_exceeded _ _ _ ok_b.5
        (handed_below "request_seconds" _ root.request_seconds _ refl refl low.1.1.1.1.0 reads.5),
    whole_not_exceeded _ _ (
        handed_below "output_tokens" _ (whole root.output_tokens) _ refl refl low.1.1.1.1.1.0
          reads.6),
  )

  -- A budget that the comparison lets through and that is then accepted is within the root's.
  pub check_budget-IsWithinBudget :
      (workflow_bounded : Bool)
      → Ensures
          (λ _. (b : Budget) → IsBudget b → ReadsBudget handed b → IsWithinBudget root b)
          (check_budget workflow_bounded (budget_entries root) given merged)
  unfolding check_budget
  check_budget-IsWithinBudget workflow_bounded =
      step
        (never_raised (
          not (is_null (field_or "max_tokens" null (budget_entries root)))
          && is_null (field_or "max_tokens" null merged)))
        λ _ kept.
          step
            (any (
              raise_if
                (workflow_bounded
                  && has "max_tokens" given
                  && is_null (field_or "max_tokens" null given))
                invalid_request))
            λ _ _.
              weakened (never_raised (any_above ceilings merged (budget_entries root)))
                λ _ low b ok_b reads.
                  within_budget b ok_b reads kept
                    (any_above-All ceilings merged (budget_entries root) low)
