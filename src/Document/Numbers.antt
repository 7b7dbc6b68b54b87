-- ===== src/Document/Numbers.antt =====
-- What number and the parts of a task document let through: the bounds of boring_agent/model.py.
use boring_orch_agent.Base.{
  ℕ, ◌≤◌, ◌≡◌, refl, Bool, true, false, Option, none, some, arith, ◌&&◌, not, List, [], ◌∷◌, String,
}
use boring_orch_agent.Schema.{Result, Post, invalid_request, raise_if, Runtime}
use boring_orch_agent.Document.Json.{
  Number, whole, Json, null, bool, num, str, arr, obj, nil, cons, end, is_at_most, field_or, get,
  is_subset, mem,
}
use boring_orch_agent.Document.Checks.{
  fields, number_in, integer, optional, as_int, as_list, as_bool, as_text, as_object, texts, demand,
}
use boring_orch_agent.Document.Coddy.{tenth, hundredth, is_llm}
use boring_orch_agent.Document.Ensures.{Ensures, raises, returns, step, any, Post-Ensures}
use boring_orch_agent.Document.Parts.{
  Budget, RetryPolicy, Demo, WorkflowOptions, budget_of, budget_fields, retry_of, retry_fields,
  demo_of, has_no_fields, workflow_of, workflow_fields, limit_of, texts_in,
}

-- low <= x <= high
abbrev pub Within : Number → Number → Number → Type 0
Within low high x = (is_at_most low x ≡ true) × (is_at_most x high ≡ true)

abbrev pub Between : ℕ → ℕ → ℕ → Type 0
Between low high n = (low ≤ n) × (n ≤ high)

-- Of an optional value, where it is there.
abbrev pub Given {ℓ κ} : {A : Type ℓ} → (A → Type κ) → Option A → Type κ
Given P none = Unit
Given P (some a) = P a

pub number_in-Within :
    (low high : Number) (j : Json) → Ensures (Within low high) (number_in low high j)
unfolding number_in
number_in-Within low high j = Post-Ensures (Within low high) (number_in low high j) (ground arith)

as_int-Between :
    (low high : ℕ) (x : Number)
    → Within (whole low) (whole high) x
    → Post (Between low high) (as_int x)
unfolding is_at_most
as_int-Between low high x h = ground arith

pub integer-Between : (low high : ℕ) (j : Json) → Ensures (Between low high) (integer low high j)
unfolding integer
integer-Between low high j =
    step (number_in-Within (whole low) (whole high) j)
      (λ x h. Post-Ensures (Between low high) (as_int x) (as_int-Between low high x h))

pub optional-Given {ℓ κ} :
    {A : Type ℓ} (P : A → Type κ) (check : Json → Result A)
    → ((j : Json) → Ensures P (check j))
    → (j : Json) → Ensures (Given P) (optional check j)
unfolding optional
optional-Given P check h null = returns none tt
optional-Given P check h j = step (h j) (λ a p. returns (some a) p)

pub optional-Between :
    (low high : ℕ) (j : Json) → Ensures (Given (Between low high)) (optional (integer low high) j)
optional-Between low high =
    optional-Given (Between low high) (integer low high) (integer-Between low high)

pub demanded : (b : Bool) → Ensures (λ _. b ≡ true) (demand b)
demanded true = returns tt refl
demanded false = raises invalid_request

abbrev pub IsBudget : Budget → Type 0
IsBudget b =
    Within tenth (whole 86400) b.deadline_seconds
    × Within tenth (whole 86400) b.attempt_seconds
    × Between 64 10485760 b.max_output_bytes
    × Given (Between 1 1000000000) b.max_tokens
    × Between 1 100 b.max_steps
    × Within tenth (whole 300) b.request_seconds
    × Between 1 65536 b.output_tokens

pub budget_of-IsBudget : (j : Json) → Ensures IsBudget (budget_of j)
unfolding budget_of
budget_of-IsBudget j = step (any (fields budget_fields j)) λ raw _.
    step (number_in-Within tenth (whole 86400) (field_or "deadline_seconds" (num (whole 600)) raw))
      λ a ha.
        step
          (number_in-Within tenth (whole 86400) (field_or "attempt_seconds" (num (whole 300)) raw))
          λ b hb.
            step
              (integer-Between 64 10485760 (field_or "max_output_bytes" (num (whole 1048576)) raw))
              λ c hc. step (optional-Between 1 1000000000 (field_or "max_tokens" null raw)) λ d hd.
                step (integer-Between 1 100 (field_or "max_steps" (num (whole 12)) raw)) λ e he.
                  step
                    (number_in-Within tenth (whole 300)
                      (field_or "request_seconds" (num (whole 60)) raw))
                    λ f hf.
                      step
                        (integer-Between 1 65536 (field_or "output_tokens" (num (whole 2048)) raw))
                        λ g hg. returns _ (ha, hb, hc, hd, he, hf, hg)

abbrev pub IsRetryPolicy : RetryPolicy → Type 0
IsRetryPolicy r =
    Between 1 10 r.max_attempts
    × Within hundredth (whole 3600) r.backoff_seconds
    × (is_subset r.on ("transient" ∷ "validation" ∷ []) ≡ true)

pub texts_in-is_subset :
    (allowed : List String) (j : Json)
    → Ensures (λ chosen. is_subset chosen allowed ≡ true) (texts_in allowed j)
unfolding texts_in
texts_in-is_subset allowed j = step (any (as_list j)) λ items _.
    step (any (texts items))
      λ chosen _. step (demanded (is_subset chosen allowed)) λ _ h. returns chosen h

pub retry_of-IsRetryPolicy : (j : Json) → Ensures IsRetryPolicy (retry_of j)
unfolding retry_of
retry_of-IsRetryPolicy j = step (any (fields retry_fields j)) λ raw _.
    step (integer-Between 1 10 (field_or "max_attempts" (num (whole 1)) raw)) λ a ha.
      step
        (number_in-Within hundredth (whole 3600) (field_or "backoff_seconds" (num (whole 1)) raw))
        λ b hb. step (any (as_bool (field_or "replay_safe" (bool false) raw))) λ c _.
          step
            (texts_in-is_subset ("transient" ∷ "validation" ∷ [])
              (field_or "on" (arr (cons (str "transient") nil)) raw))
            λ d hd. returns _ (ha, hb, hd)

abbrev pub IsDemo : Demo → Type 0
IsDemo d = Within (whole 0) (whole 3600) d.delay_seconds × Between 0 10 d.fail_attempts

pub demo_of-IsDemo : (runtime : Runtime) (j : Json) → Ensures IsDemo (demo_of runtime j)
unfolding demo_of
demo_of-IsDemo runtime j =
    step (any (fields ("delay_seconds" ∷ "fail_attempts" ∷ "failure_kind" ∷ "result" ∷ []) j))
      λ raw _.
        step (any (raise_if (not (has_no_fields raw) && is_llm runtime) invalid_request)) λ _ _.
          step (number_in-Within (whole 0) (whole 3600) (field_or "delay_seconds" (num tenth) raw))
            λ a ha.
              step (integer-Between 0 10 (field_or "fail_attempts" (num (whole 0)) raw)) λ b hb.
                step (any (as_text (field_or "failure_kind" (str "transient") raw))) λ c _.
                  step (any (demand (mem c ("transient" ∷ "permanent" ∷ []))))
                    λ _ _. returns _ (ha, hb)

-- What the explicit limits of a workflow are bounded by; the defaults come from the task's own parts.
abbrev pub IsWorkflow : WorkflowOptions → Type 0
IsWorkflow w =
    Given (Between 1 1000) w.max_children
    × Given (Between 1 1000000000) w.max_tokens
    × Given (Between 1 1000) w.max_attempts
    × Given (Between 1 1000000000) w.planner_context_threshold

limit_of-Given :
    (high : ℕ) (default : Option ℕ) (j : Option Json)
    → Given (Between 1 high) default
    → Ensures (Given (Between 1 high)) (limit_of high default j)
unfolding limit_of
limit_of-Given high default none h = returns default h
limit_of-Given high default (some j) h = optional-Between 1 high j

pub workflow_of-IsWorkflow :
    (b : Budget) (r : RetryPolicy) (j : Json)
    → IsBudget b
    → IsRetryPolicy r
    → Ensures IsWorkflow (workflow_of b r j)
unfolding workflow_of
workflow_of-IsWorkflow b r j hb hr = step (any (fields workflow_fields j)) λ raw _.
    step (any (as_bool (field_or "enabled" (bool true) raw))) λ e _.
      step (limit_of-Given 1000 (some 100) (get "max_children" raw) (omega arith)) λ c hc.
        step (limit_of-Given 1000000000 b.max_tokens (get "max_tokens" raw) hb.3) λ t ht.
          step (limit_of-Given 1000 (some r.max_attempts) (get "max_attempts" raw) (omega arith))
            λ a ha.
              step (limit_of-Given 1000000000 none (get "planner_context_threshold" raw) tt) λ p hp.
                step (any (as_object (field_or "planner" (obj end) raw))) λ planner _.
                  step
                    (any (
                      fields ("objective" ∷ "runtime" ∷ "demo" ∷ "budget" ∷ "model" ∷ "tools" ∷ [])
                        (obj planner)))
                    λ q _.
                      step (any (as_object (field_or "authority" (obj end) raw)))
                        λ u _. returns _ (hc, ht, ha, hp)
