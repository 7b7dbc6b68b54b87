-- ===== src/Manager/Settle/Policy.antt =====
-- The retry policy of a task, and the failure that Manager.settle of boring_agent/manager.py judges by it.
use boring_orch_agent.Base.{
  ℕ, ◌+◌, ◌≡◌, ap, sym, Bool-cases, ◌≢◌, ◌<◌, ◌⊎◌, refl, String, Bool, true, false, Option, none,
  some, List, [], ◌∷◌, arith, and_true, inl, inr, str_eq, ltb-true,
}
use text.Mathlib.TextEquality.{eq_iff}
use boring_orch_agent.Schema.{Task, Attempt, AttemptState, Spec}
use boring_orch_agent.Artifacts.{ResultVerdict}
use boring_orch_agent.Manager.Settle.{
  backoff, may_retry, listed, settled_usage, usage_lost, fits, refuses,
}

-- The kind is one of those that the policy names.
abbrev pub IsNamed : Option String → List String → Type 0
IsNamed kind [] = ⊥
IsNamed kind (k ∷ ks) = (kind ≡ some k) ⊎ IsNamed kind ks

-- A ceiling on tokens, if there is one, is neither reached nor in doubt.
abbrev pub IsWithin : ℕ → Bool → Option ℕ → Type 0
IsWithin used lost none = Unit
IsWithin used lost (some ceiling) = (lost ≡ false) × (used < ceiling)

-- The retry policy is met by a failure of the given kind: replays are declared safe, the policy names
-- the kind, executions are left, the backoff ends before the deadline, and tokens are left.
pub record IsRetriable (task : Task) (attempt : Attempt) (spec : Spec) (now n : ℕ)
    (kind : Option String) : Type 0 where
  pub safe : spec.retry.replay_safe ≡ true
  pub named : IsNamed kind spec.retry.on
  pub bounded : n < spec.retry.max_attempts
  pub in_time : now + backoff spec.retry n < task.deadline
  pub in_budget : IsWithin (settled_usage task attempt) (usage_lost task attempt) spec.max_tokens

listed-IsNamed : (kind : Option String) (ks : List String) → listed kind ks ≡ true → IsNamed kind ks
listed-IsNamed none ks h = cc h
listed-IsNamed (some k) [] h = cc h
listed-IsNamed (some k) (x ∷ xs) h = elim (Bool-cases (str_eq x k)) [
  | inl e ↦ inl (ap some (sym ((eq_iff x k).0 e)))
  | inr e ↦ inr (listed-IsNamed (some k) xs (ground (arith, h, e)))
]

named-listed : (kind : Option String) (ks : List String) → IsNamed kind ks → listed kind ks ≡ true
named-listed kind [] h = absurd h
named-listed none (x ∷ xs) (inl e) = cc e
named-listed none (x ∷ xs) (inr h) = cc (named-listed none xs h)
named-listed (some k) (x ∷ xs) (inl e) =
    let same : x ≡ k = cc e in let hit = (eq_iff x k).1 same in ground (arith, hit)
named-listed (some k) (x ∷ xs) (inr h) = ground (arith, named-listed (some k) xs h)

fits-IsWithin :
    (used : ℕ) (lost : Bool) (o : Option ℕ) → fits used lost o ≡ true → IsWithin used lost o
fits-IsWithin used lost none h = tt
fits-IsWithin used lost (some c) h = ground (arith, h)

within-fits :
    (used : ℕ) (lost : Bool) (o : Option ℕ) → IsWithin used lost o → fits used lost o ≡ true
within-fits used lost none h = refl
within-fits used lost (some c) h = ground (arith, h)

module _ (task : Task) (attempt : Attempt) (spec : Spec) (now n : ℕ) (kind : Option String) where
  pub may_retry-IsRetriable :
      may_retry task spec kind (settled_usage task attempt) (usage_lost task attempt) n now ≡ true
      → IsRetriable task attempt spec now n kind
  unfolding may_retry
  may_retry-IsRetriable h =
      let (h₄, budget) = and_true _ _ h in
      let (h₃, in_time) = and_true _ _ h₄ in
      let (h₂, bounded) = and_true _ _ h₃ in
      let (safe, named) = and_true _ _ h₂ in
      record {
        safe = safe;
        named = listed-IsNamed kind spec.retry.on named;
        bounded = ltb-true _ _ bounded;
        in_time = ltb-true _ _ in_time;
        in_budget = fits-IsWithin _ _ spec.max_tokens budget;
      }

  pub retriable-may_retry :
      IsRetriable task attempt spec now n kind
      → may_retry task spec kind (settled_usage task attempt) (usage_lost task attempt) n now ≡ true
  unfolding may_retry
  retriable-may_retry r =
      let named = named-listed kind spec.retry.on r.named in
      let fit = within-fits _ _ spec.max_tokens r.in_budget in
      ground (arith, r.safe, named, r.bounded, r.in_time, fit)

-- The failure that an attempt settles with: its own error, or that its result was refused.
pub data FailsWith (attempt : Attempt) (verdict : Option ResultVerdict)
    : Option String → Option String → Type 0 where
  unsuccessful :
      attempt.state ≢ AttemptState.succeeded
      → FailsWith attempt verdict attempt.error_kind attempt.error_message
  refused :
      (message : String)
      → attempt.state ≡ AttemptState.succeeded
      → refuses verdict ≡ some message
      → FailsWith attempt verdict (some "validation") (some message)
