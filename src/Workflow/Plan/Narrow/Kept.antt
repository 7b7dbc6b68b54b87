-- ===== src/Workflow/Plan/Narrow/Kept.antt =====
-- What a child keeps of the root's coddy block in boring_agent/workflows.py.
use boring_orch_agent.Base.{
  ℕ, ◌≤◌, ◌≡◌, refl, Bool, true, false, Option, none, some, arith, not, ◌||◌, inl, inr, Bool-cases,
  get_or, leb, is_none, Option-cases,
}
use boring_orch_agent.Schema.{Result, ok, invalid_request, uncaught}
use boring_orch_agent.Document.Json.{
  Json, null, bool, num, str, arr, obj, Fields, field_or, get, is_null,
}
use boring_orch_agent.Document.Coddy.{
  Coddy, Mention, PermissionMode, permission_mode_of, permission_mode, known_mode,
}
use boring_orch_agent.Document.Written.{coddy_fields, of_mention, or_null}
use boring_orch_agent.Document.Ensures.{Ensures, returns, raises, step, any, weakened, ensured}
use boring_orch_agent.Document.Authority.{never_raised}
use boring_orch_agent.Document.Numbers.{demanded}
use boring_orch_agent.Workflow.Plan.Merge.{overlay, first_of, get-overlay, set_field, get-set_field}
use boring_orch_agent.Workflow.Plan.Narrow.{
  rank, limit_rank, check_rank, check_mode, narrow_requested, merged_mention, narrow_mention,
  is_other_session,
}

known_within :
    (limit : ℕ) (m : PermissionMode) (mode : Option PermissionMode)
    → leb (rank m) limit ≡ true
    → known_mode (some m) ≡ ok mode
    → limit_rank mode ≤ limit
unfolding known_mode
known_within limit m none h e = cc e
known_within limit m (some n) h e = ground (arith, h, e)

no_rank :
    (limit : ℕ) (mode : Option PermissionMode)
    → ◌≡◌ {A = Result (Option PermissionMode)} (ok none) (ok mode)
    → limit_rank mode ≤ limit
no_rank limit none e = omega arith
no_rank limit (some n) e = cc e

mention_null :
    (o : Option Json) (m : Option Mention)
    → is_null (get_or o null) ≡ true
    → (not (is_none m) || is_null (get_or (first_of o (some (or_null of_mention m))) null)) ≡ true
mention_null o m h = ground (arith, h)

-- A mode that a document may give lies within the limit.
abbrev WithinRank : ℕ → Json → Type 0
WithinRank limit j =
    (mode : Option PermissionMode) → permission_mode j ≡ ok mode → limit_rank mode ≤ limit

check_rank-known :
    (limit : ℕ) (o : Option PermissionMode)
    → Ensures
        (λ _. (mode : Option PermissionMode) → known_mode o ≡ ok mode → limit_rank mode ≤ limit)
        (check_rank limit o)
unfolding check_rank
check_rank-known limit none = raises invalid_request
check_rank-known limit (some m) =
    weakened (demanded (leb (rank m) limit)) λ _ h. λ mode e. known_within limit m mode h e

check_mode-WithinRank :
    (limit : ℕ) (j : Json) → Ensures (λ _. WithinRank limit j) (check_mode limit j)
unfolding check_mode permission_mode
check_mode-WithinRank limit null = returns tt (λ mode h. no_rank limit mode h)
check_mode-WithinRank limit (str s) = check_rank-known limit (permission_mode_of s)
check_mode-WithinRank limit (bool b) = raises invalid_request
check_mode-WithinRank limit (num x) = raises invalid_request
check_mode-WithinRank limit (arr xs) = raises uncaught
check_mode-WithinRank limit (obj fs) = raises uncaught

abbrev SameElsewhere : Fields → Fields → Type 0
SameElsewhere fs gs =
    (get "session" gs ≡ get "session" fs) × (get "permission_mode" gs ≡ get "permission_mode" fs)

abbrev pub no_new_mention : Coddy → Fields → Bool
no_new_mention root fs = not (is_none root.mention) || is_null (field_or "mention" null fs)

root_mention :
    (root : Coddy) → get "mention" (coddy_fields root) ≡ some (or_null of_mention root.mention)
unfolding get coddy_fields
root_mention root = refl

merged_mention-kept :
    (root : Coddy) (requested all : Fields)
    → (is_null (field_or "mention" null requested) ≡ true → no_new_mention root all ≡ true)
    → Ensures
        (λ gs. SameElsewhere all gs × (no_new_mention root gs ≡ true))
        (merged_mention root requested all)
unfolding merged_mention
merged_mention-kept root requested all dropped =
    elim (Bool-cases (is_null (field_or "mention" null requested))) [
      | inl e ↦ rw (e, merged_mention) (returns all ((refl, refl), dropped e))
      | inr e ↦ elim (Option-cases root.mention) [
        | inl none_there ↦ rw (e, none_there, merged_mention) (raises invalid_request)
        | inr (m, there) ↦
            rw (e, there, merged_mention)
              (step (any (narrow_mention root m (field_or "mention" null requested))) λ mention _.
                returns (set_field "mention" (obj mention) all)
                  ((simp get-set_field, simp get-set_field), refl))
      ]
    ]

dropped_mention :
    (root : Coddy) (requested : Fields)
    → is_null (field_or "mention" null requested) ≡ true
    → no_new_mention root (overlay (coddy_fields root) requested) ≡ true
dropped_mention root requested e =
    simp (get-overlay, root_mention root) (mention_null (get "mention" requested) root.mention e)

narrow_requested-steps :
    (root : Coddy) (requested : Fields)
    → Ensures
        (λ gs.
          WithinRank (limit_rank root.permission) (field_or "permission_mode" null gs)
          × (is_other_session (field_or "session" null gs) root.session ≡ false)
          × (no_new_mention root gs ≡ true))
        (narrow_requested root requested)
unfolding narrow_requested
narrow_requested-steps root requested =
    let all = overlay (coddy_fields root) requested in
    step (never_raised (is_other_session (field_or "session" null all) root.session)) λ _ same.
      step
        (check_mode-WithinRank (limit_rank root.permission) (field_or "permission_mode" null all))
        λ _ ranked.
          weakened (merged_mention-kept root requested all (dropped_mention root requested))
            λ gs h. (rw h.0.1 ranked, rw h.0.0 same, h.1)

-- Whatever a child of a plan asks of its coddy block, the block that it gets resumes no session but the
-- root's, has no permission mode above the root's, where a root without a mode counts as ask, and has a
-- mention of a subagent only where the root has one.
pub narrow_requested-kept :
    (root : Coddy) (requested merged : Fields) (mode : Option PermissionMode)
    → narrow_requested root requested ≡ ok merged
    → permission_mode (field_or "permission_mode" null merged) ≡ ok mode
    → (limit_rank mode ≤ limit_rank root.permission)
      × (is_other_session (field_or "session" null merged) root.session ≡ false)
      × (no_new_mention root merged ≡ true)
narrow_requested-kept root requested merged mode accepted granted =
    let (ranked, same, mention) = ensured merged (narrow_requested-steps root requested) accepted in
    (ranked mode granted, same, mention)
