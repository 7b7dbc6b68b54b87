-- ===== src/Base/Membership.antt =====
-- Which rows a query keeps: those that pass its test, whatever the order.
use mathlib.Core.Path.{◌≡◌, subst, sym}
use mathlib.Core.Logic.{◌⊎◌, ◌↔◌, inl, inr}
use mathlib.Core.Bool.{Bool, true}
use mathlib.Core.List.{List, [], ◌∷◌}
use boring_orch_agent.Base.Tests.{Bool-cases}
use boring_orch_agent.Base.Queries.{keep_if, insert_by, sort_by}

-- The row is in the table.
abbrev pub Occurs : {A : Type 0} → A → List A → Type 0
Occurs x [] = ⊥
Occurs x (y ∷ ys) = (x ≡ y) ⊎ Occurs x ys

module _ {A : Type 0} (x : A) where
  module _ (p : A → Bool) where
    kept_in : (xs : List A) → Occurs x (keep_if p xs) → Occurs x xs × (p x ≡ true)
    unfolding keep_if
    kept_in [] h = absurd h
    kept_in (y ∷ ys) h = elim (Bool-cases (p y)) [
      | inl e ↦ elim (rw (e, keep_if) at h) [
        | inl same ↦ (inl same, subst (λ z. p z ≡ true) (sym same) e)
        | inr i ↦ let (there, q) = kept_in ys i in (inr there, q)
      ]
      | inr e ↦ let (there, q) = kept_in ys (rw (e, keep_if) at h) in (inr there, q)
    ]

    in_kept : (xs : List A) → Occurs x xs → p x ≡ true → Occurs x (keep_if p xs)
    unfolding keep_if
    in_kept [] h q = absurd h
    in_kept (y ∷ ys) (inl same) q = rw (subst (λ z. p z ≡ true) same q, keep_if) (inl same)
    in_kept (y ∷ ys) (inr i) q = elim (Bool-cases (p y)) [
      | inl e ↦ rw (e, keep_if) (inr (in_kept ys i q))
      | inr e ↦ rw (e, keep_if) (in_kept ys i q)
    ]

  module _ (before : A → A → Bool) where
    inserted_in : (y : A) (ys : List A) → Occurs x (insert_by before y ys) → Occurs x (y ∷ ys)
    unfolding insert_by
    inserted_in y [] h = h
    inserted_in y (z ∷ zs) h = elim (Bool-cases (before z y)) [
      | inl e ↦ elim (rw (e, insert_by) at h) [
        | inl same ↦ inr (inl same)
        | inr i ↦ elim (inserted_in y zs i) [ inl same ↦ inl same | inr there ↦ inr (inr there) ]
      ]
      | inr e ↦ rw (e, insert_by) at h
    ]

    in_inserted : (y : A) (ys : List A) → Occurs x (y ∷ ys) → Occurs x (insert_by before y ys)
    unfolding insert_by
    in_inserted y [] h = h
    in_inserted y (z ∷ zs) h = elim (Bool-cases (before z y)) [
      | inl e ↦ elim h [
        | inl same ↦ rw (e, insert_by) (inr (in_inserted y zs (inl same)))
        | inr there ↦ elim there [
          | inl same ↦ rw (e, insert_by) (inl same)
          | inr i ↦ rw (e, insert_by) (inr (in_inserted y zs (inr i)))
        ]
      ]
      | inr e ↦ rw (e, insert_by) h
    ]

    sorted_in : (ys : List A) → Occurs x (sort_by before ys) → Occurs x ys
    unfolding sort_by
    sorted_in [] h = h
    sorted_in (y ∷ ys) h = elim (inserted_in y (sort_by before ys) h) [
      | inl same ↦ inl same
      | inr i ↦ inr (sorted_in ys i)
    ]

    in_sorted : (ys : List A) → Occurs x ys → Occurs x (sort_by before ys)
    unfolding sort_by
    in_sorted [] h = h
    in_sorted (y ∷ ys) (inl same) = in_inserted y (sort_by before ys) (inl same)
    in_sorted (y ∷ ys) (inr i) = in_inserted y (sort_by before ys) (inr (in_sorted ys i))

  pub Occurs-sort_by :
      (before : A → A → Bool) (p : A → Bool) (ys : List A)
      → Occurs x (sort_by before (keep_if p ys)) ↔ (Occurs x ys × (p x ≡ true))
  Occurs-sort_by before p ys = (
    λ h. kept_in p ys (sorted_in before (keep_if p ys) h),
    λ h. in_sorted before (keep_if p ys) (in_kept p ys h.0 h.1),
  )
