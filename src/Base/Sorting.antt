-- ===== src/Base/Sorting.antt =====
-- What is sorted by a strict weak order is in order.
use mathlib.Core.Path.{◌≡◌}
use mathlib.Core.Bool.{Bool, true, false}
use mathlib.Core.List.{List, [], ◌∷◌}
use boring_orch_agent.Base.Tests.{if_split}
use boring_orch_agent.Base.Evolve.{All}
use boring_orch_agent.Base.Queries.{insert_by, sort_by, All-insert_by, All-map}

-- No row stands behind one that it comes before.
abbrev pub Sorted {ℓ} : {A : Type ℓ} → (A → A → Bool) → List A → Type 0
Sorted before [] = Unit
Sorted before (x ∷ xs) = All (λ y. before y x ≡ false) xs × Sorted before xs

module _ {ℓ} {A : Type ℓ} (before : A → A → Bool)
    (asym : (a b : A) → before a b ≡ true → before b a ≡ false)
    (weak : (a b c : A) → before b a ≡ false → before c b ≡ false → before c a ≡ false) where
  insert_by-Sorted :
      (x : A) (ys : List A) → Sorted before ys → Sorted before (insert_by before x ys)
  unfolding insert_by
  insert_by-Sorted x [] s = (tt, tt)
  insert_by-Sorted x (y ∷ ys) s =
      if_split (λ zs. Sorted before zs) (before y x)
        (λ first. (
          All-insert_by (λ z. before z y ≡ false) before x ys (asym y x first) s.0,
          insert_by-Sorted x ys s.1,
        ))
        (λ last. (
          (
            last,
            All-map (λ z. before z y ≡ false) (λ z. before z x ≡ false) (λ z h. weak x y z last h)
                ys s.0,
          ),
          s,
        ))

  pub sort_by-Sorted : (xs : List A) → Sorted before (sort_by before xs)
  unfolding sort_by
  sort_by-Sorted [] = tt
  sort_by-Sorted (x ∷ xs) = insert_by-Sorted x (sort_by before xs) (sort_by-Sorted xs)
