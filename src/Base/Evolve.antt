-- ===== src/Base/Evolve.antt =====
-- How the rows of a table change: each old row is related to the row now in its place, and the
-- rows added behind them are of a given kind. A row is never dropped.
use Prim.Native.Nat.{ℕ, ◌≤◌}
use mathlib.Core.Path.{◌≡◌, subst}
use mathlib.Core.Logic.{inl, inr}
use mathlib.Core.Bool.{Bool, true, false}
use mathlib.Core.Option.{some}
use mathlib.Core.List.{List, [], ◌∷◌, ◌++◌}
use native.Mathlib.Omega.{arith}
use boring_orch_agent.Base.Tests.{◌==◌, Bool-cases}
use boring_orch_agent.Base.Rows.{Keyed, find, modify, count}

abbrev pub All {ℓ κ} : {A : Type ℓ} → (A → Type κ) → List A → Type κ
All P [] = Unit
All P (x ∷ xs) = P x × All P xs

module _ {ℓ} {A : Type ℓ} (R : A → A → Type 0) (N : A → Type 0) where
  abbrev pub Grows : List A → List A → Type 0
  Grows [] ys = All N ys
  Grows (x ∷ xs) [] = ⊥
  Grows (x ∷ xs) (y ∷ ys) = R x y × Grows xs ys

  pub Grows-refl : ((a : A) → R a a) → (xs : List A) → Grows xs xs
  Grows-refl same [] = tt
  Grows-refl same (x ∷ xs) = (same x, Grows-refl same xs)

  All-step : ((a b : A) → R a b → N a → N b) → (xs ys : List A) → All N xs → Grows xs ys → All N ys
  All-step keep [] ys h g = g
  All-step keep (x ∷ xs) [] h g = absurd g
  All-step keep (x ∷ xs) (y ∷ ys) h g = (keep x y g.0 h.0, All-step keep xs ys h.1 g.1)

  pub Grows-trans :
      ((a b c : A) → R a b → R b c → R a c)
      → ((a b : A) → R a b → N a → N b)
      → (xs ys zs : List A) → Grows xs ys
      → Grows ys zs
      → Grows xs zs
  Grows-trans tr keep [] ys zs g h = All-step keep ys zs g h
  Grows-trans tr keep (x ∷ xs) [] zs g h = absurd g
  Grows-trans tr keep (x ∷ xs) (y ∷ ys) [] g h = absurd h
  Grows-trans tr keep (x ∷ xs) (y ∷ ys) (z ∷ zs) g h =
      (tr x y z g.0 h.0, Grows-trans tr keep xs ys zs g.1 h.1)

  pub Grows-append : ((a : A) → R a a) → (xs : List A) (y : A) → N y → Grows xs (xs ++ y ∷ [])
  Grows-append same [] y n = (n, tt)
  Grows-append same (x ∷ xs) y n = (same x, Grows-append same xs y n)

  -- The row that `find` returns is the one that `modify` changes.
  pub Grows-modify :
      ⦃r : Keyed A⦄
      → ((a : A) → R a a)
      → (k : ℕ) (f : A → A) (xs : List A) → ((x : A) → find k xs ≡ some x → R x (f x))
      → Grows xs (modify k f xs)
  unfolding find modify
  Grows-modify ⦃r⦄ same k f [] h = tt
  Grows-modify ⦃r⦄ same k f (x ∷ xs) h = elim (Bool-cases (r.key x == k)) [
    | inl hit ↦ rw hit (h x (rw hit), Grows-refl same xs)
    | inr miss ↦ rw miss (same x, Grows-modify same k f xs (λ y e. h y (rw miss e)))
  ]

  -- Where a change never makes `p` true and new rows do not satisfy it, its count cannot grow.
  pub count-Grows :
      (p : A → Bool)
      → ((a b : A) → R a b → p b ≡ true → p a ≡ true)
      → ((a : A) → N a → p a ≡ false)
      → (xs ys : List A) → Grows xs ys
      → count p ys ≤ count p xs
  unfolding count
  count-Grows p back new [] [] g = omega arith
  count-Grows p back new [] (y ∷ ys) g = ground (arith, new y g.0, count-Grows p back new [] ys g.1)
  count-Grows p back new (x ∷ xs) [] g = absurd g
  count-Grows p back new (x ∷ xs) (y ∷ ys) g =
      ground (arith, back x y g.0, count-Grows p back new xs ys g.1)

  -- The row that a key finds later is what became of the row that it found before.
  pub find-Grows :
      ⦃r : Keyed A⦄
      → ((a b : A) → R a b → r.key b ≡ r.key a)
      → (k : ℕ) (xs ys : List A) (x : A) → find k xs ≡ some x
      → Grows xs ys
      → (y : A) × (find k ys ≡ some y) × R x y
  unfolding find
  find-Grows ⦃r⦄ keeps k [] ys x h g = cc
  find-Grows ⦃r⦄ keeps k (z ∷ zs) [] x h g = absurd g
  find-Grows ⦃r⦄ keeps k (z ∷ zs) (y ∷ ys) x h g = elim (Bool-cases (r.key z == k)) [
    | inl hit ↦ (y, rw (keeps z y g.0, hit), subst (λ a. R a y) (ground (arith, h, hit)) g.0)
    | inr miss ↦
        let (u, found, step) = find-Grows keeps k zs ys x (ground (arith, h, miss)) g.1 in
        (u, rw (keeps z y g.0, miss) found, step)
  ]
