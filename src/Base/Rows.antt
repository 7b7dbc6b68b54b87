-- ===== src/Base/Rows.antt =====
-- A table as the list of its rows, addressed by their primary key.
use Prim.Native.Nat.{ℕ, suc, ◌+◌}
use mathlib.Core.Path.{◌≡◌, refl, ◌∙◌}
use mathlib.Core.Logic.{◌≢◌, inl, inr}
use mathlib.Core.Bool.{Bool, true, false}
use mathlib.Core.Option.{Option, none, some}
use mathlib.Core.List.{List, [], ◌∷◌, ◌++◌}
use native.Mathlib.Omega.{arith}
use boring_orch_agent.Base.Tests.{◌==◌, if◌then◌else◌, eq_self, eq_false, Bool-cases, Option-cases}

-- A row type with its primary key.
pub record Keyed {ℓ} (A : Type ℓ) : Type ℓ where
  pub key : A → ℕ

module _ {ℓ} {A : Type ℓ} ⦃r : Keyed A⦄ where
  -- SELECT * FROM t WHERE id=k
  unfoldable pub find : ℕ → List A → Option A
  find k [] = none
  find k (x ∷ xs) = if r.key x == k then some x else find k xs

  -- UPDATE t SET … WHERE id=k, for a primary key: at most one row changes.
  unfoldable pub modify : ℕ → (A → A) → List A → List A
  modify k f [] = []
  modify k f (x ∷ xs) = if r.key x == k then f x ∷ xs else x ∷ modify k f xs

  -- No two rows share a key.
  abbrev pub Distinct : List A → Type ℓ
  Distinct [] = Unit
  Distinct (x ∷ xs) = (find (r.key x) xs ≡ none) × Distinct xs

  pub key-find : (k : ℕ) (xs : List A) (x : A) → find k xs ≡ some x → r.key x ≡ k
  unfolding find
  key-find k [] x h = cc
  key-find k (y ∷ ys) x h = ground (arith, key-find k ys x)

  pub find_here : (x : A) (xs : List A) → find (r.key x) (x ∷ xs) ≡ some x
  unfolding find
  find_here x xs = rw (eq_self (r.key x))

  pub find_there : (k : ℕ) (x : A) (xs : List A) → r.key x ≢ k → find k (x ∷ xs) ≡ find k xs
  unfolding find
  find_there k x xs h = rw (eq_false (r.key x) k h)

  pub find-append_some :
      (k : ℕ) (xs ys : List A) (x : A) → find k xs ≡ some x → find k (xs ++ ys) ≡ some x
  unfolding find
  find-append_some k [] ys x h = cc
  find-append_some k (z ∷ zs) ys x h = ground (arith, find-append_some k zs ys x)

  pub find-append_none : (k : ℕ) (xs ys : List A) → find k xs ≡ none → find k (xs ++ ys) ≡ find k ys
  unfolding find
  find-append_none k [] ys h = refl
  find-append_none k (z ∷ zs) ys h = ground (arith, find-append_none k zs ys)

  pub Distinct-append :
      (xs : List A) (y : A) → find (r.key y) xs ≡ none → Distinct xs → Distinct (xs ++ y ∷ [])
  unfolding find
  Distinct-append [] y h d = (refl, tt)
  Distinct-append (x ∷ xs) y h d = elim (Bool-cases (r.key x == r.key y)) [
    | inl same ↦ absurd (ground (arith, same, h))
    | inr differ ↦ (
      find-append_none (r.key x) xs (y ∷ []) d.0 ∙ ground (arith, differ),
      Distinct-append xs y (ground (arith, differ, h)) d.1,
    )
  ]

  module _ (f : A → A) (keeps : (a : A) → r.key (f a) ≡ r.key a) where
    pub find-modify_self :
        (k : ℕ) (xs : List A) (x : A) → find k xs ≡ some x → find k (modify k f xs) ≡ some (f x)
    unfolding find modify
    find-modify_self k [] x h = cc
    find-modify_self k (y ∷ ys) x h = ground (arith, keeps y, keeps x, find-modify_self k ys x)

    pub find-modify_ne : (k j : ℕ) (xs : List A) → j ≢ k → find j (modify k f xs) ≡ find j xs
    unfolding find modify
    find-modify_ne k j [] h = refl
    find-modify_ne k j (y ∷ ys) h = ground (arith, keeps y, find-modify_ne k j ys h)

    pub find-modify-none :
        (k j : ℕ) (xs : List A) → find j xs ≡ none → find j (modify k f xs) ≡ none
    unfolding find modify
    find-modify-none k j [] h = refl
    find-modify-none k j (y ∷ ys) h = ground (arith, keeps y, find-modify-none k j ys)

    pub Distinct-modify : (k : ℕ) (xs : List A) → Distinct xs → Distinct (modify k f xs)
    unfolding modify
    Distinct-modify k [] d = tt
    Distinct-modify k (y ∷ ys) d = elim (Bool-cases (r.key y == k)) [
      | inl hit ↦ rw hit (rw (keeps y) d.0, d.1)
      | inr miss ↦ rw miss (find-modify-none k (r.key y) ys d.0, Distinct-modify k ys d.1)
    ]

  pub modify_absent : (k : ℕ) (f : A → A) (xs : List A) → find k xs ≡ none → modify k f xs ≡ xs
  unfolding find modify
  modify_absent k f [] h = refl
  modify_absent k f (y ∷ ys) h = ground (arith, modify_absent k f ys)

module _ {ℓ} {A : Type ℓ} ⦃r : Keyed A⦄ (f : A → A) (keeps : (a : A) → r.key (f a) ≡ r.key a) where
  -- The row that is found behind a change is the changed row.
  pub find-modify_inv :
      (k : ℕ) (xs : List A) (y : A)
      → find k (modify k f xs) ≡ some y
      → (x : A) × (find k xs ≡ some x) × (y ≡ f x)
  find-modify_inv k xs y h = elim (Option-cases (find k xs)) [
    | inl e ↦ cc (h, find-modify-none f keeps k k xs e)
    | inr (x, e) ↦ (x, e, ground (arith, h, find-modify_self f keeps k xs x e))
  ]

-- SELECT count(*) FROM t WHERE p
unfoldable pub count {ℓ} : {A : Type ℓ} → (A → Bool) → List A → ℕ
count p [] = 0
count p (x ∷ xs) = if p x then suc (count p xs) else count p xs

abbrev pub one_if : Bool → ℕ
one_if true = 1
one_if false = 0

module _ {ℓ} {A : Type ℓ} (p : A → Bool) where
  pub count-append : (xs ys : List A) → count p (xs ++ ys) ≡ count p xs + count p ys
  unfolding count
  count-append [] ys = omega arith
  count-append (x ∷ xs) ys = ground (arith, count-append xs ys)

  pub count_single : (x : A) → count p (x ∷ []) ≡ one_if (p x)
  unfolding count
  count_single x = ground arith

  pub count-modify :
      ⦃r : Keyed A⦄ (k : ℕ) (f : A → A) (xs : List A) (x : A)
      → find k xs ≡ some x
      → count p (modify k f xs) + one_if (p x) ≡ count p xs + one_if (p (f x))
  unfolding count find modify
  count-modify ⦃r⦄ k f [] x h = cc
  count-modify ⦃r⦄ k f (y ∷ ys) x h = elim (Bool-cases (r.key y == k)) [
    | inl hit ↦ ground (arith, hit, h)
    | inr miss ↦ rw miss (ground (arith, miss, count-modify k f ys x))
  ]
