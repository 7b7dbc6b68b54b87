-- ===== src/Base/Queries.antt =====
-- SELECT … WHERE … ORDER BY …: filtering and sorting rows, and what they keep.
use Prim.Native.Nat.{ℕ}
use mathlib.Core.Path.{◌≡◌, refl, sym, ◌∙◌}
use mathlib.Core.Logic.{◌≢◌, inl, inr}
use mathlib.Core.Bool.{Bool, true}
use mathlib.Core.Option.{none, some}
use mathlib.Core.List.{List, [], ◌∷◌}
use native.Mathlib.Omega.{arith}
use boring_orch_agent.Base.Tests.{if◌then◌else◌, Bool-cases, if_both}
use boring_orch_agent.Base.Rows.{Keyed, Distinct, find, find_here, find_there}
use boring_orch_agent.Base.Evolve.{All}

unfoldable pub keep_if {ℓ} : {A : Type ℓ} → (A → Bool) → List A → List A
keep_if p [] = []
keep_if p (x ∷ xs) = let rest = keep_if p xs in if p x then x ∷ rest else rest

-- Insertion sort by `before`; it keeps the order of rows that tie.
unfoldable pub insert_by {ℓ} : {A : Type ℓ} → (A → A → Bool) → A → List A → List A
insert_by before x [] = x ∷ []
insert_by before x (y ∷ ys) =
    let rest = insert_by before x ys in if before y x then y ∷ rest else x ∷ y ∷ ys

unfoldable pub sort_by {ℓ} : {A : Type ℓ} → (A → A → Bool) → List A → List A
unfolding insert_by
sort_by before [] = []
sort_by before (x ∷ xs) = insert_by before x (sort_by before xs)

module _ {ℓ κ} {A : Type ℓ} (P : A → Type κ) where
  pub All-keep_if : (p : A → Bool) (xs : List A) → All P xs → All P (keep_if p xs)
  unfolding keep_if
  All-keep_if p [] h = tt
  All-keep_if p (x ∷ xs) h =
      if_both (All P) (p x) (h.0, All-keep_if p xs h.1) (All-keep_if p xs h.1)

  pub All-insert_by :
      (before : A → A → Bool) (x : A) (ys : List A) → P x → All P ys → All P (insert_by before x ys)
  unfolding insert_by
  All-insert_by before x [] hx h = (hx, tt)
  All-insert_by before x (y ∷ ys) hx h =
      if_both (All P) (before y x) (h.0, All-insert_by before x ys hx h.1) (hx, h)

  pub All-sort_by : (before : A → A → Bool) (xs : List A) → All P xs → All P (sort_by before xs)
  unfolding sort_by
  All-sort_by before [] h = tt
  All-sort_by before (x ∷ xs) h =
      All-insert_by before x (sort_by before xs) h.0 (All-sort_by before xs h.1)

-- What is kept passes the test.
pub keep_if_passes {ℓ} :
    {A : Type ℓ} (p : A → Bool) (xs : List A) → All (λ x. p x ≡ true) (keep_if p xs)
unfolding keep_if
keep_if_passes p [] = tt
keep_if_passes p (x ∷ xs) = elim (Bool-cases (p x)) [
  | inl e ↦ rw (e, keep_if) (e, keep_if_passes p xs)
  | inr e ↦ rw (e, keep_if) (keep_if_passes p xs)
]

module _ {ℓ} {A : Type ℓ} ⦃r : Keyed A⦄ where
  pub find-keep_if-none :
      (p : A → Bool) (k : ℕ) (xs : List A) → find k xs ≡ none → find k (keep_if p xs) ≡ none
  unfolding find keep_if
  find-keep_if-none p k [] h = refl
  find-keep_if-none p k (x ∷ xs) h = ground (arith, find-keep_if-none p k xs)

  pub Distinct-keep_if : (p : A → Bool) (xs : List A) → Distinct xs → Distinct (keep_if p xs)
  unfolding keep_if
  Distinct-keep_if p [] d = tt
  Distinct-keep_if p (x ∷ xs) d =
      if_both (λ (ys : List A). Distinct ys) (p x)
        (find-keep_if-none p (r.key x) xs d.0, Distinct-keep_if p xs d.1)
        (Distinct-keep_if p xs d.1)

  find-insert_by-none :
      (before : A → A → Bool) (k : ℕ) (x : A) (ys : List A)
      → find k (x ∷ ys) ≡ none
      → find k (insert_by before x ys) ≡ none
  unfolding find insert_by
  find-insert_by-none before k x [] h = h
  find-insert_by-none before k x (y ∷ ys) h = ground (arith, h, find-insert_by-none before k x ys)

  find-sort_by-none :
      (before : A → A → Bool) (k : ℕ) (xs : List A)
      → find k xs ≡ none
      → find k (sort_by before xs) ≡ none
  unfolding find sort_by
  find-sort_by-none before k [] h = refl
  find-sort_by-none before k (x ∷ xs) h =
      find-insert_by-none before k x (sort_by before xs)
        (ground (arith, h, find-sort_by-none before k xs))

  ne_of_find-none : (k : ℕ) (x : A) (xs : List A) → find k (x ∷ xs) ≡ none → r.key x ≢ k
  unfolding find
  ne_of_find-none k x xs h e = ground (arith, h, e)

  find_tail_none : (k : ℕ) (x : A) (xs : List A) → find k (x ∷ xs) ≡ none → find k xs ≡ none
  unfolding find
  find_tail_none k x xs h = ground (arith, h)

  Distinct-insert_by :
      (before : A → A → Bool) (x : A) (ys : List A)
      → find (r.key x) ys ≡ none
      → Distinct ys
      → Distinct (insert_by before x ys)
  unfolding insert_by
  Distinct-insert_by before x [] h d = (h, tt)
  Distinct-insert_by before x (y ∷ ys) h d =
      if_both (λ (zs : List A). Distinct zs) (before y x)
        (
          find-insert_by-none before (r.key y) x ys
              (find_there (r.key y) x ys (λ e. ne_of_find-none (r.key x) y ys h (sym e)) ∙ d.0),
          Distinct-insert_by before x ys (find_tail_none (r.key x) y ys h) d.1,
        )
        (h, d)

  pub Distinct-sort_by :
      (before : A → A → Bool) (xs : List A) → Distinct xs → Distinct (sort_by before xs)
  unfolding sort_by
  Distinct-sort_by before [] d = tt
  Distinct-sort_by before (x ∷ xs) d =
      Distinct-insert_by before x (sort_by before xs) (find-sort_by-none before (r.key x) xs d.0)
        (Distinct-sort_by before xs d.1)

  -- Rows whose keys differ from k are found past a row of key k.
  All-found_there :
      (x : A) (ys zs : List A)
      → find (r.key x) zs ≡ none
      → All (λ y. find (r.key y) ys ≡ some y) zs
      → All (λ y. find (r.key y) (x ∷ ys) ≡ some y) zs
  All-found_there x ys [] n h = tt
  All-found_there x ys (z ∷ zs) n h = (
    find_there (r.key z) x ys (λ e. ne_of_find-none (r.key x) z zs n (sym e)) ∙ h.0,
    All-found_there x ys zs (find_tail_none (r.key x) z zs n) h.1,
  )

  -- Where keys are distinct, every row is the one that its key finds.
  pub Distinct-found : (xs : List A) → Distinct xs → All (λ x. find (r.key x) xs ≡ some x) xs
  Distinct-found [] d = tt
  Distinct-found (x ∷ xs) d = (find_here x xs, All-found_there x xs xs d.0 (Distinct-found xs d.1))

  -- A change that leaves the rows of other keys alone keeps what is known of them.
  pub All-elsewhere {κ} :
      (P Q : A → Type κ) (k : ℕ) (xs : List A)
      → find k xs ≡ none
      → ((x : A) → r.key x ≢ k → P x → Q x)
      → All P xs
      → All Q xs
  All-elsewhere P Q k [] n f h = tt
  All-elsewhere P Q k (x ∷ xs) n f h =
      (f x (ne_of_find-none k x xs n) h.0, All-elsewhere P Q k xs (find_tail_none k x xs n) f h.1)

  pub All-both {κ μ} :
      (P : A → Type κ) (Q : A → Type μ) (xs : List A)
      → All P xs
      → All Q xs
      → All (λ x. P x × Q x) xs
  All-both P Q [] h g = tt
  All-both P Q (x ∷ xs) h g = ((h.0, g.0), All-both P Q xs h.1 g.1)

pub All-map {ℓ κ μ} :
    {A : Type ℓ} (P : A → Type κ) (Q : A → Type μ)
    → ((a : A) → P a → Q a)
    → (xs : List A) → All P xs
    → All Q xs
All-map P Q f [] h = tt
All-map P Q f (x ∷ xs) h = (f x h.0, All-map P Q f xs h.1)
