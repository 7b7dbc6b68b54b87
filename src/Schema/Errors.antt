-- ===== src/Schema/Errors.antt =====
-- The exceptions of boring_agent/model.py, by their codes, and transactions that may raise.
use boring_orch_agent.Base.{Bool, true, false, ◌≡◌, refl, ◌⊎◌, inl, inr}

pub data AgentError : Type 0 where
  invalid_request not_found conflict storage_error gone : AgentError
  -- an exception that is no AgentError, such as a UnicodeDecodeError
  uncaught : AgentError

pub data Result {ℓ} (A : Type ℓ) : Type ℓ where
  ok : A → Result A
  err : AgentError → Result A

-- `if bad: raise …`
abbrev pub raise_if : Bool → AgentError → Result (Unit {0})
raise_if true e = err e
raise_if false e = ok tt

infixl 5 ◌>>=◌ ◌>>◌
-- What comes after a step runs only if the step has not raised.
abbrev pub ◌>>=◌ {ℓ κ} :
    {A : Type ℓ} {B : Type κ} (step : Result A) (next : A → Result B) → Result B
err raised >>= next = err raised
ok value >>= next = next value

abbrev pub ◌>>◌ {κ} : {B : Type κ} (check : Result (Unit {0})) (rest : Result B) → Result B
check >> rest = check >>= λ done. rest

-- `with self.transaction() as db`: an exception rolls the store back.
abbrev pub committed {ℓ κ} : {S : Type ℓ} {A : Type κ} → S → Result (A × S) → S
committed s (ok (a, t)) = t
committed s (err e) = s

-- What holds of the value, if the computation returns one.
abbrev pub Post {ℓ κ} : {A : Type ℓ} → (A → Type κ) → Result A → Type κ
Post P (ok a) = P a
Post P (err e) = Unit

module _ {ℓ κ μ ν} {A : Type ℓ} {B : Type κ} (P : A → Type μ) (Q : B → Type ν) where
  pub Post-bind :
      (m : Result A) (f : A → Result B)
      → Post P m
      → ((a : A) → m ≡ ok a → P a → Post Q (f a))
      → Post Q (m >>= f)
  Post-bind (ok a) f p q = q a refl p
  Post-bind (err e) f p q = tt

pub Post-of {ℓ κ} :
    {A : Type ℓ} (P : A → Type κ) (m : Result A) → ((a : A) → m ≡ ok a → P a) → Post P m
Post-of P (ok a) h = h a refl
Post-of P (err e) h = tt

pub Post_at {ℓ κ} : {A : Type ℓ} (P : A → Type κ) (m : Result A) (a : A) → Post P m → m ≡ ok a → P a
Post_at P m a p e = rw e at p

pub Post-map {ℓ κ μ} :
    {A : Type ℓ} (P : A → Type κ) (Q : A → Type μ) (m : Result A)
    → ((a : A) → P a → Q a)
    → Post P m
    → Post Q m
Post-map P Q (ok a) f p = f a p
Post-map P Q (err e) f p = tt

pub Post-both {ℓ κ μ} :
    {A : Type ℓ} (P : A → Type κ) (Q : A → Type μ) (m : Result A)
    → Post P m
    → Post Q m
    → Post (λ a. P a × Q a) m
Post-both P Q (ok a) p q = (p, q)
Post-both P Q (err e) p q = tt

-- A chain that returns has returned at every step.
pub bind_ok {ℓ κ} :
    {A : Type ℓ} {B : Type κ} (m : Result A) (f : A → Result B) (b : B)
    → (m >>= f) ≡ ok b
    → (a : A) × (m ≡ ok a) × (f a ≡ ok b)
bind_ok (ok a) f b h = (a, refl, h)
bind_ok (err e) f b h = cc h

pub raise_if_ok : (b : Bool) (e : AgentError) (u : Unit {0}) → raise_if b e ≡ ok u → b ≡ false
raise_if_ok true e u h = cc h
raise_if_ok false e u h = refl

pub Result-cases {ℓ} :
    {A : Type ℓ} (m : Result A) → ((a : A) × (m ≡ ok a)) ⊎ ((e : AgentError) × (m ≡ err e))
Result-cases (ok a) = inl (a, refl)
Result-cases (err e) = inr (e, refl)
