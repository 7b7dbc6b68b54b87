-- ===== src/Document/Ensures.antt =====
-- What a chain of checks of boring_agent/model.py ensures of the value that it lets through.
use boring_orch_agent.Base.{◌≡◌, refl, subst}
use boring_orch_agent.Schema.{Result, ok, err, AgentError, Post, ◌>>=◌}

pub data Ensures {ℓ κ} {A : Type ℓ} (P : A → Type κ) : Result A → Type (ℓ ⊔ κ) where
  raises : (e : AgentError) → Ensures P (err e)
  returns : (a : A) → P a → Ensures P (ok a)

module _ {ℓ κ μ ν} {A : Type ℓ} {B : Type κ} {P : A → Type μ} {Q : B → Type ν} where
  -- A step of a chain, by what is known of it.
  pub step :
      {m : Result A} {f : A → Result B}
      → Ensures P m
      → ((a : A) → P a → Ensures Q (f a))
      → Ensures Q (m >>= f)
  step (raises e) q = raises e
  step (returns a p) q = q a p

pub ensured {ℓ κ} :
    {A : Type ℓ} {P : A → Type κ} {m : Result A} (a : A) → Ensures P m → m ≡ ok a → P a
ensured a (raises e) h = cc h
ensured {P} a (returns b p) h = subst P (cc h) p

pub Post-Ensures {ℓ κ} : {A : Type ℓ} (P : A → Type κ) (m : Result A) → Post P m → Ensures P m
Post-Ensures P (ok a) p = returns a p
Post-Ensures P (err e) p = raises e

abbrev pub Anything {ℓ} : {A : Type ℓ} → A → Type 0
Anything a = Unit

-- A step of which nothing is asked.
pub any {ℓ} : {A : Type ℓ} (m : Result A) → Ensures Anything m
any (ok a) = returns a tt
any (err e) = raises e

pub weakened {ℓ κ μ} :
    {A : Type ℓ} {P : A → Type κ} {Q : A → Type μ} {m : Result A}
    → Ensures P m
    → ((a : A) → P a → Q a)
    → Ensures Q m
weakened (raises e) f = raises e
weakened (returns a p) f = returns a (f a p)

-- A step, by the equation that it returns.
pub witnessed {ℓ} : {A : Type ℓ} (m : Result A) → Ensures (λ a. m ≡ ok a) m
witnessed (ok a) = returns a refl
witnessed (err e) = raises e
