-- ===== src/Base/Triples.antt =====
-- Rules for an invariant of the state, together with a predicate on the results: what holds of a
-- method that may throw, from what holds of its steps.
use agamemnon.Base.Exec
use agamemnon.Base.Exec.{Exec, pure, lift, modify, ◌>>=◌, ◌>>◌}
use agamemnon.Base.Tests.{if◌then◌else◌}
use mathlib.Core.Bool.{Bool, true, false}
use mathlib.Core.Option.{Option, none, some}
use mathlib.Core.Path.{◌≡◌, refl}

-- The result, if there is one, satisfies the predicate.
abbrev pub Each {ℓ} : {A : Type 0} → (A → Type ℓ) → Option A → Type ℓ
Each Q none = Unit
Each Q (some a) = Q a

pub Each-of {ℓ} :
    {A : Type 0} {Q : A → Type ℓ} (o : Option A) → ((a : A) → o ≡ some a → Q a) → Each Q o
Each-of none h = tt
Each-of (some a) h = h a refl

-- From a state in P the method ends in P, also where it throws, and its result is in Q.
pub record Triple {S A : Type 0} (P : S → Type 0) (m : Exec S A) (Q : A → Type 0) : Type 0 where
  pub holds : (s : S) → P s → P (m s).1 × Each Q (m s).0

-- No claim on the result.
pub record Any {A : Type 0} (a : A) : Type 0 where

Each-Any : {A : Type 0} (o : Option A) → Each Any o
Each-Any none = tt
Each-Any (some a) = record {}

module _ {S : Type 0} {P : S → Type 0} where
  bind_case :
      {A B : Type 0} {Q : A → Type 0} (R : B → Type 0) (o : Option A) (f : A → Exec S B) (s : S)
      → ((a : A) → Q a → Triple P (f a) R)
      → P s
      → Each Q o
      → P (Exec.continue o f s).1 × Each R (Exec.continue o f s).0
  bind_case R none f s h p q = (p, tt)
  bind_case R (some a) f s h p q = (h a q).holds s p

  pub bind-Triple :
      {A B : Type 0} {Q : A → Type 0} {R : B → Type 0} {m : Exec S A} {f : A → Exec S B}
      → Triple P m Q
      → ((a : A) → Q a → Triple P (f a) R)
      → Triple P (m >>= f) R
  bind-Triple {R} {m} {f} first next = record {
    holds = λ s p. let (p', q) = first.holds s p in bind_case R (m s).0 f (m s).1 next p' q;
  }

  pub then-Triple :
      {A B : Type 0} {Q : A → Type 0} {R : B → Type 0} {m : Exec S A} {n : Exec S B}
      → Triple P m Q
      → Triple P n R
      → Triple P (m >> n) R
  then-Triple first next = bind-Triple first (λ a q. next)

  pub modify-Triple : {f : S → S} → ((s : S) → P s → P (f s)) → Triple P (modify f) Any
  modify-Triple h = record { holds = λ s p. (h s p, record {}) }

  pub pure-Triple : {A : Type 0} {Q : A → Type 0} (a : A) → Q a → Triple P (pure a) Q
  pure-Triple a q = record { holds = λ s p. (p, q) }

  pub lift-Triple : {A : Type 0} (Q : A → Type 0) (o : Option A) → Each Q o → Triple P (lift o) Q
  lift-Triple Q o q = record { holds = λ s p. (p, q) }

  -- A method whose result is of no interest.
  pub state-Triple : {A : Type 0} {m : Exec S A} → ((s : S) → P s → P (m s).1) → Triple P m Any
  state-Triple {m} h = record { holds = λ s p. (h s p, Each-Any (m s).0) }

  -- A method that is chosen by the state.
  pub read-Triple :
      {A : Type 0} {Q : A → Type 0} {f : S → Exec S A}
      → ((s : S) → P s → Triple P (f s) Q)
      → Triple P (λ s. f s s) Q
  read-Triple h = record { holds = λ s p. (h s p).holds s p }

  pub if_Triple :
      {A : Type 0} {Q : A → Type 0} {m n : Exec S A} (b : Bool)
      → Triple P m Q
      → Triple P n Q
      → Triple P (if b then m else n) Q
  if_Triple true first second = first
  if_Triple false first second = second
