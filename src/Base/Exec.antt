-- ===== src/Base/Exec.antt =====
-- Methods that change a state and may throw. What was written before a throw stays written, so the
-- state comes back in both cases; `none` is the exception.
use mathlib.Core.List.{List, [], ◌∷◌}
use mathlib.Core.Option.{Option, none, some}
use mathlib.Core.Path.{◌≡◌, refl}
use native.Mathlib.Omega.{arith}

abbrev pub Exec : Type 0 → Type 0 → Type 0
Exec S A = S → Option A × S

module _ {S : Type 0} where
  abbrev pub pure : {A : Type 0} → A → Exec S A
  pure a s = (some a, s)

  abbrev pub throw : {A : Type 0} → Exec S A
  throw s = (none, s)

  abbrev pub gets : {A : Type 0} → (S → A) → Exec S A
  gets f s = (some (f s), s)

  abbrev pub modify : (S → S) → Exec S (Unit {0})
  modify f s = (some tt, f s)

  -- A conversion that throws on `none`.
  abbrev pub lift : {A : Type 0} → Option A → Exec S A
  lift o s = (o, s)

  abbrev pub continue : {A B : Type 0} → Option A → (A → Exec S B) → Exec S B
  continue none f s = (none, s)
  continue (some a) f s = f a s

  infixl 5 ◌>>=◌ ◌>>◌
  abbrev pub ◌>>=◌ : {A B : Type 0} → Exec S A → (A → Exec S B) → Exec S B
  ◌>>=◌ m f s = continue (m s).0 f (m s).1

  abbrev pub ◌>>◌ : {A B : Type 0} → Exec S A → Exec S B → Exec S B
  m >> n = m >>= λ _. n

  -- try { m } catch (...) { }: the state is kept, and nothing is thrown.
  abbrev pub attempt : {A : Type 0} → Exec S A → Exec S (Option A)
  attempt m s = (some (m s).0, (m s).1)

  -- A loop over a list; an exception ends it.
  unfoldable pub for_each : {A : Type 0} → List A → (A → Exec S (Unit {0})) → Exec S (Unit {0})
  for_each [] f s = (some tt, s)
  for_each (a ∷ as') f s = elim (f a s).0 [
    | none ↦ (none, (f a s).1)
    | some _ ↦ for_each as' f (f a s).1
  ]

  -- What each step of a loop leaves alone, the loop leaves alone.
  pub for_each-keeps :
      {A V : Type 0} (view : S → V) (as' : List A) (f : A → Exec S (Unit {0})) (s : S)
      → ((a : A) (s : S) → view (f a s).1 ≡ view s)
      → view (for_each as' f s).1 ≡ view s
  unfolding for_each
  for_each-keeps view [] f s h = refl
  for_each-keeps view (a ∷ as') f s h = ground (arith, h a s, for_each-keeps view as' f (f a s).1 h)

  -- An invariant of each step is one of the loop.
  pub for_each-invariant {ℓ} :
      {A : Type 0} (P : S → Type ℓ) (as' : List A) (f : A → Exec S (Unit {0})) (s : S)
      → ((a : A) (s : S) → P s → P (f a s).1)
      → P s
      → P (for_each as' f s).1
  unfolding for_each
  for_each-invariant P [] f s h p = p
  for_each-invariant P (a ∷ as') f s h p =
      ground (arith, h a s p, for_each-invariant P as' f (f a s).1 h (h a s p))

  -- The steps of a method that returned.
  pub >>=-eq-some :
      {A B : Type 0} (m : Exec S A) (f : A → Exec S B) (s : S) {b : B} {s' : S}
      → (m >>= f) s ≡ (some b, s')
      → (a : A) × (s1 : S) × (m s ≡ (some a, s1)) × (f a s1 ≡ (some b, s'))
  >>=-eq-some m f s {b} {s'} h = steps (m s).0 (m s).1 refl h
    where
      steps :
          (o : Option _) (s1 : S)
          → m s ≡ (o, s1)
          → continue o f s1 ≡ (some b, s')
          → (a : _) × (s2 : S) × (m s ≡ (some a, s2)) × (f a s2 ≡ (some b, s'))
      steps none s1 e h = absurd (cc)
      steps (some a) s1 e h = (a, s1, e, h)
