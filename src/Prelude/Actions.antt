-- ===== src/Prelude/Actions.antt =====
-- Code that changes a state and may fail; what was changed before an error stays changed.
use mathlib.Core.Path.{◌≡◌, refl, ap}
use mathlib.Core.Logic.{◌⊎◌, inl, inr}
use native.Mathlib.Omega.{arith}
use bifroest.Prelude.Results
use bifroest.Prelude.Results.{Result, ok, err}

abbrev pub Action : Type 0 → Type 0 → Type 0 → Type 0
Action S E A = S → S × Result E A

module _ {S E A : Type 0} where
  abbrev pub pure : A → Action S E A
  pure a s = (s, ok a)

  abbrev pub fail : E → Action S E A
  fail e s = (s, err e)

  abbrev pub gets : (S → A) → Action S E A
  gets f s = (s, ok (f s))

abbrev pub modify : {S E : Type 0} → (S → S) → Action S E (Unit {0})
modify f s = (f s, ok tt)

abbrev pub continue : {S E A B : Type 0} → Result E A → (A → Action S E B) → Action S E B
continue (ok a) f s = f a s
continue (err e) f s = (s, err e)

infixl 5 ◌>>=◌ ◌>>◌
abbrev pub ◌>>=◌ : {S E A B : Type 0} → Action S E A → (A → Action S E B) → Action S E B
◌>>=◌ m f s = let (s', a) = m s in continue a f s'

abbrev pub ◌>>◌ : {S E B : Type 0} → Action S E (Unit {0}) → Action S E B → Action S E B
m >> k = m >>= λ _. k

-- A chain whose first part is known goes on with its second.
module _ {S E A B : Type 0} (m : Action S E A) (k : A → Action S E B) (s s' : S) where
  pub step_ok : (a : A) → m s ≡ (s', ok a) → (m >>= k) s ≡ k a s'
  step_ok a h = ap (λ x. continue x.1 k x.0) h

  pub step_err : (e : E) → m s ≡ (s', err e) → (m >>= k) s ≡ (s', err e)
  step_err e h = ap (λ x. continue x.1 k x.0) h

-- A chain that succeeds has succeeded in both parts; one that fails has failed in one of them.
module _ {S E A B : Type 0} (k : A → Action S E B) (s'' : S) where
  continue-eq-ok :
      (s' : S) (r : Result E A) (x : B)
      → continue r k s' ≡ (s'', ok x)
      → (a : A) × (r ≡ ok a) × (k a s' ≡ (s'', ok x))
  continue-eq-ok s' (ok a) x h = (a, refl, h)
  continue-eq-ok s' (err e) x h = absurd (ground arith)

  pub step-eq-ok :
      (m : Action S E A) (s : S) (x : B)
      → (m >>= k) s ≡ (s'', ok x)
      → (s' : S) × (a : A) × (m s ≡ (s', ok a)) × (k a s' ≡ (s'', ok x))
  step-eq-ok m s x h =
      let (a, is_ok, goes_on) = continue-eq-ok (m s).0 (m s).1 x h in
      ((m s).0, a, λ i. ((m s).0, is_ok i), goes_on)

-- How a run ends.
pub run-cases :
    {S E A : Type 0} (m : Action S E A) (s : S)
    → ((s' : S) × (e : E) × (m s ≡ (s', err e))) ⊎ ((s' : S) × (a : A) × (m s ≡ (s', ok a)))
run-cases m s = elim (Results.Result-cases (m s).1) [
  | inl (a, is_ok) ↦ inr ((m s).0, a, λ i. ((m s).0, is_ok i))
  | inr (e, is_err) ↦ inl ((m s).0, e, λ i. ((m s).0, is_err i))
]
