-- ===== src/Prelude/Segments.antt =====
-- The first elements of a list, and the others.
use Prim.Native.Nat.{ℕ, zero, suc, ◌-◌, ◌≤◌, ◌<◌}
use mathlib.Core.Path.{◌≡◌, refl}
use mathlib.Core.List.{List, [], ◌∷◌, ◌++◌}
use native.Mathlib.Omega.{arith}
use bifroest.Prelude.Lists.{length}

module _ {A : Type 0} where
  unfoldable pub take : ℕ → List A → List A
  take zero xs = []
  take (suc n) [] = []
  take (suc n) (x ∷ xs) = x ∷ take n xs

  unfoldable pub skip : ℕ → List A → List A
  skip zero xs = xs
  skip (suc n) [] = []
  skip (suc n) (x ∷ xs) = skip n xs

  pub take-skip : (n : ℕ) (xs : List A) → (take n xs ++ skip n xs) ≡ xs
  unfolding take skip
  take-skip zero xs = refl
  take-skip (suc n) [] = refl
  take-skip (suc n) (x ∷ xs) = ground (arith, take-skip n xs)

  pub length-skip : (n : ℕ) (xs : List A) → length (skip n xs) ≡ length xs - n
  unfolding skip
  length-skip zero xs = omega arith
  length-skip (suc n) [] = omega arith
  length-skip (suc n) (x ∷ xs) = omega (arith, length-skip n xs)

  pub take-append : (n : ℕ) (xs ys : List A) → n ≤ length xs → take n (xs ++ ys) ≡ take n xs
  unfolding take
  take-append zero xs ys h = refl
  take-append (suc n) [] ys h = absurd (omega arith)
  take-append (suc n) (x ∷ xs) ys h = ground (arith, take-append n xs ys (omega arith))

  pub skip-append : (n : ℕ) (xs ys : List A) → n ≤ length xs → skip n (xs ++ ys) ≡ (skip n xs ++ ys)
  unfolding skip
  skip-append zero xs ys h = refl
  skip-append (suc n) [] ys h = absurd (omega arith)
  skip-append (suc n) (x ∷ xs) ys h = skip-append n xs ys (omega arith)

  pub take-all : (n : ℕ) (xs : List A) → length xs ≤ n → take n xs ≡ xs
  unfolding take
  take-all zero [] h = refl
  take-all zero (x ∷ xs) h = absurd (omega arith)
  take-all (suc n) [] h = refl
  take-all (suc n) (x ∷ xs) h = ground (arith, take-all n xs (omega arith))

  pub skip-all : (n : ℕ) (xs : List A) → length xs ≤ n → skip n xs ≡ []
  unfolding skip
  skip-all zero [] h = refl
  skip-all zero (x ∷ xs) h = absurd (omega arith)
  skip-all (suc n) [] h = refl
  skip-all (suc n) (x ∷ xs) h = skip-all n xs (omega arith)

  pub skip-of_short : (n : ℕ) (xs : List A) → length (take n xs) < n → skip n xs ≡ []
  unfolding take skip
  skip-of_short zero xs h = absurd (omega arith)
  skip-of_short (suc n) [] h = refl
  skip-of_short (suc n) (x ∷ xs) h = skip-of_short n xs (omega arith)
