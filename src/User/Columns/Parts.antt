-- ===== src/User/Columns/Parts.antt =====
-- Cutting what was joined gives the parts back.
use bifroest.Prelude.{
  ℕ, zero, suc, ◌≤◌, ◌≡◌, ◌≢◌, refl, List, [], ◌∷◌, ◌++◌, Bytes, length, All, Lacks, arith,
  Bool-cases, inl, inr, ◌==◌,
}
use bifroest.User.Columns.{cons_first, split_n, split, join}

module _ (sep : ℕ) where
  pub split_n-Lacks : (n : ℕ) (p : Bytes) → Lacks sep p → split_n sep n p ≡ p ∷ []
  unfolding split_n
  split_n-Lacks n [] h = refl
  split_n-Lacks zero (c ∷ p) h = refl
  split_n-Lacks (suc n) (c ∷ p) (hc, hp) = ground (arith, split_n-Lacks (suc n) p hp)

  pub split_n-append :
      (n : ℕ) (p s : Bytes) → Lacks sep p → split_n sep (suc n) (p ++ sep ∷ s) ≡ p ∷ split_n sep n s
  unfolding split_n
  split_n-append n [] s h = ground arith
  split_n-append n (c ∷ p) s (hc, hp) = ground (arith, split_n-append n p s hp)

  split-Lacks : (p : Bytes) → Lacks sep p → split sep p ≡ p ∷ []
  unfolding split
  split-Lacks [] h = refl
  split-Lacks (c ∷ p) (hc, hp) = ground (arith, split-Lacks p hp)

  pub split-append : (p s : Bytes) → Lacks sep p → split sep (p ++ sep ∷ s) ≡ p ∷ split sep s
  unfolding split
  split-append [] s h = ground arith
  split-append (c ∷ p) s (hc, hp) = ground (arith, split-append p s hp)

  -- With room for every cut, the parts that hold no separator come back.
  pub split_n-join :
      (n : ℕ) (ps : List Bytes)
      → ps ≢ []
      → length ps ≤ suc n
      → All (Lacks sep) ps
      → split_n sep n (join sep ps) ≡ ps
  unfolding join
  split_n-join n [] h fits _ = absurd (h refl)
  split_n-join n (p ∷ []) h fits (hp, _) = split_n-Lacks n p hp
  split_n-join zero (p ∷ q ∷ ps) h fits hs = absurd (omega arith)
  split_n-join (suc n) (p ∷ q ∷ ps) h fits (hp, hs) = ground (
    arith,
    split_n-append n p (join sep (q ∷ ps)) hp,
    split_n-join n (q ∷ ps) (cc) (omega arith) hs,
  )

  pub split-join : (ps : List Bytes) → ps ≢ [] → All (Lacks sep) ps → split sep (join sep ps) ≡ ps
  unfolding join
  split-join [] h _ = absurd (h refl)
  split-join (p ∷ []) h (hp, _) = split-Lacks p hp
  split-join (p ∷ q ∷ ps) h (hp, hs) =
      ground (arith, split-append p (join sep (q ∷ ps)) hp, split-join (q ∷ ps) (cc) hs)

  split-ne-nil : (s : Bytes) → split sep s ≢ []
  unfolding split cons_first
  split-ne-nil [] = cc
  split-ne-nil (c ∷ s) = ground (arith, split-ne-nil s)

  length-cons_first : (c : ℕ) (ps : List Bytes) → length ps ≤ length (cons_first c ps)
  unfolding cons_first
  length-cons_first c [] = omega arith
  length-cons_first c (p ∷ ps) = omega arith

  -- A split has a part.
  pub length-split_n : (n : ℕ) (s : Bytes) → 1 ≤ length (split_n sep n s)
  unfolding split_n
  length-split_n n [] = omega arith
  length-split_n zero (c ∷ s) = omega arith
  length-split_n (suc n) (c ∷ s) =
      ground (arith, length-split_n (suc n) s, length-cons_first c (split_n sep (suc n) s))

  pub All-cons_first {κ} :
      (P : ℕ → Type κ) (c : ℕ) (ps : List Bytes)
      → P c
      → All (All P) ps
      → All (All P) (cons_first c ps)
  unfolding cons_first
  All-cons_first P c [] hc h = ((hc, tt), tt)
  All-cons_first P c (p ∷ ps) hc (hp, h) = ((hc, hp), h)

  -- The parts of a text hold bytes of that text only.
  pub All-split_n {κ} :
      (P : ℕ → Type κ) (n : ℕ) (s : Bytes) → All P s → All (All P) (split_n sep n s)
  unfolding split_n
  All-split_n P n [] h = (tt, tt)
  All-split_n P zero (c ∷ s) h = (h, tt)
  All-split_n P (suc n) (c ∷ s) (hc, h) = elim (Bool-cases (c == sep)) [
    | inl cut ↦ rw cut (tt, All-split_n P n s h)
    | inr keep ↦ rw keep (All-cons_first P c _ hc (All-split_n P (suc n) s h))
  ]

  length-cons_first_eq :
      (c : ℕ) (ps : List Bytes) → 1 ≤ length ps → length (cons_first c ps) ≡ length ps
  unfolding cons_first
  length-cons_first_eq c [] h = absurd (omega arith)
  length-cons_first_eq c (p ∷ ps) h = refl

  -- A split into fewer parts than it may have has cut at every separator.
  pub split_n-All-Lacks :
      (n : ℕ) (s : Bytes) → length (split_n sep n s) ≤ n → All (Lacks sep) (split_n sep n s)
  unfolding split_n
  split_n-All-Lacks n [] h = (tt, tt)
  split_n-All-Lacks zero (c ∷ s) h = absurd (omega arith)
  split_n-All-Lacks (suc n) (c ∷ s) h = elim (Bool-cases (c == sep)) [
    | inl cut ↦ rw cut (tt, split_n-All-Lacks n s (ground arith))
    | inr keep ↦ rw keep (
        All-cons_first (λ b. b ≢ sep) c _ (ground arith)
          (split_n-All-Lacks (suc n) s (
            ground
              (arith, length-cons_first_eq c (split_n sep (suc n) s), length-split_n (suc n) s))))
  ]
