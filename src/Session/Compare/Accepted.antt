-- ===== src/Session/Compare/Accepted.antt =====
-- What is taken for equal.
use bifroest.Prelude.{
  ℕ, zero, suc, ◌%◌, ◌≤◌, ◌<◌, ◌≡◌, ◌↔◌, ◌⊎◌, inl, inr, refl, sym, ap, ◌∙◌, true, [], ◌∷◌, ◌++◌,
  append-nil, append_assoc, Bytes, bytes_eq_iff, length, arith,
}
use native.Mathlib.Decide.{dec_le}
use native.Mathlib.Nat.{mod-eq_of_lt, mod-eq-sub-mod}
use bifroest.Prelude.Segments.{
  take, skip, take-skip, length-skip, take-append, skip-append, take-all, skip-all, skip-of_short,
}
use bifroest.Session.Compare.{compare, buf_l, is_reader_equal_to_bytes}

-- The bytes, and no more unless they fill whole segments.
abbrev pub IsAccepted : ℕ → Bytes → Bytes → Type 0
IsAccepted n left right =
    (rest : Bytes) × (left ≡ right ++ rest) × ((rest ≡ []) ⊎ (length right % n ≡ 0))

module _ (n : ℕ) (some_bytes : 0 < n) where
  whole-longer : (right : Bytes) → n ≤ length right → length (skip n right) % n ≡ length right % n
  whole-longer right long = rw (length-skip n right) (sym (mod-eq-sub-mod long))

  -- A further segment.
  IsAccepted-longer :
      (left right : Bytes)
      → take n left ≡ take n right
      → IsAccepted n (skip n left) (skip n right)
      → IsAccepted n left right
  IsAccepted-longer left right same (rest, is_left, whole) = (
    rest,
    cc (take-skip n left, take-skip n right, append_assoc (take n right) (skip n right) rest),
    elim (dec_le n (length right)) [
      | yes long ↦ elim whole [
        | inl none_left ↦ inl none_left
        | inr is_whole ↦ inr (sym (whole-longer right long) ∙ is_whole)
      ]
      | no short ↦
          let all = take-all n right (omega arith) in
          let nothing = skip-of_short n left (omega (arith, ap length same, ap length all)) in
          inl (cc (skip-all n right (omega arith)))
    ],
  )

  IsAccepted-shorter :
      (left right : Bytes)
      → 0 < length right
      → IsAccepted n left right
      → (take n left ≡ take n right) × IsAccepted n (skip n left) (skip n right)
  IsAccepted-shorter left right some_right (rest, is_left, whole) = elim (dec_le n (length right)) [
    | yes long ↦ (
      rw is_left (take-append n right rest long),
      (
        rest,
        rw is_left (skip-append n right rest long),
        elim whole [
          | inl none_left ↦ inl none_left
          | inr is_whole ↦ inr (whole-longer right long ∙ is_whole)
        ],
      ),
    )
    | no short ↦ elim whole [
      | inl none_left ↦
          let same : left ≡ right = cc (append-nil right) in
          (ap (take n) same, ([], ap (skip n) same ∙ sym (append-nil (skip n right)), inl refl))
      | inr is_whole ↦ absurd (omega (arith, mod-eq_of_lt {n = length right} {m = n} (omega arith)))
    ]
  ]

  compare-step :
      (rounds a b : ℕ) (as' bs : Bytes)
      → (compare n (suc rounds) (a ∷ as') (b ∷ bs) ≡ true) ↔ (
          (take n (a ∷ as') ≡ take n (b ∷ bs))
          × (compare n rounds (skip n (a ∷ as')) (skip n (b ∷ bs)) ≡ true))
  unfolding compare
  compare-step rounds a b as' bs =
      let left = take n (a ∷ as') in
      let right = take n (b ∷ bs) in
      let (to, from) = bytes_eq_iff left right in
      (λ h. (ground (arith, to), ground arith), λ (h, go). ground (arith, from h, go, ap length h))

  compare-IsAccepted :
      (rounds : ℕ) (left right : Bytes)
      → length right ≤ rounds
      → (compare n rounds left right ≡ true) ↔ IsAccepted n left right
  unfolding compare
  compare-IsAccepted zero left [] enough =
      (λ h. (left, refl, inr (mod-eq_of_lt some_bytes)), λ h. refl)
  compare-IsAccepted (suc rounds) left [] enough =
      (λ h. (left, refl, inr (mod-eq_of_lt some_bytes)), λ h. refl)
  compare-IsAccepted zero left (b ∷ bs) enough = absurd (omega arith)
  compare-IsAccepted (suc rounds) [] (b ∷ bs) enough =
      (λ h. absurd (ground arith), λ (rest, is_left, whole). ground arith)
  compare-IsAccepted (suc rounds) (a ∷ as') (b ∷ bs) enough =
      let left = a ∷ as' in
      let right = b ∷ bs in
      let (to, from) =
        compare-IsAccepted rounds (skip n left) (skip n right)
          (omega (arith, length-skip n right)) in
      let (apart, together) = compare-step rounds a b as' bs in
      (
        λ h. let (same, go) = apart h in IsAccepted-longer left right same (to go),
        λ h.
            let (same, rest) = IsAccepted-shorter left right (omega arith) h in
            together (same, from rest),
      )

-- A file is taken for equal to some bytes exactly when it has them at its start, and either ends there
-- or the bytes fill whole segments of 4096; for any other file and bytes the answer is no.
pub is_reader_equal_to_bytes_iff :
    (left right : Bytes)
    → (is_reader_equal_to_bytes left right ≡ true) ↔ IsAccepted buf_l left right
unfolding is_reader_equal_to_bytes
is_reader_equal_to_bytes_iff left right =
    compare-IsAccepted buf_l (omega arith) (length right) left right (omega arith)
