-- ===== src/Crypto/AuthorizedKeys/Trimmed.antt =====
-- What has no spaces to trim.
use bifroest.Prelude.{
  ℕ, ◌≡◌, refl, sym, ap, ◌∙◌, true, false, [], ◌∷◌, ◌++◌, reverse, reverse-append, reverse-reverse,
  Bytes, arith, append_assoc,
}
use bifroest.Crypto.AuthorizedKeys.{is_space, trim_left, trim_space}
use bifroest.Crypto.AuthorizedKeys.Words.{is_dark, IsStart}

-- What starts and ends with no space has nothing to trim.
trim_space-ends :
    (b : ℕ) (s : Bytes) (z : ℕ)
    → is_space b ≡ false
    → is_space z ≡ false
    → trim_space (b ∷ s ++ z ∷ []) ≡ (b ∷ s ++ z ∷ [])
unfolding trim_space trim_left
trim_space-ends b s z hb hz = ground (
  arith,
  reverse-append (b ∷ s) (z ∷ []),
  reverse-append (z ∷ []) (reverse (b ∷ s)),
  reverse-reverse (b ∷ s),
)

dark-append : (s t : Bytes) → is_dark (s ++ t) ≡ true → is_dark t ≡ true
dark-append [] t h = h
dark-append (b ∷ s) t h = dark-append s t (ground arith)

trim_left-reversed : (s r : Bytes) → reverse s ≡ r → is_dark s ≡ true → trim_left r ≡ r
unfolding trim_left
trim_left-reversed s [] is_r h = refl
trim_left-reversed s (z ∷ y) is_r h =
    let whole : s ≡ reverse y ++ z ∷ [] =
      sym (reverse-reverse s) ∙ ap reverse is_r ∙ reverse-append (z ∷ []) y in
    let dark = dark-append (reverse y) (z ∷ []) (ap is_dark (sym whole) ∙ h) in ground (arith, dark)

trim_left-dark : (s : Bytes) → is_dark s ≡ true → trim_left s ≡ s
unfolding trim_left
trim_left-dark [] h = refl
trim_left-dark (b ∷ s) h = ground arith

pub trim_space-dark : (s : Bytes) → is_dark s ≡ true → trim_space s ≡ s
unfolding trim_space
trim_space-dark s h =
    ground (arith, trim_left-dark s h, trim_left-reversed s (reverse s) refl h, reverse-reverse s)

-- A line from its start to its end.
pub trim_space-line :
    (w s : Bytes) (z : ℕ)
    → IsStart w
    → is_space z ≡ false
    → trim_space (w ++ (s ++ z ∷ [])) ≡ (w ++ (s ++ z ∷ []))
trim_space-line w s z start hz =
    let same : w ++ (s ++ z ∷ []) ≡ (start.first ∷ (start.others ++ s) ++ z ∷ []) =
      ap (λ v. v ++ (s ++ z ∷ [])) start.starts
      ∙ ap (λ v. start.first ∷ v) (sym (append_assoc start.others s (z ∷ []))) in
    ap trim_space same
    ∙ trim_space-ends start.first (start.others ++ s) z start.no_space hz
    ∙ sym same
