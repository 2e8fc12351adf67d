-- ===== src/Crypto/Passwords/Legal.antt =====
-- What can be compared is what is valid: two ways to cut a password at its first colon.
use bifroest.Prelude.{
  ℕ, suc, ◌≡◌, ◌≢◌, ◌↔◌, ◌⊎◌, refl, true, List, [], ◌∷◌, none, some, Bytes, is_empty, ◌==◌, err,
  arith, Result-cases, Bool-cases, Option-cases, inl, inr,
}
use bifroest.Prelude.Segments.{take, skip}
use bifroest.User.Columns.{split_n, cons_first}
use bifroest.Crypto.Passwords.{
  PasswordType, illegal_password, Bcrypt, parse_type, index_byte, validate_password_text,
  compare_bcrypt, compare_type, compare_password,
}

split_n-rest : (sep : ℕ) (s : Bytes) → split_n sep 0 s ≡ s ∷ []
unfolding split_n
split_n-rest sep [] = refl
split_n-rest sep (c ∷ s) = refl

split_n-index :
    (sep : ℕ) (s : Bytes)
    → split_n sep 1 s ≡ (elim (index_byte sep s) as (λ _. List Bytes) [
      | none ↦ s ∷ []
      | some i ↦ take i s ∷ skip (suc i) s ∷ []
    ])
unfolding split_n index_byte take skip cons_first
split_n-index sep [] = refl
split_n-index sep (c ∷ s) = elim (Bool-cases (c == sep)) [
  | inl here ↦ ground (arith, here, split_n-rest sep s)
  | inr there ↦ elim (Option-cases (index_byte sep s)) [
    | inl nowhere ↦ ground (arith, there, nowhere, split_n-index sep s)
    | inr (i, found) ↦ ground (arith, there, found, split_n-index sep s)
  ]
]

compare_type-legal :
    (b : Bcrypt) (t : PasswordType) (s w : Bytes) → compare_type b t s w ≢ err illegal_password
unfolding compare_type compare_bcrypt
compare_type-legal b t s w = ground arith

-- Comparing with a password is refused as illegal for exactly those texts that are empty or that are
-- not valid, whatever it is compared with.
pub compare_password-illegal :
    (b : Bcrypt) (this with_password : Bytes)
    → (compare_password b this with_password ≡ err illegal_password)
      ↔ ((is_empty this ≡ true) ⊎ (validate_password_text this ≡ err illegal_password))
unfolding compare_password validate_password_text index_byte
compare_password-illegal b [] w = ground arith
compare_password-illegal b (c ∷ s) w = elim (Option-cases (index_byte b':' (c ∷ s))) [
  | inl nowhere ↦ ground (arith, nowhere, split_n-index b':' (c ∷ s))
  | inr (i, found) ↦ elim (Result-cases (parse_type (take i (c ∷ s)))) [
    | inl (t, known) ↦ ground (
      arith,
      found,
      known,
      split_n-index b':' (c ∷ s),
      compare_type-legal b t (skip (suc i) (c ∷ s)) w,
    )
    | inr (e, unknown) ↦ ground (arith, found, unknown, split_n-index b':' (c ∷ s))
  ]
]
