-- ===== src/Crypto/Passwords/Generated.antt =====
-- Generated passwords are accepted, and what is compared is what is valid.
use bifroest.Prelude.{
  ℕ, zero, suc, ◌*◌, ◌≤◌, ◌≡◌, refl, Bool, true, false, List, [], ◌∷◌, ◌++◌, Bytes, bytes_eq,
  bytes_eq_iff, codes, is_empty, length, ltb, ok, arith,
}
use bifroest.Prelude.Segments.{take, skip}
use bifroest.User.Columns.{split_n}
use bifroest.Crypto.Passwords.{
  PasswordType, plain, bcrypt, other, Bcrypt, BcryptLaws, marshal_type, parse_type, raw_base64,
  index_byte, validate_password_text, encode_password, compare_bcrypt, compare_type, generate,
  compare_password, matched,
}

length-raw_base64 : (s : Bytes) → length (raw_base64 s) ≤ 2 * length s
unfolding raw_base64
length-raw_base64 [] = omega arith
length-raw_base64 (x ∷ []) = omega arith
length-raw_base64 (x ∷ y ∷ []) = omega arith
length-raw_base64 (x ∷ y ∷ z ∷ rest) = omega (arith, length-raw_base64 rest)

length-take : {A : Type 0} (n : ℕ) (xs : List A) → length (take n xs) ≤ n
unfolding take
length-take zero xs = omega arith
length-take (suc n) [] = omega arith
length-take (suc n) (x ∷ xs) = omega (arith, length-take n xs)

abbrev decoded_of : Bytes → Bytes
decoded_of rand = raw_base64 (take 16 rand)

decoded-short : (rand : Bytes) → length (decoded_of rand) ≤ 72
decoded-short rand = omega (arith, length-raw_base64 (take 16 rand), length-take 16 rand)

split_n-rest : (s : Bytes) → split_n b':' 0 s ≡ s ∷ []
unfolding split_n
split_n-rest [] = refl
split_n-rest (c ∷ s) = refl

-- A text of a type, a colon and the rest is compared as the type says.
compare_plain :
    (b : Bcrypt) (s w : Bytes)
    → compare_password b (codes "plain" ++ b':' ∷ s) w ≡ ok (bytes_eq s w)
unfolding compare_password index_byte take skip parse_type bytes_eq compare_type
compare_plain b s w = refl

compare_hash :
    (b : Bcrypt) (s w : Bytes)
    → compare_password b (codes "bcrypt" ++ b':' ∷ s) w ≡ compare_bcrypt b s w
unfolding compare_password index_byte take skip parse_type bytes_eq compare_type
compare_hash b s w = refl

hash-matches :
    (b : Bcrypt) (h w : Bytes)
    → b.compare_hash_and_password h w ≡ matched
    → compare_bcrypt b h w ≡ ok true
unfolding compare_bcrypt
hash-matches b h w m = ground (arith, m)

validate_plain : (s : Bytes) → validate_password_text (codes "plain" ++ b':' ∷ s) ≡ ok tt
unfolding validate_password_text split_n parse_type bytes_eq
validate_plain s = ground (arith, split_n-rest s)

validate_hash : (s : Bytes) → validate_password_text (codes "bcrypt" ++ b':' ∷ s) ≡ ok tt
unfolding validate_password_text split_n parse_type bytes_eq
validate_hash s = ground (arith, split_n-rest s)

-- A type that there is.
abbrev pub is_known : PasswordType → Bool
is_known plain = true
is_known bcrypt = true
is_known (other n) = false

-- What is said of a generated password and its encoding.
pub record IsUsable (b : Bcrypt) (decoded encoded : Bytes) : Type 0 where
  pub valid : validate_password_text encoded ≡ ok tt
  pub some_text : is_empty encoded ≡ false
  pub accepted : compare_password b encoded decoded ≡ ok true

enough : (rand : Bytes) → 16 ≤ length rand → ltb (length rand) 16 ≡ false
enough rand long = ground arith

-- For a type that there is, and a source of 16 random bytes, a password is always generated; its
-- encoding is valid and is no empty text, and compared with the password it matches.
pub generate-IsUsable :
    (b : Bcrypt)
    → BcryptLaws b
    → (t : PasswordType) → is_known t ≡ true
    → (rand salt : Bytes) → 16 ≤ length rand
    → (decoded : Bytes) × (encoded : Bytes) × (generate b t rand salt ≡ ok (decoded, encoded))
      × IsUsable b decoded encoded
unfolding generate encode_password marshal_type
generate-IsUsable b laws plain known rand salt long = (
  decoded_of rand,
  codes "plain" ++ b':' ∷ decoded_of rand,
  rw (enough rand long) refl,
  record {
    valid = validate_plain (decoded_of rand);
    some_text = refl;
    accepted = ground (
      arith,
      compare_plain b (decoded_of rand) (decoded_of rand),
      bytes_eq_iff (decoded_of rand) (decoded_of rand),
    );
  },
)
generate-IsUsable b laws bcrypt known rand salt long =
    let (h, made) = laws.generates salt (decoded_of rand) (decoded-short rand) in
    (
      decoded_of rand,
      codes "bcrypt" ++ b':' ∷ h,
      rw (enough rand long, made) refl,
      record {
        valid = validate_hash h;
        some_text = refl;
        accepted = ground (
          arith,
          compare_hash b h (decoded_of rand),
          hash-matches b h (decoded_of rand) (laws.matches salt (decoded_of rand) h made),
        );
      },
    )
generate-IsUsable b laws (other n) known rand salt long = absurd (cc)
