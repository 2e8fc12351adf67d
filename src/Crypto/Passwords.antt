-- ===== src/Crypto/Passwords.antt =====
-- pkg/crypto/password-type.go, password-type-bcrypt.go, password.go and password-file.go: passwords as
-- they stand in a configuration or in a file. The bcrypt library is a parameter.
pub mod Generated
pub mod Legal
use bifroest.Prelude.{
  ℕ, suc, ◌+◌, ◌-◌, ◌*◌, ◌/◌, ◌%◌, ◌≤◌, ◌≡◌, Bool, true, false, List, [], ◌∷◌, ◌++◌, Option, none,
  some, Bytes, bytes_eq, codes, is_empty, length, ltb, ◌==◌, if◌then◌else◌, ok, err,
}
use bifroest.Prelude
use bifroest.Prelude.Segments.{take, skip}
use bifroest.User.Columns.{split_n}

-- `PasswordType`, a byte
pub data PasswordType : Type 0 where
  plain bcrypt : PasswordType
  other : ℕ → PasswordType

pub data PasswordError : Type 0 where
  illegal_password_type illegal_password illegal_password_file : PasswordError
  no_file_reference cannot_write short_read : PasswordError
  -- what the library answers
  bcrypt_error : PasswordError

abbrev pub Result : Type 0 → Type 0
Result = Prelude.Result PasswordError

-- What `bcrypt.CompareHashAndPassword` answers.
pub data Comparison : Type 0 where
  matched mismatched hash_too_short broken : Comparison

-- The library: a hash for a password, if it takes the password, by the salt that it draws.
pub record Bcrypt : Type 0 where
  pub generate_from_password : Bytes → Bytes → Option Bytes
  pub compare_hash_and_password : Bytes → Bytes → Comparison

-- A password of at most 72 bytes has a hash, and what is a hash of a password matches it.
pub record BcryptLaws (b : Bcrypt) : Type 0 where
  pub generates :
      (salt password : Bytes)
      → length password ≤ 72
      → (h : Bytes) × (b.generate_from_password salt password ≡ some h)
  pub matches :
      (salt password h : Bytes)
      → b.generate_from_password salt password ≡ some h
      → b.compare_hash_and_password h password ≡ matched

-- `PasswordType.MarshalText`
unfoldable pub marshal_type : PasswordType → Result Bytes
marshal_type plain = ok (codes "plain")
marshal_type bcrypt = ok (codes "bcrypt")
marshal_type (other n) = err illegal_password_type

-- `PasswordType.Set`
unfoldable pub parse_type : Bytes → Result PasswordType
parse_type text =
    if bytes_eq text (codes "plain")
    then ok plain
    else if bytes_eq text (codes "bcrypt")
    then ok bcrypt
    else err illegal_password_type

-- The digits of base64.
unfoldable pub digit64 : ℕ → ℕ
digit64 n =
    if ltb n 26
    then b'A' + n
    else if ltb n 52
    then b'a' + (n - 26)
    else if ltb n 62
    then b'0' + (n - 52)
    else if n == 62
    then b'+'
    else b'/'

-- `base64.RawStdEncoding`, without padding
unfoldable pub raw_base64 : Bytes → Bytes
unfolding digit64
raw_base64 [] = []
raw_base64 (x ∷ []) = digit64 (x / 4) ∷ digit64 (x % 4 * 16) ∷ []
raw_base64 (x ∷ y ∷ []) =
    digit64 (x / 4) ∷ digit64 (x % 4 * 16 + y / 16) ∷ digit64 (y % 16 * 4) ∷ []
raw_base64 (x ∷ y ∷ z ∷ rest) =
    digit64 (x / 4)
    ∷ digit64 (x % 4 * 16 + y / 16)
    ∷ digit64 (y % 16 * 4 + z / 64)
    ∷ digit64 (z % 64)
    ∷ raw_base64 rest

-- `bytes.Index` of one byte
unfoldable pub index_byte : ℕ → Bytes → Option ℕ
index_byte sep [] = none
index_byte sep (c ∷ s) =
    let rest = index_byte sep s in
    if c == sep then some 0 else elim rest [ none ↦ none | some i ↦ some (suc i) ]

-- `Password.Validate`; nothing stands for no password.
unfoldable pub validate_password_text : Bytes → Result (Unit {0})
unfolding split_n parse_type
validate_password_text [] = ok tt
validate_password_text (c ∷ s) = elim (split_n b':' 1 (c ∷ s)) [
  | t ∷ rest ∷ [] ↦ elim (parse_type t) [ err e ↦ err illegal_password | ok _ ↦ ok tt ]
  | _ ↦ err illegal_password
]

module _ (b : Bcrypt) where
  -- `PasswordType.Encode`, with what bcrypt draws
  unfoldable pub encode_password : PasswordType → Bytes → Bytes → Result Bytes
  encode_password plain salt password = ok password
  encode_password bcrypt salt password = elim (b.generate_from_password salt password) [
    | none ↦ err bcrypt_error
    | some h ↦ ok h
  ]
  encode_password (other n) salt password = err illegal_password_type

  -- `compareBcrypt`
  unfoldable pub compare_bcrypt : Bytes → Bytes → Result Bool
  compare_bcrypt encoded password = elim (b.compare_hash_and_password encoded password) [
    | mismatched ↦ ok false
    | hash_too_short ↦ ok false
    | broken ↦ err bcrypt_error
    | matched ↦ ok true
  ]

  -- `PasswordType.Compare`
  unfoldable pub compare_type : PasswordType → Bytes → Bytes → Result Bool
  unfolding compare_bcrypt
  compare_type plain encoded password = ok (bytes_eq encoded password)
  compare_type bcrypt encoded password = compare_bcrypt encoded password
  compare_type (other n) encoded password = err illegal_password_type

  -- `PasswordType.Generate`, with what the reader of random bytes has; the password and its encoding
  unfoldable pub generate : PasswordType → Bytes → Bytes → Result (Bytes × Bytes)
  unfolding raw_base64 encode_password marshal_type
  generate t rand salt =
      let decoded = raw_base64 (take 16 rand) in
      if ltb (length rand) 16 then err short_read else elim (encode_password t salt decoded) [
        | err e ↦ err e
        | ok suffix ↦ elim (marshal_type t) [
          | err e ↦ ok (decoded, b':' ∷ suffix)
          | ok prefix ↦ ok (decoded, prefix ++ b':' ∷ suffix)
        ]
      ]

  -- `Password.Compare`
  unfoldable pub compare_password : Bytes → Bytes → Result Bool
  unfolding index_byte parse_type compare_type
  compare_password this with_password = elim (index_byte b':' this) [
    | none ↦ err illegal_password
    | some i ↦ elim (parse_type (take i this)) [
      | err e ↦ err illegal_password
      | ok t ↦ compare_type t (skip (suc i) this) with_password
    ]
  ]

-- `Password.SetPassword`: nothing stands between the type and the password.
unfoldable pub set_password : PasswordType → Bytes → Result Bytes
unfolding marshal_type
set_password t password = elim (marshal_type t) [ err e ↦ err e | ok bt ↦ ok (bt ++ password) ]

-- What opening and reading a file gives.
pub data Reading : Type 0 where
  not_exist failing : Reading
  content : Bytes → Reading

-- `PasswordFile.GetPassword`, on what stands in the files; it is `PasswordFile.Validate` too.
unfoldable pub get_file_password : (Bytes → Reading) → Bytes → Result Bytes
unfolding validate_password_text
get_file_password files [] = ok []
get_file_password files (c ∷ name) = elim (files (c ∷ name)) [
  | not_exist ↦ ok []
  | failing ↦ err illegal_password_file
  | content text ↦ elim (validate_password_text text) [
    | err e ↦ err illegal_password_file
    | ok _ ↦ ok text
  ]
]

-- `PasswordFile.SetPassword`: what is written, if anything is; whether it can be, is a parameter.
unfoldable pub set_file_password : Bool → Bytes → Bytes → Result (Option Bytes)
unfolding validate_password_text
set_file_password writable [] [] = ok none
set_file_password writable [] (p ∷ password) = err no_file_reference
set_file_password writable (c ∷ name) password = elim (validate_password_text password) [
  | err e ↦ err e
  | ok _ ↦ if writable then ok (some password) else err cannot_write
]
