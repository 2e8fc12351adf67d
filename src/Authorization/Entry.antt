-- ===== src/Authorization/Entry.antt =====
-- pkg/configuration/authorization-simple-entry.go: an entry of the simple authorization.
pub mod Renewed
use bifroest.Prelude.{
  ℕ, Bool, true, false, List, [], ◌∷◌, Option, none, some, Bytes, bytes_eq, is_empty, if◌then◌else◌,
  ok, err,
}
use bifroest.Crypto.Passwords.{
  PasswordType, PasswordError, Result, Bcrypt, Reading, not_exist, failing, content, generate,
  get_file_password, set_file_password, marshal_type,
}

-- `AuthorizationSimpleEntry`
pub record SimpleEntry : Type 0 where
  pub name : Bytes
  pub authorized_keys : Bytes
  pub authorized_keys_file : Bytes
  pub password : Bytes
  pub password_file : Bytes
  pub create_password_file_if_absent_of_type : Option PasswordType

-- `GetPassword`
unfoldable pub get_password : (Bytes → Reading) → SimpleEntry → Result Bytes
unfolding get_file_password
get_password files this =
    if is_empty this.password
    then (if is_empty this.password_file then ok [] else get_file_password files this.password_file)
    else ok this.password

abbrev pub written_to : Bytes → Bytes → (Bytes → Reading) → Bytes → Reading
written_to name text files other = if bytes_eq name other then content text else files other

module _ (b : Bcrypt) (rand salt : Bytes) (writable : Bool) where
  -- A new password, and what the files are then
  unfoldable pub renew_password :
      PasswordType → Bytes → (Bytes → Reading) → (Bytes → Reading) × Result (Option Bytes)
  unfolding generate set_file_password
  renew_password t name files = elim (generate b t rand salt) [
    | err e ↦ (files, err e)
    | ok (decoded, encoded) ↦ elim (set_file_password writable name encoded) [
      | err e ↦ (files, err e)
      | ok none ↦ (files, ok (some decoded))
      | ok (some text) ↦ (written_to name text files, ok (some decoded))
    ]
  ]

  -- The beginning of `Validate`, which makes the file of the password: the files afterwards, and the
  -- password if there is a new one. A file that cannot be read counts as one without a password.
  unfoldable pub ensure_password_file :
      SimpleEntry → (Bytes → Reading) → (Bytes → Reading) × Result (Option Bytes)
  unfolding renew_password get_file_password marshal_type
  ensure_password_file this files = elim this.create_password_file_if_absent_of_type [
    | none ↦ (files, ok none)
    | some t ↦ if is_empty this.name then (files, ok none) else elim (marshal_type t) [
      | err e ↦ (files, err e)
      | ok _ ↦
          if is_empty this.password_file
          then (files, ok none)
          else elim (get_file_password files this.password_file) [
            | err e ↦ renew_password t this.password_file files
            | ok password ↦
                if is_empty password
                then renew_password t this.password_file files
                else (files, ok none)
          ]
    ]
  ]
