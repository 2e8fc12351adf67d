-- ===== src/Authorization/Entry/Renewed.antt =====
-- The file of a password after an entry was validated.
use bifroest.Prelude.{
  ◌≤◌, ◌≡◌, ◌⊎◌, refl, sym, subst, true, false, [], ◌∷◌, Option, none, some, Bytes, is_empty,
  length, ok, err, arith, Result-cases, inl, inr,
}
use bifroest.Session.Files.Laws.{bytes_eq_refl}
use bifroest.Crypto.Passwords
use bifroest.Crypto.Passwords.{
  PasswordType, plain, bcrypt, other, PasswordError, Bcrypt, BcryptLaws, Reading, content, generate,
  compare_password, get_file_password, set_file_password, validate_password_text, marshal_type,
}
use bifroest.Crypto.Passwords.Generated.{is_known, IsUsable, generate-IsUsable}
use bifroest.Authorization.Entry.{
  SimpleEntry, get_password, written_to, renew_password, ensure_password_file,
}

-- An entry that takes its password from a file, which is made where it is missing.
pub record IsFromFile (this : SimpleEntry) (t : PasswordType) : Type 0 where
  pub named : is_empty this.name ≡ false
  pub no_password : is_empty this.password ≡ true
  pub has_file : is_empty this.password_file ≡ false
  pub of_type : this.create_password_file_if_absent_of_type ≡ some t
  pub known : is_known t ≡ true

set_file_password-valid :
    (name text : Bytes)
    → is_empty name ≡ false
    → validate_password_text text ≡ ok tt
    → set_file_password true name text ≡ ok (some text)
unfolding set_file_password
set_file_password-valid [] text named valid = absurd (cc)
set_file_password-valid (c ∷ name) text named valid = ground (arith, valid)

get_file_password-written :
    (name text : Bytes) (files : Bytes → Reading)
    → is_empty name ≡ false
    → validate_password_text text ≡ ok tt
    → get_file_password (written_to name text files) name ≡ ok text
unfolding get_file_password
get_file_password-written [] text files named valid = absurd (cc)
get_file_password-written (c ∷ name) text files named valid =
    ground (arith, valid, bytes_eq_refl (c ∷ name))

known-marshalled :
    (t : PasswordType) → is_known t ≡ true → (text : Bytes) × (marshal_type t ≡ ok text)
unfolding marshal_type
known-marshalled plain known = (_, refl)
known-marshalled bcrypt known = (_, refl)
known-marshalled (other n) known = absurd (cc)

module _ (b : Bcrypt) (laws : BcryptLaws b) (rand salt : Bytes) (long : 16 ≤ length rand)
    (this : SimpleEntry) (t : PasswordType) (from_file : IsFromFile this t)
    (files : Bytes → Reading) where
  -- There was a password, and it is kept.
  pub record IsKept (out : (Bytes → Reading) × Passwords.Result (Option Bytes)) : Type 0 where
    pub password : Bytes
    pub had : get_file_password files this.password_file ≡ ok password
    pub not_empty : is_empty password ≡ false
    pub nothing_done : out ≡ (files, ok none)

  -- The file could not be read, was not valid, or had no password; the entry has a new one.
  pub record IsRenewed (out : (Bytes → Reading) × Passwords.Result (Option Bytes)) : Type 0 where
    pub unusable :
        (get_file_password files this.password_file ≡ ok [])
        ⊎ ((e : PasswordError) × (get_file_password files this.password_file ≡ err e))
    pub decoded : Bytes
    pub encoded : Bytes
    pub told : out.1 ≡ ok (some decoded)
    pub stored : get_password out.0 this ≡ ok encoded
    pub usable : IsUsable b decoded encoded

  renew_password-IsRenewed :
      ((get_file_password files this.password_file ≡ ok [])
        ⊎ ((e : PasswordError) × (get_file_password files this.password_file ≡ err e)))
      → IsRenewed (renew_password b rand salt true t this.password_file files)
  unfolding renew_password get_password
  renew_password-IsRenewed unusable =
      let (decoded, encoded, made, usable) =
        generate-IsUsable b laws t from_file.known rand salt long in
      record {
        unusable = unusable;
        decoded = decoded;
        encoded = encoded;
        told = ground (
          arith,
          made,
          set_file_password-valid this.password_file encoded from_file.has_file usable.valid,
        );
        stored = ground (
          arith,
          made,
          set_file_password-valid this.password_file encoded from_file.has_file usable.valid,
          get_file_password-written this.password_file encoded files from_file.has_file
              usable.valid,
          from_file.no_password,
          from_file.has_file,
        );
        usable = usable;
      }

  ensure_password_file-renews :
      ((get_file_password files this.password_file ≡ ok [])
        ⊎ ((e : PasswordError) × (get_file_password files this.password_file ≡ err e)))
      → ensure_password_file b rand salt true this files
        ≡ renew_password b rand salt true t this.password_file files
  unfolding ensure_password_file
  ensure_password_file-renews (inl empty) = ground (
    arith,
    from_file.of_type,
    from_file.named,
    from_file.has_file,
    empty,
    (known-marshalled t from_file.known).1,
  )
  ensure_password_file-renews (inr (e, fails)) = ground (
    arith,
    from_file.of_type,
    from_file.named,
    from_file.has_file,
    fails,
    (known-marshalled t from_file.known).1,
  )

  ensure_password_file-keeps :
      (password : Bytes)
      → get_file_password files this.password_file ≡ ok password
      → is_empty password ≡ false
      → ensure_password_file b rand salt true this files ≡ (files, ok none)
  unfolding ensure_password_file
  ensure_password_file-keeps password had not_empty = ground (
    arith,
    from_file.of_type,
    from_file.named,
    from_file.has_file,
    had,
    not_empty,
    (known-marshalled t from_file.known).1,
  )

  -- An entry that has a name, no password of its own, a file for it and a known type to make it,
  -- where 16 random bytes can be drawn, the file can be written, and bcrypt keeps its laws: a valid
  -- password of the file is kept and nothing is done; where the file is missing, cannot be read or has
  -- no valid password, it is written anew, and what the entry has as password then accepts the one
  -- that is told.
  pub ensure_password_file-IsUsable :
      IsKept (ensure_password_file b rand salt true this files)
      ⊎ IsRenewed (ensure_password_file b rand salt true this files)
  ensure_password_file-IsUsable =
      let renewed =
        λ (unusable : (get_file_password files this.password_file ≡ ok [])
            ⊎ ((e : PasswordError) × (get_file_password files this.password_file ≡ err e))).
          subst IsRenewed (sym (ensure_password_file-renews unusable))
            (renew_password-IsRenewed unusable) in
      elim (Result-cases (get_file_password files this.password_file)) [
        | inr (e, fails) ↦ inr (renewed (inr (e, fails)))
        | inl ([], empty) ↦ inr (renewed (inl empty))
        | inl (c ∷ password, had) ↦ inl (record {
          password = c ∷ password;
          had = had;
          not_empty = refl;
          nothing_done = ensure_password_file-keeps (c ∷ password) had refl;
        })
      ]
