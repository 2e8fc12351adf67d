-- ===== src/Crypto/Tests.antt =====
-- Runs at concrete inputs.
use bifroest.Prelude.{
  ◌≡◌, ◌↔◌, ◌⊎◌, refl, true, List, [], ◌∷◌, Option, none, some, Bytes, bytes_eq, bytes_eq_iff,
  codes, is_empty, arith, All, inl, inr, ok, err, if◌then◌else◌, not, ◌&&◌, ◌||◌, ◌==◌, Bool, false,
}
use bifroest.Crypto.Passwords.{
  plain, bcrypt, Bcrypt, BcryptLaws, matched, mismatched, generate, compare_password,
  validate_password_text, illegal_password, set_password, raw_base64, marshal_type, index_byte,
  digit64,
}
use bifroest.Crypto.Passwords.Generated.{IsUsable, generate-IsUsable}
use bifroest.User.Columns.{join}
use bifroest.Session.PublicKeys.{Key}
use bifroest.Crypto.KeyOptions.{
  KeyOption, Quoting, marshal_option, command, no_pty, has_value, type_name,
}
use bifroest.Crypto.KeyOptions.Marshalled.{in_quotes, IsPlain, option_text}
use bifroest.Crypto.AuthorizedKeys.{
  parse_authorized_key, illegal_ssh_key, trim_space, trim_left, cut_off_ssh_key_algo, cut_blank,
  is_ssh_key_algo, key_line,
}
use bifroest.Crypto.AuthorizedKeys.Words.{KeyAlgo, algo_name}
use bifroest.Crypto.AuthorizedKeys.RoundTrip.{line_of, as_read, parse_authorized_key-line}
use bifroest.Crypto.Restrictions.{
  Keys, rsa_key, rsa_at_least_4096, dsa_none, ecdsa_at_least_384, ed25519_all, key_allowed,
  marshal_rsa, unmarshal_rsa, marshal_dsa, unmarshal_dsa, marshal_ecdsa, unmarshal_ecdsa,
  marshal_ed25519, unmarshal_ed25519,
}
use bifroest.Crypto.Restrictions.Allowed.{IsTaken, key_allowed_iff}
use bifroest.Crypto.Passwords.Legal.{compare_password-illegal}

-- A hash that hides nothing, for the runs.
abbrev open_hash : Bcrypt
open_hash = record {
  generate_from_password = λ salt password. some password;
  compare_hash_and_password =
      λ encoded password. if bytes_eq encoded password then matched else mismatched;
}

open_hash-BcryptLaws : BcryptLaws open_hash
open_hash-BcryptLaws = record {
  generates = λ salt password short. (password, refl);
  matches = λ salt password h made. ground (arith, made, bytes_eq_iff password password);
}

abbrev zeros : Bytes
zeros = 0 ∷ 0 ∷ 0 ∷ 0 ∷ 0 ∷ 0 ∷ 0 ∷ 0 ∷ 0 ∷ 0 ∷ 0 ∷ 0 ∷ 0 ∷ 0 ∷ 0 ∷ 0 ∷ []

generate-IsUsable_example :
    (decoded : Bytes) × (encoded : Bytes) × (generate open_hash bcrypt zeros []
      ≡ ok (decoded, encoded))
    × IsUsable open_hash decoded encoded
generate-IsUsable_example =
    generate-IsUsable open_hash open_hash-BcryptLaws bcrypt refl zeros [] (omega arith)

compare_password-illegal_example :
    (compare_password open_hash (codes "plain") (codes "secret") ≡ err illegal_password) ↔ (
      (is_empty (codes "plain") ≡ true)
      ⊎ (validate_password_text (codes "plain") ≡ err illegal_password))
compare_password-illegal_example =
    compare_password-illegal open_hash (codes "plain") (codes "secret")

encoded_text : raw_base64 (codes "bifroest") ≡ codes "Ymlmcm9lc3Q"
unfolding raw_base64 digit64
encoded_text = refl

-- What `SetPassword` makes can never be compared.
set_incomparable : set_password plain (codes "secret") ≡ ok (codes "plainsecret")
unfolding set_password marshal_type
set_incomparable = refl

never_compared :
    compare_password open_hash (codes "plainsecret") (codes "secret") ≡ err illegal_password
unfolding compare_password index_byte
never_compared = refl

unfoldable escape : Bytes → Bytes
escape [] = []
escape (b ∷ s) =
    let rest = escape s in if (b == b'"') || (b == b'\\') then b'\\' ∷ b ∷ rest else b ∷ rest

unfoldable unescape : Bool → Bytes → Option Bytes
unescape escaped [] = none
unescape escaped (b ∷ s) =
    let rest = unescape ((b == b'\\') && not escaped) s in
    if (b == b'\\') && not escaped
    then rest
    else if (b == b'"') && not escaped
    then (if is_empty s then some [] else none)
    else elim rest [ none ↦ none | some v ↦ some (b ∷ v) ]

unfoldable unquote_text : Bytes → Option Bytes
unfolding unescape
unquote_text [] = none
unquote_text (b ∷ s) = if b == b'"' then unescape false s else none

-- Quoting that puts a backslash before quotes and backslashes, and knows no other escapes, for the
-- runs.
abbrev simple_quoting : Quoting
simple_quoting = record { quote = λ v. in_quotes (escape v); unquote = unquote_text }

abbrev only_key : Key
only_key = record { kind = codes "ssh-ed25519"; marshalled = codes "AAAA" }

-- `command="say \"\\o\""`, and `no-pty`
abbrev two_options : List KeyOption
two_options =
    record { kind = command; value = codes "say \"\\o\"" }
    ∷ record { kind = no_pty; value = [] }
    ∷ []

two_options-IsPlain : All (IsPlain simple_quoting) two_options
unfolding unquote_text unescape escape has_value type_name
two_options-IsPlain = (
  record {
    some_name = refl;
    value_fits = inr (
      refl,
      record {
        body = escape (codes "say \"\\o\"");
        covered = refl;
        some_value = refl;
        quoted = refl;
        unquoted = refl;
      },
    );
  },
  (record { some_name = refl; value_fits = inl (refl, refl) }, tt),
)

parse_authorized_key-line_example :
    All (λ o. marshal_option simple_quoting o ≡ ok (option_text simple_quoting o)) two_options
    × (parse_authorized_key simple_quoting
          (λ text. some only_key)
          (line_of simple_quoting
            (λ text. some only_key)
            KeyAlgo.ed25519
            (codes "AAAA")
            only_key
            refl
            refl
            (codes "joe@hom")
            b'e'
            refl
            two_options)
        ≡ ok (
            some (
              as_read simple_quoting
                (λ text. some only_key)
                KeyAlgo.ed25519
                (codes "AAAA")
                only_key
                refl
                refl
                (codes "joe@hom")
                b'e'
                refl
                two_options)))
parse_authorized_key-line_example =
    parse_authorized_key-line simple_quoting (λ text. some only_key) KeyAlgo.ed25519 (codes "AAAA")
      only_key refl refl (codes "joe@hom") b'e' refl two_options two_options-IsPlain

written_line :
    line_of simple_quoting
      (λ text. some only_key)
      KeyAlgo.ed25519
      (codes "AAAA")
      only_key
      refl
      refl
      (codes "joe@hom")
      b'e'
      refl
      two_options
    ≡ codes "command=\"say \\\"\\\\o\\\"\",no-pty ssh-ed25519 AAAA joe@home"
unfolding has_value type_name algo_name join escape
written_line = refl

-- Two blanks behind the name of the algorithm: the text of the key is taken for empty.
no_key_text :
    parse_authorized_key simple_quoting
      (λ text. if is_empty text then none else some only_key)
      (codes "ssh-ed25519  AAAA")
    ≡ err illegal_ssh_key
unfolding parse_authorized_key trim_space trim_left cut_off_ssh_key_algo cut_blank is_ssh_key_algo
    bytes_eq key_line
no_key_text = refl

-- The defaults.
abbrev default_keys : Keys
default_keys = record {
  rsa_restriction = rsa_at_least_4096;
  dsa_restriction = dsa_none;
  ecdsa_restriction = ecdsa_at_least_384;
  ed25519_restriction = ed25519_all;
}

key_allowed_iff_example :
    ((key_allowed default_keys (rsa_key 3072) ≡ true) ↔ IsTaken default_keys (rsa_key 3072))
    × (unmarshal_rsa (marshal_rsa rsa_at_least_4096) ≡ some rsa_at_least_4096)
    × (unmarshal_dsa (marshal_dsa dsa_none) ≡ some dsa_none)
    × (unmarshal_ecdsa (marshal_ecdsa ecdsa_at_least_384) ≡ some ecdsa_at_least_384)
    × (unmarshal_ed25519 (marshal_ed25519 ed25519_all) ≡ some ed25519_all)
key_allowed_iff_example = key_allowed_iff default_keys (rsa_key 3072)
