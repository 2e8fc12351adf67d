-- ===== src/Crypto/AuthorizedKeys.antt =====
-- pkg/crypto/authorized-keys.go and authorized-keys-file.go: the keys of a user, one in a line, with
-- options before and a comment behind. The decoding of a key is a parameter.
pub mod Scanned
pub mod Trimmed
pub mod Words
pub mod RoundTrip
use bifroest.Prelude.{
  ℕ, zero, suc, ◌*◌, ◌≡◌, Bool, true, false, not, ◌&&◌, ◌||◌, List, [], ◌∷◌, ◌++◌, reverse, Option,
  none, some, Bytes, bytes_eq, codes, is_empty, length, leb, ◌==◌, if◌then◌else◌, ok, err,
}
use bifroest.Prelude
use bifroest.User.Columns.{split}
use bifroest.User.Colon.{drop_return, drop_last_empty}
use bifroest.Session.PublicKeys.{Key}
use bifroest.Crypto.KeyOptions.{KeyOption, Quoting, unmarshal_option}

pub data KeysError : Type 0 where
  illegal_authorized_keys_format illegal_ssh_key : KeysError
  -- `bufio.ErrTooLong`
  too_long : KeysError
  -- what opening the file answers
  cannot_open : KeysError
  no_keys : KeysError

abbrev pub Result : Type 0 → Type 0
Result = Prelude.Result KeysError

abbrev pub max_authorized_keys_line_size : ℕ
max_authorized_keys_line_size = 10 * 1024

abbrev pub is_blank : ℕ → Bool
is_blank b = (b == b' ') || (b == 9)

-- The spaces of ASCII; those of Unicode (U+0085, U+00A0 and on) are not trimmed here.
abbrev pub is_space : ℕ → Bool
is_space b = is_blank b || (b == 10) || (b == 11) || (b == 12) || (b == 13)

unfoldable pub trim_left : Bytes → Bytes
trim_left [] = []
trim_left (b ∷ s) = let rest = trim_left s in if is_space b then rest else b ∷ s

-- `bytes.TrimSpace`, on ASCII
unfoldable pub trim_space : Bytes → Bytes
unfolding trim_left
trim_space s = reverse (trim_left (reverse (trim_left s)))

-- `bytes.IndexAny(s, " \t")`: what is before and what is behind
unfoldable pub cut_blank : Bytes → Option (Bytes × Bytes)
cut_blank [] = none
cut_blank (b ∷ s) =
    let rest = cut_blank s in
    if is_blank b
    then some ([], s)
    else elim rest [ none ↦ none | some (before, behind) ↦ some (b ∷ before, behind) ]

-- `getSshKeyAlgo`
unfoldable pub is_ssh_key_algo : Bytes → Bool
is_ssh_key_algo s =
    bytes_eq s (codes "ssh-rsa")
    || bytes_eq s (codes "ssh-dss")
    || bytes_eq s (codes "ecdsa-sha2-nistp256")
    || bytes_eq s (codes "ecdsa-sha2-nistp384")
    || bytes_eq s (codes "ecdsa-sha2-nistp521")
    || bytes_eq s (codes "sk-ecdsa-sha2-nistp256@openssh.com")
    || bytes_eq s (codes "ssh-ed25519")
    || bytes_eq s (codes "sk-ssh-ed25519@openssh.com")

-- `cutOffSshKeyAlgo`: what follows the name of an algorithm, where there is one
unfoldable pub cut_off_ssh_key_algo : Bytes → Option Bytes
unfolding cut_blank is_ssh_key_algo
cut_off_ssh_key_algo line = elim (cut_blank line) [
  | none ↦ none
  | some (algo, rest) ↦ if is_ssh_key_algo algo then some rest else none
]

-- What a byte is to the loop over the options.
pub data Part : Type 0 where
  ends separates belongs : Part

unfoldable pub part_of : Bool → ℕ → Part
part_of in_quote b =
    if in_quote
    then belongs
    else if is_blank b
    then ends
    else if b == b','
    then separates
    else belongs

-- A quote that is not behind a backslash.
abbrev pub toggled : Bool → ℕ → ℕ → Bool
toggled in_quote previous b =
    if (b == b'"') && not (previous == b'\\') then not in_quote else in_quote

-- What stands in one line.
pub record KeyLine : Type 0 where
  pub key : Key
  pub comment : Bytes
  pub options : List KeyOption

module _ (q : Quoting) (parse_public_key : Bytes → Option Key) where
  -- The option between two commas, if there is anything.
  unfoldable pub add_option : Bytes → Result (List KeyOption)
  unfolding unmarshal_option
  add_option [] = ok []
  add_option (b ∷ s) = elim (unmarshal_option q (b ∷ s)) [
    | err e ↦ err illegal_authorized_keys_format
    | ok o ↦ ok (o ∷ [])
  ]

  -- The loop over the options, with the option so far; what is left starts with the blank. A line
  -- that is used up has no room for a key.
  unfoldable pub scan_options : Bool → ℕ → Bytes → Bytes → Result (List KeyOption × Bytes)
  unfolding part_of add_option
  scan_options in_quote previous so_far [] = err illegal_authorized_keys_format
  scan_options in_quote previous so_far (b ∷ s) = elim (part_of in_quote b) [
    | ends ↦ elim (add_option so_far) [ err e ↦ err e | ok os ↦ ok (os, b ∷ s) ]
    | separates ↦ elim (add_option so_far) [
      | err e ↦ err e
      | ok os ↦ elim (scan_options in_quote b [] s) [
        | err e ↦ err e
        | ok (more, left) ↦ ok (os ++ more, left)
      ]
    ]
    | belongs ↦ scan_options (toggled in_quote previous b) b (so_far ++ b ∷ []) s
  ]

  unfoldable pub skip_blanks : Bytes → Bytes
  skip_blanks [] = []
  skip_blanks (b ∷ s) = let rest = skip_blanks s in if is_blank b then rest else b ∷ s

  -- The key and the comment, behind the name of the algorithm
  unfoldable pub key_line : List KeyOption → Bytes → Result KeyLine
  unfolding cut_blank trim_space
  key_line options line =
      let (key_text, comment) : Bytes × Bytes = elim (cut_blank line) [
        | none ↦ (trim_space line, [])
        | some (before, behind) ↦ (trim_space before, trim_space behind)
      ] in
      elim (parse_public_key key_text) [
        | none ↦ err illegal_ssh_key
        | some key ↦ ok (record { key = key; comment = comment; options = options })
      ]

  -- `parseAuthorizedKey`
  unfoldable pub parse_authorized_key : Bytes → Result (Option KeyLine)
  unfolding trim_space cut_off_ssh_key_algo scan_options skip_blanks key_line
  parse_authorized_key raw =
      let line = trim_space raw in
      let found : List KeyOption → Bytes → Result (Option KeyLine) =
        λ options rest. elim (key_line options rest) [ err e ↦ err e | ok l ↦ ok (some l) ] in
      elim line [
        | [] ↦ ok none
        | b ∷ s ↦ if b == b'#' then ok none else elim (cut_off_ssh_key_algo (b ∷ s)) [
          | some rest ↦ found [] rest
          | none ↦ elim (scan_options false 0 [] (b ∷ s)) [
            | err e ↦ err e
            | ok (options, left) ↦ elim (cut_off_ssh_key_algo (skip_blanks left)) [
              | none ↦ err illegal_authorized_keys_format
              | some rest ↦ found options rest
            ]
          ]
        ]
      ]

  -- `parseAuthorizedKeys`, with a consumer of what it keeps; a line that is too long is an error.
  unfoldable pub parse_lines :
      {X : Type 0} → (KeyLine → X → X × Result Bool) → List Bytes → X → X × Result (Unit {0})
  unfolding parse_authorized_key
  parse_lines consumer [] x = (x, ok tt)
  parse_lines consumer (l ∷ ls) x =
      if leb max_authorized_keys_line_size (length l)
      then (x, err too_long)
      else elim (parse_authorized_key (drop_return l)) [
        | err e ↦ (x, err e)
        | ok none ↦ parse_lines consumer ls x
        | ok (some k) ↦
            let (x', out) = consumer k x in
            elim out [
              | err e ↦ (x', err e)
              | ok false ↦ (x', ok tt)
              | ok true ↦ parse_lines consumer ls x'
            ]
      ]

  unfoldable pub parse_authorized_keys :
      {X : Type 0} → (KeyLine → X → X × Result Bool) → Bytes → X → X × Result (Unit {0})
  unfolding parse_lines
  parse_authorized_keys consumer text = parse_lines consumer (drop_last_empty (split b'\n' text))

  -- `AuthorizedKeys.ForEach`
  unfoldable pub for_each_key :
      {X : Type 0} → (KeyLine → X → X × Result Bool) → Bytes → X → X × Result (Unit {0})
  unfolding parse_authorized_keys
  for_each_key consumer text x =
      if is_empty text then (x, ok tt) else parse_authorized_keys consumer text x

  -- `AuthorizedKeysFile.ForEach`, on what opening the file gives
  unfoldable pub for_each_key_of_file :
      {X : Type 0}
      → (Bytes → Option Bytes)
      → (KeyLine → X → X × Result Bool)
      → Bytes
      → X
      → X × Result (Unit {0})
  unfolding parse_authorized_keys
  for_each_key_of_file files consumer name x =
      if is_empty name then (x, ok tt) else elim (files name) [
        | none ↦ (x, err cannot_open)
        | some text ↦ parse_authorized_keys consumer text x
      ]

  -- `getAuthorizedKeysOf` and `validateAuthorizedKeysOf`, on the keys of a configuration
  unfoldable pub get_authorized_keys : Bytes → List KeyLine × Result (Unit {0})
  unfolding for_each_key
  get_authorized_keys text = for_each_key (λ k ks. (ks ++ k ∷ [], ok true)) text []

  unfoldable pub validate_authorized_keys : Bytes → Result (Unit {0})
  unfolding for_each_key trim_space
  validate_authorized_keys text =
      if is_empty (trim_space text)
      then ok tt
      else let (at_least_one, out) = for_each_key (λ k b. (true, ok false)) text false in
        elim out [ err e ↦ err e | ok _ ↦ if at_least_one then ok tt else err no_keys ]
