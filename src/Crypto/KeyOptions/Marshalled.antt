-- ===== src/Crypto/KeyOptions/Marshalled.antt =====
-- Options that are written are read back.
use bifroest.Prelude.{
  ℕ, ◌≡◌, ◌⊎◌, refl, Bool, true, false, not, ◌&&◌, ◌||◌, [], ◌∷◌, ◌++◌, some, Bytes, bytes_eq,
  is_empty, Lacks, ◌==◌, if◌then◌else◌, ok, arith, inl, inr,
}
use bifroest.Prelude.Maps.{find}
use bifroest.User.Columns.{split_n}
use bifroest.User.Columns.Parts.{split_n-append, split_n-Lacks}
use bifroest.Crypto.KeyOptions.{
  OptionType, empty, agent_forwarding, no_agent_forwarding, cert_authority, command, environment,
  expiry_time, from, permit_listen, permit_open, principals, port_forwarding, no_port_forwarding,
  pty, no_pty, no_touch_required, verify_required, restrict, tunnel, user_rc, no_user_rc,
  x11_forwarding, no_x11_forwarding, KeyOption, Quoting, has_value, type_name, parse_option_type,
  marshal_option, unmarshal_option, option_of,
}

-- A byte of a name: no blank, comma, quote or equals sign.
abbrev pub is_word_byte : ℕ → Bool
is_word_byte b = not ((b == b' ') || (b == 9) || (b == b',') || (b == b'"') || (b == b'='))

abbrev pub is_word : Bytes → Bool
is_word [] = true
is_word (b ∷ s) = is_word_byte b && is_word s

pub type_name-word : (t : OptionType) → is_word (type_name t) ≡ true
unfolding type_name
type_name-word empty = refl
type_name-word agent_forwarding = refl
type_name-word no_agent_forwarding = refl
type_name-word cert_authority = refl
type_name-word command = refl
type_name-word environment = refl
type_name-word expiry_time = refl
type_name-word from = refl
type_name-word permit_listen = refl
type_name-word permit_open = refl
type_name-word principals = refl
type_name-word port_forwarding = refl
type_name-word no_port_forwarding = refl
type_name-word pty = refl
type_name-word no_pty = refl
type_name-word no_touch_required = refl
type_name-word verify_required = refl
type_name-word restrict = refl
type_name-word tunnel = refl
type_name-word user_rc = refl
type_name-word no_user_rc = refl
type_name-word x11_forwarding = refl
type_name-word no_x11_forwarding = refl

pub parse_option_type-type_name : (t : OptionType) → parse_option_type (type_name t) ≡ some t
unfolding parse_option_type type_name find bytes_eq
parse_option_type-type_name empty = refl
parse_option_type-type_name agent_forwarding = refl
parse_option_type-type_name no_agent_forwarding = refl
parse_option_type-type_name cert_authority = refl
parse_option_type-type_name command = refl
parse_option_type-type_name environment = refl
parse_option_type-type_name expiry_time = refl
parse_option_type-type_name from = refl
parse_option_type-type_name permit_listen = refl
parse_option_type-type_name permit_open = refl
parse_option_type-type_name principals = refl
parse_option_type-type_name port_forwarding = refl
parse_option_type-type_name no_port_forwarding = refl
parse_option_type-type_name pty = refl
parse_option_type-type_name no_pty = refl
parse_option_type-type_name no_touch_required = refl
parse_option_type-type_name verify_required = refl
parse_option_type-type_name restrict = refl
parse_option_type-type_name tunnel = refl
parse_option_type-type_name user_rc = refl
parse_option_type-type_name no_user_rc = refl
parse_option_type-type_name x11_forwarding = refl
parse_option_type-type_name no_x11_forwarding = refl

word-Lacks : (s : Bytes) → is_word s ≡ true → Lacks b'=' s
word-Lacks [] h = tt
word-Lacks (b ∷ s) h = (ground arith, word-Lacks s (ground arith))

-- Each quote is behind a backslash, and no backslash is the last, where a byte stands before.
abbrev pub is_covered : ℕ → Bytes → Bool
is_covered previous [] = not (previous == b'\\')
is_covered previous (b ∷ s) = (not (b == b'"') || (previous == b'\\')) && is_covered b s

abbrev pub in_quotes : Bytes → Bytes
in_quotes v = b'"' ∷ v ++ b'"' ∷ []

module _ (q : Quoting) where
  -- A value that is not empty, and is quoted to a text in which each quote but the first and the last
  -- is behind a backslash, and the last is not, and which is unquoted to the value.
  pub record IsQuotable (v : Bytes) : Type 0 where
    pub body : Bytes
    pub covered : is_covered b'"' body ≡ true
    pub some_value : is_empty v ≡ false
    pub quoted : q.quote v ≡ in_quotes body
    pub unquoted : q.unquote (in_quotes body) ≡ some v

  -- An option that has a name, and a value exactly if it takes one.
  pub record IsPlain (o : KeyOption) : Type 0 where
    pub some_name : is_empty (type_name o.kind) ≡ false
    pub value_fits :
        ((has_value o.kind ≡ false) × (o.value ≡ []))
        ⊎ ((has_value o.kind ≡ true) × IsQuotable o.value)

  abbrev pub option_text : KeyOption → Bytes
  option_text o =
      if has_value o.kind then type_name o.kind ++ b'=' ∷ q.quote o.value else type_name o.kind

  pub marshal_option-IsPlain : (o : KeyOption) → IsPlain o → marshal_option q o ≡ ok (option_text o)
  unfolding marshal_option
  marshal_option-IsPlain o is_plain = elim is_plain.value_fits [
    | inl (bare, nothing) ↦ ground (arith, bare)
    | inr (valued, quotable) ↦ ground (arith, valued, quotable.some_value)
  ]

  split_n-rest : (s : Bytes) → split_n b'=' 0 s ≡ s ∷ []
  unfolding split_n
  split_n-rest [] = refl
  split_n-rest (c ∷ s) = refl

  pub unmarshal_option-IsPlain :
      (o : KeyOption) → IsPlain o → unmarshal_option q (option_text o) ≡ ok o
  unfolding unmarshal_option option_of
  unmarshal_option-IsPlain o is_plain = elim is_plain.value_fits [
    | inl (bare, nothing) ↦ ground (
      arith,
      bare,
      nothing,
      split_n-Lacks b'=' 1 (type_name o.kind)
          (word-Lacks (type_name o.kind) (type_name-word o.kind)),
      parse_option_type-type_name o.kind,
    )
    | inr (valued, quotable) ↦ ground (
      arith,
      valued,
      quotable.quoted,
      quotable.unquoted,
      split_n-append b'=' 0 (type_name o.kind) (in_quotes quotable.body)
          (word-Lacks (type_name o.kind) (type_name-word o.kind)),
      split_n-rest (in_quotes quotable.body),
      parse_option_type-type_name o.kind,
    )
  ]
