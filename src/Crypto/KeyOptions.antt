-- ===== src/Crypto/KeyOptions.antt =====
-- pkg/crypto/authorized-keys-option-type.go and authorized-keys-option.go: the options before a key in
-- a file of authorized keys. `strconv.Quote` and `strconv.Unquote` are parameters.
pub mod Marshalled
use bifroest.Prelude.{
  ◌≡◌, Bool, true, false, List, [], ◌∷◌, ◌++◌, Option, none, some, Bytes, codes, is_empty,
  if◌then◌else◌, ok, err,
}
use bifroest.Prelude
use bifroest.Prelude.Maps.{Named, find}
use bifroest.User.Columns.{split_n}

-- `AuthorizedKeyOptionType`, its legal values
pub data OptionType : Type 0 where
  empty agent_forwarding no_agent_forwarding cert_authority command environment : OptionType
  expiry_time from permit_listen permit_open principals port_forwarding : OptionType
  no_port_forwarding pty no_pty no_touch_required verify_required restrict tunnel : OptionType
  user_rc no_user_rc x11_forwarding no_x11_forwarding : OptionType

pub data OptionError : Type 0 where
  illegal_type : OptionError
  absent_value unexpected_value badly_quoted : OptionError

abbrev pub Result : Type 0 → Type 0
Result = Prelude.Result OptionError

-- `hasValue`
unfoldable pub has_value : OptionType → Bool
has_value command = true
has_value environment = true
has_value expiry_time = true
has_value from = true
has_value permit_listen = true
has_value permit_open = true
has_value principals = true
has_value tunnel = true
has_value _ = false

-- `authorizedKeyOptionTypeToName`
unfoldable pub type_name : OptionType → Bytes
type_name empty = []
type_name agent_forwarding = codes "agent-forwarding"
type_name no_agent_forwarding = codes "no-agent-forwarding"
type_name cert_authority = codes "cert-authority"
type_name command = codes "command"
type_name environment = codes "environment"
type_name expiry_time = codes "expiry-time"
type_name from = codes "from"
type_name permit_listen = codes "permitlisten"
type_name permit_open = codes "permitopen"
type_name principals = codes "principals"
type_name port_forwarding = codes "port-forwarding"
type_name no_port_forwarding = codes "no-port-forwarding"
type_name pty = codes "pty"
type_name no_pty = codes "no-pty"
type_name no_touch_required = codes "no-touch-required"
type_name verify_required = codes "verify-required"
type_name restrict = codes "restrict"
type_name tunnel = codes "tunnel"
type_name user_rc = codes "user-rc"
type_name no_user_rc = codes "no-user-rc"
type_name x11_forwarding = codes "x11-forwarding"
type_name no_x11_forwarding = codes "no-x11-forwarding"

abbrev all_types : List OptionType
all_types =
    empty ∷ agent_forwarding ∷ no_agent_forwarding ∷ cert_authority ∷ command ∷ environment
    ∷ expiry_time ∷ from ∷ permit_listen ∷ permit_open ∷ principals ∷ port_forwarding
    ∷ no_port_forwarding ∷ pty ∷ no_pty ∷ no_touch_required ∷ verify_required ∷ restrict ∷ tunnel
    ∷ user_rc ∷ no_user_rc ∷ x11_forwarding ∷ no_x11_forwarding ∷ []

abbrev by_name : List OptionType → Named OptionType
unfolding type_name
by_name [] = []
by_name (t ∷ ts) = (type_name t, t) ∷ by_name ts

-- `AuthorizedKeyOptionType.UnmarshalText`, by `nameToAuthorizedKeyOptionType`
unfoldable pub parse_option_type : Bytes → Option OptionType
unfolding find type_name
parse_option_type text = find text (by_name all_types)

-- `AuthorizedKeyOption`
pub record KeyOption : Type 0 where
  pub kind : OptionType
  pub value : Bytes

-- `strconv.Quote`, and `strconv.Unquote`, which may fail
pub record Quoting : Type 0 where
  pub quote : Bytes → Bytes
  pub unquote : Bytes → Option Bytes

module _ (q : Quoting) where
  -- `AuthorizedKeyOption.MarshalText`
  unfoldable pub marshal_option : KeyOption → Result Bytes
  unfolding type_name has_value
  marshal_option o =
      if has_value o.kind
      then (if is_empty o.value
          then err absent_value
          else ok (type_name o.kind ++ b'=' ∷ q.quote o.value))
      else ok (type_name o.kind)

  unfoldable pub option_of : OptionType → List Bytes → Result KeyOption
  unfolding has_value
  option_of t rest =
      if has_value t
      then elim rest [
        | [] ↦ err absent_value
        | text ∷ _ ↦ elim (q.unquote text) [
          | none ↦ err badly_quoted
          | some value ↦ ok (record { kind = t; value = value })
        ]
      ]
      else if is_empty rest
      then ok (record { kind = t; value = [] })
      else err unexpected_value

  -- `AuthorizedKeyOption.UnmarshalText`
  unfoldable pub unmarshal_option : Bytes → Result KeyOption
  unfolding split_n parse_option_type option_of
  unmarshal_option text = elim (split_n b'=' 1 text) [
    | [] ↦ err illegal_type
    | name ∷ rest ↦ elim (parse_option_type name) [
      | none ↦ err illegal_type
      | some t ↦ option_of t rest
    ]
  ]
