-- ===== src/Crypto/Restrictions.antt =====
-- pkg/crypto/rsa-restriction.go, dsa-restriction.go, ecdsa-restriction.go and ed25519-restriction.go,
-- with `Keys.KeyAllowed` of pkg/configuration/keys.go: which keys are taken. Other values of the four
-- types than the constants are not modelled.
pub mod Allowed
use bifroest.Prelude.{
  ℕ, ◌+◌, ◌*◌, Bool, true, false, not, ◌&&◌, ◌||◌, List, [], ◌∷◌, ◌++◌, Option, none, some, Bytes,
  bytes_eq, codes, leb, map, length, if◌then◌else◌,
}

-- `strings.ToLower`, on ASCII
abbrev pub to_lower_byte : ℕ → ℕ
to_lower_byte b = if leb b'A' b && leb b b'Z' then b + 32 else b

unfoldable pub to_lower : Bytes → Bytes
to_lower s = map to_lower_byte s

-- Whether a text is one of some others: a case of a `switch`
unfoldable pub is_one_of : List Bytes → Bytes → Bool
is_one_of [] text = false
is_one_of (t ∷ ts) text = bytes_eq text t || is_one_of ts text

-- The spellings of a number of bits
abbrev pub at_least_texts : Bytes → List Bytes
at_least_texts n =
    (codes "at-least-" ++ (n ++ codes "-bits"))
    ∷ (codes "atleast" ++ (n ++ codes "bits"))
    ∷ (codes "at_least_" ++ (n ++ codes "_bits"))
    ∷ (codes "at-least-" ++ n)
    ∷ (codes "atleast" ++ n)
    ∷ (codes "at_least_" ++ n)
    ∷ n
    ∷ (n ++ codes "bits")
    ∷ []

abbrev pub none_texts : List Bytes
none_texts = [] ∷ codes "none" ∷ codes "forbidden" ∷ []

abbrev pub all_texts : List Bytes
all_texts = codes "all" ∷ codes "unrestricted" ∷ []

-- `RsaRestriction`
pub data RsaRestriction : Type 0 where
  rsa_none rsa_all rsa_at_least_1024 rsa_at_least_2048 rsa_at_least_3072 rsa_at_least_4096 :
      RsaRestriction

-- `RsaRestriction.MarshalText`
unfoldable pub marshal_rsa : RsaRestriction → Bytes
marshal_rsa rsa_none = codes "none"
marshal_rsa rsa_all = codes "all"
marshal_rsa rsa_at_least_1024 = codes "at-least-1024-bits"
marshal_rsa rsa_at_least_2048 = codes "at-least-2048-bits"
marshal_rsa rsa_at_least_3072 = codes "at-least-3072-bits"
marshal_rsa rsa_at_least_4096 = codes "at-least-4096-bits"

-- `RsaRestriction.UnmarshalText`
unfoldable pub unmarshal_rsa : Bytes → Option RsaRestriction
unfolding to_lower is_one_of
unmarshal_rsa text =
    let lower = to_lower text in
    if is_one_of none_texts lower
    then some rsa_none
    else if is_one_of all_texts lower
    then some rsa_all
    else if is_one_of (at_least_texts (codes "1024")) lower
    then some rsa_at_least_1024
    else if is_one_of (at_least_texts (codes "2048")) lower
    then some rsa_at_least_2048
    else if is_one_of (at_least_texts (codes "3072")) lower
    then some rsa_at_least_3072
    else if is_one_of (at_least_texts (codes "4096")) lower
    then some rsa_at_least_4096
    else none

-- `RsaRestriction.BitsAllowed`
unfoldable pub rsa_bits_allowed : RsaRestriction → ℕ → Bool
rsa_bits_allowed rsa_none bits = false
rsa_bits_allowed rsa_all bits = true
rsa_bits_allowed rsa_at_least_1024 bits = leb 1024 bits
rsa_bits_allowed rsa_at_least_2048 bits = leb 2048 bits
rsa_bits_allowed rsa_at_least_3072 bits = leb 3072 bits
rsa_bits_allowed rsa_at_least_4096 bits = leb 4096 bits

-- `DsaRestriction`
pub data DsaRestriction : Type 0 where
  dsa_none dsa_all dsa_at_least_1024 dsa_at_least_2048 dsa_at_least_3072 : DsaRestriction

-- `DsaRestriction.MarshalText`
unfoldable pub marshal_dsa : DsaRestriction → Bytes
marshal_dsa dsa_none = codes "none"
marshal_dsa dsa_all = codes "all"
marshal_dsa dsa_at_least_1024 = codes "at-least-1024-bits"
marshal_dsa dsa_at_least_2048 = codes "at-least-2048-bits"
marshal_dsa dsa_at_least_3072 = codes "at-least-3072-bits"

-- `DsaRestriction.UnmarshalText`
unfoldable pub unmarshal_dsa : Bytes → Option DsaRestriction
unfolding to_lower is_one_of
unmarshal_dsa text =
    let lower = to_lower text in
    if is_one_of none_texts lower
    then some dsa_none
    else if is_one_of all_texts lower
    then some dsa_all
    else if is_one_of (at_least_texts (codes "1024")) lower
    then some dsa_at_least_1024
    else if is_one_of (at_least_texts (codes "2048")) lower
    then some dsa_at_least_2048
    else if is_one_of (at_least_texts (codes "3072")) lower
    then some dsa_at_least_3072
    else none

-- `DsaRestriction.BitsAllowed`
unfoldable pub dsa_bits_allowed : DsaRestriction → ℕ → Bool
dsa_bits_allowed dsa_none bits = false
dsa_bits_allowed dsa_all bits = true
dsa_bits_allowed dsa_at_least_1024 bits = leb 1024 bits
dsa_bits_allowed dsa_at_least_2048 bits = leb 2048 bits
dsa_bits_allowed dsa_at_least_3072 bits = leb 3072 bits

-- `EcdsaRestriction`
pub data EcdsaRestriction : Type 0 where
  ecdsa_none ecdsa_all ecdsa_at_least_256 ecdsa_at_least_384 ecdsa_at_least_521 : EcdsaRestriction

-- `EcdsaRestriction.MarshalText`
unfoldable pub marshal_ecdsa : EcdsaRestriction → Bytes
marshal_ecdsa ecdsa_none = codes "none"
marshal_ecdsa ecdsa_all = codes "all"
marshal_ecdsa ecdsa_at_least_256 = codes "at-least-256-bits"
marshal_ecdsa ecdsa_at_least_384 = codes "at-least-384-bits"
marshal_ecdsa ecdsa_at_least_521 = codes "at-least-521-bits"

-- `EcdsaRestriction.UnmarshalText`
unfoldable pub unmarshal_ecdsa : Bytes → Option EcdsaRestriction
unfolding to_lower is_one_of
unmarshal_ecdsa text =
    let lower = to_lower text in
    if is_one_of none_texts lower
    then some ecdsa_none
    else if is_one_of all_texts lower
    then some ecdsa_all
    else if is_one_of (at_least_texts (codes "256")) lower
    then some ecdsa_at_least_256
    else if is_one_of (at_least_texts (codes "384")) lower
    then some ecdsa_at_least_384
    else if is_one_of (at_least_texts (codes "521")) lower
    then some ecdsa_at_least_521
    else none

-- `EcdsaRestriction.BitsAllowed`
unfoldable pub ecdsa_bits_allowed : EcdsaRestriction → ℕ → Bool
ecdsa_bits_allowed ecdsa_none bits = false
ecdsa_bits_allowed ecdsa_all bits = true
ecdsa_bits_allowed ecdsa_at_least_256 bits = leb 256 bits
ecdsa_bits_allowed ecdsa_at_least_384 bits = leb 384 bits
ecdsa_bits_allowed ecdsa_at_least_521 bits = leb 521 bits

-- `Ed25519Restriction`
pub data Ed25519Restriction : Type 0 where
  ed25519_none ed25519_all ed25519_at_least_256 : Ed25519Restriction

-- `Ed25519Restriction.MarshalText`
unfoldable pub marshal_ed25519 : Ed25519Restriction → Bytes
marshal_ed25519 ed25519_none = codes "none"
marshal_ed25519 ed25519_all = codes "all"
marshal_ed25519 ed25519_at_least_256 = codes "at-least-256-bits"

-- `Ed25519Restriction.UnmarshalText`
unfoldable pub unmarshal_ed25519 : Bytes → Option Ed25519Restriction
unfolding to_lower is_one_of
unmarshal_ed25519 text =
    let lower = to_lower text in
    if is_one_of none_texts lower
    then some ed25519_none
    else if is_one_of all_texts lower
    then some ed25519_all
    else if is_one_of (at_least_texts (codes "256")) lower
    then some ed25519_at_least_256
    else none

-- `Ed25519Restriction.BitsAllowed`
unfoldable pub ed25519_bits_allowed : Ed25519Restriction → ℕ → Bool
ed25519_bits_allowed ed25519_none bits = false
ed25519_bits_allowed ed25519_all bits = true
ed25519_bits_allowed ed25519_at_least_256 bits = leb 256 bits

-- A key, as far as it is restricted: its kind, and its number of bits, of an Ed25519 key its bytes
pub data SdkKey : Type 0 where
  rsa_key dsa_key ecdsa_key ed25519_key : ℕ → SdkKey
  other_key : SdkKey

-- `Keys`, the four restrictions
pub record Keys : Type 0 where
  pub rsa_restriction : RsaRestriction
  pub dsa_restriction : DsaRestriction
  pub ecdsa_restriction : EcdsaRestriction
  pub ed25519_restriction : Ed25519Restriction

-- `RsaRestriction.KeyAllowed`, which has no errors
unfoldable pub rsa_key_allowed : RsaRestriction → SdkKey → Bool
unfolding rsa_bits_allowed
rsa_key_allowed this (rsa_key bits) = rsa_bits_allowed this bits
rsa_key_allowed this _ = false

-- `DsaRestriction.KeyAllowed`, which has no errors
unfoldable pub dsa_key_allowed : DsaRestriction → SdkKey → Bool
unfolding dsa_bits_allowed
dsa_key_allowed this (dsa_key bits) = dsa_bits_allowed this bits
dsa_key_allowed this _ = false

-- `EcdsaRestriction.KeyAllowed`, which has no errors
unfoldable pub ecdsa_key_allowed : EcdsaRestriction → SdkKey → Bool
unfolding ecdsa_bits_allowed
ecdsa_key_allowed this (ecdsa_key bits) = ecdsa_bits_allowed this bits
ecdsa_key_allowed this _ = false

-- `Ed25519Restriction.KeyAllowed`, which has no errors
unfoldable pub ed25519_key_allowed : Ed25519Restriction → SdkKey → Bool
unfolding ed25519_bits_allowed
ed25519_key_allowed this (ed25519_key length_) = ed25519_bits_allowed this (length_ * 8)
ed25519_key_allowed this _ = false

-- `Keys.KeyAllowed`
unfoldable pub key_allowed : Keys → SdkKey → Bool
unfolding rsa_key_allowed dsa_key_allowed ecdsa_key_allowed ed25519_key_allowed
key_allowed this key =
    if rsa_key_allowed this.rsa_restriction key
    then true
    else if dsa_key_allowed this.dsa_restriction key
    then true
    else if ecdsa_key_allowed this.ecdsa_restriction key
    then true
    else ed25519_key_allowed this.ed25519_restriction key
