-- ===== src/Crypto/Restrictions/Allowed.antt =====
-- What the restrictions of keys take, and how they are written.
use bifroest.Prelude.{ℕ, ◌*◌, ◌≤◌, ◌≡◌, ◌↔◌, refl, true, some, none, Option, bytes_eq, arith}
use bifroest.Crypto.Restrictions.{
  RsaRestriction, rsa_none, rsa_all, rsa_at_least_1024, rsa_at_least_2048, rsa_at_least_3072,
  rsa_at_least_4096, marshal_rsa, unmarshal_rsa, rsa_bits_allowed, rsa_key_allowed, DsaRestriction,
  dsa_none, dsa_all, dsa_at_least_1024, dsa_at_least_2048, dsa_at_least_3072, marshal_dsa,
  unmarshal_dsa, dsa_bits_allowed, dsa_key_allowed, EcdsaRestriction, ecdsa_none, ecdsa_all,
  ecdsa_at_least_256, ecdsa_at_least_384, ecdsa_at_least_521, marshal_ecdsa, unmarshal_ecdsa,
  ecdsa_bits_allowed, ecdsa_key_allowed, Ed25519Restriction, ed25519_none, ed25519_all,
  ed25519_at_least_256, marshal_ed25519, unmarshal_ed25519, ed25519_bits_allowed,
  ed25519_key_allowed, SdkKey, rsa_key, dsa_key, ecdsa_key, ed25519_key, other_key, Keys,
  key_allowed, to_lower, is_one_of,
}

abbrev pub IsLongEnough : Option ℕ → ℕ → Type 0
IsLongEnough none bits = ⊥
IsLongEnough (some least) bits = least ≤ bits

-- The least number of bits, if any key is taken at all.
abbrev pub rsa_least : RsaRestriction → Option ℕ
rsa_least rsa_none = none
rsa_least rsa_all = some 0
rsa_least rsa_at_least_1024 = some 1024
rsa_least rsa_at_least_2048 = some 2048
rsa_least rsa_at_least_3072 = some 3072
rsa_least rsa_at_least_4096 = some 4096

unmarshal-marshal_rsa : (x : RsaRestriction) → unmarshal_rsa (marshal_rsa x) ≡ some x
unfolding unmarshal_rsa marshal_rsa to_lower is_one_of bytes_eq
unmarshal-marshal_rsa rsa_none = refl
unmarshal-marshal_rsa rsa_all = refl
unmarshal-marshal_rsa rsa_at_least_1024 = refl
unmarshal-marshal_rsa rsa_at_least_2048 = refl
unmarshal-marshal_rsa rsa_at_least_3072 = refl
unmarshal-marshal_rsa rsa_at_least_4096 = refl

rsa_bits_allowed_iff :
    (x : RsaRestriction) (bits : ℕ)
    → (rsa_bits_allowed x bits ≡ true) ↔ IsLongEnough (rsa_least x) bits
unfolding rsa_bits_allowed
rsa_bits_allowed_iff rsa_none bits = (λ h. absurd (cc), λ h. absurd h)
rsa_bits_allowed_iff rsa_all bits = (λ h. omega arith, λ h. refl)
rsa_bits_allowed_iff rsa_at_least_1024 bits = ground arith
rsa_bits_allowed_iff rsa_at_least_2048 bits = ground arith
rsa_bits_allowed_iff rsa_at_least_3072 bits = ground arith
rsa_bits_allowed_iff rsa_at_least_4096 bits = ground arith

-- The least number of bits, if any key is taken at all.
abbrev pub dsa_least : DsaRestriction → Option ℕ
dsa_least dsa_none = none
dsa_least dsa_all = some 0
dsa_least dsa_at_least_1024 = some 1024
dsa_least dsa_at_least_2048 = some 2048
dsa_least dsa_at_least_3072 = some 3072

unmarshal-marshal_dsa : (x : DsaRestriction) → unmarshal_dsa (marshal_dsa x) ≡ some x
unfolding unmarshal_dsa marshal_dsa to_lower is_one_of bytes_eq
unmarshal-marshal_dsa dsa_none = refl
unmarshal-marshal_dsa dsa_all = refl
unmarshal-marshal_dsa dsa_at_least_1024 = refl
unmarshal-marshal_dsa dsa_at_least_2048 = refl
unmarshal-marshal_dsa dsa_at_least_3072 = refl

dsa_bits_allowed_iff :
    (x : DsaRestriction) (bits : ℕ)
    → (dsa_bits_allowed x bits ≡ true) ↔ IsLongEnough (dsa_least x) bits
unfolding dsa_bits_allowed
dsa_bits_allowed_iff dsa_none bits = (λ h. absurd (cc), λ h. absurd h)
dsa_bits_allowed_iff dsa_all bits = (λ h. omega arith, λ h. refl)
dsa_bits_allowed_iff dsa_at_least_1024 bits = ground arith
dsa_bits_allowed_iff dsa_at_least_2048 bits = ground arith
dsa_bits_allowed_iff dsa_at_least_3072 bits = ground arith

-- The least number of bits, if any key is taken at all.
abbrev pub ecdsa_least : EcdsaRestriction → Option ℕ
ecdsa_least ecdsa_none = none
ecdsa_least ecdsa_all = some 0
ecdsa_least ecdsa_at_least_256 = some 256
ecdsa_least ecdsa_at_least_384 = some 384
ecdsa_least ecdsa_at_least_521 = some 521

unmarshal-marshal_ecdsa : (x : EcdsaRestriction) → unmarshal_ecdsa (marshal_ecdsa x) ≡ some x
unfolding unmarshal_ecdsa marshal_ecdsa to_lower is_one_of bytes_eq
unmarshal-marshal_ecdsa ecdsa_none = refl
unmarshal-marshal_ecdsa ecdsa_all = refl
unmarshal-marshal_ecdsa ecdsa_at_least_256 = refl
unmarshal-marshal_ecdsa ecdsa_at_least_384 = refl
unmarshal-marshal_ecdsa ecdsa_at_least_521 = refl

ecdsa_bits_allowed_iff :
    (x : EcdsaRestriction) (bits : ℕ)
    → (ecdsa_bits_allowed x bits ≡ true) ↔ IsLongEnough (ecdsa_least x) bits
unfolding ecdsa_bits_allowed
ecdsa_bits_allowed_iff ecdsa_none bits = (λ h. absurd (cc), λ h. absurd h)
ecdsa_bits_allowed_iff ecdsa_all bits = (λ h. omega arith, λ h. refl)
ecdsa_bits_allowed_iff ecdsa_at_least_256 bits = ground arith
ecdsa_bits_allowed_iff ecdsa_at_least_384 bits = ground arith
ecdsa_bits_allowed_iff ecdsa_at_least_521 bits = ground arith

-- The least number of bits, if any key is taken at all.
abbrev pub ed25519_least : Ed25519Restriction → Option ℕ
ed25519_least ed25519_none = none
ed25519_least ed25519_all = some 0
ed25519_least ed25519_at_least_256 = some 256

unmarshal-marshal_ed25519 :
    (x : Ed25519Restriction) → unmarshal_ed25519 (marshal_ed25519 x) ≡ some x
unfolding unmarshal_ed25519 marshal_ed25519 to_lower is_one_of bytes_eq
unmarshal-marshal_ed25519 ed25519_none = refl
unmarshal-marshal_ed25519 ed25519_all = refl
unmarshal-marshal_ed25519 ed25519_at_least_256 = refl

ed25519_bits_allowed_iff :
    (x : Ed25519Restriction) (bits : ℕ)
    → (ed25519_bits_allowed x bits ≡ true) ↔ IsLongEnough (ed25519_least x) bits
unfolding ed25519_bits_allowed
ed25519_bits_allowed_iff ed25519_none bits = (λ h. absurd (cc), λ h. absurd h)
ed25519_bits_allowed_iff ed25519_all bits = (λ h. omega arith, λ h. refl)
ed25519_bits_allowed_iff ed25519_at_least_256 bits = ground arith

-- What is asked of a key by the restriction of its kind.
abbrev pub IsTaken : Keys → SdkKey → Type 0
IsTaken this (rsa_key bits) = IsLongEnough (rsa_least this.rsa_restriction) bits
IsTaken this (dsa_key bits) = IsLongEnough (dsa_least this.dsa_restriction) bits
IsTaken this (ecdsa_key bits) = IsLongEnough (ecdsa_least this.ecdsa_restriction) bits
IsTaken this (ed25519_key bytes) = IsLongEnough (ed25519_least this.ed25519_restriction) (bytes * 8)
IsTaken this other_key = ⊥

key_allowed-IsTaken :
    (this : Keys) (key : SdkKey) → (key_allowed this key ≡ true) ↔ IsTaken this key
unfolding key_allowed rsa_key_allowed dsa_key_allowed ecdsa_key_allowed ed25519_key_allowed
key_allowed-IsTaken this (rsa_key bits) = (
  λ h. (rsa_bits_allowed_iff this.rsa_restriction bits).0 (ground (arith, h)),
  λ h. ground (arith, (rsa_bits_allowed_iff this.rsa_restriction bits).1 h),
)
key_allowed-IsTaken this (dsa_key bits) = (
  λ h. (dsa_bits_allowed_iff this.dsa_restriction bits).0 (ground (arith, h)),
  λ h. ground (arith, (dsa_bits_allowed_iff this.dsa_restriction bits).1 h),
)
key_allowed-IsTaken this (ecdsa_key bits) = (
  λ h. (ecdsa_bits_allowed_iff this.ecdsa_restriction bits).0 (ground (arith, h)),
  λ h. ground (arith, (ecdsa_bits_allowed_iff this.ecdsa_restriction bits).1 h),
)
key_allowed-IsTaken this (ed25519_key bytes) =
    ed25519_bits_allowed_iff this.ed25519_restriction (bytes * 8)
key_allowed-IsTaken this other_key = (λ h. absurd (cc), λ h. absurd h)

-- A key is taken exactly where the restriction of its kind takes any keys and the key has at least the
-- bits that it asks for, of an Ed25519 key eight for each byte; keys of other kinds never are. And each
-- restriction, as it is written, is read back.
pub key_allowed_iff :
    (this : Keys) (key : SdkKey)
    → ((key_allowed this key ≡ true) ↔ IsTaken this key)
      × (unmarshal_rsa (marshal_rsa this.rsa_restriction) ≡ some this.rsa_restriction)
      × (unmarshal_dsa (marshal_dsa this.dsa_restriction) ≡ some this.dsa_restriction)
      × (unmarshal_ecdsa (marshal_ecdsa this.ecdsa_restriction) ≡ some this.ecdsa_restriction)
      × (unmarshal_ed25519 (marshal_ed25519 this.ed25519_restriction)
          ≡ some this.ed25519_restriction)
key_allowed_iff this key = (
  key_allowed-IsTaken this key,
  unmarshal-marshal_rsa this.rsa_restriction,
  unmarshal-marshal_dsa this.dsa_restriction,
  unmarshal-marshal_ecdsa this.ecdsa_restriction,
  unmarshal-marshal_ed25519 this.ed25519_restriction,
)
