-- ===== src/Crypto/AuthorizedKeys/Words.antt =====
-- How a line of authorized keys starts, and where its words end.
use bifroest.Prelude.{
  ℕ, ◌≡◌, refl, Bool, true, false, not, ◌&&◌, [], ◌∷◌, ◌++◌, Option, none, some, Bytes, codes,
  bytes_eq, is_empty, ◌==◌, arith, Option-cases, inl, inr,
}
use bifroest.Crypto.KeyOptions.{
  OptionType, empty, agent_forwarding, no_agent_forwarding, cert_authority, command, environment,
  expiry_time, from, permit_listen, permit_open, principals, port_forwarding, no_port_forwarding,
  pty, no_pty, no_touch_required, verify_required, restrict, tunnel, user_rc, no_user_rc,
  x11_forwarding, no_x11_forwarding, type_name,
}
use bifroest.Crypto.KeyOptions.Marshalled.{is_word, type_name-word}
use bifroest.Crypto.AuthorizedKeys.{is_space, cut_blank, is_ssh_key_algo, cut_off_ssh_key_algo}

-- The algorithms of `getSshKeyAlgo`.
pub data KeyAlgo : Type 0 where
  rsa dsa ecdsa256 ecdsa384 ecdsa521 sk_ecdsa256 ed25519 sk_ed25519 : KeyAlgo

unfoldable pub algo_name : KeyAlgo → Bytes
algo_name rsa = codes "ssh-rsa"
algo_name dsa = codes "ssh-dss"
algo_name ecdsa256 = codes "ecdsa-sha2-nistp256"
algo_name ecdsa384 = codes "ecdsa-sha2-nistp384"
algo_name ecdsa521 = codes "ecdsa-sha2-nistp521"
algo_name sk_ecdsa256 = codes "sk-ecdsa-sha2-nistp256@openssh.com"
algo_name ed25519 = codes "ssh-ed25519"
algo_name sk_ed25519 = codes "sk-ssh-ed25519@openssh.com"

-- No space of any kind.
abbrev pub is_dark : Bytes → Bool
is_dark [] = true
is_dark (b ∷ s) = not (is_space b) && is_dark s

pub cut_blank-dark : (w s : Bytes) → is_dark w ≡ true → cut_blank (w ++ b' ' ∷ s) ≡ some (w, s)
unfolding cut_blank
cut_blank-dark [] s h = refl
cut_blank-dark (b ∷ w) s h = ground (arith, cut_blank-dark w s (ground arith))

-- Where a text starts with a word, so does what is before its first blank.
cut_blank-word :
    (w s : Bytes)
    → is_word w ≡ true
    → cut_blank (w ++ s) ≡ (elim (cut_blank s) as (λ _. Option (Bytes × Bytes)) [
      | none ↦ none
      | some (before, behind) ↦ some (w ++ before, behind)
    ])
unfolding cut_blank
cut_blank-word [] s h = elim (Option-cases (cut_blank s)) [
  | inl nothing ↦ ground (arith, nothing)
  | inr (p, found) ↦ ground (arith, found)
]
cut_blank-word (b ∷ w) s h = elim (Option-cases (cut_blank s)) [
  | inl nothing ↦ ground (arith, nothing, cut_blank-word w s (ground arith))
  | inr (p, found) ↦ ground (arith, found, cut_blank-word w s (ground arith))
]

-- No name of an option starts the name of an algorithm.
type_name-no_algo :
    (t : OptionType) (s : Bytes)
    → is_empty (type_name t) ≡ false
    → is_ssh_key_algo (type_name t ++ s) ≡ false
unfolding is_ssh_key_algo type_name bytes_eq
type_name-no_algo empty s h = absurd (cc)
type_name-no_algo agent_forwarding s h = refl
type_name-no_algo no_agent_forwarding s h = refl
type_name-no_algo cert_authority s h = refl
type_name-no_algo command s h = refl
type_name-no_algo environment s h = refl
type_name-no_algo expiry_time s h = refl
type_name-no_algo from s h = refl
type_name-no_algo permit_listen s h = refl
type_name-no_algo permit_open s h = refl
type_name-no_algo principals s h = refl
type_name-no_algo port_forwarding s h = refl
type_name-no_algo no_port_forwarding s h = refl
type_name-no_algo pty s h = refl
type_name-no_algo no_pty s h = refl
type_name-no_algo no_touch_required s h = refl
type_name-no_algo verify_required s h = refl
type_name-no_algo restrict s h = refl
type_name-no_algo tunnel s h = refl
type_name-no_algo user_rc s h = refl
type_name-no_algo no_user_rc s h = refl
type_name-no_algo x11_forwarding s h = refl
type_name-no_algo no_x11_forwarding s h = refl

pub cut_off-option :
    (t : OptionType) (s : Bytes)
    → is_empty (type_name t) ≡ false
    → cut_off_ssh_key_algo (type_name t ++ s) ≡ none
unfolding cut_off_ssh_key_algo
cut_off-option t s h = elim (Option-cases (cut_blank s)) [
  | inl nothing ↦ ground (arith, nothing, cut_blank-word (type_name t) s (type_name-word t))
  | inr ((before, behind), found) ↦ ground (
    arith,
    found,
    cut_blank-word (type_name t) s (type_name-word t),
    type_name-no_algo t before h,
  )
]

-- How a line may start.
pub record IsStart (s : Bytes) : Type 0 where
  pub first : ℕ
  pub others : Bytes
  pub starts : s ≡ first ∷ others
  pub no_space : is_space first ≡ false
  pub no_comment : (first == b'#') ≡ false

first-IsStart : {b : ℕ} {s : Bytes} → is_space b ≡ false → (b == b'#') ≡ false → IsStart (b ∷ s)
first-IsStart {b} {s} no_space no_comment = record {
  first = b;
  others = s;
  starts = refl;
  no_space = no_space;
  no_comment = no_comment;
}

pub type_name-IsStart : (t : OptionType) → is_empty (type_name t) ≡ false → IsStart (type_name t)
unfolding type_name
type_name-IsStart empty h = absurd (cc)
type_name-IsStart agent_forwarding h = first-IsStart refl refl
type_name-IsStart no_agent_forwarding h = first-IsStart refl refl
type_name-IsStart cert_authority h = first-IsStart refl refl
type_name-IsStart command h = first-IsStart refl refl
type_name-IsStart environment h = first-IsStart refl refl
type_name-IsStart expiry_time h = first-IsStart refl refl
type_name-IsStart from h = first-IsStart refl refl
type_name-IsStart permit_listen h = first-IsStart refl refl
type_name-IsStart permit_open h = first-IsStart refl refl
type_name-IsStart principals h = first-IsStart refl refl
type_name-IsStart port_forwarding h = first-IsStart refl refl
type_name-IsStart no_port_forwarding h = first-IsStart refl refl
type_name-IsStart pty h = first-IsStart refl refl
type_name-IsStart no_pty h = first-IsStart refl refl
type_name-IsStart no_touch_required h = first-IsStart refl refl
type_name-IsStart verify_required h = first-IsStart refl refl
type_name-IsStart restrict h = first-IsStart refl refl
type_name-IsStart tunnel h = first-IsStart refl refl
type_name-IsStart user_rc h = first-IsStart refl refl
type_name-IsStart no_user_rc h = first-IsStart refl refl
type_name-IsStart x11_forwarding h = first-IsStart refl refl
type_name-IsStart no_x11_forwarding h = first-IsStart refl refl

pub algo_name-IsStart : (a : KeyAlgo) → IsStart (algo_name a)
unfolding algo_name
algo_name-IsStart rsa = first-IsStart refl refl
algo_name-IsStart dsa = first-IsStart refl refl
algo_name-IsStart ecdsa256 = first-IsStart refl refl
algo_name-IsStart ecdsa384 = first-IsStart refl refl
algo_name-IsStart ecdsa521 = first-IsStart refl refl
algo_name-IsStart sk_ecdsa256 = first-IsStart refl refl
algo_name-IsStart ed25519 = first-IsStart refl refl
algo_name-IsStart sk_ed25519 = first-IsStart refl refl

pub algo_name-dark : (a : KeyAlgo) → is_dark (algo_name a) ≡ true
unfolding algo_name
algo_name-dark rsa = refl
algo_name-dark dsa = refl
algo_name-dark ecdsa256 = refl
algo_name-dark ecdsa384 = refl
algo_name-dark ecdsa521 = refl
algo_name-dark sk_ecdsa256 = refl
algo_name-dark ed25519 = refl
algo_name-dark sk_ed25519 = refl

pub algo_name-known : (a : KeyAlgo) → is_ssh_key_algo (algo_name a) ≡ true
unfolding is_ssh_key_algo algo_name bytes_eq
algo_name-known rsa = refl
algo_name-known dsa = refl
algo_name-known ecdsa256 = refl
algo_name-known ecdsa384 = refl
algo_name-known ecdsa521 = refl
algo_name-known sk_ecdsa256 = refl
algo_name-known ed25519 = refl
algo_name-known sk_ed25519 = refl
