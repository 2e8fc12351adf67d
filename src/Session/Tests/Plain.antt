-- ===== src/Session/Tests/Plain.antt =====
-- A codec that has the laws, and a repository, for the runs.
use bifroest.Prelude.{
  ℕ, zero, suc, ◌≡◌, refl, false, [], ◌∷◌, ◌++◌, Option, none, some, Bytes, codes, arith, map,
}
use bifroest.Session.State.{State, unchanged, new, authorized, disposed}
use bifroest.Session.Store.{Remote, Info, Store, Codec, CodecLaws}

-- A pair of texts, in one.
unfoldable pub pair_text : Bytes → Bytes → Bytes
pair_text a b = map suc a ++ 0 ∷ b

unfoldable pub read_pair : Bytes → Option (Bytes × Bytes)
read_pair [] = none
read_pair (zero ∷ b) = some ([], b)
read_pair (suc c ∷ rest) = elim (read_pair rest) [ none ↦ none | some (a, b) ↦ some (c ∷ a, b) ]

read-pair_text : (a b : Bytes) → read_pair (pair_text a b) ≡ some (a, b)
unfolding read_pair pair_text
read-pair_text [] b = refl
read-pair_text (c ∷ a) b = ground (arith, read-pair_text a b)

unfoldable pub state_code : State → ℕ
state_code unchanged = 0
state_code new = 1
state_code authorized = 2
state_code disposed = 3

unfoldable pub read_state : ℕ → State
read_state zero = unchanged
read_state (suc zero) = new
read_state (suc (suc zero)) = authorized
read_state (suc (suc (suc n))) = disposed

read-state_code : (s : State) → read_state (state_code s) ≡ s
unfolding read_state state_code
read-state_code unchanged = refl
read-state_code new = refl
read-state_code authorized = refl
read-state_code disposed = refl

-- A codec that has the laws, for the runs.
unfoldable pub write_remote : Remote → Bytes
write_remote r = pair_text r.user r.host

unfoldable pub read_remote : Bytes → Option Remote
read_remote text = elim (read_pair text) [
  | none ↦ none
  | some (user, host) ↦ some (record { user = user; host = host })
]

unfoldable pub write_info : Info → Bytes
write_info i = state_code i.state ∷ write_remote i.remote

unfoldable pub read_info : Bytes → Option Info
read_info [] = none
read_info (n ∷ text) = elim (read_remote text) [
  | none ↦ none
  | some remote ↦ some (record { state = read_state n; remote = remote })
]

unfoldable pub read_number : Bytes → Option ℕ
read_number (n ∷ []) = some n
read_number _ = none

unfoldable pub plain : Codec
plain = record {
  encode_info = write_info;
  decode_info = read_info;
  encode_access = write_remote;
  decode_access = read_remote;
  id_text = λ n. n ∷ [];
  parse_id = read_number;
  is_hash = λ text. false;
}

read-write_remote : (r : Remote) → read_remote (write_remote r) ≡ some r
unfolding read_remote write_remote
read-write_remote r = ground (arith, read-pair_text r.user r.host)

pub plain-CodecLaws : CodecLaws plain
unfolding plain read_info write_info read_number
plain-CodecLaws = record {
  decode-encode_info = λ i. ground (arith, read-write_remote i.remote, read-state_code i.state);
  decode-encode_access = read-write_remote;
  parse-id_text = λ id. refl;
}

abbrev pub joe : Remote
joe = record { user = codes "joe"; host = codes "home" }

abbrev pub empty_store : Store
empty_store = record { storage = []; stacks = λ f i. none }

-- One session of the flow, new.
abbrev pub ssh : Bytes
ssh = codes "ssh"
