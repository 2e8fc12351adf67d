-- ===== src/Session/State.antt =====
-- pkg/session/state.go: the states of a session and their texts.
use bifroest.Prelude.{
  [], ◌≡◌, refl, Bool, true, false, Bytes, codes, bytes_eq, is_empty, ◌||◌, if◌then◌else◌, Option,
  none, some,
}

pub data State : Type 0 where
  unchanged new authorized disposed : State

unfoldable pub marshal_text : State → Bytes
marshal_text unchanged = []
marshal_text new = codes "new"
marshal_text authorized = codes "authorized"
marshal_text disposed = codes "disposed"

-- No state for an illegal text.
unfoldable pub unmarshal_text : Bytes → Option State
unmarshal_text text =
    if is_empty text || bytes_eq text (codes "unchanged")
    then some unchanged
    else if bytes_eq text (codes "new")
    then some new
    else if bytes_eq text (codes "authorized")
    then some authorized
    else if bytes_eq text (codes "disposed")
    then some disposed
    else none

-- `==` on states
abbrev pub is_disposed : State → Bool
is_disposed disposed = true
is_disposed _ = false

pub unmarshal_text-marshal_text : (s : State) → unmarshal_text (marshal_text s) ≡ some s
unfolding unmarshal_text marshal_text bytes_eq
unmarshal_text-marshal_text unchanged = refl
unmarshal_text-marshal_text new = refl
unmarshal_text-marshal_text authorized = refl
unmarshal_text-marshal_text disposed = refl
