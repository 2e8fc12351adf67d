-- ===== src/Session/Predicates.antt =====
-- pkg/session/predicates.go: conditions on the sessions that are looked for.
pub mod Expiry
use bifroest.Prelude.{
  ℕ, ◌+◌, Bool, true, false, not, ◌&&◌, List, [], ◌∷◌, Option, none, some, Bytes, bytes_eq, ltb,
  leb, if◌then◌else◌, ok, err,
}
use bifroest.Session.State.{is_disposed}
use bifroest.Session.Store.{Fs, Store, Result, Codec, Conf}
use bifroest.Session.Fs.{valid_until}

abbrev pub Predicate : Type 0
Predicate = Store → Fs → Result Bool

module _ (c : Codec) (conf : Conf) (now : ℕ) where
  -- `isExpiredWithThreshold`
  unfoldable pub is_expired_with_threshold : ℕ → Predicate
  is_expired_with_threshold threshold r sess =
      if is_disposed sess.info.state then ok true else elim (valid_until c conf r sess) [
        | err e ↦ err e
        | ok none ↦ ok false
        | ok (some vu) ↦ ok (not (ltb now (vu + threshold)))
      ]

  unfoldable pub is_expired : Predicate
  unfolding is_expired_with_threshold
  is_expired = is_expired_with_threshold 0

  unfoldable pub is_not_expired : Predicate
  unfolding is_expired
  is_not_expired r sess = elim (is_expired r sess) [ err e ↦ err e | ok expired ↦ ok (not expired) ]

  unfoldable pub is_still_valid : Predicate
  unfolding is_not_expired
  is_still_valid r sess = elim (is_not_expired r sess) [
    | err e ↦ err e
    | ok valid ↦ if valid then ok true else ok false
  ]

unfoldable pub is_flow : Bytes → Predicate
is_flow flow r sess = ok (bytes_eq sess.flow flow)

unfoldable pub is_remote_name : Bytes → Predicate
is_remote_name name r sess = ok (bytes_eq sess.info.remote.user name)

-- `Predicates.Matches`: up to the first that fails or does not hold.
unfoldable pub matches : List Predicate → Predicate
matches [] r sess = ok true
matches (p ∷ ps) r sess =
    let rest = matches ps r sess in
    elim (p r sess) [ err e ↦ err e | ok b ↦ if b then rest else ok false ]
