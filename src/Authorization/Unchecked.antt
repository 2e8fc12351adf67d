-- ===== src/Authorization/Unchecked.antt =====
-- pkg/authorization/none-authorizer.go and none.go: everybody is let in.
use bifroest.Prelude.{Bool, not, [], none, Bytes, bytes_eq, if◌then◌else◌, ok, err}
use bifroest.Prelude.Actions.{pure, ◌>>=◌}
use bifroest.Session.Store.{Fs}
use bifroest.Session.Fs.{last_accessed_at}
use bifroest.Session.PublicKeys.{Key}
use bifroest.Authorization.Request.{
  Authorization, granted, no_such_authorization, session_error, Action, Request, Sessions,
  Authorizer, fresh, with_session, with_session_key, or_if_missing, own_session_by_key,
  create_session,
}

module _ (s : Sessions) (flow : Bytes) where
  -- `AuthorizePassword` and `AuthorizeInteractive`: a new session each time
  unfoldable pub authorize_anybody : Request → Action Authorization
  unfolding create_session
  authorize_anybody req = do
    sess ← create_session s flow req.remote []
    pure (granted (with_session (fresh none req.remote flow) sess))

  -- `AuthorizePublicKey`
  unfoldable pub authorize_any_key : Key → Request → Action Authorization
  unfolding authorize_anybody
  authorize_any_key key req r =
      or_if_missing (authorize_anybody req)
        (λ sess. pure (granted (with_session_key (fresh none req.remote flow) sess key)))
        (own_session_by_key s flow req.remote key r)

  -- `RestoreFromSession`
  unfoldable pub restore_anybody : Bool → Fs → Action Authorization
  unfolding last_accessed_at
  restore_anybody auto_clean_up_allowed sess r =
      if not (bytes_eq sess.flow flow)
      then (r, err no_such_authorization)
      else elim (last_accessed_at s.codec r sess) [
        | err e ↦ (r, err (session_error e))
        | ok at ↦ (r, ok (granted (with_session (fresh none sess.info.remote flow) sess)))
      ]

  abbrev pub unchecked_authorizer : Authorizer
  unchecked_authorizer = record {
    authorize_public_key = authorize_any_key;
    authorize_password = λ password. authorize_anybody;
    authorize_interactive = authorize_anybody;
    restore_from_session = restore_anybody;
  }
