-- ===== src/Authorization/Htpasswd.antt =====
-- pkg/authorization/htpasswd-authorizer.go and htpasswd.go: users and passwords of files in the format of
-- htpasswd. The library that matches them is a parameter.
use bifroest.Prelude.{
  Bool, false, not, ◌||◌, Option, none, some, Bytes, bytes_eq, is_empty, if◌then◌else◌, Result, ok,
  err,
}
use bifroest.Prelude.Actions.{pure, ◌>>=◌}
use bifroest.Session.Store.{Fs, fs_file_access_token}
use bifroest.Session.Fs.{get_token, last_accessed_at}
use bifroest.Session.PublicKeys.{Key}
use bifroest.Authorization.Request.{
  Granted, Authorization, forbidden, granted, AuthError, no_such_authorization, session_error,
  cannot_validate, cannot_prompt, cannot_decode_token, Action, Request, Sessions, Authorizer, fresh,
  with_session, with_session_key, or_if_missing, own_session_by_key, ensure_session,
}
use bifroest.Authorization.Simple.{TokenCodec}

-- The file and the entries of the configuration, where they are given: whether they have a user with a
-- password.
pub record Htpasswd : Type 0 where
  pub file : Option (Bytes → Bytes → Bool)
  pub entries : Option (Bytes → Bytes → Bool)
  pub token : TokenCodec

abbrev pub has_user : Option (Bytes → Bytes → Bool) → Bytes → Bytes → Bool
has_user none user password = false
has_user (some match) user password = match user password

module _ (s : Sessions) (this : Htpasswd) (flow : Bytes) where
  -- `lookupEntry`: the authorization, and whether it will be accepted
  unfoldable pub lookup_user : Request → Bytes → Result AuthError (Option (Granted × Bool))
  lookup_user req password =
      if has_user this.file req.remote.user password
        || has_user this.entries req.remote.user password
      then elim (req.validate (fresh none req.remote flow)) [
        | none ↦ err cannot_validate
        | some accepted ↦ ok (some (fresh none req.remote flow, accepted))
      ]
      else ok none

  -- `ensureSessionFor`
  unfoldable pub ensure_session_for_user : Request → Action Fs
  unfolding ensure_session
  ensure_session_for_user req =
      ensure_session s flow req.remote (this.token.encode_token req.remote.user)

  -- `AuthorizePassword`
  unfoldable pub authorize_htpasswd : Bytes → Request → Action Authorization
  unfolding lookup_user ensure_session_for_user
  authorize_htpasswd password req r = elim (lookup_user req password) [
    | err e ↦ (r, err e)
    | ok none ↦ (r, ok (forbidden req.remote))
    | ok (some (auth, accepted)) ↦
        if accepted
        then (do sess ← ensure_session_for_user req; pure (granted (with_session auth sess))) r
        else (r, ok (forbidden req.remote))
  ]

  -- `AuthorizeInteractive`
  unfoldable pub authorize_htpasswd_interactive : Request → Action Authorization
  unfolding authorize_htpasswd
  authorize_htpasswd_interactive req r = elim (req.prompt flow) [
    | none ↦ (r, err cannot_prompt)
    | some pass ↦ authorize_htpasswd pass req r
  ]

  -- `AuthorizePublicKey`: only by a session that has the key
  unfoldable pub authorize_htpasswd_key : Key → Request → Action Authorization
  authorize_htpasswd_key key req r =
      or_if_missing (pure (forbidden req.remote))
        (λ sess r'.
          let auth = with_session_key (fresh none req.remote flow) sess key in
          elim (req.validate auth) [
            | none ↦ (r', err cannot_validate)
            | some accepted ↦
                if accepted then (r', ok (granted auth)) else (r', ok (forbidden req.remote))
          ])
        (own_session_by_key s flow req.remote key r)

  -- `RestoreFromSession`: that the user is still there is not asked for.
  unfoldable pub restore_htpasswd : Bool → Fs → Action Authorization
  unfolding get_token last_accessed_at
  restore_htpasswd auto_clean_up_allowed sess r =
      if not (bytes_eq sess.flow flow)
      then (r, err no_such_authorization)
      else elim (get_token s.codec r sess fs_file_access_token) [
        | err e ↦ (r, err (session_error e))
        | ok none ↦ (r, err no_such_authorization)
        | ok (some tb) ↦
            if is_empty tb
            then (r, err no_such_authorization)
            else elim (this.token.decode_token tb) [
              | none ↦ (r, err cannot_decode_token)
              | some (name, env_vars) ↦ elim (last_accessed_at s.codec r sess) [
                | err e ↦ (r, err (session_error e))
                | ok at ↦ (
                  r,
                  ok (
                      granted (record {
                        entry = none;
                        remote = sess.info.remote;
                        env_vars = env_vars;
                        flow = flow;
                        session = some sess;
                        sessions_public_key = none;
                      })),
                )
              ]
            ]
      ]

  abbrev pub htpasswd_authorizer : Authorizer
  htpasswd_authorizer = record {
    authorize_public_key = authorize_htpasswd_key;
    authorize_password = authorize_htpasswd;
    authorize_interactive = authorize_htpasswd_interactive;
    restore_from_session = restore_htpasswd;
  }
