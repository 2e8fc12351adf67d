-- ===== src/Authorization/Simple.antt =====
-- pkg/authorization/simple-authorizer.go and simple.go: users and their keys and passwords, as the
-- configuration lists them. JSON and the folding of cases are parameters.
pub mod Safe
pub mod Restored
use bifroest.Prelude.{
  ℕ, ◌≡◌, Bool, true, false, not, List, [], ◌∷◌, Option, none, some, Bytes, bytes_eq, is_empty,
  if◌then◌else◌, Result, ok, err,
}
use bifroest.Prelude.Actions.{pure, fail, continue, ◌>>=◌, ◌>>◌}
use bifroest.Prelude.Maps.{Named}
use bifroest.Session.Store.{Remote, Fs, Store, fs_file_access_token}
use bifroest.Session.Fs.{get_token, set_token, last_accessed_at}
use bifroest.Session.PublicKeys.{Key}
use bifroest.Crypto.Passwords.{Bcrypt, Reading, compare_password}
use bifroest.Crypto.KeyOptions.{Quoting}
use bifroest.Crypto.AuthorizedKeys
use bifroest.Crypto.AuthorizedKeys.{KeyLine, trim_space, for_each_key, for_each_key_of_file}
use bifroest.Authorization.Request.{
  Granted, Authorization, forbidden, granted, AuthError, no_such_authorization, session_error,
  password_error, keys_error, cannot_validate, cannot_prompt, cannot_decode_token, Action, Request,
  Sessions, Authorizer, fresh, with_session, with_session_key, of_sessions, or_if_missing,
  own_session_by_key, ensure_session,
}
use bifroest.Authorization.Entry.{SimpleEntry, get_password}

-- `simpleToken` in JSON: the name of the user, and environment variables, which none is written with.
pub record TokenCodec : Type 0 where
  pub encode_token : Bytes → Bytes
  pub decode_token : Bytes → Option (Bytes × Named Bytes)

-- What is outside of the authorizer: files, libraries, and the entries of its configuration.
pub record Simple : Type 0 where
  pub entries : List SimpleEntry
  pub equal_fold : Bytes → Bytes → Bool
  pub password_files : Bytes → Reading
  pub key_files : Bytes → Option Bytes
  pub bcrypt : Bcrypt
  pub quoting : Quoting
  pub parse_public_key : Bytes → Option Key
  pub token : TokenCodec

-- The first entry that a test holds for.
unfoldable pub first_entry : (SimpleEntry → Bool) → List SimpleEntry → Option SimpleEntry
first_entry test [] = none
first_entry test (e ∷ es) = let rest = first_entry test es in if test e then some e else rest

module _ (s : Sessions) (this : Simple) (flow : Bytes) where
  -- `lookupEntry`: the entry with its authorization, and whether that will be accepted
  unfoldable pub lookup_entry : Request → Result AuthError (Option (SimpleEntry × Granted × Bool))
  unfolding first_entry
  lookup_entry req = elim (first_entry (λ e. this.equal_fold e.name req.remote.user) this.entries) [
    | none ↦ ok none
    | some entry ↦
        let auth = fresh (some entry.name) req.remote flow in
        elim (req.validate auth) [
          | none ↦ err cannot_validate
          | some accepted ↦ ok (some (entry, auth, accepted))
        ]
  ]

  -- The consumer of the keys; what is kept is whether there was a match.
  unfoldable pub match_key : Key → KeyLine → Bool → Bool × AuthorizedKeys.Result Bool
  match_key key line found_match =
      if bytes_eq key.marshalled line.key.marshalled
      then (true, ok false)
      else (found_match, ok true)

  -- `isAuthorizedViaPublicKey`
  unfoldable pub is_authorized_via_public_key : Key → SimpleEntry → Result AuthError Bool
  unfolding match_key trim_space for_each_key for_each_key_of_file
  is_authorized_via_public_key key entry =
      let (in_file, read) =
        for_each_key_of_file this.quoting this.parse_public_key this.key_files (match_key key)
          entry.authorized_keys_file false in
      elim read [
        | err e ↦ err (keys_error e)
        | ok _ ↦
            if in_file
            then ok true
            else if is_empty (trim_space entry.authorized_keys)
            then ok false
            else (let (found, read') =
                  for_each_key this.quoting this.parse_public_key (match_key key)
                    entry.authorized_keys false in
                elim read' [ err e ↦ err (keys_error e) | ok _ ↦ ok found ])
      ]

  -- `ensureSessionFor`
  unfoldable pub ensure_session_for : Request → SimpleEntry → Action Fs
  unfolding ensure_session
  ensure_session_for req entry =
      ensure_session s flow req.remote (this.token.encode_token entry.name)

  -- Whether a password is the one of the entry; one that cannot be compared is not.
  unfoldable pub check_password : SimpleEntry → Bytes → Result AuthError Bool
  unfolding get_password compare_password
  check_password entry password = elim (get_password this.password_files entry) [
    | err e ↦ err (password_error e)
    | ok expected ↦
        if is_empty expected
        then ok false
        else elim (compare_password this.bcrypt expected password) [
          | err e ↦ ok false
          | ok matches ↦ ok matches
        ]
  ]

  -- The end of `AuthorizePassword` and of `AuthorizeInteractive`
  unfoldable pub with_password : Bytes → Request → SimpleEntry → Granted → Action Authorization
  unfolding check_password ensure_session_for
  with_password password req entry auth r = elim (check_password entry password) [
    | err e ↦ (r, err e)
    | ok false ↦ (r, ok (forbidden req.remote))
    | ok true ↦ (do sess ← ensure_session_for req entry; pure (granted (with_session auth sess))) r
  ]

  -- `AuthorizePassword`
  unfoldable pub authorize_password : Bytes → Request → Action Authorization
  unfolding lookup_entry with_password
  authorize_password password req r = elim (lookup_entry req) [
    | err e ↦ (r, err e)
    | ok none ↦ (r, ok (forbidden req.remote))
    | ok (some (entry, auth, accepted)) ↦
        if accepted then with_password password req entry auth r else (r, ok (forbidden req.remote))
  ]

  -- `AuthorizeInteractive`
  unfoldable pub authorize_interactive : Request → Action Authorization
  unfolding lookup_entry with_password
  authorize_interactive req r = elim (lookup_entry req) [
    | err e ↦ (r, err e)
    | ok none ↦ (r, ok (forbidden req.remote))
    | ok (some (entry, auth, accepted)) ↦
        if accepted
        then elim (req.prompt flow) [
          | none ↦ (r, err cannot_prompt)
          | some pass ↦ with_password pass req entry auth r
        ]
        else (r, ok (forbidden req.remote))
  ]

  -- The part of `AuthorizePublicKey` for a key that no session has
  unfoldable pub with_new_key : Key → Request → SimpleEntry → Granted → Action Authorization
  unfolding is_authorized_via_public_key ensure_session_for
  with_new_key key req entry auth r = elim (is_authorized_via_public_key key entry) [
    | err e ↦ (r, err e)
    | ok false ↦ (r, ok (forbidden req.remote))
    | ok true ↦ (do sess ← ensure_session_for req entry; pure (granted (with_session auth sess))) r
  ]

  -- `AuthorizePublicKey`
  unfoldable pub authorize_public_key : Key → Request → Action Authorization
  unfolding lookup_entry with_new_key
  authorize_public_key key req r = elim (lookup_entry req) [
    | err e ↦ (r, err e)
    | ok none ↦ (r, ok (forbidden req.remote))
    | ok (some (entry, auth, accepted)) ↦
        if accepted
        then or_if_missing (with_new_key key req entry auth)
            (λ sess. pure (granted (with_session_key auth sess key)))
            (own_session_by_key s flow req.remote key r)
        else (r, ok (forbidden req.remote))
  ]

  -- `cleanFromSessionOnly`
  unfoldable pub clean_from_session_only : Bool → Fs → Action Authorization
  unfolding set_token
  clean_from_session_only auto_clean_up_allowed sess =
      if auto_clean_up_allowed
      then (do
        _ ← λ r. of_sessions (set_token s.codec s.now sess [] fs_file_access_token r)
        fail no_such_authorization)
      else fail no_such_authorization

  -- The entry of a token, and its authorization
  unfoldable pub restore_token : Bool → Fs → Bytes → Action Authorization
  unfolding first_entry clean_from_session_only last_accessed_at
  restore_token auto_clean_up_allowed sess tb r = elim (this.token.decode_token tb) [
    | none ↦ (r, err cannot_decode_token)
    | some (name, env_vars) ↦ elim (first_entry (λ e. bytes_eq e.name name) this.entries) [
      | none ↦ clean_from_session_only auto_clean_up_allowed sess r
      | some entry ↦ elim (last_accessed_at s.codec r sess) [
        | err e ↦ (r, err (session_error e))
        | ok at ↦ (
          r,
          ok (
              granted (record {
                entry = some entry.name;
                remote = sess.info.remote;
                env_vars = env_vars;
                flow = flow;
                session = some sess;
                sessions_public_key = none;
              })),
        )
      ]
    ]
  ]

  -- `RestoreFromSession`; the remote of the last access is that of the session.
  unfoldable pub restore_from_session : Bool → Fs → Action Authorization
  unfolding get_token restore_token
  restore_from_session auto_clean_up_allowed sess r =
      if not (bytes_eq sess.flow flow)
      then (r, err no_such_authorization)
      else elim (get_token s.codec r sess fs_file_access_token) [
        | err e ↦ (r, err (session_error e))
        | ok none ↦ (r, err no_such_authorization)
        | ok (some tb) ↦
            if is_empty tb
            then (r, err no_such_authorization)
            else restore_token auto_clean_up_allowed sess tb r
      ]

  abbrev pub simple_authorizer : Authorizer
  simple_authorizer = record {
    authorize_public_key = authorize_public_key;
    authorize_password = authorize_password;
    authorize_interactive = authorize_interactive;
    restore_from_session = restore_from_session;
  }
