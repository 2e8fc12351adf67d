-- ===== src/Service/Handshake.antt =====
-- pkg/service/service-authorization.go: the handlers of the three ways to authenticate, and what a
-- connection then goes on with. The test of the type of a key is a parameter.
pub mod Remembered
use bifroest.Prelude.{
  Bool, true, false, List, [], ◌∷◌, Option, none, some, Bytes, if◌then◌else◌, Result, ok, err,
}
use bifroest.Prelude.Actions
use bifroest.Session.State.{State, new, authorized}
use bifroest.Session.Store.{Remote, Fs, Store, SessionError}
use bifroest.Session.Fs.{notify_last_access, state_eq}
use bifroest.Session.PublicKeys.{Key, add_public_key}
use bifroest.Authorization.Request.{
  Granted, Authorization, forbidden, granted, is_authorized, AuthError, Request, Authorizer,
  Sessions,
}

-- What the handlers keep in the context of a connection, by `authorizationCtxKey` and
-- `handshakeKeyCtxKey`.
pub record Context : Type 0 where
  pub authorization : Option Authorization
  pub handshake_key : Option Key

pub data HandshakeError : Type 0 where
  no_authorization no_session : HandshakeError
  cannot_update cannot_add_key : SessionError → HandshakeError

abbrev pub Handshake : Type 0
Handshake = Context × Store

-- `ctx.SetValue(authorizationCtxKey, auth)`
abbrev pub authorized_by : Authorization → Context → Context
authorized_by auth ctx = record ctx { authorization = some auth }

-- The end of `handlePassword` and of `handleKeyboardInteractiveChallenge`: an error is only logged.
abbrev pub answer : Context → Store × Result AuthError Authorization → Handshake × Bool
answer ctx (r, err e) = ((ctx, r), false)
answer ctx (r, ok auth) =
    if is_authorized auth then ((authorized_by auth ctx, r), true) else ((ctx, r), false)

-- The first key that is offered is kept.
abbrev pub with_offered : Key → Context → Context
with_offered key ctx = elim ctx.handshake_key [
  | none ↦ record ctx { handshake_key = some key }
  | some other ↦ ctx
]

-- The end of `handlePublicKey`: a key that is authorized is not to be stored.
abbrev pub answer_key : Context → Store × Result AuthError Authorization → Handshake × Bool
answer_key ctx (r, err e) = ((ctx, r), false)
answer_key ctx (r, ok auth) =
    if is_authorized auth
    then ((record { authorization = some auth; handshake_key = none }, r), true)
    else ((ctx, r), false)

module _ (authorizer : Authorizer) (key_allowed : Key → Option Bool) (req : Request) where
  -- `handlePublicKey`
  unfoldable pub handle_public_key : Key → Handshake → Handshake × Bool
  unfolding is_authorized
  handle_public_key key (ctx, r) = elim (key_allowed key) [
    | none ↦ ((ctx, r), false)
    | some false ↦ ((ctx, r), false)
    | some true ↦ answer_key (with_offered key ctx) (authorizer.authorize_public_key key req r)
  ]

  -- `handlePassword`
  unfoldable pub handle_password : Bytes → Handshake → Handshake × Bool
  unfolding is_authorized
  handle_password password (ctx, r) = answer ctx (authorizer.authorize_password password req r)

  -- `handleKeyboardInteractiveChallenge`
  unfoldable pub handle_interactive : Handshake → Handshake × Bool
  unfolding is_authorized
  handle_interactive (ctx, r) = answer ctx (authorizer.authorize_interactive req r)

  -- An attempt of a client.
  pub data Attempt : Type 0 where
    offers : Key → Attempt
    says : Bytes → Attempt
    answers : Attempt

  unfoldable pub attempt : Attempt → Handshake → Handshake × Bool
  unfolding handle_public_key handle_password handle_interactive
  attempt (offers key) = handle_public_key key
  attempt (says password) = handle_password password
  attempt answers = handle_interactive

-- `auth.FindSession()`
abbrev pub find_session : Authorization → Option Fs
find_session (forbidden remote) = none
find_session (granted g) = g.session

module _ (s : Sessions) where
  -- A session that was new gets the key that was offered.
  unfoldable pub remember_key :
      Context → Fs → State → Store → Store × Result HandshakeError (Unit {0})
  unfolding add_public_key
  remember_key ctx sess old_state r =
      if state_eq old_state new
      then elim ctx.handshake_key [
        | none ↦ (r, ok tt)
        | some pub_ ↦
            let (r', out) = add_public_key s.key_codec s.codec sess.flow sess.id pub_ s.now r in
            elim out [ err e ↦ (r', err (cannot_add_key e)) | ok _ ↦ (r', ok tt) ]
      ]
      else (r, ok tt)

  -- `resolveAuthorizationAndSession`; the session comes back as it is in memory then
  unfoldable pub resolve_authorization_and_session :
      Context → Remote → Store → Store × Result HandshakeError (Authorization × Fs × State)
  unfolding notify_last_access remember_key
  resolve_authorization_and_session ctx remote r = elim ctx.authorization [
    | none ↦ (r, err no_authorization)
    | some auth ↦ elim (find_session auth) [
      | none ↦ (r, err no_session)
      | some sess ↦
          let (r', noted) = notify_last_access s.codec s.now sess remote authorized r in
          elim noted [
            | err e ↦ (r', err (cannot_update e))
            | ok (sess', old_state) ↦
                let (r'', kept) = remember_key ctx sess' old_state r' in
                elim kept [ err e ↦ (r'', err e) | ok _ ↦ (r'', ok (auth, sess', old_state)) ]
          ]
    ]
  ]
