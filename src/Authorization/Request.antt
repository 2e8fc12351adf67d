-- ===== src/Authorization/Request.antt =====
-- pkg/authorization/authorization.go, authorizer.go and request.go: what is asked, and what is answered.
pub mod Again
use bifroest.Prelude.{ℕ, Bool, true, false, [], ◌∷◌, Option, none, some, Bytes, ok, err, Result}
use bifroest.Prelude.Actions
use bifroest.Prelude.Actions.{pure, fail, continue, ◌>>=◌, ◌>>◌}
use bifroest.Prelude.Maps.{Named}
use bifroest.Session.Store
use bifroest.Session.Store.{
  Remote, Fs, Store, SessionError, no_such_session, Codec, Conf, fs_file_access_token,
}
use bifroest.Session.Fs.{set_token}
use bifroest.Session.Predicates.{is_flow, is_still_valid, is_remote_name}
use bifroest.Session.PublicKeys.{Key, KeyCodec}
use bifroest.Session.Repository.{FindOpts, create}
use bifroest.Session.Iterate.{find_by_access_token, find_by_public_key}
use bifroest.Crypto.Passwords.{PasswordError}
use bifroest.Crypto.AuthorizedKeys.{KeysError}

-- What is known of somebody who is let in: `simple`, `htpasswd` and `none` have these fields, and a
-- `simple` has the name of its entry.
pub record Granted : Type 0 where
  pub entry : Option Bytes
  pub remote : Remote
  pub env_vars : Named Bytes
  pub flow : Bytes
  pub session : Option Fs
  pub sessions_public_key : Option Key

-- `Authorization`
pub data Authorization : Type 0 where
  forbidden : Remote → Authorization
  granted : Granted → Authorization

unfoldable pub is_authorized : Authorization → Bool
is_authorized (forbidden remote) = false
is_authorized (granted g) = true

pub data AuthError : Type 0 where
  no_such_authorization : AuthError
  session_error : SessionError → AuthError
  password_error : PasswordError → AuthError
  keys_error : KeysError → AuthError
  cannot_validate cannot_prompt cannot_decode_token : AuthError

abbrev pub Action : Type 0 → Type 0
Action = Actions.Action Store AuthError

-- `Request`: who asks, whether an environment will accept an authorization (an error is none), and
-- what is answered to a flow that prompts for a password.
pub record Request : Type 0 where
  pub remote : Remote
  pub validate : Granted → Option Bool
  pub prompt : Bytes → Option Bytes

-- The repository of sessions, with the time and the id that a new session gets.
pub record Sessions : Type 0 where
  pub codec : Codec
  pub key_codec : KeyCodec
  pub conf : Conf
  pub now : ℕ
  pub new_id : ℕ

-- `Authorizer`; the flag of a restoring is `IsAutoCleanUpAllowed`.
pub record Authorizer : Type 0 where
  pub authorize_public_key : Key → Request → Action Authorization
  pub authorize_password : Bytes → Request → Action Authorization
  pub authorize_interactive : Request → Action Authorization
  pub restore_from_session : Bool → Fs → Action Authorization

abbrev pub fresh : Option Bytes → Remote → Bytes → Granted
fresh entry remote flow = record {
  entry = entry;
  remote = remote;
  env_vars = [];
  flow = flow;
  session = none;
  sessions_public_key = none;
}

abbrev pub with_session : Granted → Fs → Granted
with_session g sess = record g { session = some sess }

abbrev pub with_session_key : Granted → Fs → Key → Granted
with_session_key g sess key = record g { session = some sess; sessions_public_key = some key }

-- The errors of the repository of sessions.
abbrev pub of_sessions : {A : Type 0} → Store × Store.Result A → Store × Result AuthError A
of_sessions (r, ok a) = (r, ok a)
of_sessions (r, err e) = (r, err (session_error e))

-- How the code goes on after a search for a session: `errors.Is(err, session.ErrNoSuchSession)`
-- apart from other errors.
abbrev pub or_if_missing :
    {A : Type 0} → Action A → (Fs → Action A) → Store × Store.Result Fs → Store × Result AuthError A
or_if_missing missing found (r, ok sess) = found sess r
or_if_missing missing found (r, err no_such_session) = missing r
or_if_missing missing found (r, err e) = (r, err (session_error e))

-- `Dispose` of a `simple` and a `htpasswd`: the token goes out of the session.
unfoldable pub dispose_granted : Codec → ℕ → Granted → Action Bool
unfolding set_token
dispose_granted c now g = elim g.session [
  | none ↦ pure false
  | some sess ↦ do _ ← λ r. of_sessions (set_token c now sess [] fs_file_access_token r); pure true
]

-- `Dispose` of an authorization: there is nothing to do for one that is forbidden.
unfoldable pub dispose_authorized : Codec → ℕ → Authorization → Action Bool
unfolding dispose_granted
dispose_authorized c now (forbidden remote) = pure false
dispose_authorized c now (granted g) = dispose_granted c now g

module _ (s : Sessions) (flow : Bytes) where
  -- The sessions of the flow and of the user, as far as they are valid.
  abbrev pub own_sessions : Remote → FindOpts
  own_sessions remote = record {
    predicates =
        is_flow flow ∷ is_still_valid s.codec s.conf s.now ∷ is_remote_name remote.user ∷ [];
    auto_clean_up_allowed = none;
  }

  abbrev pub own_session_by_key : Remote → Key → Store.Action Fs
  own_session_by_key remote key =
      find_by_public_key s.codec s.now (own_sessions remote) s.key_codec key

  -- `req.Sessions().Create`
  unfoldable pub create_session : Remote → Bytes → Action Fs
  unfolding create
  create_session remote at r = of_sessions (create s.codec s.now flow s.new_id remote at r)

  -- The end of `ensureSessionFor`, of simple and of htpasswd: the session with the token, or a new one
  unfoldable pub ensure_session : Remote → Bytes → Action Fs
  unfolding find_by_access_token create_session
  ensure_session remote at r =
      or_if_missing (create_session remote at) (λ sess. pure sess)
        (find_by_access_token s.codec s.now (own_sessions remote) at r)
