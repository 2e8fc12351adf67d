-- ===== src/Service/Housekeeper.antt =====
-- pkg/service/housekeeper.go: what is done with each session in a run of the housekeeper. The
-- environments, and what an authorization does to dispose itself, are parameters.
pub mod Kept
use bifroest.Prelude.{
  ℕ, Bool, true, false, ◌||◌, Option, none, some, if◌then◌else◌, ok, err, Result,
}
use bifroest.Prelude.Actions
use bifroest.Prelude.Actions.{pure, fail, continue, ◌>>=◌, ◌>>◌}
use bifroest.Session.Store
use bifroest.Session.Store.{Fs, Store, SessionError, Codec, Conf}
use bifroest.Session.Predicates.{is_expired, is_expired_with_threshold}
use bifroest.Session.Repository.{dispose_by, delete_by}
use bifroest.Authorization.Request
use bifroest.Authorization.Request.{Authorization, Authorizer}

pub data HousekeeperError : Type 0 where
  environment_failed : HousekeeperError
  session_failed : SessionError → HousekeeperError

abbrev pub Action : Type 0 → Type 0
Action = Actions.Action Store HousekeeperError

-- `Environment`, as far as the housekeeper calls it
pub record Environment : Type 0 where
  pub dispose_env : Action Bool
  pub close_env : Action (Unit {0})

-- What the service has beside the sessions: `FindBySession` of the environments (none is
-- `ErrNoSuchEnvironment`), the authorizer, and `Dispose` of an authorization.
pub record Others : Type 0 where
  pub find_environment : Fs → Action (Option Environment)
  pub authorizer : Authorizer
  pub dispose_authorized : Authorization → Request.Action Bool

abbrev of_sessions : {A : Type 0} → Store × Store.Result A → Store × Result HousekeeperError A
of_sessions (r, ok a) = (r, ok a)
of_sessions (r, err e) = (r, err (session_failed e))

-- An error is only reported.
abbrev pub report_and_continue :
    Store × Result HousekeeperError (Unit {0}) → Store × Result HousekeeperError Bool
report_and_continue (r, _) = (r, ok true)

-- The environment is closed in any case; the error of its disposing comes before that of closing.
unfoldable pub dispose_and_close : Environment → Action Bool
dispose_and_close env r =
    let (r', out) = env.dispose_env r in
    let (r'', closed) = env.close_env r' in
    elim out [
      | err e ↦ (r'', err e)
      | ok b ↦ elim closed [ err e ↦ (r'', err e) | ok _ ↦ (r'', ok b) ]
    ]

module _ (c : Codec) (now : ℕ) (others : Others) where
  unfoldable pub dispose_environment : Fs → Action Bool
  unfolding dispose_and_close
  dispose_environment sess = do
    found ← others.find_environment sess
    elim found [ none ↦ pure false | some env ↦ dispose_and_close env ]

  -- Its errors are only reported.
  unfoldable pub dispose_authorization : Fs → Action Bool
  dispose_authorization sess r =
      let (r', out) = others.authorizer.restore_from_session true sess r in
      elim out [
        | err e ↦ (r', ok false)
        | ok auth ↦
            let (r'', told) = others.dispose_authorized auth r' in
            elim told [ err e ↦ (r'', ok false) | ok b ↦ (r'', ok b) ]
      ]

  -- `dispose`
  unfoldable pub dispose : Fs → Action Bool
  unfolding dispose_environment dispose_authorization dispose_by
  dispose sess = do
    environment_disposed ← dispose_environment sess
    authorization_disposed ← dispose_authorization sess
    session_disposed ← λ r. of_sessions (dispose_by c now sess.flow sess.id r)
    pure (environment_disposed || authorization_disposed || session_disposed)

  -- `inspectSession`, with `KeepExpiredFor`
  unfoldable pub inspect_session : Conf → ℕ → Fs → Action Bool
  unfolding dispose is_expired_with_threshold is_expired delete_by
  inspect_session conf keep_expired_for sess r =
      elim (is_expired_with_threshold c conf now keep_expired_for r sess) [
        | err e ↦ (r, ok true)
        | ok true ↦
            report_and_continue
              ((do _ ← dispose sess; λ r'. of_sessions (delete_by c now sess.flow sess.id r')) r)
        | ok false ↦ elim (is_expired c conf now r sess) [
          | err e ↦ (r, ok true)
          | ok false ↦ (r, ok true)
          | ok true ↦ report_and_continue ((do _ ← dispose sess; pure tt) r)
        ]
      ]
