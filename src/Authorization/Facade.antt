-- ===== src/Authorization/Facade.antt =====
-- pkg/authorization/facade-authorizer.go: the flows of the configuration, asked in their order.
pub mod Chosen
use bifroest.Prelude.{
  Bool, true, false, not, ◌&&◌, List, [], ◌∷◌, Option, none, some, Bytes, if◌then◌else◌, Result, ok,
  err,
}
use bifroest.Session.Store.{Fs, Store}
use bifroest.Session.PublicKeys.{Key}
use bifroest.Authorization.Request.{
  Authorization, forbidden, granted, AuthError, no_such_authorization, Action, Request, Authorizer,
  is_authorized,
}

-- `facaded`, with the regular expressions of its requirement, where they are given.
pub record Facaded : Type 0 where
  pub authorizer : Authorizer
  pub included_requesting_name : Option (Bytes → Bool)
  pub excluded_requesting_name : Option (Bytes → Bool)

abbrev pub is_included : Option (Bytes → Bool) → Bytes → Bool
is_included none user = true
is_included (some match) user = match user

abbrev pub is_excluded : Option (Bytes → Bool) → Bytes → Bool
is_excluded none user = false
is_excluded (some match) user = match user

-- `canHandle`, which has no errors
unfoldable pub can_handle : Facaded → Request → Bool
can_handle candidate req =
    if not (is_included candidate.included_requesting_name req.remote.user)
    then false
    else not (is_excluded candidate.excluded_requesting_name req.remote.user)

-- The loop of the three ways to authorize, which differ in what the candidate is asked.
unfoldable pub ask_each :
    (Facaded → Action Authorization) → Request → List Facaded → Action Authorization
unfolding can_handle is_authorized
ask_each ask req [] r = (r, ok (forbidden req.remote))
ask_each ask req (candidate ∷ others) r =
    if can_handle candidate req
    then (let (r', out) = ask candidate r in
        elim out [
          | err e ↦ (r', err e)
          | ok resp ↦ if is_authorized resp then (r', ok resp) else ask_each ask req others r'
        ])
    else ask_each ask req others r

abbrev pub facade_password : List Facaded → Bytes → Request → Action Authorization
facade_password entries password req =
    ask_each (λ f. f.authorizer.authorize_password password req) req entries

abbrev pub facade_public_key : List Facaded → Key → Request → Action Authorization
facade_public_key entries key req =
    ask_each (λ f. f.authorizer.authorize_public_key key req) req entries

abbrev pub facade_interactive : List Facaded → Request → Action Authorization
facade_interactive entries req = ask_each (λ f. f.authorizer.authorize_interactive req) req entries

-- `RestoreFromSession`
unfoldable pub facade_restore : List Facaded → Bool → Fs → Action Authorization
facade_restore [] auto_clean_up_allowed sess r = (r, err no_such_authorization)
facade_restore (candidate ∷ others) auto_clean_up_allowed sess r =
    let (r', out) = candidate.authorizer.restore_from_session auto_clean_up_allowed sess r in
    elim out [
      | err no_such_authorization ↦ facade_restore others auto_clean_up_allowed sess r'
      | err e ↦ (r', err e)
      | ok auth ↦ (r', ok auth)
    ]

-- `AuthorizerFacade`, itself an authorizer
abbrev pub facade_authorizer : List Facaded → Authorizer
facade_authorizer entries = record {
  authorize_public_key = facade_public_key entries;
  authorize_password = facade_password entries;
  authorize_interactive = facade_interactive entries;
  restore_from_session = facade_restore entries;
}
