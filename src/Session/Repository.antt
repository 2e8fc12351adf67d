-- ===== src/Session/Repository.antt =====
-- pkg/session/fs-repository.go: creating, finding, disposing and deleting a session. Locks and the
-- log are left out.
pub mod Broken
pub mod Created
pub mod Disposed
pub mod Deleted
pub mod Noted
use bifroest.Prelude.{
  ℕ, Bool, true, false, not, ◌&&◌, ◌||◌, List, [], ◌∷◌, Option, none, some, Bytes, bytes_eq,
  is_empty, ltb, ◌==◌, if◌then◌else◌, ok, err,
}
use bifroest.Prelude.Maps.{retain}
use bifroest.Prelude.Actions.{pure, fail, continue, ◌>>=◌, ◌>>◌}
use bifroest.Session.State.{State, unchanged, new, disposed, is_disposed}
use bifroest.Session.Files
use bifroest.Session.Files.{
  Entry, file, folder, FlowEntry, directory, Storage, Opened, opened, open_read, session_dir,
  set_session_dir, remove_session,
}
use bifroest.Session.Store.{
  Remote, Info, Fs, Stack, Store, SessionError, no_such_session, missing, not_a_directory,
  cannot_decode, Result, Action, Codec, Conf, fs_file_session, fs_file_last_accessed,
  fs_file_access_token, fs_file_environment_token, fs_file_public_keys_prefix,
}
use bifroest.Session.Fs.{save_info, notify_last_access, set_token, with_state}
use bifroest.Session.Predicates.{Predicate, matches}

-- `FindOpts`; options that are not given (nil) have no predicates.
pub record FindOpts : Type 0 where
  pub predicates : List Predicate
  pub auto_clean_up_allowed : Option Bool

abbrev pub no_opts : FindOpts
no_opts = record { predicates = []; auto_clean_up_allowed = none }

abbrev pub is_auto_clean_up_allowed : FindOpts → Bool
is_auto_clean_up_allowed o = elim o.auto_clean_up_allowed [ none ↦ false | some b ↦ b ]

-- What follows a prefix.
unfoldable pub after_prefix : Bytes → Bytes → Option Bytes
after_prefix [] text = some text
after_prefix (p ∷ ps) [] = none
after_prefix (p ∷ ps) (b ∷ bs) = let rest = after_prefix ps bs in if p == b then rest else none

module _ (c : Codec) (now : ℕ) where
  -- `Create`, with the id that the UUID library gives.
  unfoldable pub create : Bytes → ℕ → Remote → Bytes → Action Fs
  unfolding save_info notify_last_access set_token
  create flow id remote auth_token =
      let sess : Fs = record {
        flow = flow;
        id = id;
        info = record { state = new; remote = remote };
        created_at = now;
      } in
      do
        save_info c now sess
        n ← notify_last_access c now sess remote unchanged
        (if is_empty auth_token
            then pure tt
            else set_token c now n.0 auth_token fs_file_access_token)
        pure n.0

  -- What the file of a session says.
  unfoldable pub read_session : Bytes → ℕ → Entry → Option Fs
  read_session flow id folder = none
  read_session flow id (file f) = elim (c.decode_info f.content) [
    | none ↦ none
    | some i ↦ some (record { flow = flow; id = id; info = i; created_at = f.changed_at })
  ]

  -- `findBy` with no options.
  unfoldable pub find_plain : Store → Bytes → ℕ → Result Fs
  unfolding read_session
  find_plain r flow id = elim (open_read r.storage flow (c.id_text id) fs_file_session) [
    | Opened.missing ↦ err no_such_session
    | Opened.not_a_directory ↦ err not_a_directory
    | opened e ↦ elim (read_session flow id e) [ none ↦ err cannot_decode | some sess ↦ ok sess ]
  ]

  abbrev pub is_same : Bytes → ℕ → Bytes → ℕ → Bool
  is_same flow id f i = bytes_eq flow f && id == i

  -- The connections of the session are told, and whether there are any.
  abbrev pub dispose_stack : Bytes → ℕ → Store → Store
  dispose_stack flow id r = record r {
    stacks = λ f i.
        if is_same flow id f i
        then elim (r.stacks f i) [ none ↦ none | some k ↦ some (record k { disposed = true }) ]
        else r.stacks f i;
  }

  abbrev pub has_connections : Store → Bytes → ℕ → Bool
  has_connections r flow id = elim (r.stacks flow id) [ none ↦ false | some k ↦ ltb 0 k.active ]

  -- `disposeBy`
  unfoldable pub dispose_by : Bytes → ℕ → Action Bool
  unfolding find_plain save_info
  dispose_by flow id r =
      let connected = has_connections r flow id in
      let r' = dispose_stack flow id r in
      elim (find_plain r' flow id) [
        | err no_such_session ↦ (r', ok connected)
        | err e ↦ (r', err e)
        | ok sess ↦
            if is_disposed sess.info.state
            then (r', ok true)
            else (do save_info c now (with_state c sess disposed); pure connected) r'
      ]

  -- `deleteBy`
  unfoldable pub delete_by : Bytes → ℕ → Action (Unit {0})
  unfolding dispose_by
  delete_by flow id = do
    _ ← dispose_by flow id
    λ r. (record r { storage = remove_session r.storage flow (c.id_text id) }, ok tt)

  -- `doFindAutoCleanIfAllowed`: an error is only logged.
  unfoldable pub auto_clean : FindOpts → Bytes → ℕ → Store → Store
  unfolding delete_by
  auto_clean opts flow id r = if is_auto_clean_up_allowed opts then (delete_by flow id r).0 else r

  unfoldable pub is_expected_name : Bytes → Bool
  unfolding after_prefix
  is_expected_name name =
      bytes_eq name fs_file_session
      || bytes_eq name fs_file_last_accessed
      || bytes_eq name fs_file_access_token
      || bytes_eq name fs_file_environment_token
      || elim (after_prefix fs_file_public_keys_prefix name) [
        | none ↦ false
        | some hash ↦ c.is_hash hash
      ]

  -- `deleteUnexpectedFiles`
  unfoldable pub delete_unexpected_files : FindOpts → Bytes → ℕ → Store → Store
  unfolding is_expected_name
  delete_unexpected_files opts flow id r =
      if is_auto_clean_up_allowed opts
      then record r {
        storage =
            set_session_dir r.storage flow (c.id_text id)
              (retain is_expected_name (session_dir r.storage flow (c.id_text id)));
      }
      else r

  -- `findBy`
  unfoldable pub find_by : FindOpts → Bool → Bytes → ℕ → Action Fs
  unfolding read_session auto_clean delete_unexpected_files
  find_by opts expected_to_exist flow id r =
      elim (open_read r.storage flow (c.id_text id) fs_file_session) [
        | Opened.missing ↦
            (if expected_to_exist then auto_clean opts flow id r else r, err no_such_session)
        | Opened.not_a_directory ↦ (r, err not_a_directory)
        | opened e ↦ elim (read_session flow id e) [
          | none ↦ (auto_clean opts flow id r, err cannot_decode)
          | some sess ↦
              let r' = delete_unexpected_files opts flow id r in
              elim (matches opts.predicates r' sess) [
                | err e ↦ (r', err e)
                | ok b ↦ if b then (r', ok sess) else (r', err no_such_session)
              ]
        ]
      ]
