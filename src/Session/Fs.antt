-- ===== src/Session/Fs.antt =====
-- pkg/session/fs.go, fs-info.go and fs-lastaccessed.go: what is done with one session. The time `now`
-- stands still while an operation runs.
pub mod Written
use bifroest.Prelude.{
  ℕ, ◌+◌, Bool, true, false, not, ◌&&◌, ◌||◌, List, [], ◌∷◌, Option, none, some, Bytes, is_empty,
  ltb, if◌then◌else◌, ok, err,
}
use bifroest.Prelude.Actions.{pure, fail, ◌>>=◌, ◌>>◌}
use bifroest.Session.State.{State, unchanged, new, authorized, disposed}
use bifroest.Session.Files
use bifroest.Session.Files.{
  File, Entry, file, folder, Opened, opened, open_read, write, remove_file,
}
use bifroest.Session.Store.{
  Remote, Info, Fs, Store, SessionError, missing, not_a_directory, not_writable, cannot_decode,
  Result, Action, Codec, Conf, fs_file_session, fs_file_last_accessed, fs_file_access_token,
  fs_file_environment_token,
}

-- `==` on states
abbrev pub state_eq : State → State → Bool
state_eq unchanged unchanged = true
state_eq new new = true
state_eq authorized authorized = true
state_eq disposed disposed = true
state_eq _ _ = false

-- `newState != 0`
abbrev pub is_change : State → Bool
is_change unchanged = false
is_change _ = true

-- The earlier of the two limits that are set; none is the zero time, which is forever.
unfoldable pub limit : Conf → ℕ → Option ℕ
limit conf lat =
    let by_idle : Option ℕ =
      if ltb 0 conf.idle_timeout then some (lat + conf.idle_timeout) else none in
    let by_max = lat + conf.max_timeout in
    if ltb 0 conf.max_timeout
    then elim by_idle [ none ↦ some by_max | some t ↦ if ltb by_max t then some by_max else some t ]
    else by_idle

module _ (c : Codec) where
  -- `openWrite` and what is written.
  unfoldable pub write_file : Bytes → ℕ → Bytes → File → Action (Unit {0})
  write_file flow id kind f r = elim (write r.storage flow (c.id_text id) kind f) [
    | none ↦ (r, err not_writable)
    | some s ↦ (record r { storage = s }, ok tt)
  ]

  unfoldable pub open_file : Store → Bytes → ℕ → Bytes → Result Entry
  open_file r flow id kind = elim (open_read r.storage flow (c.id_text id) kind) [
    | Opened.missing ↦ err missing
    | Opened.not_a_directory ↦ err not_a_directory
    | opened e ↦ ok e
  ]

  -- `fsInfo.save`
  unfoldable pub save_info : ℕ → Fs → Action (Unit {0})
  unfolding write_file
  save_info now sess =
      write_file sess.flow sess.id fs_file_session
        (record { content = c.encode_info sess.info; changed_at = now })

  -- `fsLastAccessed.save`: there must be a session.
  unfoldable pub save_last_accessed : ℕ → Fs → Remote → Action (Unit {0})
  unfolding write_file open_file
  save_last_accessed now sess remote r = elim (open_file r sess.flow sess.id fs_file_session) [
    | err e ↦ (r, err e)
    | ok e ↦
        write_file sess.flow sess.id fs_file_last_accessed
          (record { content = c.encode_access remote; changed_at = now }) r
  ]

  abbrev pub with_state : Fs → State → Fs
  with_state sess state = record sess { info = record { state = state; remote = sess.info.remote } }

  -- The end of `notifyLastAccess`: a state that is none, or that the session has, is not saved. The
  -- session comes back as it is in memory afterwards, with the state before.
  unfoldable pub change_state : ℕ → Fs → State → Action (Fs × State)
  unfolding save_info
  change_state now sess new_state =
      let old_state = sess.info.state in
      let changed = with_state sess new_state in
      if is_change new_state && not (state_eq new_state old_state)
      then (save_info now changed >> pure (changed, old_state))
      else pure (sess, old_state)

  -- `notifyLastAccess`
  unfoldable pub notify_last_access : ℕ → Fs → Remote → State → Action (Fs × State)
  unfolding save_last_accessed change_state
  notify_last_access now sess remote new_state =
      save_last_accessed now sess remote >> change_state now sess new_state

  -- `getToken`: no file is no token.
  unfoldable pub get_token : Store → Fs → Bytes → Result (Option Bytes)
  get_token r sess kind = elim (open_read r.storage sess.flow (c.id_text sess.id) kind) [
    | Opened.missing ↦ ok none
    | Opened.not_a_directory ↦ err not_a_directory
    | opened folder ↦ err cannot_decode
    | opened (file f) ↦ ok (some f.content)
  ]

  -- `setToken`: an empty token is removed; a folder of its name is taken as empty.
  unfoldable pub set_token : ℕ → Fs → Bytes → Bytes → Action (Unit {0})
  unfolding write_file
  set_token now sess bytes kind =
      if is_empty bytes
      then (λ r. elim (open_read r.storage sess.flow (c.id_text sess.id) kind) [
        | Opened.missing ↦ (r, ok tt)
        | Opened.not_a_directory ↦ (r, err not_a_directory)
        | opened e ↦
            (record r { storage = remove_file r.storage sess.flow (c.id_text sess.id) kind }, ok tt)
      ])
      else write_file sess.flow sess.id kind (record { content = bytes; changed_at = now })

  -- `lastAccessed().At()`: the time of the file's last change.
  unfoldable pub last_accessed_at : Store → Fs → Result ℕ
  last_accessed_at r sess =
      elim (open_read r.storage sess.flow (c.id_text sess.id) fs_file_last_accessed) [
        | Opened.missing ↦ err missing
        | Opened.not_a_directory ↦ err not_a_directory
        | opened folder ↦ err cannot_decode
        | opened (file f) ↦ elim (c.decode_access f.content) [
          | none ↦ err cannot_decode
          | some remote ↦ ok f.changed_at
        ]
      ]

  -- `ValidUntil`
  unfoldable pub valid_until : Conf → Store → Fs → Result (Option ℕ)
  unfolding last_accessed_at limit
  valid_until conf r sess = elim (last_accessed_at r sess) [
    | err e ↦ err e
    | ok lat ↦ ok (limit conf lat)
  ]
