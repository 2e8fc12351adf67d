-- ===== src/Session/Repository/Noted.antt =====
-- A session whose access was noted.
use bifroest.Prelude.{
  ℕ, ◌≡◌, ap, ◌∙◌, Bool, false, not, ◌&&◌, Bytes, bytes_eq, arith, Bool-cases, Result-cases, inl,
  inr, ok, if◌then◌else◌,
}
use bifroest.Prelude.Actions.{step-eq-ok, pure}
use bifroest.Session.State.{State}
use bifroest.Session.Files.{File, file, open_read, opened}
use bifroest.Session.Files.Laws.{IsPlace, same}
use bifroest.Session.Store.{
  Remote, Fs, Store, Codec, CodecLaws, fs_file_session, fs_file_last_accessed,
}
use bifroest.Session.Fs.{
  save_info, save_last_accessed, change_state, notify_last_access, last_accessed_at, open_file,
  with_state, is_change, state_eq,
}
use bifroest.Session.Fs.Written.{
  written, write_file-eq-ok, open_read-written_other, open_read-written_place, written-IsPlace,
}
use bifroest.Session.Repository.{find_plain, read_session}

abbrev pub changes : State → State → Bool
changes new_state old_state = is_change new_state && not (state_eq new_state old_state)

module _ (c : Codec) (now : ℕ) (sess : Fs) (remote : Remote) (new_state : State) where
  abbrev noted_file : File
  noted_file = record { content = c.encode_access remote; changed_at = now }

  abbrev changed_file : File
  changed_file = record {
    content = c.encode_info (with_state c sess new_state).info;
    changed_at = now;
  }

  abbrev with_access : Store → Store
  with_access = written c sess.flow sess.id fs_file_last_accessed noted_file

  abbrev pub noted_fs : Fs
  noted_fs = if changes new_state sess.info.state then with_state c sess new_state else sess

  save_last_accessed-eq-ok :
      (r r' : Store)
      → save_last_accessed c now sess remote r ≡ (r', ok tt)
      → IsPlace r.storage sess.flow (c.id_text sess.id) × (r' ≡ with_access r)
  unfolding save_last_accessed
  save_last_accessed-eq-ok r r' h =
      elim (Result-cases (open_file c r sess.flow sess.id fs_file_session)) [
        | inr (e, fails) ↦ absurd (ground (arith, fails))
        | inl (e, is_open) ↦
            write_file-eq-ok c sess.flow sess.id fs_file_last_accessed noted_file r r'
              (ground (arith, is_open))
      ]

  -- The state on disk afterwards, where it was changed.
  abbrev restated : Store → Store
  restated r =
      if changes new_state sess.info.state
      then written c sess.flow sess.id fs_file_session changed_file r
      else r

  change_state-eq-ok :
      (r r' : Store) (back : Fs × State)
      → change_state c now sess new_state r ≡ (r', ok back)
      → (r' ≡ restated r) × (back ≡ (noted_fs, sess.info.state))
  unfolding change_state save_info
  change_state-eq-ok r r' back h = elim (Bool-cases (changes new_state sess.info.state)) [
    | inl change ↦
        let (r1, _, saved, goes_on) =
          step-eq-ok (λ _. pure (with_state c sess new_state, sess.info.state)) r'
            (save_info c now (with_state c sess new_state)) r back (ground (arith, change)) in
        let (place, is_r1) =
          write_file-eq-ok c sess.flow sess.id fs_file_session changed_file r r1 saved in
        (ground (arith, change, is_r1, goes_on), ground (arith, change, goes_on))
    | inr no_change ↦ (ground (arith, no_change), ground (arith, no_change))
  ]

  notify-eq-ok :
      (r r' : Store) (back : Fs × State)
      → notify_last_access c now sess remote new_state r ≡ (r', ok back)
      → IsPlace r.storage sess.flow (c.id_text sess.id)
        × (r' ≡ restated (with_access r))
        × (back ≡ (noted_fs, sess.info.state))
  unfolding notify_last_access
  notify-eq-ok r r' back h =
      let (r1, _, noted, goes_on) =
        step-eq-ok (λ _. change_state c now sess new_state) r'
          (save_last_accessed c now sess remote) r back h in
      let (place, is_r1) = save_last_accessed-eq-ok r r1 noted in
      let (is_r', is_back) = change_state-eq-ok r1 r' back goes_on in
      (place, is_r' ∙ ap restated is_r1, is_back)

  access-IsPlace : (r : Store) → IsPlace (with_access r).storage sess.flow (c.id_text sess.id)
  access-IsPlace r = written-IsPlace c sess.flow sess.id fs_file_last_accessed noted_file r

  restated-others :
      (r : Store) (f i k : Bytes)
      → IsPlace r.storage sess.flow (c.id_text sess.id)
      → same sess.flow (c.id_text sess.id) f i ≡ false
      → open_read (restated (with_access r)).storage f i k ≡ open_read r.storage f i k
  restated-others r f i k place other = ground (
    arith,
    open_read-written_other c sess.flow sess.id fs_file_last_accessed noted_file r f i k place
        other,
    open_read-written_other c sess.flow sess.id fs_file_session changed_file (with_access r) f i k
        (access-IsPlace r) other,
  )

  restated-access :
      (r : Store)
      → IsPlace r.storage sess.flow (c.id_text sess.id)
      → open_read
          (restated (with_access r)).storage
          sess.flow
          (c.id_text sess.id)
          fs_file_last_accessed
        ≡ opened (file noted_file)
  unfolding bytes_eq
  restated-access r place = ground (
    arith,
    open_read-written_place c sess.flow sess.id fs_file_last_accessed noted_file r
        fs_file_last_accessed place,
    open_read-written_place c sess.flow sess.id fs_file_session changed_file (with_access r)
        fs_file_last_accessed (access-IsPlace r),
  )

  restated-info :
      (r : Store)
      → IsPlace r.storage sess.flow (c.id_text sess.id)
      → open_read (restated (with_access r)).storage sess.flow (c.id_text sess.id) fs_file_session
        ≡ (if changes new_state sess.info.state
            then opened (file changed_file)
            else open_read r.storage sess.flow (c.id_text sess.id) fs_file_session)
  unfolding bytes_eq
  restated-info r place = ground (
    arith,
    open_read-written_place c sess.flow sess.id fs_file_last_accessed noted_file r fs_file_session
        place,
    open_read-written_place c sess.flow sess.id fs_file_session changed_file (with_access r)
        fs_file_session (access-IsPlace r),
  )

  -- With what is written read back: where `NotifyLastAccess` succeeds it gives the state that the
  -- session had in memory; the last access on disk is that of this moment; a new state that is none
  -- or is the one in memory leaves the session file alone, and any other stands in it afterwards,
  -- whatever stood there before; and the files of all other sessions are as they were.
  pub notify_last_access_lem :
      CodecLaws c
      → (r r' : Store) (back : Fs × State)
      → notify_last_access c now sess remote new_state r ≡ (r', ok back)
      → (f i k : Bytes) → same sess.flow (c.id_text sess.id) f i ≡ false
      → (back ≡ (noted_fs, sess.info.state))
        × (last_accessed_at c r' sess ≡ ok now)
        × (find_plain c now r' sess.flow sess.id ≡ (
            if changes new_state sess.info.state
            then ok (record (with_state c sess new_state) { created_at = now })
            else find_plain c now r sess.flow sess.id))
        × (open_read r'.storage f i k ≡ open_read r.storage f i k)
  unfolding last_accessed_at find_plain read_session
  notify_last_access_lem laws r r' back h f i k other =
      let (place, is_r', is_back) = notify-eq-ok r r' back h in
      (
        is_back,
        rw is_r' (ground (arith, restated-access r place, laws.decode-encode_access remote)),
        rw is_r' (
            ground (
              arith,
              restated-info r place,
              laws.decode-encode_info (with_state c sess new_state).info,
            )),
        rw is_r' (restated-others r f i k place other),
      )
