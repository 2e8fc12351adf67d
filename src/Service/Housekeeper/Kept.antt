-- ===== src/Service/Housekeeper/Kept.antt =====
-- Which sessions are kept.
use bifroest.Prelude.{
  ℕ, ◌≡◌, refl, ◌∙◌, Bool, true, ◌||◌, false, Bytes, arith, ok, inl, inr, Result-cases,
}
use bifroest.Session.State.{is_disposed}
use bifroest.Session.Files
use bifroest.Session.Files.{open_read, remove_session}
use bifroest.Session.Files.Laws.{same}
use bifroest.Session.Store.{Fs, Store, Codec, CodecLaws, Conf, fs_file_session}
use bifroest.Session.Predicates.{is_expired_with_threshold}
use bifroest.Session.Repository.{find_plain, no_opts, dispose_by, delete_by, dispose_stack}
use bifroest.Session.Repository.Disposed.{find_plain-dispose_stack}
use bifroest.Session.Repository.Deleted.{find_by-delete_by}
use bifroest.Service.Housekeeper.{
  Others, dispose_environment, dispose_authorization, dispose, inspect_session,
}

module _ (c : Codec) (now : ℕ) (others : Others) (conf : Conf) (keep : ℕ) (sess : Fs)
    (r : Store) where
  -- The repository after the environment and the authorization were disposed.
  abbrev pub without_others : Store
  without_others =
      (dispose_authorization c now others sess (dispose_environment c now others sess r).0).0

  -- The environment is disposed without an error, and with the authorization leaves the file of the
  -- session, and one of the files of another session, as they are.
  pub record AreDisposed (f i k : Bytes) : Type 0 where
    pub told : Bool
    pub environment : (dispose_environment c now others sess r).1 ≡ ok told
    pub same_session :
        open_read without_others.storage sess.flow (c.id_text sess.id) fs_file_session
        ≡ open_read r.storage sess.flow (c.id_text sess.id) fs_file_session
    pub same_other : open_read without_others.storage f i k ≡ open_read r.storage f i k

  still_found :
      open_read without_others.storage sess.flow (c.id_text sess.id) fs_file_session
        ≡ open_read r.storage sess.flow (c.id_text sess.id) fs_file_session
      → find_plain c now r sess.flow sess.id ≡ ok sess
      → find_plain c now without_others sess.flow sess.id ≡ ok sess
  unfolding find_plain
  still_found same_session found = ground (arith, same_session, found)

  again :
      (r' : Store)
      → find_plain c now r' sess.flow sess.id ≡ ok sess
      → is_disposed sess.info.state ≡ true
      → dispose_by c now sess.flow sess.id r' ≡ (dispose_stack c now sess.flow sess.id r', ok true)
  unfolding dispose_by
  again r' found over =
      ground (arith, find_plain-dispose_stack c now sess.flow sess.id r', found, over)

  -- Disposing the authorization never fails.
  dispose_authorization-told :
      (r' : Store) → (b : Bool) × ((dispose_authorization c now others sess r').1 ≡ ok b)
  unfolding dispose_authorization
  dispose_authorization-told r' =
      let (r1, out) = others.authorizer.restore_from_session true sess r' in
      elim (Result-cases out) [
        | inr (e, fails) ↦ (false, ground (arith, fails))
        | inl (auth, restored) ↦ elim (Result-cases (others.dispose_authorized auth r1).1) [
          | inr (e, fails) ↦ (false, ground (arith, restored, fails))
          | inl (b, disposed) ↦ (b, ground (arith, restored, disposed))
        ]
      ]

  dispose-again :
      (told : Bool)
      → (dispose_environment c now others sess r).1 ≡ ok told
      → find_plain c now without_others sess.flow sess.id ≡ ok sess
      → is_disposed sess.info.state ≡ true
      → (b : Bool) × (dispose c now others sess r
          ≡ (dispose_stack c now sess.flow sess.id without_others, ok b))
  unfolding dispose
  dispose-again told environment found over =
      let (b, authorization) =
        dispose_authorization-told (dispose_environment c now others sess r).0 in
      (
        told || b || true,
        ground (arith, environment, authorization, again without_others found over),
      )

  abbrev removed : Store → Store
  removed r' = record r' { storage = remove_session r'.storage sess.flow (c.id_text sess.id) }

  abbrev told_twice : Store
  told_twice =
      dispose_stack c now sess.flow sess.id (dispose_stack c now sess.flow sess.id without_others)

  delete-again :
      find_plain c now without_others sess.flow sess.id ≡ ok sess
      → is_disposed sess.info.state ≡ true
      → delete_by c now sess.flow sess.id (dispose_stack c now sess.flow sess.id without_others)
        ≡ (removed told_twice, ok tt)
  unfolding delete_by
  delete-again found over =
      let r1 = dispose_stack c now sess.flow sess.id without_others in
      ground (
        arith,
        again r1 (find_plain-dispose_stack c now sess.flow sess.id without_others ∙ found) over,
      )

  inspect-disposed :
      (told : Bool)
      → (dispose_environment c now others sess r).1 ≡ ok told
      → find_plain c now without_others sess.flow sess.id ≡ ok sess
      → is_disposed sess.info.state ≡ true
      → inspect_session c now others conf keep sess r ≡ (removed told_twice, ok true)
  unfolding inspect_session is_expired_with_threshold
  inspect-disposed told environment found over =
      let (b, disposed) = dispose-again told environment found over in
      ground (arith, over, disposed, delete-again found over)

  -- With what is written read back: a session that the housekeeper finds as disposed, and whose
  -- environment is disposed without an error, has no file that can be opened after its inspection,
  -- whatever the time to keep it and the timeouts, and also if its authorization cannot be disposed;
  -- the housekeeper goes on to the next one; and a file of another session that the disposing of the
  -- environment and of the authorization leaves as it is, as it leaves the file of the session itself,
  -- is as it was.
  pub inspect_session-disposed :
      CodecLaws c
      → (kind f i k : Bytes) → AreDisposed f i k
      → find_plain c now r sess.flow sess.id ≡ ok sess
      → is_disposed sess.info.state ≡ true
      → same sess.flow (c.id_text sess.id) f i ≡ false
      → (open_read
            (inspect_session c now others conf keep sess r).0.storage
            sess.flow
            (c.id_text sess.id)
            kind
          ≡ Files.missing)
        × (open_read (inspect_session c now others conf keep sess r).0.storage f i k
            ≡ open_read r.storage f i k)
        × ((inspect_session c now others conf keep sess r).1 ≡ ok true)
  inspect_session-disposed laws kind f i k d had over other =
      let found = still_found d.same_session had in
      let (gone, _, kept) =
        find_by-delete_by c now sess.flow sess.id laws
          (dispose_stack c now sess.flow sess.id without_others) (removed told_twice)
          (delete-again found over) kind now no_opts true f i k other in
      let done = inspect-disposed d.told d.environment found over in
      (rw done gone, rw done (kept ∙ d.same_other), rw done refl)
