-- ===== src/Session/Repository/Disposed.antt =====
-- A session that `disposeBy` has ended, and the others.
use bifroest.Prelude.{
  ℕ, ◌≡◌, ◌⊎◌, refl, ap, ◌∙◌, Bool, true, false, ◌||◌, List, [], ◌∷◌, ◌++◌, some, Bytes, All, arith,
  Bool-cases, Result-cases, inl, inr, ok, err,
}
use bifroest.Session.State.{disposed, is_disposed}
use bifroest.Session.Files.{File, Entry, open_read}
use bifroest.Session.Files.Laws.{IsPlace, bytes_eq_refl, same}
use bifroest.Session.Store.{
  Fs, Store, SessionError, no_such_session, missing, not_a_directory, not_writable, cannot_decode,
  unknown_offset, Result, Codec, CodecLaws, Conf, fs_file_session,
}
use bifroest.Session.Fs.{save_info, with_state}
use bifroest.Session.Fs.Written.{
  written, write_file-eq-ok, open_read-written, open_read-written_other,
}
use bifroest.Session.Predicates.{
  Predicate, matches, is_still_valid, is_not_expired, is_expired, is_expired_with_threshold,
}
use bifroest.Session.Repository.{
  FindOpts, find_by, find_plain, read_session, delete_unexpected_files, dispose_by, dispose_stack,
  has_connections,
}

abbrev pub was_disposed : Result Fs → Bool
was_disposed (ok sess) = is_disposed sess.info.state
was_disposed (err e) = false

module _ (c : Codec) (now : ℕ) (flow : Bytes) (id : ℕ) where
  abbrev pub disposed_file : Fs → File
  disposed_file sess = record {
    content = c.encode_info (with_state c sess disposed).info;
    changed_at = now;
  }

  -- The ways in which a session is disposed without an error.
  pub data Disposal (r : Store) : Store → Bool → Type 0 where
    nothing :
        (r' : Store) (b : Bool)
        → find_plain c now r flow id ≡ err no_such_session
        → r' ≡ dispose_stack c now flow id r
        → b ≡ has_connections c now r flow id
        → Disposal r r' b
    again :
        (r' : Store) (b : Bool) (sess : Fs)
        → find_plain c now r flow id ≡ ok sess
        → is_disposed sess.info.state ≡ true
        → r' ≡ dispose_stack c now flow id r
        → b ≡ true
        → Disposal r r' b
    ended :
        (r' : Store) (b : Bool) (sess : Fs)
        → find_plain c now r flow id ≡ ok sess
        → is_disposed sess.info.state ≡ false
        → IsPlace r.storage flow (c.id_text id)
        → r'
          ≡ written c flow id fs_file_session (disposed_file sess) (dispose_stack c now flow id r)
        → b ≡ has_connections c now r flow id
        → Disposal r r' b

  read_session-eq-some :
      (e : Entry) (sess : Fs)
      → read_session c now flow id e ≡ some sess
      → (sess.flow ≡ flow) × (sess.id ≡ id)
  unfolding read_session
  read_session-eq-some e sess h = (ground arith, ground arith)

  find_plain-eq-ok :
      (r : Store) (sess : Fs)
      → find_plain c now r flow id ≡ ok sess
      → (sess.flow ≡ flow) × (sess.id ≡ id)
  unfolding find_plain read_session
  find_plain-eq-ok r sess h = (ground arith, ground arith)

  pub find_plain-dispose_stack :
      (r : Store)
      → find_plain c now (dispose_stack c now flow id r) flow id ≡ find_plain c now r flow id
  unfolding find_plain
  find_plain-dispose_stack r = refl

  save-disposed :
      (r r' : Store) (sess : Fs)
      → find_plain c now r flow id ≡ ok sess
      → save_info c now (with_state c sess disposed) (dispose_stack c now flow id r) ≡ (r', ok tt)
      → IsPlace r.storage flow (c.id_text id)
        × (r'
            ≡ written c flow id fs_file_session
                (disposed_file sess)
                (dispose_stack c now flow id r))
  unfolding save_info
  save-disposed r r' sess found h =
      let (of_flow, of_id) = find_plain-eq-ok r sess found in
      write_file-eq-ok c flow id fs_file_session (disposed_file sess)
        (dispose_stack c now flow id r) r' (cc)

  dispose_by-failed :
      (e : SessionError) (r r' : Store) (b : Bool)
      → find_plain c now r flow id ≡ err e
      → dispose_by c now flow id r ≡ (r', ok b)
      → Disposal r r' b
  unfolding dispose_by
  dispose_by-failed no_such_session r r' b fails h =
      nothing r' b fails (ground (arith, fails, find_plain-dispose_stack r))
        (ground (arith, fails, find_plain-dispose_stack r))
  dispose_by-failed missing r r' b fails h =
      absurd (ground (arith, fails, find_plain-dispose_stack r))
  dispose_by-failed not_a_directory r r' b fails h =
      absurd (ground (arith, fails, find_plain-dispose_stack r))
  dispose_by-failed not_writable r r' b fails h =
      absurd (ground (arith, fails, find_plain-dispose_stack r))
  dispose_by-failed cannot_decode r r' b fails h =
      absurd (ground (arith, fails, find_plain-dispose_stack r))
  dispose_by-failed unknown_offset r r' b fails h =
      absurd (ground (arith, fails, find_plain-dispose_stack r))

  save-cases :
      (r r' : Store) (b : Bool) (sess : Fs)
      → find_plain c now r flow id ≡ ok sess
      → is_disposed sess.info.state ≡ false
      → dispose_by c now flow id r ≡ (r', ok b)
      → (save_info c now (with_state c sess disposed) (dispose_stack c now flow id r) ≡ (r', ok tt))
        × (b ≡ has_connections c now r flow id)
  unfolding dispose_by
  save-cases r r' b sess found alive h =
      (ground (arith, find_plain-dispose_stack r), ground (arith, find_plain-dispose_stack r))

  pub dispose_by-cases :
      (r r' : Store) (b : Bool) → dispose_by c now flow id r ≡ (r', ok b) → Disposal r r' b
  unfolding dispose_by
  dispose_by-cases r r' b h = elim (Result-cases (find_plain c now r flow id)) [
    | inr (e, fails) ↦ dispose_by-failed e r r' b fails h
    | inl (sess, found) ↦ elim (Bool-cases (is_disposed sess.info.state)) [
      | inl over ↦
          again r' b sess found over (ground (arith, find_plain-dispose_stack r))
            (ground (arith, find_plain-dispose_stack r))
      | inr alive ↦
          let (saved, is_b) = save-cases r r' b sess found alive h in
          let (place, is_r') = save-disposed r r' sess found saved in
          ended r' b sess found alive place is_r' is_b
    ]
  ]

  -- No session is there, or a disposed one.
  abbrev pub IsEnded : Store → Type 0
  IsEnded r =
      (find_plain c now r flow id ≡ err no_such_session)
      ⊎ ((sess : Fs) × (find_plain c now r flow id ≡ ok sess)
          × (is_disposed sess.info.state ≡ true))

  pub Disposal-IsEnded : CodecLaws c → (r r' : Store) (b : Bool) → Disposal r r' b → IsEnded r'
  unfolding find_plain read_session
  Disposal-IsEnded laws r _ _ (nothing r' b missed is_r' is_b) = inl (rw is_r' missed)
  Disposal-IsEnded laws r _ _ (again r' b sess found over is_r' is_b) =
      inr (sess, rw is_r' found, over)
  Disposal-IsEnded laws r _ _ (ended r' b sess found alive place is_r' is_b) = inr (
    record (with_state c sess disposed) { flow = flow; id = id; created_at = now },
    rw is_r' (
        ground (
          arith,
          open_read-written c flow id fs_file_session (disposed_file sess)
              (dispose_stack c now flow id r) fs_file_session,
          bytes_eq_refl fs_file_session,
          laws.decode-encode_info (with_state c sess disposed).info,
        )),
    refl,
  )

  -- A predicate that never fails, as those on the flow and on the name of the remote.
  abbrev pub IsTotal : Predicate → Type 0
  IsTotal p = (r : Store) (sess : Fs) → (b : Bool) × (p r sess ≡ ok b)

  matches-refused :
      (v : Predicate) (before ps : List Predicate) (r : Store) (sess : Fs)
      → All IsTotal before
      → v r sess ≡ ok false
      → matches (before ++ v ∷ ps) r sess ≡ ok false
  unfolding matches
  matches-refused v [] ps r sess _ h = ground (arith, h)
  matches-refused v (p ∷ before) ps r sess (total, others) h =
      let (b, told) = total r sess in
      ground (arith, told, matches-refused v before ps r sess others h)

  is_still_valid-disposed :
      (conf : Conf) (time : ℕ) (r : Store) (sess : Fs)
      → is_disposed sess.info.state ≡ true
      → is_still_valid c conf time r sess ≡ ok false
  unfolding is_still_valid is_not_expired is_expired is_expired_with_threshold
  is_still_valid-disposed conf time r sess over = ground (arith, over)

  find_by-refused :
      (time : ℕ) (opts : FindOpts) (expected : Bool) (r : Store) (sess : Fs)
      → find_plain c now r flow id ≡ ok sess
      → matches opts.predicates (delete_unexpected_files c time opts flow id r) sess ≡ ok false
      → (find_by c time opts expected flow id r).1 ≡ err no_such_session
  unfolding find_by find_plain read_session
  find_by-refused time opts expected r sess found refused = ground (arith, found, refused)

  IsEnded-find_by :
      (conf : Conf) (time : ℕ) (opts : FindOpts) (before ps : List Predicate) (expected : Bool)
      (r : Store)
      → All IsTotal before
      → opts.predicates ≡ (before ++ is_still_valid c conf time ∷ ps)
      → IsEnded r
      → (find_by c time opts expected flow id r).1 ≡ err no_such_session
  unfolding find_by find_plain
  IsEnded-find_by conf time opts before ps expected r total asked (inl missed) =
      ground (arith, missed)
  IsEnded-find_by conf time opts before ps expected r total asked (inr (sess, found, over)) =
      let r' = delete_unexpected_files c time opts flow id r in
      find_by-refused time opts expected r sess found (
        ap (λ l. matches l r' sess) asked
        ∙ matches-refused (is_still_valid c conf time) before ps r' sess total
            (is_still_valid-disposed conf time r' sess over))

  pub Disposal-others :
      (r r' : Store) (b : Bool) (f i k : Bytes)
      → Disposal r r' b
      → same flow (c.id_text id) f i ≡ false
      → open_read r'.storage f i k ≡ open_read r.storage f i k
  Disposal-others r _ _ f i k (nothing r' b missed is_r' is_b) other = rw is_r' refl
  Disposal-others r _ _ f i k (again r' b sess found over is_r' is_b) other = rw is_r' refl
  Disposal-others r _ _ f i k (ended r' b sess found alive place is_r' is_b) other = rw is_r' (
      open_read-written_other c flow id fs_file_session (disposed_file sess)
        (dispose_stack c now flow id r) f i k place other)

  Disposal-told :
      (r r' : Store) (b : Bool)
      → Disposal r r' b
      → b ≡ (was_disposed (find_plain c now r flow id) || has_connections c now r flow id)
  Disposal-told r _ _ (nothing r' b missed is_r' is_b) = ground (arith, missed)
  Disposal-told r _ _ (again r' b sess found over is_r' is_b) = ground (arith, found)
  Disposal-told r _ _ (ended r' b sess found alive place is_r' is_b) = ground (arith, found)

  -- With what is written read back: after `disposeBy` has succeeded, no search whose predicates have
  -- among them that the session is still valid, and before it only such as never fail (as those on
  -- the flow and on the name of the remote), finds the session, at any time; the files of all other
  -- sessions are as they were; and it has told whether the session was disposed already or had
  -- connections.
  pub find_by-dispose_by :
      CodecLaws c
      → (r r' : Store) (told : Bool) → dispose_by c now flow id r ≡ (r', ok told)
      → (conf : Conf) (time : ℕ) (opts : FindOpts) (before ps : List Predicate) (expected : Bool)
      → All IsTotal before
      → opts.predicates ≡ (before ++ is_still_valid c conf time ∷ ps)
      → (f i k : Bytes) → same flow (c.id_text id) f i ≡ false
      → ((find_by c time opts expected flow id r').1 ≡ err no_such_session)
        × (open_read r'.storage f i k ≡ open_read r.storage f i k)
        × (told ≡ (was_disposed (find_plain c now r flow id) || has_connections c now r flow id))
  find_by-dispose_by laws r r' told h conf time opts before ps expected total asked f i k other =
      let d = dispose_by-cases r r' told h in
      (
        IsEnded-find_by conf time opts before ps expected r' total asked
            (Disposal-IsEnded laws r r' told d),
        Disposal-others r r' told f i k d other,
        Disposal-told r r' told d,
      )
