-- ===== src/Session/Repository/Created.antt =====
-- A session that `Create` has made.
use bifroest.Prelude.{
  ℕ, ◌≡◌, refl, Bool, false, [], ◌∷◌, none, some, Bytes, bytes_eq, is_empty, arith, Bool-cases, inl,
  inr, ok, if◌then◌else◌,
}
use bifroest.Prelude.Maps.{find, put}
use bifroest.Session.State.{new, unchanged}
use bifroest.Session.Files.{File, file, session_dir, lookup, open_read, Opened, opened, missing}
use bifroest.Session.Files.Laws.{IsPlace, open_read-IsPlace, bytes_eq_refl}
use bifroest.Session.Store.{
  Remote, Fs, Store, Codec, CodecLaws, fs_file_session, fs_file_last_accessed, fs_file_access_token,
}
use bifroest.Session.Fs.{
  save_info, save_last_accessed, change_state, notify_last_access, set_token, get_token,
  last_accessed_at, open_file,
}
use bifroest.Session.Fs.Written.{
  written, write_file_lem, open_read-written, session_dir-written, written-IsPlace,
}
use bifroest.Session.Predicates.{matches}
use bifroest.Session.Repository.{create, find_by, delete_unexpected_files, no_opts, read_session}

module _ (c : Codec) (now : ℕ) (flow : Bytes) (id : ℕ) where
  -- Nothing of the session is there yet.
  pub record IsFree (r : Store) : Type 0 where
    pub place : IsPlace r.storage flow (c.id_text id)
    pub empty : session_dir r.storage flow (c.id_text id) ≡ []

  abbrev pub created_fs : Remote → Fs
  created_fs remote = record {
    flow = flow;
    id = id;
    info = record { state = new; remote = remote };
    created_at = now;
  }

  abbrev pub info_file : Remote → File
  info_file remote = record {
    content = c.encode_info (record { state = new; remote = remote });
    changed_at = now;
  }

  abbrev pub access_file : Remote → File
  access_file remote = record { content = c.encode_access remote; changed_at = now }

  abbrev pub with_info : Remote → Store → Store
  with_info remote = written c flow id fs_file_session (info_file remote)

  abbrev pub with_access : Remote → Store → Store
  with_access remote r =
      written c flow id fs_file_last_accessed (access_file remote) (with_info remote r)

  abbrev pub with_token : Remote → Bytes → Store → Store
  with_token remote token r =
      written c flow id fs_file_access_token (record { content = token; changed_at = now })
        (with_access remote r)

  abbrev pub created : Remote → Bytes → Store → Store
  created remote token r =
      if is_empty token then with_access remote r else with_token remote token r

  session_dir-written_same :
      (kind : Bytes) (f : File) (r : Store)
      → session_dir (written c flow id kind f r).storage flow (c.id_text id)
        ≡ put kind (file f) (session_dir r.storage flow (c.id_text id))
  session_dir-written_same kind f r = ground (
    arith,
    session_dir-written c flow id kind f r flow (c.id_text id),
    bytes_eq_refl flow,
    bytes_eq_refl (c.id_text id),
  )

  module _ (remote : Remote) (r : Store) (free : IsFree r) where
    saved : save_info c now (created_fs remote) r ≡ (with_info remote r, ok tt)
    unfolding save_info lookup find
    saved =
        write_file_lem c flow id fs_file_session (info_file remote) r free.place
          (rw free.empty refl)

    session_file :
        open_read (with_info remote r).storage flow (c.id_text id) fs_file_session
        ≡ opened (file (info_file remote))
    session_file = ground (
      arith,
      open_read-written c flow id fs_file_session (info_file remote) r fs_file_session,
      bytes_eq_refl fs_file_session,
    )

    dir_saved :
        session_dir (with_info remote r).storage flow (c.id_text id)
        ≡ (fs_file_session, file (info_file remote)) ∷ []
    unfolding put
    dir_saved = rw (session_dir-written_same fs_file_session (info_file remote) r, free.empty) refl

    noted :
        notify_last_access c now (created_fs remote) remote unchanged (with_info remote r)
        ≡ (with_access remote r, ok (created_fs remote, new))
    unfolding notify_last_access change_state save_last_accessed open_file lookup find bytes_eq
    noted = ground (
      arith,
      session_file,
      write_file_lem c flow id fs_file_last_accessed (access_file remote) (with_info remote r)
          (written-IsPlace c flow id fs_file_session (info_file remote) r) (rw dir_saved refl),
    )

    dir_noted :
        session_dir (with_access remote r).storage flow (c.id_text id)
        ≡ (fs_file_session, file (info_file remote))
          ∷ (fs_file_last_accessed, file (access_file remote))
          ∷ []
    unfolding put bytes_eq
    dir_noted =
        rw
          (
            session_dir-written_same fs_file_last_accessed (access_file remote)
                (with_info remote r),
            dir_saved,
          )
          refl

    tokened :
        (token : Bytes)
        → is_empty token ≡ false
        → set_token c now (created_fs remote) token fs_file_access_token (with_access remote r)
          ≡ (with_token remote token r, ok tt)
    unfolding set_token lookup find bytes_eq
    tokened token some_token = rw some_token (
        write_file_lem c flow id fs_file_access_token (record { content = token; changed_at = now })
          (with_access remote r)
          (written-IsPlace c flow id fs_file_last_accessed (access_file remote)
            (with_info remote r))
          (rw dir_noted refl))

    pub create_lem :
        (token : Bytes)
        → create c now flow id remote token r ≡ (created remote token r, ok (created_fs remote))
    unfolding create
    create_lem token = elim (Bool-cases (is_empty token)) [
      | inl empty ↦ ground (arith, saved, noted, empty)
      | inr given ↦ ground (arith, saved, noted, given, tokened token given)
    ]

    pub created-IsPlace :
        (token : Bytes) → IsPlace (created remote token r).storage flow (c.id_text id)
    created-IsPlace token = elim (Bool-cases (is_empty token)) [
      | inl empty ↦ rw empty (
          written-IsPlace c flow id fs_file_last_accessed (access_file remote) (with_info remote r))
      | inr given ↦ rw given (
          written-IsPlace c flow id fs_file_access_token
            (record { content = token; changed_at = now }) (with_access remote r))
    ]

    dir_created :
        (token : Bytes)
        → session_dir (created remote token r).storage flow (c.id_text id)
          ≡ (fs_file_session, file (info_file remote))
            ∷ (fs_file_last_accessed, file (access_file remote))
            ∷ (if is_empty token
                then []
                else (fs_file_access_token, file (record { content = token; changed_at = now }))
                  ∷ [])
    unfolding put bytes_eq
    dir_created token = elim (Bool-cases (is_empty token)) [
      | inl empty ↦ rw empty dir_noted
      | inr given ↦
          rw
            (
              given,
              session_dir-written_same fs_file_access_token
                  (record { content = token; changed_at = now }) (with_access remote r),
              dir_noted,
            )
            refl
    ]

    pub opened_created :
        (token kind : Bytes)
        → open_read (created remote token r).storage flow (c.id_text id) kind
          ≡ (elim (find kind (
                (fs_file_session, file (info_file remote))
                ∷ (fs_file_last_accessed, file (access_file remote))
                ∷ (if is_empty token
                    then []
                    else (fs_file_access_token, file (record { content = token; changed_at = now }))
                      ∷ [])))
              as (λ _. Opened) [ none ↦ missing | some e ↦ opened e ])
    opened_created token kind = ground (
      arith,
      dir_created token,
      open_read-IsPlace (created remote token r).storage flow (c.id_text id) kind
          (created-IsPlace token),
    )

    -- With what is written read back, a session that `Create` made in a place where there was none is
    -- found again as it is in memory, new and of the same remote; its access token is the one that was
    -- given, none if that was empty; and its last access is the time of its creation.
    pub find_by-create :
        CodecLaws c
        → (token : Bytes) (expected : Bool)
        → let out = create c now flow id remote token r in
          (out.1 ≡ ok (created_fs remote))
          × (find_by c now no_opts expected flow id out.0 ≡ out)
          × (get_token c out.0 (created_fs remote) fs_file_access_token
              ≡ ok (if is_empty token then none else some token))
          × (last_accessed_at c out.0 (created_fs remote) ≡ ok now)
    unfolding find_by read_session get_token last_accessed_at find bytes_eq delete_unexpected_files
        matches
    find_by-create laws token expected = rw (create_lem token) (
      refl,
      ground (
        arith,
        opened_created token fs_file_session,
        laws.decode-encode_info (created_fs remote).info,
      ),
      ground (arith, opened_created token fs_file_access_token),
      ground (arith, opened_created token fs_file_last_accessed, laws.decode-encode_access remote),
    )
