-- ===== src/Authorization/Simple/Restored.antt =====
-- What was authorized by a password is restored from its session.
use bifroest.Prelude.{
  ◌≡◌, refl, Bool, true, false, List, [], ◌∷◌, none, some, Bytes, bytes_eq, bytes_eq_iff, is_empty,
  if◌then◌else◌, ok, err, arith, Bool-cases, inl, inr,
}
use bifroest.Prelude.Actions.{pure, step_ok}
use bifroest.Session.Store.{Store, CodecLaws, no_such_session, fs_file_access_token}
use bifroest.Session.Fs.{get_token, last_accessed_at}
use bifroest.Session.Repository.Created.{IsFree, created, created_fs, create_lem, find_by-create}
use bifroest.Session.Iterate.{find_by_access_token}
use bifroest.Session.Files.Laws.{bytes_eq_refl}
use bifroest.Authorization.Request.{
  Granted, granted, Request, Sessions, fresh, with_session, own_sessions, create_session,
  ensure_session,
}
use bifroest.Authorization.Entry.{SimpleEntry}
use bifroest.Authorization.Simple.{
  Simple, first_entry, lookup_entry, check_password, with_password, authorize_password,
  ensure_session_for, restore_from_session, restore_token,
}
use bifroest.Authorization.Simple.Safe.{IsAdmitted}

-- The entries that are found by the name of an entry that is there.
first_entry-name :
    (test : SimpleEntry → Bool) (es : List SimpleEntry) (e : SimpleEntry)
    → first_entry test es ≡ some e
    → (e' : SimpleEntry) × (first_entry (λ x. bytes_eq x.name e.name) es ≡ some e')
      × (e'.name ≡ e.name)
unfolding first_entry
first_entry-name test [] e h = absurd (cc)
first_entry-name test (x ∷ es) e h = elim (Bool-cases (bytes_eq x.name e.name)) [
  | inl same ↦ (x, ground (arith, same), (bytes_eq_iff x.name e.name).0 same)
  | inr other ↦ elim (Bool-cases (test x)) [
    | inl here ↦ absurd (ground (arith, here, other, bytes_eq_refl x.name))
    | inr passed ↦
        let (e', found, named) = first_entry-name test es e (ground (arith, passed)) in
        (e', ground (arith, other, found), named)
  ]
]

module _ (s : Sessions) (this : Simple) (flow : Bytes) (req : Request) where
  -- JSON keeps the name of an entry.
  pub record IsKept (name : Bytes) : Type 0 where
    pub decode-encode_token :
        this.token.decode_token (this.token.encode_token name) ≡ some (name, [])
    pub some_token : is_empty (this.token.encode_token name) ≡ false

  -- The authorization of an entry, with the session that is made for it.
  abbrev pub with_new_session : SimpleEntry → Granted
  with_new_session entry =
      with_session (fresh (some entry.name) req.remote flow)
        (created_fs s.codec s.now flow s.new_id req.remote)

  abbrev pub store_after : SimpleEntry → Store → Store
  store_after entry r =
      created s.codec s.now flow s.new_id req.remote (this.token.encode_token entry.name) r

  module _ (r : Store) (free : IsFree s.codec s.now flow s.new_id r) (entry : SimpleEntry)
      (missing : find_by_access_token s.codec s.now
          (own_sessions s flow req.remote)
          (this.token.encode_token entry.name)
          r
        ≡ (r, err no_such_session)) where
    pub ensure_session_for-new :
        ensure_session_for s this flow req entry r
        ≡ (store_after entry r, ok (created_fs s.codec s.now flow s.new_id req.remote))
    unfolding ensure_session_for ensure_session create_session
    ensure_session_for-new = ground (
      arith,
      missing,
      create_lem s.codec s.now flow s.new_id req.remote r free (this.token.encode_token entry.name),
    )

    check_password-IsAdmitted :
        (password : Bytes)
        → IsAdmitted s this flow req password entry
        → check_password s this flow entry password ≡ ok true
    unfolding check_password
    check_password-IsAdmitted password admitted =
        ground (arith, admitted.configured, admitted.not_empty, admitted.matching)

    authorize_password-new :
        (password : Bytes)
        → IsAdmitted s this flow req password entry
        → authorize_password s this flow password req r
          ≡ (store_after entry r, ok (granted (with_new_session entry)))
    unfolding authorize_password lookup_entry with_password
    authorize_password-new password admitted = ground (
      arith,
      admitted.first,
      admitted.will_be_accepted,
      check_password-IsAdmitted password admitted,
      step_ok (ensure_session_for s this flow req entry)
          (λ sess. pure (granted (with_session (fresh (some entry.name) req.remote flow) sess))) r
          (store_after entry r) (created_fs s.codec s.now flow s.new_id req.remote)
          ensure_session_for-new,
    )

    -- The token and the last access of the session.
    stored :
        CodecLaws s.codec
        → (get_token s.codec
              (store_after entry r)
              (created_fs s.codec s.now flow s.new_id req.remote)
              fs_file_access_token
            ≡ ok (
                if is_empty (this.token.encode_token entry.name)
                then none
                else some (this.token.encode_token entry.name)))
          × (last_accessed_at s.codec
                (store_after entry r)
                (created_fs s.codec s.now flow s.new_id req.remote)
              ≡ ok s.now)
    stored laws =
        let out =
          find_by-create s.codec s.now flow s.new_id req.remote r free laws
            (this.token.encode_token entry.name) true in
        let done =
          create_lem s.codec s.now flow s.new_id req.remote r free
            (this.token.encode_token entry.name) in
        (ground (arith, done, out.2), ground (arith, done, out.3))

    restored :
        CodecLaws s.codec
        → IsKept entry.name
        → first_entry (λ e. this.equal_fold e.name req.remote.user) this.entries ≡ some entry
        → (auto_clean_up_allowed : Bool)
        → restore_from_session s this flow auto_clean_up_allowed
            (created_fs s.codec s.now flow s.new_id req.remote)
            (store_after entry r)
          ≡ (store_after entry r, ok (granted (with_new_session entry)))
    unfolding restore_from_session restore_token
    restored laws kept first auto_clean_up_allowed =
        let (e', found, named) =
          first_entry-name (λ e. this.equal_fold e.name req.remote.user) this.entries entry first in
        ground (
          arith,
          bytes_eq_refl flow,
          (stored laws).0,
          (stored laws).1,
          kept.some_token,
          kept.decode-encode_token,
          found,
          named,
        )

    -- Who is admitted by a password, and has no session of the flow with the token of his entry, is
    -- authorized, where the place for a new session is free and JSON keeps the name of the entry, with
    -- a new session; and restoring from that session changes nothing and gives just this authorization
    -- again.
    pub restore_from_session-authorize_password :
        CodecLaws s.codec
        → IsKept entry.name
        → (password : Bytes) → IsAdmitted s this flow req password entry
        → (auto_clean_up_allowed : Bool)
        → let out = authorize_password s this flow password req r in
          (out.1 ≡ ok (granted (with_new_session entry)))
          × (restore_from_session s this flow auto_clean_up_allowed
                (created_fs s.codec s.now flow s.new_id req.remote)
                out.0
              ≡ out)
    restore_from_session-authorize_password laws kept password admitted auto_clean_up_allowed =
        rw (authorize_password-new password admitted)
          (refl, restored laws kept admitted.first auto_clean_up_allowed)
