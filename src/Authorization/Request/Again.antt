-- ===== src/Authorization/Request/Again.antt =====
-- Whoever comes again gets the session that was made for him.
use bifroest.Prelude.{
  ◌≡◌, refl, sym, ap, ◌∙◌, true, false, Bytes, is_empty, arith, Result-cases, inl, inr, Result, ok,
  err,
}
use bifroest.Session.Files.Laws.{same, bytes_eq_refl}
use bifroest.Session.Store.{
  SessionError, Remote, Fs, Store, CodecLaws, no_such_session, fs_file_last_accessed,
}
use bifroest.Session.Fs.{last_accessed_at, valid_until, limit}
use bifroest.Session.Predicates.{
  matches, is_flow, is_still_valid, is_not_expired, is_expired, is_expired_with_threshold,
  is_remote_name,
}
use bifroest.Session.Repository.{create}
use bifroest.Session.Repository.Created.{IsFree, created_fs, create_lem, find_by-create}
use bifroest.Session.Iterate.{is_flow_name, find_by_access_token}
use bifroest.Session.Iterate.Again.{after, open_read-after, find_by_access_token-created}
use bifroest.Authorization.Request.{
  AuthError, Sessions, own_sessions, create_session, ensure_session,
}

module _ (s : Sessions) (laws : CodecLaws s.codec) (flow : Bytes) (remote : Remote) (at : Bytes)
    (r : Store) (free : IsFree s.codec s.now flow s.new_id r)
    (some_token : is_empty at ≡ false) where
  abbrev new_fs : Fs
  new_fs = created_fs s.codec s.now flow s.new_id remote

  abbrev with_it : Store
  with_it = after s.codec laws s.now flow s.new_id remote at r free

  created-with_it : create s.codec s.now flow s.new_id remote at r ≡ (with_it, ok new_fs)
  created-with_it =
      create_lem s.codec s.now flow s.new_id remote r free at ∙ ground (arith, some_token)

  accessed_now : last_accessed_at s.codec with_it new_fs ≡ ok s.now
  accessed_now =
      ap (λ (q : Store × Result SessionError Fs). last_accessed_at s.codec q.0 new_fs)
        (sym created-with_it)
      ∙ (find_by-create s.codec s.now flow s.new_id remote r free laws at true).3

  -- What was just accessed is valid.
  valid_now : is_still_valid s.codec s.conf s.now with_it new_fs ≡ ok true
  unfolding is_still_valid is_not_expired is_expired is_expired_with_threshold valid_until limit
  valid_now = ground (arith, accessed_now)

  accepted : matches (own_sessions s flow remote).predicates with_it new_fs ≡ ok true
  unfolding matches is_flow is_remote_name
  accepted = ground (arith, valid_now, bytes_eq_refl flow, bytes_eq_refl remote.user)

  accessed-local :
      (sess : Fs)
      → same flow (s.codec.id_text s.new_id) sess.flow (s.codec.id_text sess.id) ≡ false
      → last_accessed_at s.codec with_it sess ≡ last_accessed_at s.codec r sess
  unfolding last_accessed_at
  accessed-local sess other = ground (
    arith,
    open_read-after s.codec laws s.now flow s.new_id remote at r free sess.flow
        (s.codec.id_text sess.id) fs_file_last_accessed other,
  )

  valid-local :
      (sess : Fs)
      → same flow (s.codec.id_text s.new_id) sess.flow (s.codec.id_text sess.id) ≡ false
      → is_still_valid s.codec s.conf s.now with_it sess
        ≡ is_still_valid s.codec s.conf s.now r sess
  unfolding is_still_valid is_not_expired is_expired is_expired_with_threshold valid_until
  valid-local sess other = elim (Result-cases (last_accessed_at s.codec r sess)) [
    | inl (lat, at_lat) ↦ ground (arith, accessed-local sess other, at_lat)
    | inr (e, fails) ↦ ground (arith, accessed-local sess other, fails)
  ]

  own-local :
      (sess : Fs)
      → same flow (s.codec.id_text s.new_id) sess.flow (s.codec.id_text sess.id) ≡ false
      → matches (own_sessions s flow remote).predicates with_it sess
        ≡ matches (own_sessions s flow remote).predicates r sess
  unfolding matches is_flow is_remote_name
  own-local sess other = ground (arith, valid-local sess other)

  -- Where nobody has a valid session of the flow and of the user with the token, the place for a new
  -- one is free and the token is not empty, a session is made; and who comes again at that time gets
  -- just this session, and nothing is changed.
  pub ensure_session-again :
      is_flow_name flow ≡ true
      → find_by_access_token s.codec s.now (own_sessions s flow remote) at r
        ≡ (r, err no_such_session)
      → let out = ensure_session s flow remote at r in
        (out.1 ≡ ok (created_fs s.codec s.now flow s.new_id remote))
        × (ensure_session s flow remote at out.0 ≡ out)
  unfolding ensure_session create_session
  ensure_session-again is_name missing =
      let first : ensure_session s flow remote at r ≡ (with_it, ok new_fs) =
        ground (arith, missing, created-with_it) in
      let again =
        find_by_access_token-created s.codec laws s.now flow s.new_id remote at r free is_name
          (own_sessions s flow remote) refl some_token own-local missing accepted in
      let second : ensure_session s flow remote at with_it ≡ (with_it, ok new_fs) =
        ground (arith, again) in
      (
        ap (λ q. q.1) first,
        ap (λ (q : Store × Result AuthError Fs). ensure_session s flow remote at q.0) first
            ∙ second
            ∙ sym first,
      )
