-- ===== src/Session/Repository/Deleted.antt =====
-- A session that `deleteBy` has removed, and the others.
use bifroest.Prelude.{ℕ, ◌≡◌, sym, ap, Bool, true, false, Bytes, arith, inl, inr, ok, err}
use bifroest.Prelude.Actions.{step-eq-ok}
use bifroest.Prelude.Maps.{find}
use bifroest.Session.Files
use bifroest.Session.Files.{
  File, Entry, file, Storage, session_dir, lookup, file_free, flow_free, open_read, Opened, opened,
  remove_session,
}
use bifroest.Session.Files.Laws.{same, open_read-remove_session, open_read-remove_session_other}
use bifroest.Session.Store.{Store, no_such_session, Codec, CodecLaws, fs_file_session}
use bifroest.Session.Repository.{FindOpts, find_by, find_plain, dispose_by, delete_by}
use bifroest.Session.Repository.Disposed.{
  IsEnded, dispose_by-cases, Disposal-IsEnded, Disposal-others,
}

module _ (c : Codec) (now : ℕ) (flow : Bytes) (id : ℕ) where
  delete_by-eq-ok :
      (r r'' : Store)
      → delete_by c now flow id r ≡ (r'', ok tt)
      → (r' : Store) × (told : Bool) × (dispose_by c now flow id r ≡ (r', ok told))
        × (r'' ≡ record r' { storage = remove_session r'.storage flow (c.id_text id) })
  unfolding delete_by
  delete_by-eq-ok r r'' h =
      let (r', told, done, removed) =
        step-eq-ok
          (λ _ r'. (record r' { storage = remove_session r'.storage flow (c.id_text id) }, ok tt))
          r'' (dispose_by c now flow id) r tt h in
      (r', told, done, sym (ap (λ x. x.0) removed))

  found-flow_free : (r : Store) → IsEnded c now flow id r → flow_free (find flow r.storage) ≡ true
  unfolding find_plain open_read
  found-flow_free r (inl missed) = ground arith
  found-flow_free r (inr (sess, found, over)) = ground arith

  pub delete_by-missing :
      CodecLaws c
      → (r r'' : Store) → delete_by c now flow id r ≡ (r'', ok tt)
      → (kind : Bytes) → open_read r''.storage flow (c.id_text id) kind ≡ Files.missing
  delete_by-missing laws r r'' h kind =
      let (r', told, done, is_r'') = delete_by-eq-ok r r'' h in
      let d = dispose_by-cases c now flow id r r' told done in
      let free = found-flow_free r' (Disposal-IsEnded c now flow id laws r r' told d) in
      rw is_r'' (open_read-remove_session r'.storage flow (c.id_text id) kind free)

  -- With what is written read back: after `deleteBy` has succeeded, no file of the session can be
  -- opened, no search finds it, and the files of all other sessions are as they were.
  pub find_by-delete_by :
      CodecLaws c
      → (r r'' : Store) → delete_by c now flow id r ≡ (r'', ok tt)
      → (kind : Bytes) (time : ℕ) (opts : FindOpts) (expected : Bool) (f i k : Bytes)
      → same flow (c.id_text id) f i ≡ false
      → (open_read r''.storage flow (c.id_text id) kind ≡ Files.missing)
        × ((find_by c time opts expected flow id r'').1 ≡ err no_such_session)
        × (open_read r''.storage f i k ≡ open_read r.storage f i k)
  unfolding find_by
  find_by-delete_by laws r r'' h kind time opts expected f i k other =
      let (r', told, done, is_r'') = delete_by-eq-ok r r'' h in
      let d = dispose_by-cases c now flow id r r' told done in
      (
        delete_by-missing laws r r'' h kind,
        ground (arith, delete_by-missing laws r r'' h fs_file_session),
        rw (is_r'', open_read-remove_session_other r'.storage flow (c.id_text id) f i k other)
            (Disposal-others c now flow id r r' told f i k d other),
      )
