-- ===== src/Session/Repository/Broken.antt =====
-- Sessions whose file cannot be read as one.
use bifroest.Prelude.{ℕ, ◌≡◌, Bool, none, Bytes, arith, err}
use bifroest.Session.Files.{Entry, open_read, opened}
use bifroest.Session.Store.{Store, cannot_decode, Codec, fs_file_session}
use bifroest.Session.Repository.{
  FindOpts, find_by, find_plain, read_session, dispose_by, delete_by, dispose_stack, auto_clean,
}

module _ (c : Codec) (now : ℕ) (flow : Bytes) (id : ℕ) (r : Store) (e : Entry) where
  delete_by-broken :
      open_read r.storage flow (c.id_text id) fs_file_session ≡ opened e
      → read_session c now flow id e ≡ none
      → delete_by c now flow id r ≡ (dispose_stack c now flow id r, err cannot_decode)
  unfolding delete_by dispose_by find_plain
  delete_by-broken is_e broken = ground (arith, is_e, broken)

  -- Where the file of a session is there and does not decode, it cannot be deleted: `deleteBy` fails,
  -- so that a search, also one that is allowed to clean up, fails too and leaves all files in place.
  pub find_by-broken :
      open_read r.storage flow (c.id_text id) fs_file_session ≡ opened e
      → read_session c now flow id e ≡ none
      → (opts : FindOpts) (expected : Bool)
      → ((delete_by c now flow id r).1 ≡ err cannot_decode)
        × ((find_by c now opts expected flow id r).1 ≡ err cannot_decode)
        × ((find_by c now opts expected flow id r).0.storage ≡ r.storage)
  unfolding find_by auto_clean
  find_by-broken is_e broken opts expected =
      let deleted = delete_by-broken is_e broken in
      (ground (arith, deleted), ground (arith, is_e, broken), ground (arith, is_e, broken, deleted))
