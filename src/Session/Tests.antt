-- ===== src/Session/Tests.antt =====
-- Runs at concrete inputs.
pub mod Plain
use bifroest.Prelude.{
  inl, ltb, ◌||◌, ℕ, zero, suc, ◌≡◌, refl, Bool, true, false, List, [], ◌∷◌, ◌++◌, Option, none,
  some, Bytes, bytes_eq, codes, arith, map, ok, err, ◌⊎◌, ◌↔◌, ◌+◌, ◌≤◌, is_empty,
}
use bifroest.Prelude.Maps.{drop, find, put}
use bifroest.Session.State.{State, unchanged, new, authorized, disposed}
use bifroest.Session.Files.{
  remove_file, Opened, open_read, flow_dir, session_dir, set_session_dir, write, lookup,
}
use bifroest.Session.Files.Laws.{same}
use bifroest.Session.Store.{
  Remote, Info, Fs, Store, Codec, CodecLaws, Conf, Result, no_such_session, fs_file_access_token,
}
use bifroest.Session.Fs.{
  get_token, last_accessed_at, save_info, save_last_accessed, notify_last_access, change_state,
  set_token, open_file, write_file, with_state,
}
use bifroest.Session.Predicates.{is_flow, is_still_valid, is_expired_with_threshold}
use bifroest.Session.Predicates.Expiry.{IsOver, is_expired_with_threshold_iff}
use bifroest.Session.Repository.{
  FindOpts, no_opts, has_connections, create, find_by, find_plain, read_session, dispose_by,
  delete_by,
}
use bifroest.Session.Repository.Created.{IsFree, created_fs, find_by-create}
use bifroest.Session.Repository.Disposed.{was_disposed, find_by-dispose_by}
use bifroest.Session.Repository.Deleted.{find_by-delete_by}
use bifroest.Session.Repository.Noted.{notify_last_access_lem}
use bifroest.Session.Compare.{is_reader_equal_to_bytes, buf_l}
use bifroest.Session.Compare.Accepted.{IsAccepted, is_reader_equal_to_bytes_iff}
use bifroest.User.Colon.{drop_return}
use bifroest.Session.PublicKeys.{
  Key, KeyCodec, IsWritable, preserved, public_key_kind, add_public_key, has_public_key,
}
use bifroest.Session.PublicKeys.Added.{has_public_key-add_public_key}
use bifroest.Authorization.Request.{
  granted, no_such_authorization, fresh, with_session, dispose_granted, dispose_authorized,
}
use bifroest.Service.Housekeeper.{
  Others, dispose_environment, dispose_authorization, inspect_session,
}
use bifroest.Service.Housekeeper.Kept.{AreDisposed, inspect_session-disposed}
use bifroest.Session.Iterate.{find_all, find_by_access_token, find_by_public_key, has_access_token}
use bifroest.Session.Iterate.Candidates.{candidates}
use bifroest.Session.Iterate.Searches.{
  offer, first_found, find_all-offer, find_by_access_token-first,
}
use bifroest.Session.Interceptors.{
  World, Event, created, close, closed, initial, step, Reachable, at_first, after, start_create,
  finish_create, start_close, finish_close, registered_for, take_out, has_by_flow, unregister,
}
use bifroest.Session.Interceptors.Counted.{count, held, Reachable-active}
use bifroest.Session.Tests.Plain.{
  pair_text, read_pair, state_code, read_state, write_remote, read_remote, write_info, read_info,
  plain, plain-CodecLaws, joe, empty_store, ssh,
}

nothing-IsFree : IsFree plain 5 ssh 1 empty_store
unfolding plain session_dir flow_dir find
nothing-IsFree = record { place = record { flow_ok = refl; session_ok = refl }; empty = refl }

find_by-create_example :
    let out = create plain 5 ssh 1 joe (codes "key") empty_store in
    (out.1 ≡ ok (created_fs plain 5 ssh 1 joe))
    × (find_by plain 5 no_opts true ssh 1 out.0 ≡ out)
    × (get_token plain out.0 (created_fs plain 5 ssh 1 joe) fs_file_access_token
        ≡ ok (some (codes "key")))
    × (last_accessed_at plain out.0 (created_fs plain 5 ssh 1 joe) ≡ ok 5)
find_by-create_example =
    find_by-create plain 5 ssh 1 joe empty_store nothing-IsFree plain-CodecLaws (codes "key") true

abbrev one_session : Store
one_session = (create plain 5 ssh 1 joe (codes "key") empty_store).0

abbrev limits : Conf
limits = record { idle_timeout = 10; max_timeout = 0; max_connections = 1 }

not_the_same : same ssh (plain.id_text 1) ssh (2 ∷ []) ≡ false
unfolding plain bytes_eq
not_the_same = refl

abbrev valid_opts : FindOpts
valid_opts = record {
  predicates = is_flow ssh ∷ is_still_valid plain limits 6 ∷ [];
  auto_clean_up_allowed = some true;
}

disposed_once :
    dispose_by plain 9 ssh 1 one_session ≡ ((dispose_by plain 9 ssh 1 one_session).0, ok false)
unfolding dispose_by create find_plain read_session save_info notify_last_access change_state
    set_token save_last_accessed open_file write_file open_read write set_session_dir session_dir
    flow_dir lookup find put bytes_eq plain read_info write_info read_remote write_remote read_pair
    pair_text read_state state_code
disposed_once = refl

find_by-dispose_by_example :
    ((find_by plain 6 valid_opts true ssh 1 (dispose_by plain 9 ssh 1 one_session).0).1
      ≡ err no_such_session)
    × (open_read (dispose_by plain 9 ssh 1 one_session).0.storage ssh (2 ∷ []) (codes "s")
        ≡ open_read one_session.storage ssh (2 ∷ []) (codes "s"))
    × (false ≡ (
        was_disposed (find_plain plain 9 one_session ssh 1)
        || has_connections plain 9 one_session ssh 1))
unfolding is_flow
find_by-dispose_by_example =
    find_by-dispose_by plain 9 ssh 1 plain-CodecLaws one_session
      (dispose_by plain 9 ssh 1 one_session).0 false disposed_once limits 6 valid_opts
      (is_flow ssh ∷ []) [] true ((λ r sess. (bytes_eq sess.flow ssh, refl)), tt) refl ssh (2 ∷ [])
      (codes "s") not_the_same

deleted_once :
    delete_by plain 9 ssh 1 one_session ≡ ((delete_by plain 9 ssh 1 one_session).0, ok tt)
unfolding delete_by dispose_by create find_plain read_session save_info notify_last_access
    change_state set_token save_last_accessed open_file write_file open_read write set_session_dir
    session_dir flow_dir lookup find put bytes_eq plain read_info write_info read_remote
    write_remote read_pair pair_text read_state state_code
deleted_once = refl

find_by-delete_by_example :
    (open_read (delete_by plain 9 ssh 1 one_session).0.storage ssh (plain.id_text 1) (codes "s")
      ≡ Opened.missing)
    × ((find_by plain 6 no_opts true ssh 1 (delete_by plain 9 ssh 1 one_session).0).1
        ≡ err no_such_session)
    × (open_read (delete_by plain 9 ssh 1 one_session).0.storage ssh (2 ∷ []) (codes "s")
        ≡ open_read one_session.storage ssh (2 ∷ []) (codes "s"))
find_by-delete_by_example =
    find_by-delete_by plain 9 ssh 1 plain-CodecLaws one_session
      (delete_by plain 9 ssh 1 one_session).0 deleted_once (codes "s") 6 no_opts true ssh (2 ∷ [])
      (codes "s") not_the_same

-- The session was last accessed at 5, and may be idle for 10.
accessed_at_5 : last_accessed_at plain one_session (created_fs plain 5 ssh 1 joe) ≡ ok 5
accessed_at_5 =
    (find_by-create plain 5 ssh 1 joe empty_store nothing-IsFree plain-CodecLaws (codes "key")
      true).3

is_expired_with_threshold_iff_example :
    (is_expired_with_threshold plain limits 14 0 one_session (created_fs plain 5 ssh 1 joe)
      ≡ ok true)
    ↔ ((◌≡◌ {A = State} new disposed)
        ⊎ IsOver limits.idle_timeout 5 14
        ⊎ IsOver limits.max_timeout 5 14)
is_expired_with_threshold_iff_example =
    is_expired_with_threshold_iff plain limits 14 0 one_session (created_fs plain 5 ssh 1 joe) 5
      accessed_at_5

-- A session in memory that does not know that it was disposed.
abbrev disposed_store : Store
disposed_store = (dispose_by plain 9 ssh 1 one_session).0

noted_once :
    notify_last_access plain 12 (created_fs plain 5 ssh 1 joe) joe authorized disposed_store ≡ (
      (notify_last_access plain 12 (created_fs plain 5 ssh 1 joe) joe authorized disposed_store).0,
      ok (with_state plain (created_fs plain 5 ssh 1 joe) authorized, new),
    )
unfolding dispose_by create find_plain read_session save_info notify_last_access change_state
    set_token save_last_accessed open_file write_file open_read write set_session_dir session_dir
    flow_dir lookup find put bytes_eq plain read_info write_info read_remote write_remote read_pair
    pair_text read_state state_code
noted_once = refl

notify_last_access_lem_example :
    find_plain plain 12
      (notify_last_access plain 12 (created_fs plain 5 ssh 1 joe) joe authorized disposed_store).0
      ssh
      1
    ≡ ok (record (with_state plain (created_fs plain 5 ssh 1 joe) authorized) { created_at = 12 })
notify_last_access_lem_example =
    (notify_last_access_lem plain 12 (created_fs plain 5 ssh 1 joe) joe authorized plain-CodecLaws
      disposed_store
      (notify_last_access plain 12 (created_fs plain 5 ssh 1 joe) joe authorized disposed_store).0
      (with_state plain (created_fs plain 5 ssh 1 joe) authorized, new) noted_once ssh (2 ∷ [])
      (codes "s") not_the_same).2

is_reader_equal_to_bytes_iff_example :
    (is_reader_equal_to_bytes (codes "keys") (codes "key") ≡ true)
    ↔ IsAccepted buf_l (codes "keys") (codes "key")
is_reader_equal_to_bytes_iff_example = is_reader_equal_to_bytes_iff (codes "keys") (codes "key")

-- A consumer that keeps the ids and wants no more after two.
abbrev keep_ids : Fs → List ℕ → List ℕ × Result Bool
keep_ids sess ids = (sess.id ∷ ids, ok (is_empty ids))

find_all-offer_example : find_all plain 6 no_opts keep_ids (one_session, []) ≡ (
  (
    one_session,
    (offer plain 6 no_opts keep_ids one_session (candidates plain one_session.storage) []).0,
  ),
  (offer plain 6 no_opts keep_ids one_session (candidates plain one_session.storage) []).1,
)
find_all-offer_example = find_all-offer plain 6 no_opts refl keep_ids one_session []

-- The session as the housekeeper finds it after it was disposed.
abbrev ended_fs : Fs
ended_fs = record {
  flow = ssh;
  id = 1;
  info = record { state = disposed; remote = joe };
  created_at = 9;
}

-- No environment, and an authorizer that restores every session.
abbrev no_others : Others
no_others = record {
  find_environment = λ sess r. (r, ok none);
  authorizer = record {
    authorize_public_key = λ key req r. (r, err no_such_authorization);
    authorize_password = λ pass req r. (r, err no_such_authorization);
    authorize_interactive = λ req r. (r, err no_such_authorization);
    restore_from_session =
        λ clean sess r. (r, ok (granted (with_session (fresh none joe ssh) sess)));
  };
  dispose_authorized = dispose_authorized plain 10;
}

others-AreDisposed :
    AreDisposed plain 10 no_others limits 1000 ended_fs disposed_store ssh (2 ∷ []) (codes "s")
unfolding dispose_environment dispose_authorization dispose_authorized dispose_granted set_token
    remove_file drop dispose_by create find_plain read_session save_info notify_last_access
    change_state save_last_accessed open_file write_file open_read write set_session_dir session_dir
    flow_dir lookup find put bytes_eq plain read_info write_info read_remote write_remote read_pair
    pair_text read_state state_code
others-AreDisposed = record {
  told = false;
  environment = refl;
  same_session = refl;
  same_other = refl;
}

ended_found : find_plain plain 10 disposed_store ssh 1 ≡ ok ended_fs
unfolding dispose_by create find_plain read_session save_info notify_last_access change_state
    set_token save_last_accessed open_file write_file open_read write set_session_dir session_dir
    flow_dir lookup find put bytes_eq plain read_info write_info read_remote write_remote read_pair
    pair_text read_state state_code
ended_found = refl

inspect_session-disposed_example :
    (open_read
        (inspect_session plain 10 no_others limits 1000 ended_fs disposed_store).0.storage
        ssh
        (plain.id_text 1)
        (codes "s")
      ≡ Opened.missing)
    × (open_read
          (inspect_session plain 10 no_others limits 1000 ended_fs disposed_store).0.storage
          ssh
          (2 ∷ [])
          (codes "s")
        ≡ open_read disposed_store.storage ssh (2 ∷ []) (codes "s"))
    × ((inspect_session plain 10 no_others limits 1000 ended_fs disposed_store).1 ≡ ok true)
inspect_session-disposed_example =
    inspect_session-disposed plain 10 no_others limits 1000 ended_fs disposed_store plain-CodecLaws
      (codes "s") ssh (2 ∷ []) (codes "s") others-AreDisposed ended_found refl not_the_same

-- A codec of keys of one byte, for the runs.
short_keys : KeyCodec
short_keys = record {
  encode_key = λ k. k.marshalled;
  decode_key = λ line. some (record { kind = codes "ed"; marshalled = line });
  hash_text = λ k. k.marshalled;
}

abbrev key_a : Key
key_a = record { kind = codes "ed"; marshalled = codes "a" }

key_a-IsWritable : IsWritable short_keys key_a
unfolding short_keys
key_a-IsWritable = record {
  decode-encode_key = refl;
  encode_key-InLine = (record { no_newline = omega arith; no_return = omega arith }, tt);
  encode_key-some = refl;
  encode_key-short = omega arith;
}

added_once :
    add_public_key short_keys plain ssh 1 key_a 7 one_session
    ≡ ((add_public_key short_keys plain ssh 1 key_a 7 one_session).0, ok tt)
unfolding add_public_key public_key_kind short_keys create save_info notify_last_access change_state
    set_token save_last_accessed open_file write_file open_read write set_session_dir session_dir
    flow_dir lookup find put bytes_eq plain read_info write_info read_remote write_remote read_pair
    pair_text read_state state_code
added_once = refl

no_key :
    open_read one_session.storage ssh (plain.id_text 1) (public_key_kind short_keys key_a)
    ≡ Opened.missing
unfolding public_key_kind short_keys create save_info notify_last_access change_state set_token
    save_last_accessed open_file write_file open_read write set_session_dir session_dir flow_dir
    lookup find put bytes_eq plain read_info write_info read_remote write_remote read_pair pair_text
    read_state state_code
no_key = refl

abbrev key_b : Key
key_b = record { kind = codes "ed"; marshalled = codes "b" }

other_file : bytes_eq (public_key_kind short_keys key_a) (public_key_kind short_keys key_b) ≡ false
unfolding public_key_kind short_keys bytes_eq
other_file = refl

has_public_key-add_public_key_example :
    has_public_key short_keys plain ssh 1 key_a
      (add_public_key short_keys plain ssh 1 key_a 7 one_session).0
    ≡ ok true
has_public_key-add_public_key_example =
    (has_public_key-add_public_key short_keys key_a key_a-IsWritable plain ssh 1 7 one_session
      (add_public_key short_keys plain ssh 1 key_a 7 one_session).0 (inl no_key) added_once key_b
      other_file ssh (2 ∷ []) (codes "s") not_the_same).0

-- A file with another key: the key that is deleted stands in its place.
still_there : preserved short_keys key_a (codes "a" ∷ codes "b" ∷ []) ≡ ok (codes "a" ++ b'\n' ∷ [])
unfolding preserved short_keys drop_return bytes_eq
still_there = refl

find_by_access_token-first_example :
    (find_by_access_token plain 6 no_opts (codes "key") one_session ≡ (
      one_session,
      first_found plain 6 no_opts
          (λ r flow id. has_access_token plain 6 no_opts r flow id (codes "key"))
          one_session
          (candidates plain one_session.storage),
    ))
    × (find_by_public_key plain 6 no_opts short_keys key_a one_session ≡ (
      one_session,
      first_found plain 6 no_opts
          (λ r flow id. has_public_key short_keys plain flow id key_a r)
          one_session
          (candidates plain one_session.storage),
    ))
find_by_access_token-first_example =
    find_by_access_token-first plain 6 no_opts refl (codes "key") short_keys key_a one_session

-- A connection of the session is open.
abbrev run : ℕ → List Event → World → World
run max [] w = w
run max (e ∷ es) w = run max es (elim (step max e w) [ none ↦ w | some w' ↦ w' ])

abbrev one_open : World
one_open = run 1 (Event.create ssh 1 ∷ created ∷ []) initial

one_open-Reachable : Reachable 1 one_open
unfolding step start_create finish_create registered_for
one_open-Reachable =
    after created (run 1 (Event.create ssh 1 ∷ []) initial) one_open
      (after (Event.create ssh 1) initial (run 1 (Event.create ssh 1 ∷ []) initial)
        (at_first initial refl) refl)
      refl

Reachable-active_example :
    (one_open.active 0 ≡ count 0 one_open.open_ones + held 0 one_open.creating)
    × ((◌≡◌ {A = ℕ} 1 0) ⊎ (count 0 one_open.open_ones ≤ 1))
    × ((elim (take_out 0 one_open.open_ones) as (λ _. Bool) [
      | none ↦ true
      | some (k, others) ↦ ltb 0 (one_open.active k)
    ])
        ≡ true)
Reachable-active_example = Reachable-active 1 one_open 0 0 one_open-Reachable

-- A connection comes while the last one waits for the mutex to take its stack away.
abbrev overlapping : List Event
overlapping =
    Event.create ssh 1
    ∷ created
    ∷ close 0
    ∷ Event.create ssh 1
    ∷ created
    ∷ closed 0
    ∷ Event.create ssh 1
    ∷ created
    ∷ []

-- At a limit of one the session has two connections then, and a close ends in a panic.
two_open : (run 1 overlapping initial).open_ones ≡ 1 ∷ 0 ∷ []
unfolding step start_create finish_create start_close finish_close registered_for take_out
    has_by_flow unregister bytes_eq
two_open = refl

then_panicked :
    (run 1 (close 0 ∷ closed 0 ∷ close 0 ∷ closed 0 ∷ []) (run 1 overlapping initial)).panicked
    ≡ true
unfolding step start_create finish_create start_close finish_close registered_for take_out
    has_by_flow unregister bytes_eq
then_panicked = refl
