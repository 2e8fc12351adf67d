-- ===== src/Service/Tests.antt =====
-- Runs at concrete inputs.
use bifroest.Prelude.{
  ◌≡◌, refl, Bool, true, [], ◌∷◌, Option, none, some, bytes_eq, codes, arith, ok, err, inl,
}
use bifroest.Prelude.Maps.{find, put}
use bifroest.Session.Files.{
  Opened, open_read, flow_dir, session_dir, set_session_dir, write, lookup,
}
use bifroest.Session.State.{new, authorized}
use bifroest.Session.Store.{Fs, Store, Conf}
use bifroest.Session.Fs.{
  save_info, save_last_accessed, notify_last_access, change_state, set_token, open_file, write_file,
  with_state,
}
use bifroest.Session.PublicKeys.{
  Key, KeyCodec, IsWritable, public_key_kind, has_public_key, add_public_key,
}
use bifroest.Session.Repository.{create}
use bifroest.Session.Repository.Created.{created_fs}
use bifroest.Session.Tests.Plain.{
  pair_text, read_pair, state_code, read_state, write_remote, read_remote, write_info, read_info,
  plain, joe, empty_store, ssh,
}
use bifroest.Authorization.Request.{
  Authorization, forbidden, granted, no_such_authorization, Authorizer, Request, Sessions, fresh,
  with_session,
}
use bifroest.Service.Handshake.{
  Context, offers, says, attempt, remember_key, resolve_authorization_and_session,
}
use bifroest.Service.Handshake.Remembered.{
  IsSound, nothing-IsSound, Answered, attempts, attempts-IsSound, resolve-remembers,
}

abbrev no_limits : Conf
no_limits = record { idle_timeout = 0; max_timeout = 0; max_connections = 0 }

unfoldable short_keys : KeyCodec
short_keys = record {
  encode_key = λ k. k.marshalled;
  decode_key = λ line. some (record { kind = codes "ed"; marshalled = line });
  hash_text = λ k. k.marshalled;
}

abbrev key_a : Key
key_a = record { kind = codes "ed"; marshalled = codes "a" }

key_a-IsWritable : IsWritable short_keys key_a
unfolding short_keys
key_a-IsWritable = record {
  decode-encode_key = refl;
  encode_key-InLine = (record { no_newline = omega arith; no_return = omega arith }, tt);
  encode_key-some = refl;
  encode_key-short = omega arith;
}

abbrev sessions : Sessions
sessions = record { codec = plain; key_codec = short_keys; conf = no_limits; now = 5; new_id = 1 }

abbrev one_session : Store
one_session = (create plain 5 ssh 1 joe (codes "key") empty_store).0

abbrev joe_session : Fs
joe_session = created_fs plain 5 ssh 1 joe

abbrev joe_granted : Authorization
joe_granted = granted (with_session (fresh none joe ssh) joe_session)

-- An authorizer that takes no keys and any password.
abbrev careless : Authorizer
careless = record {
  authorize_public_key = λ key req r. (r, ok (forbidden req.remote));
  authorize_password = λ password req r. (r, ok joe_granted);
  authorize_interactive = λ req r. (r, ok (forbidden req.remote));
  restore_from_session = λ clean sess r. (r, err no_such_authorization);
}

abbrev request : Request
request = record { remote = joe; validate = λ g. some true; prompt = λ flow. none }

abbrev any_key : Key → Option Bool
any_key key = some true

abbrev nothing : Context
nothing = record { authorization = none; handshake_key = none }

attempts-IsSound_example :
    IsSound careless any_key request
      (attempts careless any_key request (offers key_a ∷ []) (nothing, one_session)).0
    × Answered careless any_key request (
        attempt careless any_key request
          (says (codes "secret"))
          (attempts careless any_key request (offers key_a ∷ []) (nothing, one_session)))
attempts-IsSound_example =
    attempts-IsSound careless any_key request (offers key_a ∷ []) (says (codes "secret")) nothing
      one_session (nothing-IsSound careless any_key request)

-- The key that was offered first, and then the password.
abbrev after_handshake : Context
after_handshake = record { authorization = some joe_granted; handshake_key = some key_a }

abbrev noted_store : Store
noted_store = (notify_last_access plain 5 joe_session joe authorized one_session).0

noted_once :
    notify_last_access plain 5 joe_session joe authorized one_session
    ≡ (noted_store, ok (with_state plain joe_session authorized, new))
unfolding create save_info notify_last_access change_state set_token save_last_accessed open_file
    write_file open_read write set_session_dir session_dir flow_dir lookup find put bytes_eq plain
    read_info write_info read_remote write_remote read_pair pair_text read_state state_code
noted_once = refl

no_key_file :
    open_read noted_store.storage ssh (plain.id_text 1) (public_key_kind short_keys key_a)
    ≡ Opened.missing
unfolding public_key_kind short_keys create save_info notify_last_access change_state set_token
    save_last_accessed open_file write_file open_read write set_session_dir session_dir flow_dir
    lookup find put bytes_eq plain read_info write_info read_remote write_remote read_pair pair_text
    read_state state_code
no_key_file = refl

resolved_once : resolve_authorization_and_session sessions after_handshake joe one_session ≡ (
  (resolve_authorization_and_session sessions after_handshake joe one_session).0,
  ok (joe_granted, with_state plain joe_session authorized, new),
)
unfolding resolve_authorization_and_session remember_key add_public_key public_key_kind short_keys
    create save_info notify_last_access change_state set_token save_last_accessed open_file
    write_file open_read write set_session_dir session_dir flow_dir lookup find put bytes_eq plain
    read_info write_info read_remote write_remote read_pair pair_text read_state state_code
resolved_once = refl

resolve-remembers_example :
    has_public_key short_keys plain ssh 1 key_a
      (resolve_authorization_and_session sessions after_handshake joe one_session).0
    ≡ ok true
resolve-remembers_example =
    resolve-remembers sessions after_handshake joe joe_granted joe_session key_a refl refl refl
      key_a-IsWritable one_session noted_store
      (resolve_authorization_and_session sessions after_handshake joe one_session).0
      (with_state plain joe_session authorized) noted_once (inl no_key_file) resolved_once
