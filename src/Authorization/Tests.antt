-- ===== src/Authorization/Tests.antt =====
-- Runs at concrete inputs.
use bifroest.Prelude.{
  ◌≡◌, ◌↔◌, ◌⊎◌, refl, ap, true, List, [], ◌∷◌, none, some, Bytes, bytes_eq, bytes_eq_iff, codes,
  is_empty, arith, ok, err, if◌then◌else◌, inl,
}
use bifroest.Prelude.Maps.{find}
use bifroest.Prelude.Segments
use bifroest.Session.Files.{session_dir, flow_dir}
use bifroest.Session.Store.{Conf, no_such_session}
use bifroest.Session.PublicKeys.{KeyCodec}
use bifroest.Session.Repository.Created.{IsFree, created_fs}
use bifroest.Session.Iterate.{find_by_access_token, is_flow_name}
use bifroest.Authorization.Request.Again.{ensure_session-again}
use bifroest.Session.Iterate.Searches.{first_found, find_by_access_token-first}
use bifroest.Session.Iterate.Candidates.{candidates, root_candidates}
use bifroest.Session.Tests.Plain.{plain, plain-CodecLaws, joe, ssh, empty_store}
use bifroest.Crypto.Passwords
use bifroest.Crypto.Passwords.{Bcrypt, BcryptLaws, Reading, compare_password}
use bifroest.Authorization.Request.{
  Granted, forbidden, granted, Request, Sessions, Authorizer, own_sessions, ensure_session,
  no_such_authorization,
}
use bifroest.Authorization.Entry.{SimpleEntry, get_password, ensure_password_file}
use bifroest.Authorization.Entry
use bifroest.User.Columns.{split_n, cons_first}
use bifroest.Authorization.Entry.Renewed
use bifroest.Authorization.Entry.Renewed.{IsFromFile, IsRenewed, ensure_password_file-IsUsable}
use bifroest.Authorization.Simple
use bifroest.Authorization.Simple.Restored
use bifroest.Authorization.Simple.{
  Simple, TokenCodec, simple_authorizer, authorize_password, restore_from_session,
}
use bifroest.Authorization.Simple.Safe.{IsAdmitted, IsLetIn, authorize-IsLetIn}
use bifroest.Authorization.Simple.Restored.{
  with_new_session, restore_from_session-authorize_password,
}
use bifroest.Authorization.Facade.{Facaded, facade_password}
use bifroest.Authorization.Facade.Chosen.{IsChosen, ask_each_iff}

abbrev open_hash : Bcrypt
open_hash = record {
  generate_from_password = λ salt password. some password;
  compare_hash_and_password = λ encoded password.
      if bytes_eq encoded password then Passwords.matched else Passwords.mismatched;
}

open_hash-BcryptLaws : BcryptLaws open_hash
open_hash-BcryptLaws = record {
  generates = λ salt password short. (password, refl);
  matches = λ salt password h made. ground (arith, made, bytes_eq_iff password password);
}

abbrev no_limits : Conf
no_limits = record { idle_timeout = 0; max_timeout = 0; max_connections = 0 }

abbrev short_keys : KeyCodec
short_keys = record {
  encode_key = λ k. k.marshalled;
  decode_key = λ line. some (record { kind = codes "ed"; marshalled = line });
  hash_text = λ k. k.marshalled;
}

abbrev sessions : Sessions
sessions = record { codec = plain; key_codec = short_keys; conf = no_limits; now = 5; new_id = 1 }

abbrev names_as_token : TokenCodec
names_as_token = record { encode_token = λ name. name; decode_token = λ text. some (text, []) }

abbrev joe_entry : SimpleEntry
joe_entry = record {
  name = codes "joe";
  authorized_keys = [];
  authorized_keys_file = [];
  password = codes "plain:secret";
  password_file = [];
  create_password_file_if_absent_of_type = none;
}

abbrev no_files : Bytes → Reading
no_files name = Passwords.not_exist

abbrev only_joe : Simple
only_joe = record {
  entries = joe_entry ∷ [];
  equal_fold = bytes_eq;
  password_files = no_files;
  key_files = λ name. none;
  bcrypt = open_hash;
  quoting = record { quote = λ s. s; unquote = λ s. some s };
  parse_public_key = λ text. none;
  token = names_as_token;
}

abbrev request : Request
request = record { remote = joe; validate = λ g. some true; prompt = λ flow. some (codes "secret") }

joe-IsAdmitted : IsAdmitted sessions only_joe ssh request (codes "secret") joe_entry
unfolding Simple.first_entry get_password compare_password Passwords.index_byte Passwords.parse_type
    Passwords.compare_type Segments.take Segments.skip bytes_eq
joe-IsAdmitted = record {
  first = refl;
  will_be_accepted = refl;
  expected = codes "plain:secret";
  configured = refl;
  not_empty = refl;
  matching = refl;
}

nothing-IsFree : IsFree plain 5 ssh 1 empty_store
unfolding plain session_dir flow_dir find
nothing-IsFree = record { place = record { flow_ok = refl; session_ok = refl }; empty = refl }

no_session :
    find_by_access_token plain 5 (own_sessions sessions ssh joe) (codes "joe") empty_store
    ≡ (empty_store, err no_such_session)
unfolding first_found candidates root_candidates
no_session =
    (find_by_access_token-first plain 5 (own_sessions sessions ssh joe) refl (codes "joe")
      short_keys (record { kind = []; marshalled = [] }) empty_store).0

joe-IsKept : Restored.IsKept sessions only_joe ssh request (codes "joe")
joe-IsKept = record { decode-encode_token = refl; some_token = refl }

restore_from_session-authorize_password_example :
    let out = authorize_password sessions only_joe ssh (codes "secret") request empty_store in
    (out.1 ≡ ok (granted (with_new_session sessions only_joe ssh request joe_entry)))
    × (restore_from_session sessions only_joe ssh true (created_fs plain 5 ssh 1 joe) out.0 ≡ out)
restore_from_session-authorize_password_example =
    restore_from_session-authorize_password sessions only_joe ssh request empty_store nothing-IsFree
      joe_entry no_session plain-CodecLaws joe-IsKept (codes "secret") joe-IsAdmitted true

abbrev joe_granted : Granted
joe_granted = with_new_session sessions only_joe ssh request joe_entry

joe_let_in : authorize_password sessions only_joe ssh (codes "secret") request empty_store ≡ (
  (authorize_password sessions only_joe ssh (codes "secret") request empty_store).0,
  ok (granted joe_granted),
)
joe_let_in =
    ap
      (λ out.
        ((authorize_password sessions only_joe ssh (codes "secret") request empty_store).0, out))
      (restore_from_session-authorize_password sessions only_joe ssh request empty_store
        nothing-IsFree joe_entry no_session plain-CodecLaws joe-IsKept (codes "secret")
        joe-IsAdmitted true).0

authorize-IsLetIn_example : IsLetIn sessions only_joe ssh request (codes "secret") joe_granted
authorize-IsLetIn_example =
    authorize-IsLetIn sessions only_joe ssh request (codes "secret") empty_store
      (authorize_password sessions only_joe ssh (codes "secret") request empty_store).0 joe_granted
      (inl joe_let_in)

-- A flow that refuses everybody before the one that lets joe in.
abbrev refusing : Authorizer
refusing = record {
  authorize_public_key = λ key req r. (r, ok (forbidden req.remote));
  authorize_password = λ password req r. (r, ok (forbidden req.remote));
  authorize_interactive = λ req r. (r, ok (forbidden req.remote));
  restore_from_session = λ clean sess r. (r, err no_such_authorization);
}

abbrev two_flows : List Facaded
two_flows =
    (record {
      authorizer = refusing;
      included_requesting_name = none;
      excluded_requesting_name = none;
    })
    ∷ (record {
      authorizer = simple_authorizer sessions only_joe ssh;
      included_requesting_name = none;
      excluded_requesting_name = some (λ name. is_empty name);
    })
    ∷ []

ask_each_iff_example :
    (facade_password two_flows (codes "secret") request empty_store ≡ (
      (authorize_password sessions only_joe ssh (codes "secret") request empty_store).0,
      ok (granted joe_granted),
    ))
    ↔ IsChosen
        (λ f. f.authorizer.authorize_password (codes "secret") request)
        request
        two_flows
        empty_store
        (authorize_password sessions only_joe ssh (codes "secret") request empty_store).0
        joe_granted
ask_each_iff_example =
    ask_each_iff (λ f. f.authorizer.authorize_password (codes "secret") request) request two_flows
      empty_store (authorize_password sessions only_joe ssh (codes "secret") request empty_store).0
      joe_granted

-- A file that is not valid: its text has no colon.
abbrev broken_files : Bytes → Reading
broken_files name = Passwords.content (codes "secret")

abbrev file_entry : SimpleEntry
file_entry = record {
  name = codes "joe";
  authorized_keys = [];
  authorized_keys_file = [];
  password = [];
  password_file = codes "pw";
  create_password_file_if_absent_of_type = some Passwords.plain;
}

abbrev zeros : Bytes
zeros = 0 ∷ 0 ∷ 0 ∷ 0 ∷ 0 ∷ 0 ∷ 0 ∷ 0 ∷ 0 ∷ 0 ∷ 0 ∷ 0 ∷ 0 ∷ 0 ∷ 0 ∷ 0 ∷ []

file_entry-IsFromFile : IsFromFile file_entry Passwords.plain
file_entry-IsFromFile = record {
  named = refl;
  no_password = refl;
  has_file = refl;
  of_type = refl;
  known = refl;
}

ensure_password_file-IsUsable_example :
    Renewed.IsKept open_hash open_hash-BcryptLaws zeros []
      (omega arith)
      file_entry
      Passwords.plain
      file_entry-IsFromFile
      broken_files
      (ensure_password_file open_hash zeros [] true file_entry broken_files)
    ⊎ IsRenewed open_hash open_hash-BcryptLaws zeros []
        (omega arith)
        file_entry
        Passwords.plain
        file_entry-IsFromFile
        broken_files
        (ensure_password_file open_hash zeros [] true file_entry broken_files)
ensure_password_file-IsUsable_example =
    ensure_password_file-IsUsable open_hash open_hash-BcryptLaws zeros [] (omega arith) file_entry
      Passwords.plain file_entry-IsFromFile broken_files

-- It is overwritten.
then_overwritten :
    (ensure_password_file open_hash zeros [] true file_entry broken_files).0 (codes "pw")
    ≡ Passwords.content (codes "plain:AAAAAAAAAAAAAAAAAAAAAA")
unfolding ensure_password_file Entry.renew_password Passwords.generate Passwords.encode_password
    Passwords.marshal_type Passwords.raw_base64 Passwords.digit64 Passwords.get_file_password
    Passwords.set_file_password Passwords.validate_password_text Passwords.parse_type split_n
    cons_first bytes_eq Segments.take
then_overwritten = refl

ssh_is_name : is_flow_name ssh ≡ true
unfolding is_flow_name
ssh_is_name = refl

ensure_session-again_example :
    let out = ensure_session sessions ssh joe (codes "joe") empty_store in
    (out.1 ≡ ok (created_fs plain 5 ssh 1 joe))
    × (ensure_session sessions ssh joe (codes "joe") out.0 ≡ out)
ensure_session-again_example =
    ensure_session-again sessions plain-CodecLaws ssh joe (codes "joe") empty_store nothing-IsFree
      refl ssh_is_name no_session
