-- ===== src/Session/Store.antt =====
-- The state of `FsRepository`, what a session is in memory, and what the code takes from elsewhere.
use bifroest.Prelude.{ℕ, ◌≡◌, Bool, Option, some, Bytes, codes}
use bifroest.Prelude
use bifroest.Prelude.Actions
use bifroest.Session.State.{State}
use bifroest.Session.Files.{Storage}

-- `net.Remote`: the name of a user, and the text of his host.
pub record Remote : Type 0 where
  pub user : Bytes
  pub host : Bytes

-- What `fsInfo` has in its file.
pub record Info : Type 0 where
  pub state : State
  pub remote : Remote

-- `fs`: a session that was created or read; a copy, which the file may outrun.
pub record Fs : Type 0 where
  pub flow : Bytes
  pub id : ℕ
  pub info : Info
  pub created_at : ℕ

-- `fsConnectionInterceptorStack`, as far as disposing a session needs it.
pub record Stack : Type 0 where
  pub active : ℕ
  pub disposed : Bool

-- `FsRepository`
pub record Store : Type 0 where
  pub storage : Storage
  pub stacks : Bytes → ℕ → Option Stack

pub data SessionError : Type 0 where
  no_such_session : SessionError
  -- `os.ErrNotExist`, and other refusals of the system
  missing not_a_directory not_writable : SessionError
  cannot_decode : SessionError
  -- No result: where in a file would be written is not modelled.
  unknown_offset : SessionError

abbrev pub Result : Type 0 → Type 0
Result = Prelude.Result SessionError

abbrev pub Action : Type 0 → Type 0
Action = Actions.Action Store SessionError

-- encoding/json on the two files, the texts of a UUID, and the test whether a text is
-- the base58 of a SHA-1.
pub record Codec : Type 0 where
  pub encode_info : Info → Bytes
  pub decode_info : Bytes → Option Info
  pub encode_access : Remote → Bytes
  pub decode_access : Bytes → Option Remote
  pub id_text : ℕ → Bytes
  pub parse_id : Bytes → Option ℕ
  pub is_hash : Bytes → Bool

-- What is written is read back, and different ids have different texts. For encoding/json this holds
-- where the texts of the remotes are valid UTF-8, as it writes other bytes as the replacement
-- character; such remotes are the ones that are meant.
pub record CodecLaws (c : Codec) : Type 0 where
  pub decode-encode_info : (i : Info) → c.decode_info (c.encode_info i) ≡ some i
  pub decode-encode_access : (r : Remote) → c.decode_access (c.encode_access r) ≡ some r
  pub parse-id_text : (id : ℕ) → c.parse_id (c.id_text id) ≡ some id

-- The durations of pkg/configuration/session-fs.go in milliseconds; 0 stands for no limit.
pub record Conf : Type 0 where
  pub idle_timeout : ℕ
  pub max_timeout : ℕ
  pub max_connections : ℕ

abbrev pub fs_file_session : Bytes
fs_file_session = codes "s"

abbrev pub fs_file_last_accessed : Bytes
fs_file_last_accessed = codes "la"

abbrev pub fs_file_access_token : Bytes
fs_file_access_token = codes "at"

abbrev pub fs_file_environment_token : Bytes
fs_file_environment_token = codes "et"

abbrev pub fs_file_public_keys_prefix : Bytes
fs_file_public_keys_prefix = codes "pk-"
