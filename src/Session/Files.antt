-- ===== src/Session/Files.antt =====
-- What `FsRepository` keeps on disk: a directory for each flow, in it one for each session, in that
-- the files of the session. Other things may stand there too. Of the calls to the system those fail
-- that must: what is missing cannot be opened, and nothing is made below a file.
pub mod Laws
use bifroest.Prelude.{
  ℕ, Bool, true, false, ◌&&◌, List, [], ◌∷◌, Option, none, some, Bytes, if◌then◌else◌,
}
use bifroest.Prelude.Maps.{Named, find, put, drop, retain}

-- A file, with the time of its last change.
pub record File : Type 0 where
  pub content : Bytes
  pub changed_at : ℕ

-- An entry of a session's directory.
pub data Entry : Type 0 where
  file : File → Entry
  folder : Entry

-- An entry of a flow's directory.
pub data FlowEntry : Type 0 where
  plain_file : FlowEntry
  directory : Named Entry → FlowEntry

-- An entry of the storage.
pub data RootEntry : Type 0 where
  root_file : RootEntry
  flow_directory : Named FlowEntry → RootEntry

abbrev pub Storage : Type 0
Storage = Named RootEntry

abbrev pub flow_of : Option RootEntry → Named FlowEntry
flow_of (some (flow_directory d)) = d
flow_of _ = []

abbrev pub session_of : Option FlowEntry → Named Entry
session_of (some (directory d)) = d
session_of _ = []

-- The directory of a flow, and that of a session; empty where there is none.
unfoldable pub flow_dir : Storage → Bytes → Named FlowEntry
flow_dir s flow = flow_of (find flow s)

unfoldable pub session_dir : Storage → Bytes → Bytes → Named Entry
unfolding flow_dir
session_dir s flow id = session_of (find id (flow_dir s flow))

unfoldable pub lookup : Storage → Bytes → Bytes → Bytes → Option Entry
unfolding session_dir
lookup s flow id kind = find kind (session_dir s flow id)

-- A directory stands there, or nothing, so that `os.MkdirAll` can make it.
abbrev pub flow_free : Option RootEntry → Bool
flow_free (some root_file) = false
flow_free _ = true

abbrev pub session_free : Option FlowEntry → Bool
session_free (some plain_file) = false
session_free _ = true

abbrev pub file_free : Option Entry → Bool
file_free (some folder) = false
file_free _ = true

-- What opening a file of a session gives; a file on the way to it is not the same as nothing.
pub data Opened : Type 0 where
  missing not_a_directory : Opened
  opened : Entry → Opened

unfoldable pub open_read : Storage → Bytes → Bytes → Bytes → Opened
unfolding flow_dir lookup
open_read s flow id kind =
    if flow_free (find flow s) && session_free (find id (flow_dir s flow))
    then elim (lookup s flow id kind) [ none ↦ missing | some e ↦ opened e ]
    else not_a_directory

unfoldable pub set_session_dir : Storage → Bytes → Bytes → Named Entry → Storage
unfolding flow_dir
set_session_dir s flow id d = put flow (flow_directory (put id (directory d) (flow_dir s flow))) s

-- A file is written in full; no storage where the system refuses.
unfoldable pub write : Storage → Bytes → Bytes → Bytes → File → Option Storage
unfolding set_session_dir session_dir flow_dir lookup
write s flow id kind f =
    if flow_free (find flow s)
      && session_free (find id (flow_dir s flow))
      && file_free (lookup s flow id kind)
    then some (set_session_dir s flow id (put kind (file f) (session_dir s flow id)))
    else none

abbrev pub set_flow_dir : Storage → Bytes → Named FlowEntry → Storage
set_flow_dir s flow d = elim (find flow s) [
  | some (flow_directory old) ↦ put flow (flow_directory d) s
  | _ ↦ s
]

-- `os.RemoveAll` of a session's directory.
unfoldable pub remove_session : Storage → Bytes → Bytes → Storage
unfolding flow_dir
remove_session s flow id = set_flow_dir s flow (drop id (flow_dir s flow))

-- `os.Remove` of a file of a session.
unfoldable pub remove_file : Storage → Bytes → Bytes → Bytes → Storage
unfolding set_session_dir session_dir flow_dir
remove_file s flow id kind = elim (find flow s) [
  | some (flow_directory fd) ↦ elim (find id fd) [
    | some (directory d) ↦ set_session_dir s flow id (drop kind d)
    | _ ↦ s
  ]
  | _ ↦ s
]
