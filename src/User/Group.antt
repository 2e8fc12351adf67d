-- ===== src/User/Group.antt =====
-- pkg/user/etc-group.go: the entries of the file group.
pub mod RoundTrip
pub mod Members
use bifroest.Prelude.{
  ℕ, Bool, true, false, List, [], ◌∷◌, ◌++◌, some, Bytes, bytes_eq, is_empty, if◌then◌else◌, ok,
  err, ◌>>=◌, ◌>>◌,
}
use bifroest.User.Errors.{Result, empty_gid, illegal_gid, index_out_of_range}
use bifroest.User.Names.{validate_user_name, validate_group_name}
use bifroest.User.Columns.{parse_uint32_column, format_uint, split, join}
use bifroest.User.Value.{EtcColonEntryValue}

abbrev pub etc_group_colons : ℕ
etc_group_colons = 4

pub record EtcGroupEntry : Type 0 where
  pub name : Bytes
  pub password : Bytes
  pub gid : ℕ
  pub user_names : List Bytes

-- The loop over `userNames` in `validate`.
unfoldable pub validate_user_names : List Bytes → Bool → Result (Unit {0})
validate_user_names [] allow_bad = ok tt
validate_user_names (n ∷ ns) allow_bad = do
  validate_user_name n allow_bad
  validate_user_names ns allow_bad

unfoldable pub validate : EtcGroupEntry → Bool → Result (Unit {0})
validate e allow_bad = do
  validate_group_name e.name allow_bad
  validate_user_names e.user_names allow_bad

unfoldable pub decode : List Bytes → Bool → Result EtcGroupEntry
decode (name ∷ password ∷ gid ∷ users ∷ []) allow_bad = do
  g ← parse_uint32_column gid (some empty_gid) illegal_gid
  let e : EtcGroupEntry = record {
    name = name;
    password = password;
    gid = g.0;
    user_names = if is_empty users then [] else split b',' users;
  }
  validate e allow_bad
  ok e
decode _ allow_bad = err index_out_of_range

-- The columns of an entry.
abbrev pub columns : EtcGroupEntry → List Bytes
columns e = e.name ∷ e.password ∷ format_uint e.gid ∷ join b',' e.user_names ∷ []

unfoldable pub encode : EtcGroupEntry → Bool → Result (List Bytes)
encode e allow_bad = do validate e allow_bad; ok (columns e)

abbrev pub value : EtcColonEntryValue EtcGroupEntry
value = record { decode = decode; encode = encode }

-- `slices.ContainsFunc` with `bytes.Equal`.
unfoldable pub contains : List Bytes → Bytes → Bool
contains [] username = false
contains (n ∷ ns) username = if bytes_eq n username then true else contains ns username

-- `slices.DeleteFunc` with `bytes.Equal`: every occurrence goes.
unfoldable pub delete_all : List Bytes → Bytes → List Bytes
delete_all [] username = []
delete_all (n ∷ ns) username =
    let rest = delete_all ns username in if bytes_eq n username then rest else n ∷ rest

unfoldable pub add_unique_user_name : EtcGroupEntry → Bytes → EtcGroupEntry
unfolding contains
add_unique_user_name e username =
    if contains e.user_names username
    then e
    else record e { user_names = e.user_names ++ username ∷ [] }

unfoldable pub remove_user_name : EtcGroupEntry → Bytes → EtcGroupEntry
unfolding delete_all
remove_user_name e username = record e { user_names = delete_all e.user_names username }
