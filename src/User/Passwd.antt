-- ===== src/User/Passwd.antt =====
-- pkg/user/etc-passwd.go: the entries of the file passwd.
pub mod RoundTrip
use bifroest.Prelude.{
  ℕ, Bool, true, false, List, [], ◌∷◌, some, Bytes, codes, bytes_eq, if◌then◌else◌, ok, err, ◌>>=◌,
  ◌>>◌,
}
use bifroest.User.Errors.{
  Result, empty_uid, illegal_uid, empty_gid, illegal_gid, empty_home_dir, too_long_home_dir,
  illegal_home_dir, empty_shell, too_long_shell, illegal_shell, index_out_of_range,
}
use bifroest.User.Names.{validate_user_name, validate_geocs, validate_colon_file_path_column}
use bifroest.User.Columns.{parse_uint32_column, format_uint}
use bifroest.User.Value.{EtcColonEntryValue}

abbrev pub etc_passwd_colons : ℕ
etc_passwd_colons = 7

pub record EtcPasswdEntry : Type 0 where
  pub name : Bytes
  pub password : Bytes
  pub uid : ℕ
  pub gid : ℕ
  pub geocs : Bytes
  pub home_dir : Bytes
  pub shell : Bytes

-- `validatePassword`: a password is never checked against the mark of a shadowed one.
unfoldable pub validate_password : EtcPasswdEntry → Bytes → Bool
validate_password e pass =
    if bytes_eq e.password (codes "x") then false else bytes_eq e.password pass

unfoldable pub validate : EtcPasswdEntry → Bool → Result (Unit {0})
validate e allow_bad = do
  validate_user_name e.name allow_bad
  validate_geocs e.geocs
  validate_colon_file_path_column e.home_dir empty_home_dir too_long_home_dir illegal_home_dir
  validate_colon_file_path_column e.shell empty_shell too_long_shell illegal_shell

-- The numbers first, as the code reads them before it validates.
unfoldable pub decode : List Bytes → Bool → Result EtcPasswdEntry
decode (name ∷ password ∷ uid ∷ gid ∷ geocs ∷ home_dir ∷ shell ∷ []) allow_bad = do
  u ← parse_uint32_column uid (some empty_uid) illegal_uid
  g ← parse_uint32_column gid (some empty_gid) illegal_gid
  let e : EtcPasswdEntry = record {
    name = name;
    password = password;
    uid = u.0;
    gid = g.0;
    geocs = geocs;
    home_dir = home_dir;
    shell = shell;
  }
  validate e allow_bad
  ok e
decode _ allow_bad = err index_out_of_range

-- The columns of an entry.
abbrev pub columns : EtcPasswdEntry → List Bytes
columns e =
    e.name
    ∷ e.password
    ∷ format_uint e.uid
    ∷ format_uint e.gid
    ∷ e.geocs
    ∷ e.home_dir
    ∷ e.shell
    ∷ []

unfoldable pub encode : EtcPasswdEntry → Bool → Result (List Bytes)
encode e allow_bad = do validate e allow_bad; ok (columns e)

abbrev pub value : EtcColonEntryValue EtcPasswdEntry
value = record { decode = decode; encode = encode }
