-- ===== src/User/Names.antt =====
-- pkg/user/etc-unix.go: what a name, a comment and a path of these files may hold.
pub mod Safe
use bifroest.Prelude.{
  ℕ, ◌+◌, ◌-◌, Bool, true, false, ◌&&◌, ◌||◌, List, [], ◌∷◌, Bytes, length, is_empty, ltb, leb,
  ◌==◌, bytes_eq, codes, if◌then◌else◌, ok, err, ◌>>=◌, ◌>>◌,
}
use bifroest.User.Errors.{
  EtcError, Result, empty_user_name, too_long_user_name, illegal_user_name, empty_group_name,
  too_long_group_name, illegal_group_name, too_long_geocs, illegal_geocs,
}

-- The bytes that a tolerated name may not hold: \ / : * ? " > < | ,
unfoldable pub is_reserved : ℕ → Bool
is_reserved c =
    c == b'\\'
    || c == b'/'
    || c == b':'
    || c == b'*'
    || c == b'?'
    || c == b'"'
    || c == b'>'
    || c == b'<'
    || c == b'|'
    || c == b','

-- The loop over `in`, `i` the index of its first byte.
bad_loop : ℕ → Bytes → EtcError → Result (Unit {0})
bad_loop i [] err_illegal = ok tt
bad_loop i (c ∷ cs) err_illegal =
    if i == 0 && (c == b'~' || c == b'-' || c == b'+')
    then err err_illegal
    else if ltb c 33
    then err err_illegal
    else if is_reserved c
    then err err_illegal
    else bad_loop (i + 1) cs err_illegal

is_dot : Bytes → Bool
is_dot (c ∷ []) = c == b'.'
is_dot _ = false

is_dot_dot : Bytes → Bool
is_dot_dot (c ∷ d ∷ []) = c == b'.' && d == b'.'
is_dot_dot _ = false

unfoldable pub validate_bad_unix_user : Bytes → EtcError → EtcError → EtcError → Result (Unit {0})
unfolding bad_loop is_dot is_dot_dot
validate_bad_unix_user name err_empty err_too_long err_illegal =
    if length name == 0
    then err err_empty
    else if ltb 32 (length name)
    then err err_too_long
    else if is_dot name
    then err err_illegal
    else if is_dot_dot name
    then err err_illegal
    else bad_loop 0 name err_illegal

-- `seen` is containsAtLeastOneNonNumeric, `n` the length of the whole name.
name_loop : ℕ → ℕ → Bool → Bytes → EtcError → Result (Unit {0})
name_loop i n seen [] err_illegal = if seen then ok tt else err err_illegal
name_loop i n seen (c ∷ cs) err_illegal =
    let non_numeric = name_loop (i + 1) n true cs err_illegal in
    let numeric = name_loop (i + 1) n seen cs err_illegal in
    if leb b'a' c && leb c b'z'
    then non_numeric
    else if leb b'A' c && leb c b'Z'
    then non_numeric
    else if leb b'0' c && leb c b'9'
    then numeric
    else if c == b'_' || c == b'.'
    then non_numeric
    else if ltb 0 i && c == b'-'
    then non_numeric
    else if i == n - 1 && c == b'$'
    then non_numeric
    else err err_illegal

unfoldable pub validate_unix_name : Bytes → EtcError → EtcError → EtcError → Result (Unit {0})
unfolding name_loop is_dot is_dot_dot
validate_unix_name name err_empty err_too_long err_illegal =
    if length name == 0
    then err err_empty
    else if ltb 32 (length name)
    then err err_too_long
    else if is_dot name
    then err err_illegal
    else if is_dot_dot name
    then err err_illegal
    else name_loop 0 (length name) false name err_illegal

unfoldable pub validate_user_name : Bytes → Bool → Result (Unit {0})
validate_user_name name allow_bad =
    if allow_bad
    then validate_bad_unix_user name empty_user_name too_long_user_name illegal_user_name
    else validate_unix_name name empty_user_name too_long_user_name illegal_user_name

unfoldable pub validate_group_name : Bytes → Bool → Result (Unit {0})
validate_group_name name allow_bad =
    if allow_bad
    then validate_bad_unix_user name empty_group_name too_long_group_name illegal_group_name
    else validate_unix_name name empty_group_name too_long_group_name illegal_group_name

-- The loop of `validateGeocs` and of `validateColonFilePathColumn`.
text_loop : Bytes → EtcError → Result (Unit {0})
text_loop [] err_illegal = ok tt
text_loop (c ∷ cs) err_illegal =
    if c == 0 || c == b':' || c == b'\n' then err err_illegal else text_loop cs err_illegal

unfoldable pub validate_geocs : Bytes → Result (Unit {0})
unfolding text_loop
validate_geocs geocs =
    if ltb 255 (length geocs) then err too_long_geocs else text_loop geocs illegal_geocs

unfoldable pub validate_colon_file_path_column :
    Bytes → EtcError → EtcError → EtcError → Result (Unit {0})
unfolding text_loop
validate_colon_file_path_column path err_empty err_too_long err_illegal =
    if length path == 0
    then err err_empty
    else if ltb 255 (length path)
    then err err_too_long
    else text_loop path err_illegal
