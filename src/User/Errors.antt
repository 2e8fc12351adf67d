-- ===== src/User/Errors.antt =====
-- The errors of pkg/user: the `errors.New` values of etc-unix.go, etc-passwd.go, etc-group.go,
-- etc-shadow.go, and those that `fmt.Errorf` makes in etc-colon-entry.go.
use bifroest.Prelude.{ℕ}
use bifroest.Prelude

pub data EtcError : Type 0 where
  empty_user_name too_long_user_name illegal_user_name : EtcError
  empty_group_name too_long_group_name illegal_group_name : EtcError
  too_long_geocs illegal_geocs : EtcError
  empty_uid illegal_uid empty_gid illegal_gid : EtcError
  empty_home_dir too_long_home_dir illegal_home_dir : EtcError
  empty_shell too_long_shell illegal_shell : EtcError
  empty_password : EtcError
  empty_last_changed_at illegal_last_changed_at : EtcError
  illegal_minimum_age empty_maximum_age illegal_maximum_age : EtcError
  illegal_warn_age illegal_inactive_age illegal_expire_at illegal_unused : EtcError
  -- "illegal amount of columns; expected %d; but got: %d"
  illegal_columns : ℕ → ℕ → EtcError
  -- "cannot parse entry at %s:%d" and "cannot write at %v:%d"
  cannot_parse : ℕ → EtcError → EtcError
  cannot_write : ℕ → EtcError → EtcError
  -- an index out of the range of a slice: a panic in Go
  index_out_of_range : EtcError

abbrev pub Result : Type 0 → Type 0
Result = Prelude.Result EtcError
