-- ===== src/User/Repository/Options.antt =====
-- `EnsureOpts` of pkg/user/ensure.go and `DeleteOpts` of pkg/user/repository.go. Options that are
-- not given (nil) have their defaults.
use bifroest.Prelude.{Bool, true, Option, none, some}

pub data OnHomeDirExist : Type 0 where
  unknown fail takeover overwrite : OnHomeDirExist

pub record EnsureOpts : Type 0 where
  pub create_allowed : Option Bool
  pub modify_allowed : Option Bool
  pub home_dir : Option Bool
  pub on_home_dir_exist : OnHomeDirExist

abbrev or_true : Option Bool → Bool
or_true none = true
or_true (some b) = b

abbrev pub is_create_allowed : EnsureOpts → Bool
is_create_allowed o = or_true o.create_allowed

abbrev pub is_modify_allowed : EnsureOpts → Bool
is_modify_allowed o = or_true o.modify_allowed

abbrev pub is_home_dir : EnsureOpts → Bool
is_home_dir o = or_true o.home_dir

abbrev pub get_on_home_dir_exist : EnsureOpts → OnHomeDirExist
get_on_home_dir_exist o = elim o.on_home_dir_exist [ unknown ↦ overwrite | v ↦ v ]

pub data EnsureResult : Type 0 where
  unchanged modified created : EnsureResult

pub record DeleteOpts : Type 0 where
  pub home_dir : Option Bool
  pub kill_processes : Option Bool

abbrev pub is_delete_home_dir : DeleteOpts → Bool
is_delete_home_dir o = or_true o.home_dir

abbrev pub is_kill_processes : DeleteOpts → Bool
is_kill_processes o = or_true o.kill_processes
