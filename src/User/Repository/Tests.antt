-- ===== src/User/Repository/Tests.antt =====
-- The theorems about the repository at a small system: root and jo, and the group wheel.
use bifroest.Prelude.{
  ℕ, ◌≤◌, ◌<◌, ◌≡◌, ◌≢◌, refl, true, false, ◌&&◌, List, [], ◌∷◌, ◌++◌, none, some, codes, bytes_eq,
  All, arith, ok, if◌then◌else◌, ◌==◌,
}
use bifroest.User.Columns.{
  u32_mod, split_n, split, join, parse_uint32_column, parse_uint, format_uint,
}
use bifroest.User.Passwd.{EtcPasswdEntry}
use bifroest.User.Group.{EtcGroupEntry}
use bifroest.User.Group.Members.{occurrences}
use bifroest.User.Shadow.{EtcShadowEntry}
use bifroest.User.Colon.{
  EtcColonEntry, decode_file, stays_in_place, scan_lines, decode_lines, decode_line, encode_file,
  encode_lines, encode_line,
}
use bifroest.User.Requirement.{
  GroupRequirement, Requirement, does_fulfil_ref, group_or_defaults, group_or_defaults_for_user,
  group_does_fulfil_ref, group_is_zero, or_defaults,
}
use bifroest.User.Repository.State.{Heap, kill, Repository}
use bifroest.User.Repository.Load.{
  follow_all, rebuild_indexes, open_and_load, load_passwd, load_group, load_shadow, allocate,
  load_groups_refs, load_shadows_refs, load_users_refs, index_user_names, save,
}
use bifroest.User.Repository.Load.Indexes
use bifroest.User.Repository.Load.Indexes.{
  latest, user_behind, group_behind, passwd_of, rebuild_indexes-latest,
}
use bifroest.User.Repository.Lookup.{
  group_of, Group, highest_uid, uid_round, next_uid, lookup_by_name, lookup_by_id,
  lookup_by_requirement, lookup_group_by_requirement, ref_to_user, ref_to_group,
  ref_and_groups_to_user, groups_of, next_gid, next_id, highest_gid, gid_round, User,
}
use bifroest.User.Repository.Lookup.Latest.{Shows, lookup-Shows}
use bifroest.User.Repository.Lookup.Fresh.{Avoids, next_uid-Avoids}
use bifroest.User.Repository.Options.{EnsureOpts, unknown, created}
use bifroest.User.Repository.HomeDir.{
  System, is_dir, Process, create_home_dir, make_home_dir, existing_home_dir_check, perform,
  kill_all_of,
}
use bifroest.User.Repository.HomeDir.Effects.{victims, kill_all_of-victims}
use bifroest.User.Repository.Groups.{
  ensure_group, ensure_group_by_requirement, update_group, ensure_groups, finish_group,
  create_group, pre_ensure_group, to_etc_group_entry, update_etc_group_entry,
}
use bifroest.User.Repository.Groups.Met.{Meets, ensure_group-Meets}
use bifroest.User.Repository.Accounts.{
  to_etc_passwd_entry, created_user, group_refs_of, to_etc_shadow_entry, for_each_group,
}
use bifroest.User.Repository.Ensure.{
  ensure, modify_user, ensure_locked, finish_user, create_user, ensure_pre_checks,
  is_requirement_fulfilled, has_groups, all_fulfilled, some_fulfilled,
}
use bifroest.User.Repository.Ensure.Frozen.{ensure-frozen}
use bifroest.User.Repository.Ensure.Create.{created_user-indexes}
use bifroest.User.Repository.Delete.{deleted_user}
use bifroest.User.Repository.Delete.Absent.{mem, deleted_user-id_to_user, deleted_user-members}
use bifroest.User.Names.{
  validate_user_name, validate_group_name, validate_bad_unix_user, validate_unix_name, is_reserved,
  validate_geocs, validate_colon_file_path_column,
}
use bifroest.User.Repository.Ensure.Promise.{IsGoodUser, ensure-IsAsRequired}
use bifroest.User.Passwd
use bifroest.User.Group
use bifroest.User.Shadow

abbrev root : EtcPasswdEntry
root = record {
  name = codes "root";
  password = codes "x";
  uid = 0;
  gid = 0;
  geocs = [];
  home_dir = codes "/root";
  shell = codes "/bin/sh";
}

abbrev jo : EtcPasswdEntry
jo = record {
  name = codes "jo";
  password = codes "x";
  uid = 1000;
  gid = 10;
  geocs = codes "Jo";
  home_dir = codes "/home/jo";
  shell = codes "/bin/sh";
}

abbrev wheel : EtcGroupEntry
wheel = record {
  name = codes "wheel";
  password = codes "x";
  gid = 10;
  user_names = codes "root" ∷ codes "jo" ∷ [];
}

abbrev shadow_of_jo : EtcShadowEntry
shadow_of_jo = record {
  name = codes "jo";
  password = codes "*";
  last_changed_at_in_days = 19000;
  minimum_age_in_days = 0;
  maximum_age_in_days = 99999;
  warn_age_in_days = 7;
  has_warn_age = true;
  inactive_age_in_days = 0;
  has_inactive_age = false;
  expire_at_ts_in_days = 0;
  has_expire = false;
}

abbrev at_address : ℕ → EtcColonEntry ℕ
at_address p = record { entry = some p; raw_line = [] }

abbrev second : EtcPasswdEntry → Heap EtcPasswdEntry
second e = record { next = 2; at = λ p. if p == 0 then root else e }

-- Root and a second user; the indexes are not built yet.
abbrev with_user : EtcPasswdEntry → Repository
with_user e = record {
  allow_bad_name = true;
  allow_bad_line = true;
  passwd_file = [];
  group_file = [];
  shadow_file = [];
  passwds = second e;
  groups = record { next = 1; at = λ p. wheel };
  shadows = record { next = 1; at = λ p. shadow_of_jo };
  passwd_entries = at_address 0 ∷ record { entry = none; raw_line = codes "#" } ∷ at_address 1 ∷ [];
  group_entries = at_address 0 ∷ [];
  shadow_entries = at_address 0 ∷ [];
  name_to_user = λ _. none;
  id_to_user = λ _. none;
  name_to_group = λ _. none;
  id_to_group = λ _. none;
  username_to_groups = λ _. none;
  effects = [];
}

abbrev disk : Repository
disk = with_user jo

rebuild_indexes-latest_example :
    (user_behind disk.passwds ((rebuild_indexes disk).name_to_user (codes "jo"))
      ≡ latest (λ e. bytes_eq e.name (codes "jo")) (passwd_of disk))
    × (user_behind disk.passwds ((rebuild_indexes disk).id_to_user 10)
        ≡ latest (λ e. e.uid == 10) (passwd_of disk))
    × (group_behind disk.groups ((rebuild_indexes disk).name_to_group (codes "jo"))
        ≡ latest (λ e. bytes_eq e.name (codes "jo")) (Indexes.group_of disk))
    × (group_behind disk.groups ((rebuild_indexes disk).id_to_group 10)
        ≡ latest (λ e. e.gid == 10) (Indexes.group_of disk))
rebuild_indexes-latest_example = rebuild_indexes-latest disk (codes "jo") 10

lookup-Shows_example :
    Shows
      (latest (λ e. bytes_eq e.name (codes "jo")) (passwd_of disk))
      (lookup_by_name (rebuild_indexes disk) (codes "jo"))
    × Shows (latest (λ e. e.uid == 7) (passwd_of disk)) (lookup_by_id (rebuild_indexes disk) 7)
lookup-Shows_example = lookup-Shows disk (codes "jo") 7

highest_of_disk : highest_uid 0 (follow_all disk.passwds disk.passwd_entries) ≡ 1000
unfolding highest_uid uid_round follow_all
highest_of_disk = refl

next_uid-Avoids_example :
    All (Avoids (next_uid disk)) (follow_all disk.passwds disk.passwd_entries)
    × (1000 ≤ next_uid disk)
    × (next_uid disk ≢ 65534)
    × (next_uid disk < u32_mod)
next_uid-Avoids_example = next_uid-Avoids disk (omega (arith, highest_of_disk))

-- A user with the largest id.
abbrev full : Repository
full = with_user (record jo { uid = 4294967295 })

highest_of_full : highest_uid 0 (follow_all full.passwds full.passwd_entries) ≡ 4294967295
unfolding highest_uid uid_round follow_all
highest_of_full = refl

deleted_user-id_to_user_example :
    user_behind disk.passwds ((rebuild_indexes (deleted_user disk jo)).id_to_user 0)
    ≡ (if jo.uid == 0 then none else user_behind disk.passwds ((rebuild_indexes disk).id_to_user 0))
deleted_user-id_to_user_example = deleted_user-id_to_user disk jo 0

deleted_user-members_example :
    occurrences (codes "root") ((deleted_user (rebuild_indexes disk) jo).groups.at 0).user_names ≡ (
      if mem 0 (group_refs_of (rebuild_indexes disk) jo.name) && bytes_eq jo.name (codes "root")
      then 0
      else occurrences (codes "root") ((rebuild_indexes disk).groups.at 0).user_names)
deleted_user-members_example = deleted_user-members (rebuild_indexes disk) jo (codes "root") 0

abbrev wanted : Requirement
wanted = record {
  name = codes "jo";
  display_name = codes "Jo";
  uid = none;
  group = record { gid = none; name = codes "wheel" };
  groups = [];
  shell = codes "/bin/sh";
  home_dir = codes "/home/jo";
  skel = [];
}

abbrev defaults : EnsureOpts
defaults = record {
  create_allowed = none;
  modify_allowed = none;
  home_dir = none;
  on_home_dir_exist = unknown;
}

-- Nothing fails, a directory stands at every path, and two processes run.
abbrev machine : System
machine = record {
  answer = λ _ _. none;
  stat = λ _ _. is_dir;
  processes = λ _. ok (
      record { pid = 7; uids = ok (1000 ∷ 1000 ∷ []) }
      ∷ record { pid = 8; uids = ok (0 ∷ 1000 ∷ []) }
      ∷ []);
}

abbrev wheel_group : Group
wheel_group = record { gid = 10; name = codes "wheel" }

abbrev al : EtcPasswdEntry
al = record jo { name = codes "al"; uid = 1001 }

created_user-indexes_example :
    (user_behind
        (created_user disk al shadow_of_jo (0 ∷ [])).passwds
        ((rebuild_indexes (created_user disk al shadow_of_jo (0 ∷ []))).name_to_user (codes "al"))
      ≡ some al)
    × (user_behind
          (created_user disk al shadow_of_jo (0 ∷ [])).passwds
          ((rebuild_indexes (created_user disk al shadow_of_jo (0 ∷ []))).id_to_user 1001)
        ≡ some al)
    × (user_behind
          (created_user disk al shadow_of_jo (0 ∷ [])).passwds
          ((created_user disk al shadow_of_jo (0 ∷ [])).id_to_user 10)
        ≡ some al)
    × (user_behind
          (created_user disk al shadow_of_jo (0 ∷ [])).passwds
          ((created_user disk al shadow_of_jo (0 ∷ [])).id_to_user al.uid)
        ≡ (if al.gid == al.uid
            then some al
            else user_behind
                (created_user disk al shadow_of_jo (0 ∷ [])).passwds
                (disk.id_to_user al.uid)))
created_user-indexes_example = created_user-indexes disk al shadow_of_jo (0 ∷ [])

abbrev staff : GroupRequirement
staff = record { gid = some 50; name = codes "staff" }

staff_named : group_or_defaults_for_user staff none ≡ staff
unfolding group_or_defaults_for_user group_or_defaults
staff_named = refl

ensure_group-Meets_example :
    Meets (group_or_defaults_for_user staff none) disk (ensure_group none staff defaults disk)
ensure_group-Meets_example =
    ensure_group-Meets none staff defaults disk refl refl (rw staff_named refl)

abbrev known_disk : Repository
known_disk = record disk { id_to_group = λ _. some 0 }

abbrev two_processes : List Process
two_processes =
    record { pid = 7; uids = ok (1000 ∷ 1000 ∷ []) }
    ∷ record { pid = 8; uids = ok (0 ∷ 1000 ∷ []) }
    ∷ []

kill_all_of-victims_example :
    kill_all_of machine 1000 disk
    ≡ (record disk { effects = disk.effects ++ victims 1000 two_processes }, ok tt)
kill_all_of-victims_example =
    kill_all_of-victims machine (λ es e. refl) 1000 two_processes disk refl
      ((1000 ∷ 1000 ∷ [], refl), ((0 ∷ 1000 ∷ [], refl), tt))

-- Only the process that runs as the user is killed.
one_victim : victims 1000 two_processes ≡ kill 7 ∷ []
unfolding victims
one_victim = refl

abbrev only_create : EnsureOpts
only_create = record defaults { modify_allowed = some false }

ensure-frozen_example :
    ((ensure machine 20000 wanted only_create disk).0 ≡ disk)
    × ((ensure_group_by_requirement staff only_create disk).0 ≡ disk)
ensure-frozen_example = ensure-frozen disk only_create refl machine 20000 wanted staff

-- A machine whose files are empty.
abbrev fresh : Repository
fresh = record disk {
  passwd_file = [];
  group_file = [];
  shadow_file = [];
  passwd_entries = [];
  group_entries = [];
  shadow_entries = [];
}

abbrev wanted_in_wheel : Requirement
wanted_in_wheel = record wanted { groups = record { gid = none; name = codes "wheel" } ∷ [] }

abbrev new_wheel : Group
new_wheel = record { gid = 1000; name = codes "wheel" }

abbrev new_user : User
new_user = record {
  name = codes "jo";
  display_name = codes "Jo";
  uid = 1000;
  group = new_wheel;
  groups = new_wheel ∷ [];
  shell = codes "/bin/sh";
  home_dir = codes "/home/jo";
}

-- What the run below computes with.
running : Unit {0}
unfolding bytes_eq ensure ensure_locked finish_user create_user modify_user ensure_pre_checks
    is_requirement_fulfilled has_groups all_fulfilled some_fulfilled lookup_by_requirement
    lookup_group_by_requirement open_and_load load_passwd load_group load_shadow allocate follow_all
    rebuild_indexes load_groups_refs load_shadows_refs load_users_refs index_user_names save
    ensure_group ensure_groups finish_group create_group update_group pre_ensure_group
    to_etc_group_entry update_etc_group_entry group_or_defaults group_or_defaults_for_user
    group_does_fulfil_ref group_is_zero does_fulfil_ref or_defaults ref_to_user ref_to_group
    ref_and_groups_to_user group_of groups_of group_refs_of to_etc_passwd_entry to_etc_shadow_entry
    for_each_group next_uid next_gid next_id highest_uid highest_gid uid_round gid_round
    create_home_dir make_home_dir existing_home_dir_check perform decode_file stays_in_place
    scan_lines decode_lines decode_line split_n split join encode_file encode_lines encode_line
    validate_user_name validate_group_name validate_bad_unix_user validate_unix_name is_reserved
    validate_geocs validate_colon_file_path_column parse_uint32_column parse_uint format_uint
    Passwd.decode Passwd.validate Passwd.encode Group.decode Group.encode Group.validate
    Group.validate_user_names Shadow.decode Shadow.encode Shadow.validate Shadow.optional
running = tt

creates : (ensure machine 20000 wanted_in_wheel defaults fresh).1 ≡ ok (new_user, created)
unfolding running
creates = refl

ensure-IsAsRequired_example : IsGoodUser (or_defaults wanted_in_wheel) new_user
ensure-IsAsRequired_example =
    ensure-IsAsRequired machine 20000 wanted_in_wheel defaults fresh new_user created creates
