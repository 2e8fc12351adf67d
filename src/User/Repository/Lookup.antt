-- ===== src/User/Repository/Lookup.antt =====
-- The lookups, `ValidatePasswordBy…`, and the ids for new users and groups.
pub mod Latest
pub mod Fresh
use bifroest.Prelude.{
  ℕ, ◌+◌, ◌%◌, Bool, true, false, ◌&&◌, List, [], ◌∷◌, map, Option, none, some, Bytes, codes,
  bytes_eq, is_empty, ltb, ◌==◌, if◌then◌else◌, ok, err,
}
use bifroest.Prelude
use bifroest.User.Columns.{u32_mod}
use bifroest.User.Requirement.{GroupRequirement, Requirement, g_name}
use bifroest.User.Passwd
use bifroest.User.Passwd.{EtcPasswdEntry}
use bifroest.User.Group.{EtcGroupEntry}
use bifroest.User.Shadow
use bifroest.User.Colon.{EtcColonEntry}
use bifroest.User.Repository.State.{
  Heap, EtcPasswdRef, Repository, RepositoryError, no_such_user, no_such_group, system_failure,
  Result,
}
use bifroest.User.Repository.Load.{follow_all}

-- pkg/user/group_unix.go and pkg/user/user_unix.go
pub record Group : Type 0 where
  pub gid : ℕ
  pub name : Bytes

pub record User : Type 0 where
  pub name : Bytes
  pub display_name : Bytes
  pub uid : ℕ
  pub group : Group
  pub groups : List Group
  pub shell : Bytes
  pub home_dir : Bytes

unfoldable pub ref_to_group : Repository → ℕ → Group
ref_to_group r p = record { gid = (r.groups.at p).gid; name = (r.groups.at p).name }

unfoldable pub ref_and_groups_to_user : Repository → EtcPasswdRef → Group → List Group → User
ref_and_groups_to_user r ref group groups =
    let e = r.passwds.at ref.passwd in
    record {
      name = e.name;
      display_name = e.geocs;
      uid = e.uid;
      group = group;
      groups = groups;
      shell = e.shell;
      home_dir = e.home_dir;
    }

-- A group id that no group has gets a name made of it.
unfoldable pub group_of : Repository → ℕ → Group
unfolding ref_to_group
group_of r gid = elim (r.id_to_group gid) [
  | none ↦ record { gid = gid; name = g_name gid }
  | some p ↦ ref_to_group r p
]

unfoldable pub groups_of : Repository → Bytes → List Group
unfolding ref_to_group
groups_of r name = elim (r.username_to_groups name) [
  | none ↦ []
  | some ps ↦ map (ref_to_group r) ps
]

unfoldable pub ref_to_user : Repository → EtcPasswdRef → User
unfolding ref_and_groups_to_user group_of groups_of
ref_to_user r ref =
    let e = r.passwds.at ref.passwd in
    ref_and_groups_to_user r ref (group_of r e.gid) (groups_of r e.name)

abbrev pub select_user : Option EtcPasswdRef → Result EtcPasswdRef
select_user none = err no_such_user
select_user (some ref) = ok ref

abbrev pub select_group : Option ℕ → Result ℕ
select_group none = err no_such_group
select_group (some p) = ok p

unfoldable pub lookup_by_name : Repository → Bytes → Result User
lookup_by_name r name = elim (select_user (r.name_to_user name)) [
  | err e ↦ err e
  | ok ref ↦ ok (ref_to_user r ref)
]

unfoldable pub lookup_by_id : Repository → ℕ → Result User
lookup_by_id r id = elim (select_user (r.id_to_user id)) [
  | err e ↦ err e
  | ok ref ↦ ok (ref_to_user r ref)
]

unfoldable pub lookup_group_by_name : Repository → Bytes → Result Group
lookup_group_by_name r name = elim (select_group (r.name_to_group name)) [
  | err e ↦ err e
  | ok p ↦ ok (ref_to_group r p)
]

unfoldable pub lookup_group_by_id : Repository → ℕ → Result Group
lookup_group_by_id r id = elim (select_group (r.id_to_group id)) [
  | err e ↦ err e
  | ok p ↦ ok (ref_to_group r p)
]

abbrev by_id {ℓ} : {A : Type ℓ} → (ℕ → Option A) → Option ℕ → Option A
by_id index none = none
by_id index (some id) = index id

abbrev or_else {ℓ} : {A : Type ℓ} → Option A → Option A → Option A
or_else none b = b
or_else (some a) b = some a

-- By name where one is given and known, else by id.
unfoldable pub lookup_by_requirement : Repository → Requirement → Option EtcPasswdRef
lookup_by_requirement r req =
    or_else (if is_empty req.name then none else r.name_to_user req.name)
      (by_id r.id_to_user req.uid)

unfoldable pub lookup_group_by_requirement : Repository → GroupRequirement → Option ℕ
lookup_group_by_requirement r req =
    or_else (if is_empty req.name then none else r.name_to_group req.name)
      (by_id r.id_to_group req.gid)

module _ (check : Bytes → Bytes → Prelude.Result RepositoryError Bool) (today : ℕ) where
  -- `etcPasswdRef.validatePassword`: the entry of shadow decides where there is one.
  unfoldable pub validate_password_ref : Repository → EtcPasswdRef → Bytes → Result Bool
  validate_password_ref r ref pass = elim ref.shadow [
    | some p ↦ Shadow.validate_password check (r.shadows.at p) pass today
    | none ↦ ok (Passwd.validate_password (r.passwds.at ref.passwd) pass)
  ]

  unfoldable pub validate_password_by_name : Repository → Bytes → Bytes → Result Bool
  validate_password_by_name r name pass = elim (select_user (r.name_to_user name)) [
    | err e ↦ err e
    | ok ref ↦ validate_password_ref r ref pass
  ]

  unfoldable pub validate_password_by_id : Repository → ℕ → Bytes → Result Bool
  validate_password_by_id r id pass = elim (select_user (r.id_to_user id)) [
    | err e ↦ err e
    | ok ref ↦ validate_password_ref r ref pass
  ]

abbrev nobody_id : ℕ
nobody_id = 65534

abbrev larger : ℕ → ℕ → ℕ
larger result actual = if ltb result actual then actual else result

-- One round of `findHighestUid`: the user nobody does not count.
unfoldable pub uid_round : ℕ → EtcColonEntry EtcPasswdEntry → ℕ
uid_round result v = elim v.entry [
  | none ↦ result
  | some e ↦
      if e.uid == nobody_id && bytes_eq e.name (codes "nobody") then result else larger result e.uid
]

unfoldable pub highest_uid : ℕ → List (EtcColonEntry EtcPasswdEntry) → ℕ
highest_uid result [] = result
highest_uid result (v ∷ vs) = highest_uid (uid_round result v) vs

-- One round of `findHighestGid`: the group nogroup does not count.
unfoldable pub gid_round : ℕ → EtcColonEntry EtcGroupEntry → ℕ
gid_round result v = elim v.entry [
  | none ↦ result
  | some e ↦
      if e.gid == nobody_id && bytes_eq e.name (codes "nogroup")
      then result
      else larger result e.gid
]

unfoldable pub highest_gid : ℕ → List (EtcColonEntry EtcGroupEntry) → ℕ
highest_gid result [] = result
highest_gid result (v ∷ vs) = highest_gid (gid_round result v) vs

-- The generator that `Ensure` and `ensureGroup` hand over; an id is a uint32.
unfoldable pub next_id : ℕ → ℕ
next_id highest =
    if ltb highest 1000
    then 1000
    else let result = (highest + 1) % u32_mod in
      if result == nobody_id then (result + 1) % u32_mod else result

unfoldable pub next_uid : Repository → ℕ
next_uid r = next_id (highest_uid 0 (follow_all r.passwds r.passwd_entries))

unfoldable pub next_gid : Repository → ℕ
next_gid r = next_id (highest_gid 0 (follow_all r.groups r.group_entries))
