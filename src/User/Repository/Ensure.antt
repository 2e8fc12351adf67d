-- ===== src/User/Repository/Ensure.antt =====
-- `isRequirementFulfilled`, `ensurePreChecks` and `Ensure`.
pub mod Checks
pub mod Create
pub mod Frozen
pub mod Keeps
pub mod Promise
use bifroest.Prelude.{
  ℕ, Bool, true, false, not, ◌&&◌, ◌||◌, List, [], ◌∷◌, ◌++◌, Option, none, some, Bytes, codes,
  bytes_eq, is_empty, length, ◌==◌, if◌then◌else◌, ok, err,
}
use bifroest.User.Columns.{u32_mod}
use bifroest.User.Requirement.{
  GroupRequirement, Requirement, or_defaults, does_fulfil_ref, group_does_fulfil_ref, u_name,
}
use bifroest.User.Passwd.{EtcPasswdEntry}
use bifroest.User.Group.{EtcGroupEntry, add_unique_user_name, remove_user_name}
use bifroest.User.Shadow.{EtcShadowEntry}
use bifroest.User.Colon.{EtcColonEntry}
use bifroest.User.Repository.State.{
  Heap, update, update_text, alloc, store, EtcPasswdRef, Repository, no_such_user,
  user_does_not_fulfil_requirement, nil_dereference, Result, Action, pure, fail, modify, continue,
  ◌>>=◌, ◌>>◌,
}
use bifroest.User.Repository.Load.{open_and_load, save}
use bifroest.User.Repository.Lookup.{
  Group, User, ref_to_user, ref_and_groups_to_user, lookup_by_requirement,
  lookup_group_by_requirement, next_uid,
}
use bifroest.User.Repository.Options.{
  EnsureOpts, is_create_allowed, is_modify_allowed, is_home_dir, get_on_home_dir_exist,
  EnsureResult, unchanged, modified, created,
}
use bifroest.User.Repository.HomeDir.{System, create_home_dir, move_home_dir}
use bifroest.User.Repository.Accounts.{
  group_refs_of, to_etc_passwd_entry, to_etc_shadow_entry, for_each_group, created_user,
  update_etc_passwd_entry, updated_user, rename_shadow, has_gid, not_already_handled,
}
use bifroest.User.Repository.Groups.{ensure_group, ensure_groups}

-- The inner loop over `req.Groups`.
unfoldable pub some_fulfilled : List GroupRequirement → EtcGroupEntry → Bool
some_fulfilled [] e = false
some_fulfilled (q ∷ qs) e = if group_does_fulfil_ref q e then true else some_fulfilled qs e

-- The outer loop over the groups of the user.
unfoldable pub all_fulfilled : Heap EtcGroupEntry → List GroupRequirement → List ℕ → Bool
all_fulfilled h reqs [] = true
all_fulfilled h reqs (p ∷ ps) =
    if not (some_fulfilled reqs (h.at p)) then false else all_fulfilled h reqs ps

unfoldable pub has_groups : Repository → Requirement → EtcPasswdEntry → Bool
unfolding group_refs_of
has_groups r req e = elim (lookup_group_by_requirement r req.group) [
  | none ↦ false
  | some p ↦
      group_does_fulfil_ref req.group (r.groups.at p)
      && (r.groups.at p).gid == e.gid
      && length req.groups == length (group_refs_of r e.name)
      && all_fulfilled r.groups req.groups (group_refs_of r e.name)
]

-- `isRequirementFulfilled`: whom the requirement is about, and whether all of it is met.
pub record Fulfilment : Type 0 where
  pub existing : Option EtcPasswdRef
  pub is_fulfilled : Bool

unfoldable pub is_requirement_fulfilled : Repository → Requirement → Fulfilment
is_requirement_fulfilled r req = elim (lookup_by_requirement r req) [
  | none ↦ record { existing = none; is_fulfilled = false }
  | some ref ↦
      let e = r.passwds.at ref.passwd in
      record { existing = some ref; is_fulfilled = does_fulfil_ref req e && has_groups r req e }
]

-- A user who is as required, or the one to change (none: the user is to be created).
pub data PreCheck : Type 0 where
  fulfilled : EtcPasswdRef → PreCheck
  unknown : Option EtcPasswdRef → PreCheck

unfoldable pub ensure_pre_checks : Repository → Requirement → EnsureOpts → Result PreCheck
ensure_pre_checks r req opts =
    let f = is_requirement_fulfilled r req in
    elim f.existing [
      | none ↦
          if not (is_create_allowed opts)
          then err no_such_user
          else if not (is_modify_allowed opts)
          then err user_does_not_fulfil_requirement
          else ok (unknown none)
      | some ref ↦
          if f.is_fulfilled
          then ok (fulfilled ref)
          else if not (is_modify_allowed opts)
          then err user_does_not_fulfil_requirement
          else ok (unknown (some ref))
    ]

module _ (sys : System) (today : ℕ) where
  unfoldable pub create_user :
      Requirement → EnsureOpts → Group → List ℕ → List Group → Action (User × EnsureResult)
  unfolding to_etc_passwd_entry to_etc_shadow_entry for_each_group
  create_user req opts group group_refs groups r =
      let e = to_etc_passwd_entry req group.gid (next_uid r) in
      let ref : EtcPasswdRef = record { passwd = r.passwds.next; shadow = some r.shadows.next } in
      let home : Action (Unit {0}) =
        if not (is_empty e.home_dir) && is_home_dir opts
        then create_home_dir sys e req.skel e.home_dir (get_on_home_dir_exist opts)
        else pure tt in
      let finish : Action (User × EnsureResult) = do
        save
        home
        λ q. (q, ok (ref_and_groups_to_user q ref group groups, created))
      in finish (created_user r e (to_etc_shadow_entry e.name today) group_refs)

module _ (sys : System) where
  unfoldable pub modify_user :
      Requirement
      → EnsureOpts
      → EtcPasswdRef
      → Group
      → List ℕ
      → List Group
      → Action (User × EnsureResult)
  unfolding update_etc_passwd_entry rename_shadow updated_user
  modify_user req opts ref group group_refs groups r =
      let old = r.passwds.at ref.passwd in
      let new = update_etc_passwd_entry req group.gid old in
      let home : Action (Unit {0}) =
        if not (bytes_eq old.home_dir new.home_dir) && is_home_dir opts
        then move_home_dir sys new old.home_dir new.home_dir (get_on_home_dir_exist opts)
        else pure tt in
      let finish : Action (User × EnsureResult) = do
        modify (λ q. record q { passwds = store q.passwds ref.passwd new })
        rename_shadow req ref new.name
        modify (λ q. updated_user q ref old new group_refs)
        save
        home
        λ q. (q, ok (ref_and_groups_to_user q ref group groups, modified))
      in finish r

module _ (sys : System) (today : ℕ) where
  -- What `Ensure` does with what the checks have found.
  unfoldable pub finish_user : Requirement → EnsureOpts → PreCheck → Action (User × EnsureResult)
  unfolding create_user modify_user
  finish_user req opts (fulfilled ref) r = (r, ok (ref_to_user r ref, unchanged))
  finish_user req opts (unknown existing) r =
      let rest : ℕ × Group × EnsureResult → List ℕ × List Group → Action (User × EnsureResult) =
        λ g gs. elim existing [
          | none ↦ create_user sys today req opts g.1 gs.0 gs.1
          | some ref ↦ modify_user sys req opts ref g.1 gs.0 gs.1
        ] in
      let steps : Action (User × EnsureResult) = do
        g ← ensure_group (some req.name) req.group opts
        gs ← ensure_groups req.groups opts
        rest g gs
      in steps r

  -- The part of `Ensure` under the lock.
  unfoldable pub ensure_locked : Requirement → EnsureOpts → Action (User × EnsureResult)
  unfolding finish_user
  ensure_locked t_req opts = do
    open_and_load
    λ r. continue (ensure_pre_checks r t_req opts) (finish_user t_req opts) r

  -- `Ensure`: a user who is as required, by what is in memory, costs no reading.
  unfoldable pub ensure : Requirement → EnsureOpts → Action (User × EnsureResult)
  unfolding ensure_locked
  ensure req opts r =
      let t_req = or_defaults req in
      elim (ensure_pre_checks r t_req opts) [
        | err e ↦ (r, err e)
        | ok (fulfilled ref) ↦ (r, ok (ref_to_user r ref, unchanged))
        | ok (unknown existing) ↦ ensure_locked t_req opts r
      ]
