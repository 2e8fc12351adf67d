-- ===== src/User/Repository/Groups.antt =====
-- `preEnsureGroup`, `ensureGroup`, `ensureGroups` and `EnsureGroup`.
pub mod Met
use bifroest.Prelude.{
  ℕ, Bool, true, false, not, List, [], ◌∷◌, ◌++◌, Option, none, some, Bytes, codes, bytes_eq,
  is_empty, ◌==◌, if◌then◌else◌, ok, err,
}
use bifroest.User.Requirement.{
  GroupRequirement, group_or_defaults, group_or_defaults_for_user, group_does_fulfil_ref, g_name,
}
use bifroest.User.Group.{EtcGroupEntry}
use bifroest.User.Repository.State.{
  Heap, update, update_text, alloc, store, Repository, no_such_group,
  group_does_not_fulfil_requirement, Result, Action, pure, fail, continue, ◌>>=◌, ◌>>◌,
}
use bifroest.User.Repository.Load.{open_and_load, save}
use bifroest.User.Repository.Lookup.{Group, ref_to_group, lookup_group_by_requirement, next_gid}
use bifroest.User.Repository.Options.{
  EnsureOpts, is_create_allowed, is_modify_allowed, EnsureResult, unchanged, modified, created,
}

-- A group that is as required, or what there is to change (none: the group is to be created).
pub data PreGroup : Type 0 where
  fulfilled : ℕ → PreGroup
  unknown : Option ℕ → PreGroup

unfoldable pub pre_ensure_group : Repository → GroupRequirement → EnsureOpts → Result PreGroup
pre_ensure_group r req opts = elim (lookup_group_by_requirement r req) [
  | some p ↦
      if group_does_fulfil_ref req (r.groups.at p)
      then ok (fulfilled p)
      else if is_modify_allowed opts
      then ok (unknown (some p))
      else err group_does_not_fulfil_requirement
  | none ↦
      if not (is_create_allowed opts)
      then err no_such_group
      else if not (is_modify_allowed opts)
      then err group_does_not_fulfil_requirement
      else ok (unknown none)
]

-- `toEtcGroupRef`
unfoldable pub to_etc_group_entry : GroupRequirement → ℕ → EtcGroupEntry
to_etc_group_entry req generated =
    let gid : ℕ = elim req.gid [ none ↦ generated | some g ↦ g ] in
    record {
      name = if is_empty req.name then g_name gid else req.name;
      password = codes "x";
      gid = gid;
      user_names = [];
    }

abbrev created_group : Repository → EtcGroupEntry → Repository
created_group r e =
    let p = r.groups.next in
    record r {
      groups = alloc r.groups e;
      group_entries = r.group_entries ++ record { entry = some p; raw_line = [] } ∷ [];
      name_to_group = update_text r.name_to_group e.name (some p);
      id_to_group = update r.id_to_group e.gid (some p);
    }

unfoldable pub create_group : GroupRequirement → Action (ℕ × Group × EnsureResult)
unfolding to_etc_group_entry
create_group req r =
    let r' = created_group r (to_etc_group_entry req (next_gid r)) in
    (r', ok (r.groups.next, ref_to_group r' r.groups.next, created))

-- `updateEtcGroupRef`
unfoldable pub update_etc_group_entry : GroupRequirement → EtcGroupEntry → EtcGroupEntry
update_etc_group_entry req e = record e {
  gid = elim req.gid [ none ↦ e.gid | some g ↦ g ];
  name = if is_empty req.name then e.name else req.name;
}

-- The index by id loses the new id, which it then gets again, and keeps the old one.
abbrev updated_group : Repository → ℕ → EtcGroupEntry → EtcGroupEntry → Repository
updated_group r p old new = record r {
  groups = store r.groups p new;
  name_to_group =
      if bytes_eq old.name new.name
      then r.name_to_group
      else update_text (update_text r.name_to_group old.name none) new.name (some p);
  id_to_group =
      if old.gid == new.gid
      then r.id_to_group
      else update (update r.id_to_group new.gid none) new.gid (some p);
}

unfoldable pub update_group : GroupRequirement → ℕ → Action (ℕ × Group × EnsureResult)
unfolding update_etc_group_entry
update_group req p r =
    let old = r.groups.at p in
    let r' = updated_group r p old (update_etc_group_entry req old) in
    (r', ok (p, ref_to_group r' p, modified))

-- What `ensureGroup` does after `preEnsureGroup`.
unfoldable pub finish_group : GroupRequirement → PreGroup → Action (ℕ × Group × EnsureResult)
unfolding create_group update_group
finish_group req (fulfilled p) r = (r, ok (p, ref_to_group r p, unchanged))
finish_group req (unknown none) r = create_group req r
finish_group req (unknown (some p)) r = update_group req p r

unfoldable pub ensure_group :
    Option Bytes → GroupRequirement → EnsureOpts → Action (ℕ × Group × EnsureResult)
unfolding finish_group
ensure_group for_user req opts r =
    let t_req = group_or_defaults_for_user req for_user in
    continue (pre_ensure_group r t_req opts) (finish_group t_req) r

unfoldable pub ensure_groups : List GroupRequirement → EnsureOpts → Action (List ℕ × List Group)
ensure_groups [] opts = pure ([], [])
ensure_groups (req ∷ reqs) opts =
    let rest = ensure_groups reqs opts in
    do g ← ensure_group none req opts; gs ← rest; pure (g.0 ∷ gs.0, g.1 ∷ gs.1)

-- The part of `EnsureGroup` under the lock: the files are read again, and saved if need be.
unfoldable pub ensure_group_locked : GroupRequirement → EnsureOpts → Action (Group × EnsureResult)
ensure_group_locked t_req opts = do
  open_and_load
  g ← ensure_group none t_req opts
  elim g.2 [ unchanged ↦ pure (g.1, unchanged) | res ↦ (do save; pure (g.1, res)) ]

-- `EnsureGroup`: a group that is as required, by what is in memory, costs no reading.
unfoldable pub ensure_group_by_requirement :
    GroupRequirement → EnsureOpts → Action (Group × EnsureResult)
unfolding ensure_group_locked
ensure_group_by_requirement req opts r =
    let t_req = group_or_defaults req in
    elim (pre_ensure_group r t_req opts) [
      | err e ↦ (r, err e)
      | ok (fulfilled p) ↦ (r, ok (ref_to_group r p, unchanged))
      | ok (unknown existing) ↦ ensure_group_locked t_req opts r
    ]
