-- ===== src/User/Repository/Delete.antt =====
-- `deleteRef`, `DeleteById`, `DeleteByName`, `deleteGroupRef` and their kin.
pub mod Absent
use bifroest.Prelude.{
  ℕ, Bool, true, false, List, [], ◌∷◌, Option, none, some, Bytes, bytes_eq, ◌==◌, if◌then◌else◌, ok,
  err,
}
use bifroest.User.Passwd.{EtcPasswdEntry}
use bifroest.User.Group.{EtcGroupEntry, remove_user_name}
use bifroest.User.Shadow.{EtcShadowEntry}
use bifroest.User.Colon.{EtcColonEntry}
use bifroest.User.Repository.State.{
  Heap, update, update_text, EtcPasswdRef, Repository, group_in_use, nil_dereference, Result,
  Action, pure, modify, continue, ◌>>=◌, ◌>>◌,
}
use bifroest.User.Repository.Load.{open_and_load, save}
use bifroest.User.Repository.Lookup.{select_user, select_group}
use bifroest.User.Repository.Options.{DeleteOpts, is_delete_home_dir, is_kill_processes}
use bifroest.User.Repository.HomeDir.{System, kill_all_of, remove_home_dir}
use bifroest.User.Repository.Accounts.{for_each_group, group_refs_of}

-- `slices.DeleteFunc` on entries; a line that holds no entry stays.
unfoldable pub delete_entries :
    {T : Type 0} → Heap T → (T → Bool) → List (EtcColonEntry ℕ) → List (EtcColonEntry ℕ)
delete_entries h doomed [] = []
delete_entries h doomed (e ∷ es) =
    let rest = delete_entries h doomed es in
    elim e.entry [ none ↦ e ∷ rest | some p ↦ if doomed (h.at p) then rest else e ∷ rest ]

abbrev has_entry : List (EtcColonEntry ℕ) → Bool
has_entry [] = false
has_entry (e ∷ es) = elim e.entry [ none ↦ has_entry es | some p ↦ true ]

-- The entries of shadow with the user's name go. Where the user has no entry there, the code panics
-- at the first entry that it compares.
unfoldable pub delete_shadow : EtcPasswdRef → Action (Unit {0})
unfolding delete_entries
delete_shadow ref r = elim ref.shadow [
  | some p ↦
      let name = (r.shadows.at p).name in
      (
        record r {
          shadow_entries = delete_entries r.shadows (λ c. bytes_eq c.name name) r.shadow_entries;
        },
        ok tt,
      )
  | none ↦ if has_entry r.shadow_entries then (r, err nil_dereference) else (r, ok tt)
]

unfoldable pub deleted_user : Repository → EtcPasswdEntry → Repository
unfolding for_each_group group_refs_of delete_entries
deleted_user r e = record r {
  name_to_user = update_text r.name_to_user e.name none;
  id_to_user = update r.id_to_user e.uid none;
  groups = for_each_group (λ g. remove_user_name g e.name) (group_refs_of r e.name) r.groups;
  username_to_groups = update_text r.username_to_groups e.name none;
  passwd_entries = delete_entries r.passwds (λ c. c.uid == e.uid) r.passwd_entries;
}

module _ (sys : System) where
  -- What `deleteRef` does with the user that was selected.
  unfoldable pub delete_selected : DeleteOpts → EtcPasswdRef → Action (Unit {0})
  unfolding deleted_user delete_shadow
  delete_selected opts ref r =
      let e = r.passwds.at ref.passwd in
      let steps : Action (Unit {0}) = do
        modify (λ q. deleted_user q e)
        delete_shadow ref
        save
        (if is_kill_processes opts then kill_all_of sys e.uid else pure tt)
        (if is_delete_home_dir opts then remove_home_dir sys e.home_dir else pure tt)
      in steps r

  -- `deleteRef`: the user is selected from what is read under the lock.
  unfoldable pub delete_ref : DeleteOpts → (Repository → Option EtcPasswdRef) → Action (Unit {0})
  unfolding delete_selected
  delete_ref opts selector = do
    open_and_load
    λ r. continue (select_user (selector r)) (delete_selected opts) r

  unfoldable pub delete_by_id : ℕ → DeleteOpts → Action (Unit {0})
  unfolding delete_ref
  delete_by_id id opts = delete_ref opts (λ r. r.id_to_user id)

  unfoldable pub delete_by_name : Bytes → DeleteOpts → Action (Unit {0})
  unfolding delete_ref
  delete_by_name name opts = delete_ref opts (λ r. r.name_to_user name)

-- The first user whose group it is.
unfoldable pub user_of_group :
    Heap EtcPasswdEntry → ℕ → List (EtcColonEntry ℕ) → Option EtcPasswdEntry
user_of_group h gid [] = none
user_of_group h gid (e ∷ es) =
    let rest = user_of_group h gid es in
    elim e.entry [ none ↦ rest | some p ↦ if (h.at p).gid == gid then some (h.at p) else rest ]

unfoldable pub deleted_group : Repository → EtcGroupEntry → Repository
unfolding delete_entries
deleted_group r g = record r {
  name_to_group = update_text r.name_to_group g.name none;
  id_to_group = update r.id_to_group g.gid none;
  group_entries = delete_entries r.groups (λ c. c.gid == g.gid) r.group_entries;
}

unfoldable pub delete_selected_group : ℕ → Action (Unit {0})
unfolding user_of_group deleted_group
delete_selected_group p r =
    let g = r.groups.at p in
    elim (user_of_group r.passwds g.gid r.passwd_entries) [
      | some u ↦ (r, err (group_in_use u.uid u.name))
      | none ↦ save (deleted_group r g)
    ]

unfoldable pub delete_group_ref : (Repository → Option ℕ) → Action (Unit {0})
unfolding delete_selected_group
delete_group_ref selector = do
  open_and_load
  λ r. continue (select_group (selector r)) delete_selected_group r

unfoldable pub delete_group_by_id : ℕ → Action (Unit {0})
unfolding delete_group_ref
delete_group_by_id id = delete_group_ref (λ r. r.id_to_group id)

unfoldable pub delete_group_by_name : Bytes → Action (Unit {0})
unfolding delete_group_ref
delete_group_by_name name = delete_group_ref (λ r. r.name_to_group name)
