-- ===== src/User/Repository/Accounts.antt =====
-- The entries, memberships and indexes of a user as `Ensure` makes and changes them.
use bifroest.Prelude.{
  ℕ, Bool, true, false, not, ◌||◌, List, [], ◌∷◌, ◌++◌, none, some, Bytes, codes, bytes_eq,
  is_empty, ◌==◌, if◌then◌else◌, ok, err,
}
use bifroest.User.Requirement.{Requirement, u_name}
use bifroest.User.Passwd.{EtcPasswdEntry}
use bifroest.User.Group.{EtcGroupEntry, add_unique_user_name, remove_user_name}
use bifroest.User.Shadow.{EtcShadowEntry}
use bifroest.User.Repository.State.{
  Heap, update, update_text, alloc, store, EtcPasswdRef, Repository, nil_dereference, Action,
}

unfoldable pub group_refs_of : Repository → Bytes → List ℕ
group_refs_of r name = elim (r.username_to_groups name) [ none ↦ [] | some ps ↦ ps ]

-- `toEtcPasswdRef`; `today` is the days since 1970.
unfoldable pub to_etc_passwd_entry : Requirement → ℕ → ℕ → EtcPasswdEntry
to_etc_passwd_entry req gid generated =
    let uid : ℕ = elim req.uid [ none ↦ generated | some u ↦ u ] in
    record {
      name = if is_empty req.name then u_name uid else req.name;
      password = codes "x";
      uid = uid;
      gid = gid;
      geocs = req.display_name;
      home_dir = req.home_dir;
      shell = req.shell;
    }

unfoldable pub to_etc_shadow_entry : Bytes → ℕ → EtcShadowEntry
to_etc_shadow_entry name today = record {
  name = name;
  password = codes "*";
  last_changed_at_in_days = today;
  minimum_age_in_days = 0;
  maximum_age_in_days = 99999;
  warn_age_in_days = 7;
  has_warn_age = true;
  inactive_age_in_days = 0;
  has_inactive_age = false;
  expire_at_ts_in_days = 0;
  has_expire = false;
}

-- A change of the group behind each pointer.
unfoldable pub for_each_group :
    (EtcGroupEntry → EtcGroupEntry) → List ℕ → Heap EtcGroupEntry → Heap EtcGroupEntry
for_each_group f [] h = h
for_each_group f (p ∷ ps) h = for_each_group f ps (store h p (f (h.at p)))

abbrev append_user_name : Bytes → EtcGroupEntry → EtcGroupEntry
append_user_name name g = record g { user_names = g.user_names ++ name ∷ [] }

-- The repository with a new user. The index by id has the user under its group's id.
abbrev pub created_user : Repository → EtcPasswdEntry → EtcShadowEntry → List ℕ → Repository
created_user r e s group_refs =
    let ref : EtcPasswdRef = record { passwd = r.passwds.next; shadow = some r.shadows.next } in
    record r {
      passwds = alloc r.passwds e;
      shadows = alloc r.shadows s;
      groups = for_each_group (append_user_name e.name) group_refs r.groups;
      passwd_entries =
          r.passwd_entries ++ record { entry = some r.passwds.next; raw_line = [] } ∷ [];
      shadow_entries =
          r.shadow_entries ++ record { entry = some r.shadows.next; raw_line = [] } ∷ [];
      name_to_user = update_text r.name_to_user e.name (some ref);
      id_to_user = update r.id_to_user e.gid (some ref);
    }

-- `updateEtcPasswdRef`
unfoldable pub update_etc_passwd_entry : Requirement → ℕ → EtcPasswdEntry → EtcPasswdEntry
update_etc_passwd_entry req gid e = record e {
  uid = elim req.uid [ none ↦ e.uid | some u ↦ u ];
  gid = gid;
  name = if is_empty req.name then e.name else req.name;
  geocs = req.display_name;
  shell = req.shell;
  home_dir = req.home_dir;
}

-- The pointers of a list whose groups have ids other than those behind the second list; of several
-- groups with one id the map keeps the last.
unfoldable pub has_gid : Heap EtcGroupEntry → ℕ → List ℕ → Bool
has_gid h gid [] = false
has_gid h gid (p ∷ ps) = if (h.at p).gid == gid then true else has_gid h gid ps

unfoldable pub not_already_handled : Heap EtcGroupEntry → List ℕ → List ℕ → List ℕ
not_already_handled h [] group_refs = []
not_already_handled h (p ∷ ps) group_refs =
    let rest = not_already_handled h ps group_refs in
    if has_gid h (h.at p).gid ps || has_gid h (h.at p).gid group_refs then rest else p ∷ rest

-- The changes of memberships and indexes for a user whose entry has changed from `old` to `new`.
-- The index by name is only touched where the name stays, and then stays as it is.
unfoldable pub updated_user :
    Repository → EtcPasswdRef → EtcPasswdEntry → EtcPasswdEntry → List ℕ → Repository
unfolding for_each_group not_already_handled has_gid group_refs_of
updated_user r ref old new group_refs =
    let others = not_already_handled r.groups (group_refs_of r new.name) group_refs in
    let renamed = not (bytes_eq old.name new.name) in
    let without_old =
      if renamed
      then for_each_group (λ g. remove_user_name g old.name) (group_refs_of r old.name) r.groups
      else r.groups in
    let with_new = for_each_group (λ g. add_unique_user_name g new.name) group_refs without_old in
    record r {
      groups = for_each_group (λ g. remove_user_name g new.name) others with_new;
      name_to_user =
          if renamed
          then r.name_to_user
          else update_text (update_text r.name_to_user old.name none) new.name (some ref);
      id_to_user =
          if old.uid == new.uid
          then r.id_to_user
          else update (update r.id_to_user old.uid none) new.uid (some ref);
      username_to_groups =
          update_text
            (if renamed
              then update_text r.username_to_groups old.name none
              else r.username_to_groups)
            new.name (some group_refs);
    }

-- The entry of shadow gets the new name; where there is none the code panics.
unfoldable pub rename_shadow : Requirement → EtcPasswdRef → Bytes → Action (Unit {0})
rename_shadow req ref name r = if is_empty req.name then (r, ok tt) else elim ref.shadow [
  | none ↦ (r, err nil_dereference)
  | some p ↦
      (record r { shadows = store r.shadows p (record (r.shadows.at p) { name = name }) }, ok tt)
]
