-- ===== src/User/Repository/Load.antt =====
-- `openAndLoad`, `rebuildIndexes` and the loops under it, and `save`. Opening, locking and closing
-- the files is left out: a file is its bytes, which nobody else changes.
pub mod Indexes
use bifroest.Prelude.{
  ℕ, ◌+◌, Bool, true, false, List, [], ◌∷◌, ◌++◌, Option, none, some, Bytes, if◌then◌else◌, ok, err,
}
use bifroest.Prelude
use bifroest.User.Errors
use bifroest.User.Passwd
use bifroest.User.Passwd.{EtcPasswdEntry}
use bifroest.User.Group
use bifroest.User.Group.{EtcGroupEntry}
use bifroest.User.Shadow
use bifroest.User.Shadow.{EtcShadowEntry}
use bifroest.User.Value.{EtcColonEntryValue}
use bifroest.User.Colon.{EtcColonEntry, decode_file, encode_file}
use bifroest.User.Repository.State.{
  Heap, update, update_text, alloc, EtcPasswdRef, Repository, in_file, moved_buffer, Result, Action,
  continue, ◌>>=◌, ◌>>◌,
}

module _ {T : Type 0} where
  -- Every entry that was read is a new object.
  unfoldable pub allocate : Heap T → List (EtcColonEntry T) → Heap T × List (EtcColonEntry ℕ)
  allocate h [] = (h, [])
  allocate h (e ∷ es) = elim e.entry [
    | none ↦
        let (h', ps) = allocate h es in (h', record { entry = none; raw_line = e.raw_line } ∷ ps)
    | some x ↦
        let (h', ps) = allocate (alloc h x) es in
        (h', record { entry = some h.next; raw_line = e.raw_line } ∷ ps)
  ]

  -- The entries behind the pointers.
  abbrev pub follow : Heap T → EtcColonEntry ℕ → EtcColonEntry T
  follow h e = record {
    entry = elim e.entry [ none ↦ none | some p ↦ some (h.at p) ];
    raw_line = e.raw_line;
  }

  unfoldable pub follow_all : Heap T → List (EtcColonEntry ℕ) → List (EtcColonEntry T)
  follow_all h [] = []
  follow_all h (e ∷ es) = follow h e ∷ follow_all h es

-- The maps of `loadGroupsRefs`.
pub record GroupIndexes : Type 0 where
  pub by_name : Bytes → Option ℕ
  pub by_id : ℕ → Option ℕ
  pub of_user : Bytes → Option (List ℕ)

abbrev or_nil : Option (List ℕ) → List ℕ
or_nil none = []
or_nil (some ps) = ps

-- The loop over `ref.userNames`.
unfoldable pub index_user_names :
    ℕ → List Bytes → (Bytes → Option (List ℕ)) → Bytes → Option (List ℕ)
index_user_names p [] of_user = of_user
index_user_names p (un ∷ uns) of_user =
    index_user_names p uns (update_text of_user un (some (or_nil (of_user un) ++ p ∷ [])))

abbrev pub index_group : Heap EtcGroupEntry → ℕ → GroupIndexes → GroupIndexes
index_group h p ix = record {
  by_name = update_text ix.by_name (h.at p).name (some p);
  by_id = update ix.by_id (h.at p).gid (some p);
  of_user = index_user_names p (h.at p).user_names ix.of_user;
}

unfoldable pub load_groups_refs :
    Heap EtcGroupEntry → List (EtcColonEntry ℕ) → GroupIndexes → GroupIndexes
load_groups_refs h [] ix = ix
load_groups_refs h (e ∷ es) ix =
    load_groups_refs h es (elim e.entry [ none ↦ ix | some p ↦ index_group h p ix ])

unfoldable pub load_shadows_refs :
    Heap EtcShadowEntry → List (EtcColonEntry ℕ) → (Bytes → Option ℕ) → Bytes → Option ℕ
load_shadows_refs h [] by_name = by_name
load_shadows_refs h (e ∷ es) by_name =
    load_shadows_refs h es
      (elim e.entry [ none ↦ by_name | some p ↦ update_text by_name (h.at p).name (some p) ])

-- The maps of `loadUsersRefs`.
pub record UserIndexes : Type 0 where
  pub by_name : Bytes → Option EtcPasswdRef
  pub by_id : ℕ → Option EtcPasswdRef

abbrev pub index_user : Heap EtcPasswdEntry → (Bytes → Option ℕ) → ℕ → UserIndexes → UserIndexes
index_user h shadow_of p ix =
    let ref : EtcPasswdRef = record { passwd = p; shadow = shadow_of (h.at p).name } in
    record {
      by_name = update_text ix.by_name (h.at p).name (some ref);
      by_id = update ix.by_id (h.at p).uid (some ref);
    }

unfoldable pub load_users_refs :
    Heap EtcPasswdEntry → (Bytes → Option ℕ) → List (EtcColonEntry ℕ) → UserIndexes → UserIndexes
load_users_refs h shadow_of [] ix = ix
load_users_refs h shadow_of (e ∷ es) ix =
    load_users_refs h shadow_of es
      (elim e.entry [ none ↦ ix | some p ↦ index_user h shadow_of p ix ])

abbrev pub no_groups : GroupIndexes
no_groups = record { by_name = λ _. none; by_id = λ _. none; of_user = λ _. none }

abbrev pub no_users : UserIndexes
no_users = record { by_name = λ _. none; by_id = λ _. none }

unfoldable pub rebuild_indexes : Repository → Repository
rebuild_indexes r =
    let groups = load_groups_refs r.groups r.group_entries no_groups in
    let shadow_of = load_shadows_refs r.shadows r.shadow_entries (λ _. none) in
    let users = load_users_refs r.passwds shadow_of r.passwd_entries no_users in
    record r {
      name_to_user = users.by_name;
      id_to_user = users.by_id;
      name_to_group = groups.by_name;
      id_to_group = groups.by_id;
      username_to_groups = groups.of_user;
    }

-- What the repository makes of reading one file.
abbrev pub read_file :
    {T : Type 0} → EtcColonEntryValue T → Bytes → ℕ → Repository → Result (List (EtcColonEntry T))
read_file v text colons r = elim (decode_file v text colons r.allow_bad_name r.allow_bad_line) [
  | none ↦ err moved_buffer
  | some (ok es) ↦ ok es
  | some (err e) ↦ err (in_file e)
]

-- `load` of the three handles; each replaces its entries at once.
unfoldable pub load_passwd : Action (Unit {0})
load_passwd r = elim (read_file Passwd.value r.passwd_file Passwd.etc_passwd_colons r) [
  | err e ↦ (r, err e)
  | ok es ↦
      let (h, ps) = allocate r.passwds es in (record r { passwds = h; passwd_entries = ps }, ok tt)
]

unfoldable pub load_group : Action (Unit {0})
load_group r = elim (read_file Group.value r.group_file Group.etc_group_colons r) [
  | err e ↦ (r, err e)
  | ok es ↦
      let (h, ps) = allocate r.groups es in (record r { groups = h; group_entries = ps }, ok tt)
]

unfoldable pub load_shadow : Action (Unit {0})
load_shadow r = elim (read_file Shadow.value r.shadow_file Shadow.etc_shadow_colons r) [
  | err e ↦ (r, err e)
  | ok es ↦
      let (h, ps) = allocate r.shadows es in (record r { shadows = h; shadow_entries = ps }, ok tt)
]

-- `openAndLoad`: the indexes are rebuilt only if all three files could be read.
unfoldable pub open_and_load : Action (Unit {0})
open_and_load = do load_passwd; load_group; load_shadow; λ r. (rebuild_indexes r, ok tt)

abbrev written : Prelude.Result Errors.EtcError (Unit {0}) → Result (Unit {0})
written (ok u) = ok u
written (err e) = err (in_file e)

-- `save` of the three handles
abbrev pub save_passwd : Action (Unit {0})
save_passwd r =
    let (text, res) =
      encode_file Passwd.value (follow_all r.passwds r.passwd_entries) r.allow_bad_name
        r.passwd_file in
    (record r { passwd_file = text }, written res)

abbrev pub save_group : Action (Unit {0})
save_group r =
    let (text, res) =
      encode_file Group.value (follow_all r.groups r.group_entries) r.allow_bad_name r.group_file in
    (record r { group_file = text }, written res)

abbrev pub save_shadow : Action (Unit {0})
save_shadow r =
    let (text, res) =
      encode_file Shadow.value (follow_all r.shadows r.shadow_entries) r.allow_bad_name
        r.shadow_file in
    (record r { shadow_file = text }, written res)

-- In this order, up to the first error.
unfoldable pub save : Action (Unit {0})
save = do save_passwd; save_group; save_shadow
