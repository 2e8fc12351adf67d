-- ===== src/User/Repository/Load/Indexes.antt =====
-- The indexes that `rebuildIndexes` makes are views of the entries: a key leads to the last entry
-- that has it.
use bifroest.Prelude.{
  ℕ, ◌≡◌, refl, ◌∙◌, Bool, List, [], ◌∷◌, Option, none, some, Bytes, bytes_eq, ◌==◌, if◌then◌else◌,
  arith, Option-cases, inl, inr,
}
use bifroest.User.Passwd.{EtcPasswdEntry}
use bifroest.User.Group.{EtcGroupEntry}
use bifroest.User.Colon.{EtcColonEntry}
use bifroest.User.Repository.State.{Heap, EtcPasswdRef, Repository}
use bifroest.User.Repository.Load.{
  follow_all, GroupIndexes, UserIndexes, index_group, index_user, load_groups_refs, load_users_refs,
  load_shadows_refs, rebuild_indexes, no_users, no_groups,
}

abbrev or_else : {A : Type 0} → Option A → Option A → Option A
or_else none b = b
or_else (some a) b = some a

-- The entry of a line that passes a test.
abbrev chosen : {T : Type 0} → (T → Bool) → EtcColonEntry T → Option T
chosen test e = elim e.entry [ none ↦ none | some x ↦ if test x then some x else none ]

-- The last entry that passes a test.
unfoldable pub latest : {T : Type 0} → (T → Bool) → List (EtcColonEntry T) → Option T
latest test [] = none
latest test (e ∷ es) = or_else (latest test es) (chosen test e)

-- The entry behind what an index holds.
abbrev pub user_behind : Heap EtcPasswdEntry → Option EtcPasswdRef → Option EtcPasswdEntry
user_behind h none = none
user_behind h (some ref) = some (h.at ref.passwd)

abbrev pub group_behind : Heap EtcGroupEntry → Option ℕ → Option EtcGroupEntry
group_behind h none = none
group_behind h (some p) = some (h.at p)

module _ (h : Heap EtcPasswdEntry) (s : Bytes → Option ℕ) where
  users_by_name :
      (es : List (EtcColonEntry ℕ)) (ix : UserIndexes) (name : Bytes)
      → user_behind h ((load_users_refs h s es ix).by_name name)
        ≡ or_else
            (latest (λ e. bytes_eq e.name name) (follow_all h es))
            (user_behind h (ix.by_name name))
  unfolding load_users_refs latest follow_all
  users_by_name [] ix name = refl
  users_by_name (e ∷ es) ix name = elim (Option-cases e.entry) [
    | inl no_entry ↦ ground (arith, no_entry, users_by_name es ix name)
    | inr (p, is_p) ↦ ground (arith, is_p, users_by_name es (index_user h s p ix) name)
  ]

  users_by_id :
      (es : List (EtcColonEntry ℕ)) (ix : UserIndexes) (id : ℕ)
      → user_behind h ((load_users_refs h s es ix).by_id id)
        ≡ or_else (latest (λ e. e.uid == id) (follow_all h es)) (user_behind h (ix.by_id id))
  unfolding load_users_refs latest follow_all
  users_by_id [] ix id = refl
  users_by_id (e ∷ es) ix id = elim (Option-cases e.entry) [
    | inl no_entry ↦ ground (arith, no_entry, users_by_id es ix id)
    | inr (p, is_p) ↦ ground (arith, is_p, users_by_id es (index_user h s p ix) id)
  ]

module _ (h : Heap EtcGroupEntry) where
  groups_by_name :
      (es : List (EtcColonEntry ℕ)) (ix : GroupIndexes) (name : Bytes)
      → group_behind h ((load_groups_refs h es ix).by_name name)
        ≡ or_else
            (latest (λ e. bytes_eq e.name name) (follow_all h es))
            (group_behind h (ix.by_name name))
  unfolding load_groups_refs latest follow_all
  groups_by_name [] ix name = refl
  groups_by_name (e ∷ es) ix name = elim (Option-cases e.entry) [
    | inl no_entry ↦ ground (arith, no_entry, groups_by_name es ix name)
    | inr (p, is_p) ↦ ground (arith, is_p, groups_by_name es (index_group h p ix) name)
  ]

  groups_by_id :
      (es : List (EtcColonEntry ℕ)) (ix : GroupIndexes) (id : ℕ)
      → group_behind h ((load_groups_refs h es ix).by_id id)
        ≡ or_else (latest (λ e. e.gid == id) (follow_all h es)) (group_behind h (ix.by_id id))
  unfolding load_groups_refs latest follow_all
  groups_by_id [] ix id = refl
  groups_by_id (e ∷ es) ix id = elim (Option-cases e.entry) [
    | inl no_entry ↦ ground (arith, no_entry, groups_by_id es ix id)
    | inr (p, is_p) ↦ ground (arith, is_p, groups_by_id es (index_group h p ix) id)
  ]

-- The entries that the files of a repository hold.
abbrev pub passwd_of : Repository → List (EtcColonEntry EtcPasswdEntry)
passwd_of r = follow_all r.passwds r.passwd_entries

abbrev pub group_of : Repository → List (EtcColonEntry EtcGroupEntry)
group_of r = follow_all r.groups r.group_entries

or_else-none : {A : Type 0} (a : Option A) → or_else a none ≡ a
or_else-none none = refl
or_else-none (some a) = refl

-- Behind the rebuilt indexes stands, for every name and every id, the last user and the last group
-- in the files that has it, and nothing where none has it.
pub rebuild_indexes-latest :
    (r : Repository) (name : Bytes) (id : ℕ)
    → (user_behind r.passwds ((rebuild_indexes r).name_to_user name)
        ≡ latest (λ e. bytes_eq e.name name) (passwd_of r))
      × (user_behind r.passwds ((rebuild_indexes r).id_to_user id)
          ≡ latest (λ e. e.uid == id) (passwd_of r))
      × (group_behind r.groups ((rebuild_indexes r).name_to_group name)
          ≡ latest (λ e. bytes_eq e.name name) (group_of r))
      × (group_behind r.groups ((rebuild_indexes r).id_to_group id)
          ≡ latest (λ e. e.gid == id) (group_of r))
unfolding rebuild_indexes
rebuild_indexes-latest r name id =
    let shadow_of = load_shadows_refs r.shadows r.shadow_entries (λ _. none) in
    (
      users_by_name r.passwds shadow_of r.passwd_entries no_users name ∙ or_else-none _,
      users_by_id r.passwds shadow_of r.passwd_entries no_users id ∙ or_else-none _,
      groups_by_name r.groups r.group_entries no_groups name ∙ or_else-none _,
      groups_by_id r.groups r.group_entries no_groups id ∙ or_else-none _,
    )
