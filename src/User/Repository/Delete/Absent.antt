-- ===== src/User/Repository/Delete/Absent.antt =====
-- What is left behind a deletion.
use bifroest.Prelude.{
  ℕ, ◌≡◌, refl, ◌∙◌, sym, Bool, true, false, ◌&&◌, List, [], ◌∷◌, ◌++◌, ◌⊎◌, none, some, Bytes,
  bytes_eq, ◌==◌, ==_iff, arith, Option-cases, Bool-cases, inl, inr, err, if◌then◌else◌,
}
use bifroest.User.Passwd.{EtcPasswdEntry}
use bifroest.User.Group.{EtcGroupEntry, remove_user_name}
use bifroest.User.Group.Members.{occurrences, occurrences-remove}
use bifroest.User.Colon.{EtcColonEntry}
use bifroest.User.Repository.State.{Heap, store, Repository, nil_dereference, group_in_use}
use bifroest.User.Repository.Load.{rebuild_indexes, follow_all}
use bifroest.User.Repository.Load.Indexes.{latest, user_behind, passwd_of, rebuild_indexes-latest}
use bifroest.User.Repository.Accounts.{for_each_group, group_refs_of}
use bifroest.User.Repository.Delete.{
  delete_entries, deleted_user, delete_shadow, user_of_group, delete_selected_group, has_entry,
}

module _ {T : Type 0} (h : Heap T) (doomed test : T → Bool) where
  -- The tests that no deleted entry passes find the entry that they found before.
  latest-delete_other :
      (es : List (EtcColonEntry ℕ))
      → ((x : T) → doomed x ≡ true → test x ≡ false)
      → latest test (follow_all h (delete_entries h doomed es)) ≡ latest test (follow_all h es)
  unfolding latest follow_all delete_entries
  latest-delete_other [] other = refl
  latest-delete_other (e ∷ es) other = elim (Option-cases e.entry) [
    | inl no_entry ↦ ground (arith, no_entry, latest-delete_other es other)
    | inr (p, is_p) ↦ ground (arith, is_p, latest-delete_other es other, other (h.at p))
  ]

module _ {T : Type 0} (h : Heap T) (doomed : T → Bool) where
  latest-delete_self :
      (es : List (EtcColonEntry ℕ))
      → latest doomed (follow_all h (delete_entries h doomed es)) ≡ none
  unfolding latest follow_all delete_entries
  latest-delete_self [] = refl
  latest-delete_self (e ∷ es) = elim (Option-cases e.entry) [
    | inl no_entry ↦ ground (arith, no_entry, latest-delete_self es)
    | inr (p, is_p) ↦ ground (arith, is_p, latest-delete_self es)
  ]

behind_deleted :
    (r : Repository) (e : EtcPasswdEntry) (id : ℕ)
    → user_behind r.passwds ((rebuild_indexes (deleted_user r e)).id_to_user id)
      ≡ latest
          (λ c. c.uid == id)
          (follow_all r.passwds (delete_entries r.passwds (λ c. c.uid == e.uid) r.passwd_entries))
behind_deleted r e id = unfold deleted_user in (rebuild_indexes-latest (deleted_user r e) [] id).1

-- After the deletion of a user, rebuilt indexes know the user's id no more, and lead every other id
-- to the entry that it had.
pub deleted_user-id_to_user :
    (r : Repository) (e : EtcPasswdEntry) (id : ℕ)
    → user_behind r.passwds ((rebuild_indexes (deleted_user r e)).id_to_user id)
      ≡ (if e.uid == id then none else user_behind r.passwds ((rebuild_indexes r).id_to_user id))
deleted_user-id_to_user r e id = behind_deleted r e id ∙ elim (Bool-cases (e.uid == id)) [
  | inl same ↦ rw same (
      rw (sym ((==_iff e.uid id).0 same))
        (latest-delete_self r.passwds (λ c. c.uid == e.uid) r.passwd_entries))
  | inr other ↦ rw other (
      latest-delete_other r.passwds (λ c. c.uid == e.uid) (λ c. c.uid == id) r.passwd_entries
        (λ x h. ground arith)
      ∙ sym ((rebuild_indexes-latest r [] id).1))
]

pub mem : ℕ → List ℕ → Bool
mem p [] = false
mem p (q ∷ qs) = if q == p then true else mem p qs

-- The memberships of one user behind the pointers of a list go, all others stay.
occurrences-for_each :
    (name other : Bytes) (p : ℕ) (ps : List ℕ) (h : Heap EtcGroupEntry)
    → occurrences other ((for_each_group (λ g. remove_user_name g name) ps h).at p).user_names
      ≡ (if mem p ps && bytes_eq name other then 0 else occurrences other (h.at p).user_names)
unfolding for_each_group mem
occurrences-for_each name other p [] h = refl
occurrences-for_each name other p (q ∷ ps) h = ground (
  arith,
  occurrences-for_each name other p ps (store h q (remove_user_name (h.at q) name)),
  occurrences-remove (h.at q) name other,
)

-- The deletion of a user takes the name out of every group that the index knew the user to be in,
-- and leaves all other members of all groups.
pub deleted_user-members :
    (r : Repository) (e : EtcPasswdEntry) (other : Bytes) (p : ℕ)
    → occurrences other ((deleted_user r e).groups.at p).user_names ≡ (
        if mem p (group_refs_of r e.name) && bytes_eq e.name other
        then 0
        else occurrences other (r.groups.at p).user_names)
unfolding deleted_user
deleted_user-members r e other p =
    occurrences-for_each e.name other p (group_refs_of r e.name) r.groups

has_entry-append :
    (before after : List (EtcColonEntry ℕ)) (q : ℕ) (raw_line : Bytes)
    → has_entry (before ++ record { entry = some q; raw_line = raw_line } ∷ after) ≡ true
has_entry-append [] after q raw_line = refl
has_entry-append (e ∷ before) after q raw_line =
    ground (arith, has_entry-append before after q raw_line)

-- Deleting a user who has no entry in shadow fails with a panic as soon as shadow has any entry.
pub delete_shadow-panics :
    (r : Repository) (p q : ℕ) (raw_line : Bytes) (before after : List (EtcColonEntry ℕ))
    → r.shadow_entries ≡ before ++ record { entry = some q; raw_line = raw_line } ∷ after
    → (delete_shadow (record { passwd = p; shadow = none }) r).1 ≡ err nil_dereference
unfolding delete_shadow
delete_shadow-panics r p q raw_line before after h =
    rw (h, has_entry-append before after q raw_line)

user_of_group-none :
    (h : Heap EtcPasswdEntry) (gid : ℕ) (es : List (EtcColonEntry ℕ))
    → user_of_group h gid es ≡ none
    → latest (λ e. e.gid == gid) (follow_all h es) ≡ none
unfolding user_of_group latest follow_all
user_of_group-none h gid [] k = refl
user_of_group-none h gid (e ∷ es) k = elim (Option-cases e.entry) [
  | inl no_entry ↦ ground (arith, no_entry, user_of_group-none h gid es)
  | inr (p, is_p) ↦ ground (arith, is_p, user_of_group-none h gid es)
]

-- A group is deleted only if no user in the files has it as the group of his own; else nothing
-- changes.
pub delete_selected_group-unused :
    (r : Repository) (p : ℕ)
    → (latest (λ e. e.gid == (r.groups.at p).gid) (passwd_of r) ≡ none)
      ⊎ ((e : EtcPasswdEntry) × (delete_selected_group p r ≡ (r, err (group_in_use e.uid e.name))))
unfolding delete_selected_group
delete_selected_group-unused r p =
    elim (Option-cases (user_of_group r.passwds (r.groups.at p).gid r.passwd_entries)) [
      | inl no_user ↦
          inl (user_of_group-none r.passwds (r.groups.at p).gid r.passwd_entries no_user)
      | inr (e, used) ↦ inr (e, rw (used, delete_selected_group) refl)
    ]
