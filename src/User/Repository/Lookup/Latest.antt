-- ===== src/User/Repository/Lookup/Latest.antt =====
-- What the lookups answer once the indexes are rebuilt.
use bifroest.Prelude.{
  ℕ, ◌≡◌, refl, ◌∙◌, sym, subst, Bool, true, List, [], ◌∷◌, Option, none, some, Bytes, bytes_eq,
  ◌==◌, ==_iff, arith, Option-cases, inl, inr, ok, err,
}
use bifroest.User.Passwd.{EtcPasswdEntry}
use bifroest.User.Colon.{EtcColonEntry}
use bifroest.User.Repository.State.{Repository, EtcPasswdRef, Result, no_such_user}
use bifroest.User.Repository.Load.{rebuild_indexes}
use bifroest.User.Repository.Load.Indexes.{
  latest, user_behind, group_behind, passwd_of, rebuild_indexes-latest,
}
use bifroest.User.Repository.Load.Indexes
use bifroest.User.Repository.Lookup.{
  User, ref_to_user, ref_and_groups_to_user, group_of, lookup_by_name, lookup_by_id,
}

-- The chosen entry passes the test.
pub latest_passes :
    {T : Type 0} (test : T → Bool) (es : List (EtcColonEntry T)) (x : T)
    → latest test es ≡ some x
    → test x ≡ true
unfolding latest
latest_passes test [] x h = cc
latest_passes test (e ∷ es) x h = ground (arith, latest_passes test es x)

-- A user as the entry has it.
pub record IsUserOf (e : EtcPasswdEntry) (u : User) : Type 0 where
  pub name : u.name ≡ e.name
  pub display_name : u.display_name ≡ e.geocs
  pub uid : u.uid ≡ e.uid
  pub gid : u.group.gid ≡ e.gid
  pub shell : u.shell ≡ e.shell
  pub home_dir : u.home_dir ≡ e.home_dir

-- The answer that an entry, or its absence, asks for.
abbrev pub Shows : Option EtcPasswdEntry → Result User → Type 0
Shows none answer = answer ≡ err no_such_user
Shows (some e) answer = (u : User) × (answer ≡ ok u) × IsUserOf e u

passwds-rebuild : (r : Repository) → (rebuild_indexes r).passwds ≡ r.passwds
unfolding rebuild_indexes
passwds-rebuild r = refl

groups-rebuild : (r : Repository) → (rebuild_indexes r).groups ≡ r.groups
unfolding rebuild_indexes
groups-rebuild r = refl

found_gid :
    (r : Repository) (gid p : ℕ)
    → (rebuild_indexes r).id_to_group gid ≡ some p
    → (r.groups.at p).gid ≡ gid
found_gid r gid p found =
    let behind = (rebuild_indexes-latest r [] gid).3 in
    let passes =
      latest_passes (λ e. e.gid == gid) (Indexes.group_of r) (r.groups.at p)
        (sym behind ∙ rw found) in
    (==_iff _ gid).0 passes

group_of-gid : (r : Repository) (gid : ℕ) → (group_of (rebuild_indexes r) gid).gid ≡ gid
unfolding group_of
group_of-gid r gid = elim (Option-cases ((rebuild_indexes r).id_to_group gid)) [
  | inl absent ↦ ground (arith, absent)
  | inr (p, found) ↦ ground (arith, found, groups-rebuild r, found_gid r gid p found)
]

module _ (r : Repository) where
  -- What a lookup makes of an index's answer.
  abbrev shown : Option EtcPasswdRef → Result User
  shown none = err no_such_user
  shown (some ref) = ok (ref_to_user (rebuild_indexes r) ref)

  ref_to_user-IsUserOf :
      (ref : EtcPasswdRef)
      → IsUserOf (r.passwds.at ref.passwd) (ref_to_user (rebuild_indexes r) ref)
  unfolding ref_to_user ref_and_groups_to_user
  ref_to_user-IsUserOf ref = record {
    name = unfold rebuild_indexes in refl;
    display_name = unfold rebuild_indexes in refl;
    uid = unfold rebuild_indexes in refl;
    gid = group_of-gid r _ ∙ unfold rebuild_indexes in refl;
    shell = unfold rebuild_indexes in refl;
    home_dir = unfold rebuild_indexes in refl;
  }

  behind-Shows :
      (o : Option EtcPasswdRef) (answer : Result User) (x : Option EtcPasswdEntry)
      → answer ≡ shown o
      → user_behind r.passwds o ≡ x
      → Shows x answer
  behind-Shows none answer x is_answer behind = subst (λ y. Shows y answer) behind is_answer
  behind-Shows (some ref) answer x is_answer behind =
      subst (λ y. Shows y answer) behind
        (ref_to_user (rebuild_indexes r) ref, is_answer, ref_to_user-IsUserOf ref)

  by_name-shown :
      (name : Bytes)
      → lookup_by_name (rebuild_indexes r) name ≡ shown ((rebuild_indexes r).name_to_user name)
  unfolding lookup_by_name
  by_name-shown name = ground arith

  by_id-shown :
      (id : ℕ) → lookup_by_id (rebuild_indexes r) id ≡ shown ((rebuild_indexes r).id_to_user id)
  unfolding lookup_by_id
  by_id-shown id = ground arith

  -- Once the indexes are rebuilt, the lookups by name and by id answer with the last entry that has
  -- the name or the id, field by field and with its group id, and with the error where none has it.
  pub lookup-Shows :
      (name : Bytes) (id : ℕ)
      → Shows
          (latest (λ e. bytes_eq e.name name) (passwd_of r))
          (lookup_by_name (rebuild_indexes r) name)
        × Shows (latest (λ e. e.uid == id) (passwd_of r)) (lookup_by_id (rebuild_indexes r) id)
  lookup-Shows name id =
      let (by_name, by_id, _, _) = rebuild_indexes-latest r name id in
      (behind-Shows _ _ _ (by_name-shown name) by_name, behind-Shows _ _ _ (by_id-shown id) by_id)
