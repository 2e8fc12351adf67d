-- ===== src/User/Repository/Groups/Met.antt =====
-- What `ensureGroup` promises, and what `updateGroup` leaves in the index by id.
use bifroest.Prelude.{
  ℕ, ◌≡◌, ◌≢◌, refl, true, false, not, ◌&&◌, [], ◌∷◌, ◌++◌, if◌then◌else◌, ◌==◌, Option, none, some,
  Bytes, is_empty, bytes_eq, bytes_eq_iff, arith, Option-cases, Bool-cases, inl, inr, ok, ==_iff,
}
use bifroest.User.Requirement.{
  GroupRequirement, group_or_defaults_for_user, group_does_fulfil_ref, is_given,
}
use bifroest.User.Group.{EtcGroupEntry}
use bifroest.User.Repository.State.{Repository, Result}
use bifroest.User.Repository.Lookup.{
  Group, ref_to_group, lookup_group_by_id, lookup_group_by_requirement, next_gid,
}
use bifroest.User.Repository.Options.{
  EnsureOpts, is_create_allowed, is_modify_allowed, EnsureResult, unchanged, modified, created,
}
use bifroest.User.Repository.Groups.{
  PreGroup, fulfilled, unknown, pre_ensure_group, to_etc_group_entry, create_group,
  update_etc_group_entry, update_group, finish_group, ensure_group,
}

bytes_eq_self : (x : Bytes) → bytes_eq x x ≡ true
bytes_eq_self x = (bytes_eq_iff x x).1 refl

-- The new entry, and the changed one.
entry_met :
    (req : GroupRequirement) (generated : ℕ) (e : EtcGroupEntry)
    → is_empty req.name && not (is_given req.gid) ≡ false
    → (group_does_fulfil_ref req (to_etc_group_entry req generated) ≡ true)
      × (group_does_fulfil_ref req (update_etc_group_entry req e) ≡ true)
unfolding group_does_fulfil_ref to_etc_group_entry update_etc_group_entry
entry_met req generated e h = elim (Option-cases req.gid) [
  | inl no_gid ↦ (
    ground (arith, no_gid, h, bytes_eq_self req.name),
    ground (arith, no_gid, h, bytes_eq_self req.name),
  )
  | inr (g, gid) ↦ (
    ground (arith, gid, h, bytes_eq_self req.name),
    ground (arith, gid, h, bytes_eq_self req.name),
  )
]

-- What is noted: nothing where the group was as required; no other list of entries where it is
-- changed; and where it is new, a new entry at the end of the list and in both indexes.
abbrev pub IsNoted : EnsureResult → Repository → Repository → ℕ → Group → Type 0
IsNoted unchanged before r p g = r ≡ before
IsNoted modified before r p g = r.group_entries ≡ before.group_entries
IsNoted created before r p g =
    (p ≡ before.groups.next)
    × (r.group_entries ≡ (before.group_entries ++ record { entry = some p; raw_line = [] } ∷ []))
    × (r.name_to_group g.name ≡ some p)
    × (r.id_to_group g.gid ≡ some p)

-- What it is to have made sure of a group: there is an entry as required, the lookup by the
-- requirement leads to it, the answer shows it, it is noted, and no other group is another one.
pub record IsMet (req : GroupRequirement) (before r : Repository) (p : ℕ) (g : Group)
    (res : EnsureResult) : Type 0 where
  pub fulfils : group_does_fulfil_ref req (r.groups.at p) ≡ true
  pub found : lookup_group_by_requirement r req ≡ some p
  pub shown : g ≡ ref_to_group r p
  pub noted : IsNoted res before r p g
  pub others : (q : ℕ) → r.groups.at q ≡ (if p == q then r.groups.at p else before.groups.at q)

-- The outcome of an action: a repository and a group that is as required.
abbrev pub Meets :
    GroupRequirement → Repository → Repository × Result (ℕ × Group × EnsureResult) → Type 0
Meets req before outcome =
    (r : Repository) × (p : ℕ) × (g : Group) × (res : EnsureResult) × (outcome
      ≡ (r, ok (p, g, res)))
    × IsMet req before r p g res

fulfilled-Meets :
    (req : GroupRequirement) (r : Repository) (p : ℕ)
    → lookup_group_by_requirement r req ≡ some p
    → group_does_fulfil_ref req (r.groups.at p) ≡ true
    → Meets req r (finish_group req (fulfilled p) r)
unfolding finish_group
fulfilled-Meets req r p found h = (
  r,
  p,
  ref_to_group r p,
  _,
  refl,
  record { fulfils = h; found = found; shown = refl; noted = refl; others = λ q. ground arith },
)

-- A new group is found by its name, or by its id if the requirement has no name.
created-found :
    (req : GroupRequirement) (r : Repository)
    → is_empty req.name && not (is_given req.gid) ≡ false
    → lookup_group_by_requirement (create_group req r).0 req ≡ some r.groups.next
unfolding create_group lookup_group_by_requirement to_etc_group_entry
created-found req r h = elim (Option-cases req.gid) [
  | inl no_gid ↦ ground (arith, no_gid, h, bytes_eq_self req.name)
  | inr (g, gid) ↦ ground (arith, gid, h, bytes_eq_self req.name)
]

created-Meets :
    (req : GroupRequirement) (r : Repository)
    → is_empty req.name && not (is_given req.gid) ≡ false
    → Meets req r (create_group req r)
unfolding create_group ref_to_group
created-Meets req r h =
    let e = to_etc_group_entry req (next_gid r) in
    let same = (==_iff r.groups.next r.groups.next).1 refl in
    let same_gid = (==_iff e.gid e.gid).1 refl in
    (
      _,
      _,
      _,
      _,
      refl,
      record {
        fulfils = rw same (entry_met req (next_gid r) (r.groups.at 0) h).0;
        found = created-found req r h;
        shown = refl;
        noted = (refl, refl, rw same (rw (bytes_eq_self e.name) refl), rw same (rw same_gid refl));
        others = λ q. ground (arith, same);
      },
    )

-- A changed group is found as it was.
updated-found :
    (req : GroupRequirement) (r : Repository) (p : ℕ)
    → lookup_group_by_requirement r req ≡ some p
    → lookup_group_by_requirement (update_group req p r).0 req ≡ some p
unfolding update_group lookup_group_by_requirement update_etc_group_entry
updated-found req r p found = elim (Option-cases req.gid) [
  | inl no_gid ↦ ground (arith, no_gid, found, bytes_eq_self req.name)
  | inr (g, gid) ↦ ground (arith, gid, found, bytes_eq_self req.name)
]

updated-Meets :
    (req : GroupRequirement) (r : Repository) (p : ℕ)
    → lookup_group_by_requirement r req ≡ some p
    → is_empty req.name && not (is_given req.gid) ≡ false
    → Meets req r (update_group req p r)
unfolding update_group ref_to_group
updated-Meets req r p found h =
    let same = (==_iff p p).1 refl in
    (
      _,
      _,
      _,
      _,
      refl,
      record {
        fulfils = rw same (entry_met req 0 (r.groups.at p) h).1;
        found = updated-found req r p found;
        shown = refl;
        noted = refl;
        others = λ q. ground (arith, same);
      },
    )

-- What is found first, where everything is allowed.
abbrev IsSound : GroupRequirement → Repository → PreGroup → Type 0
IsSound req r (fulfilled p) =
    (lookup_group_by_requirement r req ≡ some p)
    × (group_does_fulfil_ref req (r.groups.at p) ≡ true)
IsSound req r (unknown none) = Unit {0}
IsSound req r (unknown (some p)) = lookup_group_by_requirement r req ≡ some p

pre_ensure_group-IsSound :
    (req : GroupRequirement) (r : Repository) (opts : EnsureOpts)
    → is_create_allowed opts ≡ true
    → is_modify_allowed opts ≡ true
    → (pre : PreGroup) × (pre_ensure_group r req opts ≡ ok pre) × IsSound req r pre
unfolding pre_ensure_group
pre_ensure_group-IsSound req r opts create change =
    elim (Option-cases (lookup_group_by_requirement r req)) [
      | inl missing ↦ (unknown none, ground (arith, missing, create, change), tt)
      | inr (p, found) ↦ elim (Bool-cases (group_does_fulfil_ref req (r.groups.at p))) [
        | inl met ↦ (fulfilled p, ground (arith, found, met), (found, met))
        | inr unmet ↦ (unknown (some p), ground (arith, found, unmet, change), found)
      ]
    ]

finish_group-Meets :
    (req : GroupRequirement) (r : Repository) (pre : PreGroup)
    → is_empty req.name && not (is_given req.gid) ≡ false
    → IsSound req r pre
    → Meets req r (finish_group req pre r)
unfolding finish_group
finish_group-Meets req r (fulfilled p) h (found, met) = fulfilled-Meets req r p found met
finish_group-Meets req r (unknown none) h sound = created-Meets req r h
finish_group-Meets req r (unknown (some p)) h found = updated-Meets req r p found h

-- On the repository in memory, where creation and modification are allowed, the step that makes sure
-- of a group whose requirement has, after the defaults, a name or an id always succeeds: the lookup
-- by the requirement then leads to a group that is as required, and the answer shows it; nothing is
-- changed where it was so before; a new group stands at the end of the entries and in both indexes;
-- and all other groups are as they were.
pub ensure_group-Meets :
    (for_user : Option Bytes) (req : GroupRequirement) (opts : EnsureOpts) (r : Repository)
    → is_create_allowed opts ≡ true
    → is_modify_allowed opts ≡ true
    → is_empty (group_or_defaults_for_user req for_user).name
        && not (is_given (group_or_defaults_for_user req for_user).gid)
      ≡ false
    → Meets (group_or_defaults_for_user req for_user) r (ensure_group for_user req opts r)
unfolding ensure_group
ensure_group-Meets for_user req opts r create change h =
    let t_req = group_or_defaults_for_user req for_user in
    let (pre, is_pre, sound) = pre_ensure_group-IsSound t_req r opts create change in
    rw is_pre (finish_group-Meets t_req r pre h sound)

-- After a group was given another id, the lookup by the old id still answers, with the new id.
pub update_group-stale :
    (req : GroupRequirement) (p gid : ℕ) (r : Repository)
    → req.gid ≡ some gid
    → gid ≢ (r.groups.at p).gid
    → r.id_to_group (r.groups.at p).gid ≡ some p
    → (name : Bytes) × (lookup_group_by_id (update_group req p r).0 (r.groups.at p).gid
        ≡ ok (record { gid = gid; name = name }))
unfolding lookup_group_by_id update_group update_etc_group_entry ref_to_group
update_group-stale req p gid r is_gid other known =
    ((update_etc_group_entry req (r.groups.at p)).name, ground (arith, is_gid, other, known))
