-- ===== src/User/Repository/Ensure/Promise.antt =====
-- The user that `Ensure` answers with.
use bifroest.Prelude.{
  ℕ, ◌≡◌, refl, sym, subst, true, false, not, ◌&&◌, List, Option, none, some, Bytes, bytes_eq,
  bytes_eq_iff, arith, Option-cases, inl, inr, ok, err, is_empty, if◌then◌else◌, Result-cases,
  ==_iff,
}
use bifroest.User.Passwd.{EtcPasswdEntry}
use bifroest.User.Requirement.{Requirement, or_defaults, does_fulfil_ref, meets}
use bifroest.User.Repository.State.{
  Heap, Repository, EtcPasswdRef, Result, Action, continue, pure, modify, store, ◌>>◌,
}
use bifroest.User.Repository.Load.{save, open_and_load}
use bifroest.User.Repository.Options.{
  EnsureOpts, EnsureResult, unchanged, modified, created, is_home_dir, get_on_home_dir_exist,
}
use bifroest.User.Repository.HomeDir.{System, create_home_dir, move_home_dir}
use bifroest.User.Repository.Lookup.{
  group_of, groups_of, lookup_by_requirement, Group, User, ref_to_user, ref_and_groups_to_user,
  next_uid,
}
use bifroest.User.Repository.Groups.{ensure_group, ensure_groups}
use bifroest.User.Repository.Accounts.{
  to_etc_passwd_entry, to_etc_shadow_entry, created_user, update_etc_passwd_entry, updated_user,
  rename_shadow,
}
use bifroest.User.Repository.Ensure.{
  PreCheck, fulfilled, unknown, is_requirement_fulfilled, ensure_pre_checks, create_user,
  modify_user, finish_user, ensure_locked, ensure,
}
use bifroest.User.Repository.Ensure.Keeps.{
  Keeps, Gives, continue-Gives, kept-Gives, answers, if-Keeps, save-Keeps, create_home_dir-Keeps,
  move_home_dir-Keeps, rename_shadow-Keeps,
}

-- A user, by his name, display name, shell, home directory and id, is as required.
pub record IsAsRequired (req : Requirement) (n d s h : Bytes) (uid : ℕ) : Type 0 where
  pub named : is_empty req.name ≡ false → n ≡ req.name
  pub displayed : d ≡ req.display_name
  pub shell : s ≡ req.shell
  pub home : h ≡ req.home_dir
  pub id : meets req.uid uid ≡ true

abbrev IsGoodEntry : Requirement → EtcPasswdEntry → Type 0
IsGoodEntry req e = IsAsRequired req e.name e.geocs e.shell e.home_dir e.uid

abbrev pub IsGoodUser : Requirement → User → Type 0
IsGoodUser req u = IsAsRequired req u.name u.display_name u.shell u.home_dir u.uid

abbrev IsGood : Requirement → User × EnsureResult → Type 0
IsGood req answer = IsGoodUser req answer.0

module _ (req : Requirement) (ref : EtcPasswdRef) (group : Group) (groups : List Group) where
  shown-IsGood :
      (q : Repository)
      → IsGoodEntry req (q.passwds.at ref.passwd)
      → IsGoodUser req (ref_and_groups_to_user q ref group groups)
  unfolding ref_and_groups_to_user
  shown-IsGood q good = good

  -- The end of `Ensure`: to save, to see to the home directory, and to answer.
  saved-IsGood :
      (home : Action (Unit {0})) (res : EnsureResult) (h : Heap EtcPasswdEntry) (r : Repository)
      → Keeps home
      → r.passwds ≡ h
      → IsGoodEntry req (h.at ref.passwd)
      → Gives
          (IsGood req)
          ((save >> (home >> (λ q. (q, ok (ref_and_groups_to_user q ref group groups, res))))) r)
  saved-IsGood home res h r keeps same good =
      kept-Gives (IsGood req) h save
        (λ _. home >> (λ q. (q, ok (ref_and_groups_to_user q ref group groups, res)))) r save-Keeps
        same
        (λ _ q same'.
          kept-Gives (IsGood req) h home
            (λ _ q'. (q', ok (ref_and_groups_to_user q' ref group groups, res))) q keeps same'
            (λ _ q' same'' a is_a.
              subst (λ x. IsGood req x)
                (answers q' (ref_and_groups_to_user q' ref group groups, res) a is_a)
                (shown-IsGood q'
                  (subst (λ x. IsGoodEntry req (x.at ref.passwd)) (sym same'') good))))

created-IsGood :
    (req : Requirement) (gid generated : ℕ)
    → IsGoodEntry req (to_etc_passwd_entry req gid generated)
unfolding to_etc_passwd_entry
created-IsGood req gid generated = record {
  named = λ given. ground (arith, given);
  displayed = refl;
  shell = refl;
  home = refl;
  id = ground arith;
}

updated-IsGood :
    (req : Requirement) (gid : ℕ) (e : EtcPasswdEntry)
    → IsGoodEntry req (update_etc_passwd_entry req gid e)
unfolding update_etc_passwd_entry
updated-IsGood req gid e = record {
  named = λ given. ground (arith, given);
  displayed = refl;
  shell = refl;
  home = refl;
  id = ground arith;
}

fulfilled-IsGood :
    (req : Requirement) (e : EtcPasswdEntry) → does_fulfil_ref req e ≡ true → IsGoodEntry req e
unfolding does_fulfil_ref
fulfilled-IsGood req e h = record {
  named = λ given. ground (arith, h, given, bytes_eq_iff req.name e.name);
  displayed = ground (arith, h, bytes_eq_iff req.display_name e.geocs);
  shell = ground (arith, h, bytes_eq_iff req.shell e.shell);
  home = ground (arith, h, bytes_eq_iff req.home_dir e.home_dir);
  id = ground (arith, h);
}

create_user-IsGood :
    (sys : System) (today : ℕ) (req : Requirement) (opts : EnsureOpts) (group : Group)
    (group_refs : List ℕ) (groups : List Group) (r : Repository)
    → Gives (IsGood req) (create_user sys today req opts group group_refs groups r)
unfolding create_user
create_user-IsGood sys today req opts group group_refs groups r =
    let e = to_etc_passwd_entry req group.gid (next_uid r) in
    let r' = created_user r e (to_etc_shadow_entry e.name today) group_refs in
    let wanted = not (is_empty e.home_dir) && is_home_dir opts in
    let make = create_home_dir sys e req.skel e.home_dir (get_on_home_dir_exist opts) in
    saved-IsGood req (record { passwd = r.passwds.next; shadow = some r.shadows.next }) group groups
      (if wanted then make else pure tt) created r'.passwds r'
      (if-Keeps wanted make (pure tt)
        (create_home_dir-Keeps sys e req.skel e.home_dir (get_on_home_dir_exist opts)) (λ q. refl))
      refl
      (rw ((==_iff r.passwds.next r.passwds.next).1 refl)
        (created-IsGood req group.gid (next_uid r)))

modify_user-IsGood :
    (sys : System) (req : Requirement) (opts : EnsureOpts) (ref : EtcPasswdRef) (group : Group)
    (group_refs : List ℕ) (groups : List Group) (r : Repository)
    → Gives (IsGood req) (modify_user sys req opts ref group group_refs groups r)
unfolding modify_user updated_user
modify_user-IsGood sys req opts ref group group_refs groups r =
    let old = r.passwds.at ref.passwd in
    let new = update_etc_passwd_entry req group.gid old in
    let h = store r.passwds ref.passwd new in
    let r' = record r { passwds = h } in
    let wanted = not (bytes_eq old.home_dir new.home_dir) && is_home_dir opts in
    let move = move_home_dir sys new old.home_dir new.home_dir (get_on_home_dir_exist opts) in
    let home : Action (Unit {0}) = if wanted then move else pure tt in
    let answer : Action (User × EnsureResult) =
      λ q. (q, ok (ref_and_groups_to_user q ref group groups, modified)) in
    let update : Action (Unit {0}) = modify (λ q. updated_user q ref old new group_refs) in
    kept-Gives (IsGood req) h (rename_shadow req ref new.name)
      (λ _. update >> (save >> (home >> answer))) r' (rename_shadow-Keeps req ref new.name) refl
      (λ _ q same.
        kept-Gives (IsGood req) h update (λ _. save >> (home >> answer)) q (λ _. refl) same
          (λ _ q' same'.
            saved-IsGood req ref group groups home modified h q'
              (if-Keeps wanted move (pure tt)
                (move_home_dir-Keeps sys new old.home_dir new.home_dir (get_on_home_dir_exist opts))
                (λ p. refl))
              same'
              (rw ((==_iff ref.passwd ref.passwd).1 refl) (updated-IsGood req group.gid old))))

pre_checks_sound :
    (r : Repository) (req : Requirement) (opts : EnsureOpts) (ref : EtcPasswdRef)
    → ensure_pre_checks r req opts ≡ ok (fulfilled ref)
    → does_fulfil_ref req (r.passwds.at ref.passwd) ≡ true
unfolding ensure_pre_checks is_requirement_fulfilled
pre_checks_sound r req opts ref h = elim (Option-cases (lookup_by_requirement r req)) [
  | inl missing ↦ ground (arith, h, missing)
  | inr (found, is_found) ↦ ground (arith, h, is_found)
]

-- What the checks have found is sound.
abbrev IsSound : Requirement → Repository → PreCheck → Type 0
IsSound req r (fulfilled ref) = does_fulfil_ref req (r.passwds.at ref.passwd) ≡ true
IsSound req r (unknown existing) = Unit {0}

checked-IsSound :
    (r : Repository) (req : Requirement) (opts : EnsureOpts) (pre : PreCheck)
    → ensure_pre_checks r req opts ≡ ok pre
    → IsSound req r pre
checked-IsSound r req opts (fulfilled ref) h = pre_checks_sound r req opts ref h
checked-IsSound r req opts (unknown existing) h = tt

unchanged-IsGood :
    (req : Requirement) (ref : EtcPasswdRef) (r : Repository)
    → does_fulfil_ref req (r.passwds.at ref.passwd) ≡ true
    → Gives (IsGood req) (pure (ref_to_user r ref, unchanged) r)
unfolding ref_to_user
unchanged-IsGood req ref r fulfils a is_a =
    subst (λ x. IsGood req x) (answers r (ref_to_user r ref, unchanged) a is_a)
      (shown-IsGood req ref (group_of r (r.passwds.at ref.passwd).gid)
        (groups_of r (r.passwds.at ref.passwd).name) r
        (fulfilled-IsGood req (r.passwds.at ref.passwd) fulfils))

module _ (sys : System) (today : ℕ) (req : Requirement) (opts : EnsureOpts) where
  changed-IsGood :
      (existing : Option EtcPasswdRef) (group : Group) (gs : List ℕ × List Group) (r : Repository)
      → Gives (IsGood req) (
          (elim existing as (λ _. Action (User × EnsureResult)) [
            | none ↦ create_user sys today req opts group gs.0 gs.1
            | some ref ↦ modify_user sys req opts ref group gs.0 gs.1
          ])
            r)
  changed-IsGood none group gs r = create_user-IsGood sys today req opts group gs.0 gs.1 r
  changed-IsGood (some ref) group gs r = modify_user-IsGood sys req opts ref group gs.0 gs.1 r

  finish_user-IsGood :
      (pre : PreCheck) (r : Repository)
      → IsSound req r pre
      → Gives (IsGood req) (finish_user sys today req opts pre r)
  unfolding finish_user
  finish_user-IsGood (fulfilled ref) r sound = unchanged-IsGood req ref r sound
  finish_user-IsGood (unknown existing) r sound =
      let (r', g) = ensure_group (some req.name) req.group opts r in
      continue-Gives (IsGood req) g _ r' (λ a.
        let (r'', gs) = ensure_groups req.groups opts r' in
        continue-Gives (IsGood req) gs _ r'' (λ b. changed-IsGood existing a.1 b r''))

  checked-IsGood :
      (r : Repository)
      → Gives
          (IsGood req)
          (continue (ensure_pre_checks r req opts) (finish_user sys today req opts) r)
  checked-IsGood r = elim (Result-cases (ensure_pre_checks r req opts)) [
    | inl (pre, is_pre) ↦
        rw is_pre (finish_user-IsGood pre r (checked-IsSound r req opts pre is_pre))
    | inr (e, is_e) ↦ rw is_e (λ a is_a. cc)
  ]

  locked-IsGood : (r : Repository) → Gives (IsGood req) (ensure_locked sys today req opts r)
  unfolding ensure_locked
  locked-IsGood r =
      let (r', loaded) = open_and_load r in
      continue-Gives (IsGood req) loaded _ r' (λ _. checked-IsGood r')

  ensured-IsGood :
      (r : Repository)
      → Gives
          (IsGood req)
          (elim (ensure_pre_checks r req opts) as (λ _. Repository × Result (User × EnsureResult)) [
            | err e ↦ (r, err e)
            | ok (fulfilled ref) ↦ (r, ok (ref_to_user r ref, unchanged))
            | ok (unknown existing) ↦ ensure_locked sys today req opts r
          ])
  ensured-IsGood r = elim (Result-cases (ensure_pre_checks r req opts)) [
    | inl (fulfilled ref, h) ↦ rw h (unchanged-IsGood req ref r (pre_checks_sound r req opts ref h))
    | inl (unknown existing, h) ↦ rw h (locked-IsGood r)
    | inr (e, h) ↦ rw h (λ a is_a. cc)
  ]

-- Whenever ensuring a user succeeds, whether he was there, is changed or is created, the answer has
-- the name and the id that the requirement, after its defaults, asks for, where it asks for them, and
-- its display name, shell and home directory.
pub ensure-IsAsRequired :
    (sys : System) (today : ℕ) (req : Requirement) (opts : EnsureOpts) (r : Repository) (u : User)
    (res : EnsureResult)
    → (ensure sys today req opts r).1 ≡ ok (u, res)
    → IsGoodUser (or_defaults req) u
unfolding ensure
ensure-IsAsRequired sys today req opts r u res h =
    ensured-IsGood sys today (or_defaults req) opts r (u, res) h
