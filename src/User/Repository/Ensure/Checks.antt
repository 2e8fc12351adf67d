-- ===== src/User/Repository/Ensure/Checks.antt =====
-- What `Ensure` writes into passwd, against `Requirement.doesFulfilRef`.
use bifroest.Prelude.{
  ℕ, ◌≡◌, refl, true, false, not, ◌&&◌, List, none, Bytes, is_empty, bytes_eq, bytes_eq_iff, arith,
  Option-cases, inl, inr, err,
}
use bifroest.User.Passwd.{EtcPasswdEntry}
use bifroest.User.Requirement.{Requirement, does_fulfil_ref, is_given}
use bifroest.User.Repository.State.{Repository, nil_dereference}
use bifroest.User.Repository.Options.{EnsureOpts}
use bifroest.User.Repository.HomeDir.{System}
use bifroest.User.Repository.Lookup.{Group}
use bifroest.User.Repository.Accounts.{to_etc_passwd_entry, update_etc_passwd_entry, rename_shadow}
use bifroest.User.Repository.Ensure.{modify_user}

bytes_eq_self : (x : Bytes) → bytes_eq x x ≡ true
bytes_eq_self x = (bytes_eq_iff x x).1 refl

-- For a requirement with a name or an id, what is written for a new user and what an existing user
-- is changed into are both as required.
pub entries-fulfil :
    (req : Requirement) (gid generated : ℕ) (e : EtcPasswdEntry)
    → is_empty req.name && not (is_given req.uid) ≡ false
    → (does_fulfil_ref req (to_etc_passwd_entry req gid generated) ≡ true)
      × (does_fulfil_ref req (update_etc_passwd_entry req gid e) ≡ true)
unfolding does_fulfil_ref to_etc_passwd_entry update_etc_passwd_entry
entries-fulfil req gid generated e h = elim (Option-cases req.uid) [
  | inl no_uid ↦ (
    ground (
      arith,
      no_uid,
      h,
      bytes_eq_self req.name,
      bytes_eq_self req.display_name,
      bytes_eq_self req.shell,
      bytes_eq_self req.home_dir,
    ),
    ground (
      arith,
      no_uid,
      h,
      bytes_eq_self req.name,
      bytes_eq_self req.display_name,
      bytes_eq_self req.shell,
      bytes_eq_self req.home_dir,
    ),
  )
  | inr (u, uid) ↦ (
    ground (
      arith,
      uid,
      h,
      bytes_eq_self req.name,
      bytes_eq_self req.display_name,
      bytes_eq_self req.shell,
      bytes_eq_self req.home_dir,
    ),
    ground (
      arith,
      uid,
      h,
      bytes_eq_self req.name,
      bytes_eq_self req.display_name,
      bytes_eq_self req.shell,
      bytes_eq_self req.home_dir,
    ),
  )
]

-- Changing a user who has no entry in shadow, on a requirement that names him, ends in a panic.
pub modify_user-panics :
    (sys : System) (req : Requirement) (opts : EnsureOpts) (p : ℕ) (group : Group)
    (group_refs : List ℕ) (groups : List Group) (r : Repository)
    → is_empty req.name ≡ false
    → (modify_user sys req opts (record { passwd = p; shadow = none }) group group_refs groups r).1
      ≡ err nil_dereference
unfolding modify_user rename_shadow
modify_user-panics sys req opts p group group_refs groups r h = rw h refl
