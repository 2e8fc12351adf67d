-- ===== src/User/Repository/Ensure/Frozen.antt =====
-- `Ensure` and `EnsureGroup` where nothing is to be modified.
use bifroest.Prelude.{ℕ, ◌≡◌, ◌≢◌, false, inl, inr, Option, arith, Result-cases, ok}
use bifroest.User.Requirement.{Requirement, GroupRequirement, or_defaults, group_or_defaults}
use bifroest.User.Repository.State.{Repository, EtcPasswdRef}
use bifroest.User.Repository.Options.{EnsureOpts, is_modify_allowed}
use bifroest.User.Repository.HomeDir.{System}
use bifroest.User.Repository.Groups
use bifroest.User.Repository.Groups.{pre_ensure_group, ensure_group_by_requirement}
use bifroest.User.Repository.Ensure
use bifroest.User.Repository.Ensure.{is_requirement_fulfilled, ensure_pre_checks, ensure}

module _ (r : Repository) (opts : EnsureOpts) (frozen : is_modify_allowed opts ≡ false) where
  pre_checks-frozen :
      (req : Requirement) (existing : Option EtcPasswdRef)
      → ensure_pre_checks r req opts ≢ ok (Ensure.unknown existing)
  unfolding ensure_pre_checks
  pre_checks-frozen req existing = ground (arith, frozen)

  pre_ensure_group-frozen :
      (req : GroupRequirement) (existing : Option ℕ)
      → pre_ensure_group r req opts ≢ ok (Groups.unknown existing)
  unfolding pre_ensure_group
  pre_ensure_group-frozen req existing = ground (arith, frozen)

  -- Where modifying is not allowed, whether or not creating is, neither a user nor a group is
  -- created or changed: the repository, its files and the system stay as they are.
  pub ensure-frozen :
      (sys : System) (today : ℕ) (req : Requirement) (group_req : GroupRequirement)
      → ((ensure sys today req opts r).0 ≡ r)
        × ((ensure_group_by_requirement group_req opts r).0 ≡ r)
  unfolding ensure ensure_group_by_requirement
  ensure-frozen sys today req group_req = (
    elim (Result-cases (ensure_pre_checks r (or_defaults req) opts)) [
      | inr (e, h) ↦ ground (arith, h)
      | inl (Ensure.fulfilled ref, h) ↦ ground (arith, h)
      | inl (Ensure.unknown existing, h) ↦
          ground (arith, h, pre_checks-frozen (or_defaults req) existing)
    ],
    elim (Result-cases (pre_ensure_group r (group_or_defaults group_req) opts)) [
      | inr (e, h) ↦ ground (arith, h)
      | inl (Groups.fulfilled p, h) ↦ ground (arith, h)
      | inl (Groups.unknown existing, h) ↦
          ground (arith, h, pre_ensure_group-frozen (group_or_defaults group_req) existing)
    ],
  )
