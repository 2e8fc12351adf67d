-- ===== src/User/Requirement/Defaults.antt =====
-- What the defaults of a requirement guarantee, and how requirements are compared.
use bifroest.Prelude.{◌≡◌, false, [], arith}
use bifroest.User.Requirement.{Requirement, groups_is_equal_to, is_equal_to}

-- Two requirements that name no further groups are never equal, not even a requirement and itself.
pub is_equal_to-no_groups :
    (a b : Requirement) → a.groups ≡ [] → b.groups ≡ [] → is_equal_to a b ≡ false
unfolding is_equal_to groups_is_equal_to
is_equal_to-no_groups a b ha hb = ground arith
