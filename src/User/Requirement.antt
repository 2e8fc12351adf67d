-- ===== src/User/Requirement.antt =====
-- pkg/user/requirement_unix.go and pkg/user/group-requirement_unix.go: what a user or a group has
-- to be like. An empty text and an absent id leave the choice to the repository.
pub mod Defaults
use bifroest.Prelude.{
  ℕ, Bool, true, false, not, ◌&&◌, ◌||◌, List, [], ◌∷◌, ◌++◌, map, reverse, Option, none, some,
  Bytes, codes, bytes_eq, is_empty, length, ◌==◌, if◌then◌else◌,
}
use bifroest.User.Columns.{split, join, format_uint}
use bifroest.User.Passwd.{EtcPasswdEntry}
use bifroest.User.Group.{EtcGroupEntry}

pub record GroupRequirement : Type 0 where
  pub gid : Option ℕ
  pub name : Bytes

pub record Requirement : Type 0 where
  pub name : Bytes
  pub display_name : Bytes
  pub uid : Option ℕ
  pub group : GroupRequirement
  pub groups : List GroupRequirement
  pub shell : Bytes
  pub home_dir : Bytes
  pub skel : Bytes

abbrev pub default_group_name : Bytes
default_group_name = codes "bifroest"

-- `fmt.Sprintf("u%d", …)` and `fmt.Sprintf("g%d", …)`
abbrev pub u_name : ℕ → Bytes
u_name n = b'u' ∷ format_uint n

abbrev pub g_name : ℕ → Bytes
g_name n = b'g' ∷ format_uint n

-- `IdEqualsP` and `GroupIdEqualsP`
unfoldable pub id_equals_p : Option ℕ → Option ℕ → Bool
id_equals_p none none = true
id_equals_p (some a) (some b) = a == b
id_equals_p _ _ = false

unfoldable pub group_is_zero : GroupRequirement → Bool
group_is_zero r = elim r.gid [ none ↦ is_empty r.name | some g ↦ false ]

unfoldable pub group_or_defaults : GroupRequirement → GroupRequirement
group_or_defaults r = elim r.gid [
  | none ↦ r
  | some g ↦ if is_empty r.name then record r { name = g_name g } else r
]

-- `OrDefaultsForUser`; no user is given where a group is ensured for itself.
unfoldable pub group_or_defaults_for_user : GroupRequirement → Option Bytes → GroupRequirement
unfolding group_or_defaults
group_or_defaults_for_user r for_user =
    let result = group_or_defaults r in
    elim for_user [
      | none ↦ result
      | some user_name ↦ elim result.gid [
        | none ↦ if is_empty result.name then record result { name = user_name } else result
        | some g ↦ result
      ]
    ]

unfoldable pub group_is_equal_to : GroupRequirement → GroupRequirement → Bool
unfolding id_equals_p
group_is_equal_to a b = id_equals_p a.gid b.gid && bytes_eq a.name b.name

-- The loop of `GroupRequirements.isEqualTo`, over two lists of one length.
some_equal : List GroupRequirement → List GroupRequirement → Bool
some_equal (a ∷ as') (b ∷ bs) =
    let rest = some_equal as' bs in if group_is_equal_to a b then true else rest
some_equal _ _ = false

-- `GroupRequirements.isEqualTo`
unfoldable pub groups_is_equal_to : List GroupRequirement → List GroupRequirement → Bool
unfolding some_equal
groups_is_equal_to as' bs = if not (length as' == length bs) then false else some_equal as' bs

-- `Requirement.isEqualTo`
unfoldable pub is_equal_to : Requirement → Requirement → Bool
is_equal_to a b =
    bytes_eq a.name b.name
    && bytes_eq a.display_name b.display_name
    && id_equals_p a.uid b.uid
    && group_is_equal_to a.group b.group
    && groups_is_equal_to a.groups b.groups
    && bytes_eq a.shell b.shell
    && bytes_eq a.home_dir b.home_dir
    && bytes_eq a.skel b.skel

abbrev drop_first : List Bytes → List Bytes
drop_first [] = []
drop_first (p ∷ ps) = ps

-- `filepath.Join("/home", name)`: the path `/home/…` with its `.`, `..` and empty parts resolved.
-- The parts so far are kept last first.
clean_parts : List Bytes → List Bytes → List Bytes
clean_parts done [] = done
clean_parts done (p ∷ ps) =
    clean_parts
      (if is_empty p || bytes_eq p (codes ".")
        then done
        else if bytes_eq p (codes "..")
        then drop_first done
        else p ∷ done)
      ps

join_home : Bytes → Bytes
join_home name = b'/' ∷ join b'/' (reverse (clean_parts (codes "home" ∷ []) (split b'/' name)))

unfoldable pub or_defaults : Requirement → Requirement
unfolding join_home clean_parts group_is_zero
or_defaults r =
    let name =
      if is_empty r.name then elim r.uid [ none ↦ r.name | some u ↦ u_name u ] else r.name in
    record r {
      name = name;
      home_dir = if is_empty r.home_dir && not (is_empty name) then join_home name else r.home_dir;
      group = if group_is_zero r.group then record { gid = none; name = r.name } else r.group;
      groups =
          if is_empty r.groups
          then record { gid = none; name = default_group_name } ∷ []
          else r.groups;
    }

abbrev pub is_given : Option ℕ → Bool
is_given none = false
is_given (some n) = true

-- An absent id is met by every id.
abbrev pub meets : Option ℕ → ℕ → Bool
meets none actual = true
meets (some n) actual = n == actual

unfoldable pub does_fulfil_ref : Requirement → EtcPasswdEntry → Bool
does_fulfil_ref r e =
    if is_empty r.name && not (is_given r.uid)
    then false
    else (is_empty r.name || bytes_eq r.name e.name)
      && bytes_eq r.display_name e.geocs
      && meets r.uid e.uid
      && bytes_eq r.shell e.shell
      && bytes_eq r.home_dir e.home_dir

unfoldable pub group_does_fulfil_ref : GroupRequirement → EtcGroupEntry → Bool
group_does_fulfil_ref r e =
    if is_empty r.name && not (is_given r.gid)
    then false
    else meets r.gid e.gid && (is_empty r.name || bytes_eq r.name e.name)
