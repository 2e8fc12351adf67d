-- ===== src/User/Group/Members.antt =====
-- Membership after `addUniqueUserName` and `removeUserName`.
use bifroest.Prelude.{
  ℕ, ◌+◌, ◌≡◌, refl, false, List, [], ◌∷◌, ◌++◌, Bytes, bytes_eq, bytes_eq_iff, if◌then◌else◌,
  arith,
}
use bifroest.User.Group.{
  EtcGroupEntry, contains, delete_all, add_unique_user_name, remove_user_name,
}

-- How often a name stands in a list.
pub occurrences : Bytes → List Bytes → ℕ
occurrences name [] = 0
occurrences name (n ∷ ns) = (if bytes_eq n name then 1 else 0) + occurrences name ns

occurrences-contains :
    (name : Bytes) (ns : List Bytes) → contains ns name ≡ false → occurrences name ns ≡ 0
unfolding contains occurrences
occurrences-contains name [] h = refl
occurrences-contains name (n ∷ ns) h = ground (arith, occurrences-contains name ns)

occurrences-append :
    (name other : Bytes) (ns : List Bytes)
    → occurrences other (ns ++ name ∷ [])
      ≡ occurrences other ns + (if bytes_eq name other then 1 else 0)
unfolding occurrences
occurrences-append name other [] = ground arith
occurrences-append name other (n ∷ ns) = ground (arith, occurrences-append name other ns)

occurrences-delete_all :
    (name other : Bytes) (ns : List Bytes)
    → occurrences other (delete_all ns name)
      ≡ (if bytes_eq name other then 0 else occurrences other ns)
unfolding occurrences delete_all
occurrences-delete_all name other [] = ground arith
occurrences-delete_all name other (n ∷ ns) = ground (
  arith,
  occurrences-delete_all name other ns,
  bytes_eq_iff n name,
  bytes_eq_iff n other,
  bytes_eq_iff name other,
)

-- Adding a user name leaves every other name as often as it was, adds the name once where it was
-- missing, and changes nothing where it was there.
pub occurrences-add :
    (e : EtcGroupEntry) (name other : Bytes)
    → occurrences other (add_unique_user_name e name).user_names ≡ (
        if bytes_eq name other
        then (if contains e.user_names name then occurrences name e.user_names else 1)
        else occurrences other e.user_names)
unfolding add_unique_user_name
occurrences-add e name other = ground (
  arith,
  bytes_eq_iff name other,
  occurrences-append name other e.user_names,
  occurrences-contains name e.user_names,
)

-- Removing a user name leaves no occurrence of it, and every other name as often as it was.
pub occurrences-remove :
    (e : EtcGroupEntry) (name other : Bytes)
    → occurrences other (remove_user_name e name).user_names
      ≡ (if bytes_eq name other then 0 else occurrences other e.user_names)
unfolding remove_user_name
occurrences-remove e name other = occurrences-delete_all name other e.user_names
