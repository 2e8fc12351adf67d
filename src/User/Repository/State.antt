-- ===== src/User/Repository/State.antt =====
-- The fields of `EtcColonRepository`, the objects that its pointers reach, and actions on them.
use bifroest.Prelude.{
  ℕ, zero, suc, ◌+◌, Bool, true, false, List, [], ◌∷◌, Option, none, some, Bytes, bytes_eq, ◌==◌,
  if◌then◌else◌, ok, err,
}
use bifroest.Prelude
use bifroest.User.Errors.{EtcError}
use bifroest.User.Passwd.{EtcPasswdEntry}
use bifroest.User.Group.{EtcGroupEntry}
use bifroest.User.Shadow.{EtcShadowEntry}
use bifroest.User.Colon.{EtcColonEntry}

-- The objects of one type: what each address holds, and the first address not yet used.
pub record Heap (T : Type 0) : Type 0 where
  pub next : ℕ
  pub at : ℕ → T

module _ {A : Type 0} where
  -- An assignment to one key of a map, and `delete`, for numbers and for texts.
  abbrev pub update : (ℕ → A) → ℕ → A → ℕ → A
  update f k v j = if k == j then v else f j

  abbrev pub update_text : (Bytes → A) → Bytes → A → Bytes → A
  update_text f k v j = if bytes_eq k j then v else f j

  -- `&T{…}`
  abbrev pub alloc : Heap A → A → Heap A
  alloc h x = record { next = h.next + 1; at = update h.at h.next x }

  -- An assignment through a pointer.
  abbrev pub store : Heap A → ℕ → A → Heap A
  store h p x = record h { at = update h.at p x }

-- `etcPasswdRef`: the entry of passwd, and that of shadow if there is one.
pub record EtcPasswdRef : Type 0 where
  pub passwd : ℕ
  pub shadow : Option ℕ

-- What is done to the rest of the system, in the order in which it is attempted.
pub data Effect : Type 0 where
  remove_all : Bytes → Effect
  mkdir_all : Bytes → Effect
  mkdir_parent : Bytes → Effect
  chown : Bytes → ℕ → ℕ → Effect
  chown_recursively : Bytes → ℕ → ℕ → Effect
  copy_skel : Bytes → Bytes → ℕ → ℕ → Effect
  rename : Bytes → Bytes → Effect
  kill : ℕ → Effect

-- `EtcColonRepository` and its handles. Entries are pointers, shared by lists and indexes.
pub record Repository : Type 0 where
  pub allow_bad_name : Bool
  pub allow_bad_line : Bool
  pub passwd_file : Bytes
  pub group_file : Bytes
  pub shadow_file : Bytes
  pub passwds : Heap EtcPasswdEntry
  pub groups : Heap EtcGroupEntry
  pub shadows : Heap EtcShadowEntry
  pub passwd_entries : List (EtcColonEntry ℕ)
  pub group_entries : List (EtcColonEntry ℕ)
  pub shadow_entries : List (EtcColonEntry ℕ)
  pub name_to_user : Bytes → Option EtcPasswdRef
  pub id_to_user : ℕ → Option EtcPasswdRef
  pub name_to_group : Bytes → Option ℕ
  pub id_to_group : ℕ → Option ℕ
  pub username_to_groups : Bytes → Option (List ℕ)
  pub effects : List Effect

pub data RepositoryError : Type 0 where
  no_such_user no_such_group : RepositoryError
  user_does_not_fulfil_requirement group_does_not_fulfil_requirement : RepositoryError
  -- "cannot delete group because it is still used by user %d(%s)"
  group_in_use : ℕ → Bytes → RepositoryError
  in_file : EtcError → RepositoryError
  home_dir_is_file home_dir_exists : RepositoryError
  -- what the file system and the processes answer
  system_failure : ℕ → RepositoryError
  -- a panic
  nil_dereference : RepositoryError
  -- no error of the code: a text for which the model does not say what the scanner's slices hold
  moved_buffer : RepositoryError

abbrev pub Result : Type 0 → Type 0
Result = Prelude.Result RepositoryError

-- What was changed before an error stays changed.
abbrev pub Action : Type 0 → Type 0
Action A = Repository → Repository × Result A

module _ {A : Type 0} where
  abbrev pub pure : A → Action A
  pure a r = (r, ok a)

  abbrev pub fail : RepositoryError → Action A
  fail e r = (r, err e)

  abbrev pub gets : (Repository → A) → Action A
  gets f r = (r, ok (f r))

abbrev pub modify : (Repository → Repository) → Action (Unit {0})
modify f r = (f r, ok tt)

abbrev pub continue : {A B : Type 0} → Result A → (A → Action B) → Action B
continue (ok a) f r = f a r
continue (err e) f r = (r, err e)

infixl 5 ◌>>=◌ ◌>>◌
abbrev pub ◌>>=◌ : {A B : Type 0} → Action A → (A → Action B) → Action B
◌>>=◌ m f r = let (r', a) = m r in continue a f r'

abbrev pub ◌>>◌ : {B : Type 0} → Action (Unit {0}) → Action B → Action B
m >> k = m >>= λ _. k
