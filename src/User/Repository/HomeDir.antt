-- ===== src/User/Repository/HomeDir.antt =====
-- `createHomeDir`, `moveHomeDir`, `existingHomeDirCheck` and `killAllOf` of
-- pkg/user/etc-colon-repository.go, over what the file system and the process table answer.
pub mod Effects
use bifroest.Prelude.{
  ℕ, Bool, true, false, List, [], ◌∷◌, ◌++◌, Option, none, some, Bytes, is_empty, ◌==◌,
  if◌then◌else◌, ok, err,
}
use bifroest.User.Passwd.{EtcPasswdEntry}
use bifroest.User.Repository.State.{
  Effect, remove_all, mkdir_all, mkdir_parent, chown, chown_recursively, copy_skel, rename, kill,
  Repository, home_dir_is_file, home_dir_exists, system_failure, Action, pure, fail, continue,
  ◌>>=◌, ◌>>◌,
}
use bifroest.User.Repository.Options.{OnHomeDirExist, takeover, overwrite}

-- `os.Stat`
pub data Stat : Type 0 where
  absent : Stat
  stat_failed : ℕ → Stat
  is_dir : Stat
  is_file : Stat

-- A process, and the answer to the question for its uids.
pub record Process : Type 0 where
  pub pid : ℕ
  pub uids : bifroest.Prelude.Result ℕ (List ℕ)

-- The answers of the operating system, which may depend on what was done before: the error code of
-- an effect, what stands at a path, and the processes.
pub record System : Type 0 where
  pub answer : List Effect → Effect → Option ℕ
  pub stat : List Effect → Bytes → Stat
  pub processes : List Effect → bifroest.Prelude.Result ℕ (List Process)

module _ (sys : System) where
  unfoldable pub perform : Effect → Action (Unit {0})
  perform e r = elim (sys.answer r.effects e) [
    | none ↦ (record r { effects = r.effects ++ e ∷ [] }, ok tt)
    | some code ↦ (record r { effects = r.effects ++ e ∷ [] }, err (system_failure code))
  ]

  -- The result says whether to go on; whether to log is left out.
  unfoldable pub existing_home_dir_check : EtcPasswdEntry → Bytes → OnHomeDirExist → Action Bool
  existing_home_dir_check e home_dir ohde r = elim (sys.stat r.effects home_dir) [
    | absent ↦ (r, ok true)
    | stat_failed code ↦ (r, err (system_failure code))
    | is_dir ↦ elim ohde [
      | takeover ↦ (do perform (chown_recursively home_dir e.uid e.gid); pure false) r
      | overwrite ↦ (do perform (remove_all home_dir); pure true) r
      | _ ↦ (r, err home_dir_exists)
    ]
    | is_file ↦ elim ohde [
      | takeover ↦ (r, err home_dir_is_file)
      | overwrite ↦ (do perform (remove_all home_dir); pure true) r
      | _ ↦ (r, err home_dir_exists)
    ]
  ]

  -- What `createHomeDir` does where nothing stands in the way.
  unfoldable pub make_home_dir : EtcPasswdEntry → Bytes → Bytes → Action (Unit {0})
  unfolding perform
  make_home_dir e skel home_dir = do
    perform (mkdir_all home_dir)
    perform (chown home_dir e.uid e.gid)
    if is_empty skel then pure tt else perform (copy_skel skel home_dir e.uid e.gid)

  unfoldable pub create_home_dir :
      EtcPasswdEntry → Bytes → Bytes → OnHomeDirExist → Action (Unit {0})
  unfolding existing_home_dir_check make_home_dir
  create_home_dir e skel home_dir ohde = do
    can_continue ← existing_home_dir_check e home_dir ohde
    if can_continue then make_home_dir e skel home_dir else pure tt

  -- The error of making the parent directory is ignored.
  unfoldable pub make_parent : Bytes → Action (Unit {0})
  make_parent home_dir q = (record q { effects = q.effects ++ mkdir_parent home_dir ∷ [] }, ok tt)

  unfoldable pub put_home_dir : EtcPasswdEntry → Bytes → Bytes → Action (Unit {0})
  unfolding perform make_parent
  put_home_dir e old_home_dir new_home_dir = do
    make_parent new_home_dir
    perform (rename old_home_dir new_home_dir)
    perform (chown_recursively new_home_dir e.uid e.gid)

  -- What `moveHomeDir` does where nothing stands in the way: nothing where there is nothing to move.
  unfoldable pub move_if_there : EtcPasswdEntry → Bytes → Bytes → Action (Unit {0})
  unfolding put_home_dir
  move_if_there e old_home_dir new_home_dir r = elim (sys.stat r.effects old_home_dir) [
    | absent ↦ (r, ok tt)
    | stat_failed code ↦ (r, err (system_failure code))
    | _ ↦ put_home_dir e old_home_dir new_home_dir r
  ]

  unfoldable pub move_home_dir : EtcPasswdEntry → Bytes → Bytes → OnHomeDirExist → Action (Unit {0})
  unfolding existing_home_dir_check move_if_there
  move_home_dir e old_home_dir new_home_dir ohde = do
    can_continue ← existing_home_dir_check e new_home_dir ohde
    if can_continue then move_if_there e old_home_dir new_home_dir else pure tt

  unfoldable pub remove_home_dir : Bytes → Action (Unit {0})
  unfolding perform
  remove_home_dir home_dir = perform (remove_all home_dir)

  -- The loop of `killAllOf`: a process belongs to its first uid.
  unfoldable pub kill_each : ℕ → List Process → Action (Unit {0})
  unfolding perform
  kill_each uid [] = pure tt
  kill_each uid (p ∷ ps) =
      let rest = kill_each uid ps in
      elim p.uids [
        | err code ↦ fail (system_failure code)
        | ok [] ↦ rest
        | ok (u ∷ us) ↦ if u == uid then (do perform (kill p.pid); rest) else rest
      ]

  unfoldable pub kill_all_of : ℕ → Action (Unit {0})
  kill_all_of uid r = elim (sys.processes r.effects) [
    | err code ↦ (r, err (system_failure code))
    | ok ps ↦ kill_each uid ps r
  ]
