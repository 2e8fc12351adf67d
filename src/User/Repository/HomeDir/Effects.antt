-- ===== src/User/Repository/HomeDir/Effects.antt =====
-- What the home directories and the processes of users are exposed to.
use bifroest.Prelude.{
  ℕ, ◌≡◌, refl, sym, ap, append-nil, List, [], ◌∷◌, ◌++◌, ◌⊎◌, inl, inr, none, Bytes, arith, ok,
  err, if◌then◌else◌, All, ◌==◌,
}
use bifroest.User.Passwd.{EtcPasswdEntry}
use bifroest.User.Repository.State.{Effect, kill, Repository, home_dir_exists}
use bifroest.User.Repository.Options.{fail}
use bifroest.User.Repository.HomeDir.{
  System, Process, is_dir, is_file, existing_home_dir_check, perform, create_home_dir,
  move_home_dir, kill_each, kill_all_of,
}

check_kept :
    (sys : System) (e : EtcPasswdEntry) (home_dir : Bytes) (r : Repository)
    → (sys.stat r.effects home_dir ≡ is_dir) ⊎ (sys.stat r.effects home_dir ≡ is_file)
    → existing_home_dir_check sys e home_dir fail r ≡ (r, err home_dir_exists)
unfolding existing_home_dir_check
check_kept sys e home_dir r (inl dir) = ground (arith, dir)
check_kept sys e home_dir r (inr file) = ground (arith, file)

-- In the mode `fail`, something that stands where a home directory is to be created or moved to is an
-- error, and nothing at all is done to the system.
pub home_dir-kept :
    (sys : System) (e : EtcPasswdEntry) (skel old_home_dir home_dir : Bytes) (r : Repository)
    → (sys.stat r.effects home_dir ≡ is_dir) ⊎ (sys.stat r.effects home_dir ≡ is_file)
    → (create_home_dir sys e skel home_dir fail r ≡ (r, err home_dir_exists))
      × (move_home_dir sys e old_home_dir home_dir fail r ≡ (r, err home_dir_exists))
unfolding create_home_dir move_home_dir
home_dir-kept sys e skel old_home_dir home_dir r there =
    let kept = check_kept sys e home_dir r there in (ground (arith, kept), ground (arith, kept))

-- Whom the kill signals of a user go to: every process whose first id is the user's.
unfoldable pub victims : ℕ → List Process → List Effect
victims uid [] = []
victims uid (p ∷ ps) = elim p.uids [
  | err code ↦ victims uid ps
  | ok [] ↦ victims uid ps
  | ok (u ∷ us) ↦ if u == uid then kill p.pid ∷ victims uid ps else victims uid ps
]

-- A process that tells its ids.
abbrev pub IsAnswered : Process → Type 0
IsAnswered p = (us : List ℕ) × (p.uids ≡ ok us)

append-step :
    (before after : List Effect) (e : Effect) → (before ++ e ∷ []) ++ after ≡ before ++ e ∷ after
append-step [] after e = refl
append-step (b ∷ before) after e = ap (λ es. b ∷ es) (append-step before after e)

abbrev done : Repository → Effect → Repository
done r e = record r { effects = r.effects ++ e ∷ [] }

perform_works :
    (sys : System) (e : Effect) (r : Repository)
    → sys.answer r.effects e ≡ none
    → perform sys e r ≡ (done r e, ok tt)
unfolding perform
perform_works sys e r works = rw (works, perform) refl

module _ (sys : System) (works : (es : List Effect) (e : Effect) → sys.answer es e ≡ none) where
  kill_each-victims :
      (uid : ℕ) (ps : List Process) (r : Repository)
      → All IsAnswered ps
      → kill_each sys uid ps r ≡ (record r { effects = r.effects ++ victims uid ps }, ok tt)
  unfolding kill_each victims
  kill_each-victims uid [] r h =
      ap (λ es. (record r { effects = es }, ok tt)) (sym (append-nil r.effects))
  kill_each-victims uid (p ∷ ps) r (([], is_us), h) =
      ground (arith, is_us, kill_each-victims uid ps r h)
  kill_each-victims uid (p ∷ ps) r ((u ∷ us, is_us), h) = ground (
    arith,
    is_us,
    kill_each-victims uid ps r h,
    kill_each-victims uid ps (done r (kill p.pid)) h,
    perform_works sys (kill p.pid) r (works r.effects (kill p.pid)),
    append-step r.effects (victims uid ps) (kill p.pid),
  )

  -- If no call to the system fails, the processes are listed and each tells its ids, exactly those whose
  -- first id is the user's are killed, each once, in the order in which they are listed.
  pub kill_all_of-victims :
      (uid : ℕ) (ps : List Process) (r : Repository)
      → sys.processes r.effects ≡ ok ps
      → All IsAnswered ps
      → kill_all_of sys uid r ≡ (record r { effects = r.effects ++ victims uid ps }, ok tt)
  unfolding kill_all_of
  kill_all_of-victims uid ps r running h = rw (running, kill_all_of) (kill_each-victims uid ps r h)
