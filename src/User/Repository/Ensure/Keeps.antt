-- ===== src/User/Repository/Ensure/Keeps.antt =====
-- Actions that leave the entries of passwd alone, and what an action answers if it succeeds.
use bifroest.Prelude.{
  ◌≡◌, refl, ◌∙◌, Bool, true, false, Bytes, arith, ok, err, is_empty, if◌then◌else◌,
}
use bifroest.User.Passwd.{EtcPasswdEntry}
use bifroest.User.Requirement.{Requirement}
use bifroest.User.Repository.State.{
  Heap, pure, mkdir_all, chown, copy_skel, rename, chown_recursively, Effect, Repository,
  EtcPasswdRef, Result, Action, continue, ◌>>=◌, ◌>>◌,
}
use bifroest.User.Repository.Load.{save, save_passwd, save_group, save_shadow}
use bifroest.User.Repository.Options.{OnHomeDirExist}
use bifroest.User.Repository.HomeDir.{
  System, make_home_dir, make_parent, put_home_dir, move_if_there, perform, existing_home_dir_check,
  create_home_dir, move_home_dir,
}
use bifroest.User.Repository.Accounts.{rename_shadow}

abbrev pub Keeps : {A : Type 0} → Action A → Type 0
Keeps m = (r : Repository) → (m r).0.passwds ≡ r.passwds

continue-Keeps :
    {A B : Type 0} (res : Result A) (k : A → Action B)
    → ((a : A) → Keeps (k a))
    → Keeps (continue res k)
continue-Keeps (ok a) k h r = h a r
continue-Keeps (err e) k h r = refl

bind-Keeps :
    {A B : Type 0} (m : Action A) (k : A → Action B)
    → Keeps m
    → ((a : A) → Keeps (k a))
    → Keeps (m >>= k)
bind-Keeps m k hm hk r = continue-Keeps (m r).1 k hk (m r).0 ∙ hm r

pub if-Keeps :
    {A : Type 0} (b : Bool) (m k : Action A) → Keeps m → Keeps k → Keeps (if b then m else k)
if-Keeps true m k hm hk = hm
if-Keeps false m k hm hk = hk

pub save-Keeps : Keeps save
unfolding save
save-Keeps =
    bind-Keeps save_passwd (λ _. save_group >> save_shadow) (λ r. refl)
      (λ _. bind-Keeps save_group (λ _. save_shadow) (λ r. refl) (λ _ r. refl))

perform-Keeps : (sys : System) (e : Effect) → Keeps (perform sys e)
unfolding perform
perform-Keeps sys e r = ground arith

check-Keeps :
    (sys : System) (e : EtcPasswdEntry) (home_dir : Bytes) (ohde : OnHomeDirExist)
    → Keeps (existing_home_dir_check sys e home_dir ohde)
unfolding existing_home_dir_check perform
check-Keeps sys e home_dir ohde r = ground arith

make_home_dir-Keeps :
    (sys : System) (e : EtcPasswdEntry) (skel home_dir : Bytes)
    → Keeps (make_home_dir sys e skel home_dir)
unfolding make_home_dir
make_home_dir-Keeps sys e skel home_dir =
    let copy : Action (Unit {0}) =
      if is_empty skel then pure tt else perform sys (copy_skel skel home_dir e.uid e.gid) in
    bind-Keeps (perform sys (mkdir_all home_dir))
      (λ _. perform sys (chown home_dir e.uid e.gid) >> copy)
      (perform-Keeps sys (mkdir_all home_dir))
      (λ _.
        bind-Keeps (perform sys (chown home_dir e.uid e.gid)) (λ _. copy)
          (perform-Keeps sys (chown home_dir e.uid e.gid))
          (λ _.
            if-Keeps (is_empty skel) (pure tt) (perform sys (copy_skel skel home_dir e.uid e.gid))
              (λ r. refl) (perform-Keeps sys (copy_skel skel home_dir e.uid e.gid))))

pub create_home_dir-Keeps :
    (sys : System) (e : EtcPasswdEntry) (skel home_dir : Bytes) (ohde : OnHomeDirExist)
    → Keeps (create_home_dir sys e skel home_dir ohde)
unfolding create_home_dir
create_home_dir-Keeps sys e skel home_dir ohde =
    bind-Keeps (existing_home_dir_check sys e home_dir ohde)
      (λ c. if c then make_home_dir sys e skel home_dir else pure tt)
      (check-Keeps sys e home_dir ohde)
      (λ c.
        if-Keeps c (make_home_dir sys e skel home_dir) (pure tt)
          (make_home_dir-Keeps sys e skel home_dir) (λ r. refl))

put_home_dir-Keeps :
    (sys : System) (e : EtcPasswdEntry) (old_home_dir new_home_dir : Bytes)
    → Keeps (put_home_dir sys e old_home_dir new_home_dir)
unfolding put_home_dir make_parent
put_home_dir-Keeps sys e old_home_dir new_home_dir =
    let move = perform sys (rename old_home_dir new_home_dir) in
    let own = perform sys (chown_recursively new_home_dir e.uid e.gid) in
    bind-Keeps (make_parent sys new_home_dir) (λ _. move >> own) (λ r. refl)
      (λ _.
        bind-Keeps move (λ _. own) (perform-Keeps sys (rename old_home_dir new_home_dir))
          (λ _. perform-Keeps sys (chown_recursively new_home_dir e.uid e.gid)))

move_if_there-Keeps :
    (sys : System) (e : EtcPasswdEntry) (old_home_dir new_home_dir : Bytes)
    → Keeps (move_if_there sys e old_home_dir new_home_dir)
unfolding move_if_there
move_if_there-Keeps sys e old_home_dir new_home_dir r =
    ground (arith, put_home_dir-Keeps sys e old_home_dir new_home_dir r)

pub move_home_dir-Keeps :
    (sys : System) (e : EtcPasswdEntry) (old_home_dir new_home_dir : Bytes) (ohde : OnHomeDirExist)
    → Keeps (move_home_dir sys e old_home_dir new_home_dir ohde)
unfolding move_home_dir
move_home_dir-Keeps sys e old_home_dir new_home_dir ohde =
    bind-Keeps (existing_home_dir_check sys e new_home_dir ohde)
      (λ c. if c then move_if_there sys e old_home_dir new_home_dir else pure tt)
      (check-Keeps sys e new_home_dir ohde)
      (λ c.
        if-Keeps c (move_if_there sys e old_home_dir new_home_dir) (pure tt)
          (move_if_there-Keeps sys e old_home_dir new_home_dir) (λ r. refl))

pub rename_shadow-Keeps :
    (req : Requirement) (ref : EtcPasswdRef) (name : Bytes) → Keeps (rename_shadow req ref name)
unfolding rename_shadow
rename_shadow-Keeps req ref name r = ground arith

-- What holds of the answer of an action, started in a repository, if it succeeds.
abbrev pub Gives : {A : Type 0} → (A → Type 0) → Repository × Result A → Type 0
Gives {A} Q outcome = (a : A) → outcome.1 ≡ ok a → Q a

pub continue-Gives :
    {A B : Type 0} (Q : B → Type 0) (res : Result A) (k : A → Action B) (r : Repository)
    → ((a : A) → Gives Q (k a r))
    → Gives Q (continue res k r)
continue-Gives Q (ok a) k r h = h a
continue-Gives Q (err e) k r h = λ b is_ok. cc

-- A step that keeps the entries of passwd, in front of an action that only needs those.
pub kept-Gives :
    {A B : Type 0} (Q : B → Type 0) (h : Heap EtcPasswdEntry) (m : Action A) (k : A → Action B)
    (r : Repository)
    → Keeps m
    → r.passwds ≡ h
    → ((a : A) (q : Repository) → q.passwds ≡ h → Gives Q (k a q))
    → Gives Q ((m >>= k) r)
kept-Gives Q h m k r keeps same go =
    continue-Gives Q (m r).1 k (m r).0 (λ a. go a (m r).0 (keeps r ∙ same))

pub answers : {A : Type 0} (r : Repository) (x : A) → Gives (λ y. x ≡ y) (pure x r)
answers r x y is_y = cc
