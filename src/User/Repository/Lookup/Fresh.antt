-- ===== src/User/Repository/Lookup/Fresh.antt =====
-- The ids that are chosen for new users and groups.
use bifroest.Prelude.{ℕ, ◌+◌, ◌≤◌, ◌<◌, ◌≡◌, ◌≢◌, List, [], ◌∷◌, some, All, All-map, arith, ◌⊎◌}
use bifroest.User.Columns.{u32_mod}
use bifroest.User.Passwd.{EtcPasswdEntry}
use bifroest.User.Colon.{EtcColonEntry}
use bifroest.User.Repository.State.{Repository}
use bifroest.User.Repository.Load.{follow_all}
use bifroest.User.Repository.Lookup.{uid_round, highest_uid, next_id, next_uid}

-- A line whose entry, if it has one, has another uid.
abbrev pub Avoids : ℕ → EtcColonEntry EtcPasswdEntry → Type 0
Avoids uid v = (e : EtcPasswdEntry) → v.entry ≡ some e → e.uid ≢ uid

uid_round-le : (result : ℕ) (v : EtcColonEntry EtcPasswdEntry) → result ≤ uid_round result v
unfolding uid_round
uid_round-le result v = ground arith

le-uid_round :
    (result : ℕ) (v : EtcColonEntry EtcPasswdEntry) (e : EtcPasswdEntry)
    → v.entry ≡ some e
    → (e.uid ≤ uid_round result v) ⊎ (e.uid ≡ 65534)
unfolding uid_round
le-uid_round result v e h = ground arith

le-highest_uid :
    (result : ℕ) (vs : List (EtcColonEntry EtcPasswdEntry)) → result ≤ highest_uid result vs
unfolding highest_uid
le-highest_uid result [] = omega arith
le-highest_uid result (v ∷ vs) =
    omega (arith, uid_round-le result v, le-highest_uid (uid_round result v) vs)

-- An entry whose uid is at most `bound`, or 65534.
abbrev Below : ℕ → EtcColonEntry EtcPasswdEntry → Type 0
Below bound v = (e : EtcPasswdEntry) → v.entry ≡ some e → (e.uid ≤ bound) ⊎ (e.uid ≡ 65534)

All-Below :
    (vs : List (EtcColonEntry EtcPasswdEntry)) (result : ℕ) → All (Below (highest_uid result vs)) vs
unfolding highest_uid
All-Below [] result = tt
All-Below (v ∷ vs) result = (
  λ e h.
      let le = le-uid_round result v e h in
      omega (arith, le, le-highest_uid (uid_round result v) vs),
  All-Below vs (uid_round result v),
)

next_id_bounds :
    (highest : ℕ)
    → highest + 2 < u32_mod
    → (highest < next_id highest)
      × (1000 ≤ next_id highest)
      × (next_id highest ≢ 65534)
      × (next_id highest < u32_mod)
unfolding next_id
next_id_bounds highest h = ground arith

-- The id for a new user is no id of a user in the file, at least 1000, and not 65534, if the
-- highest id in the file (that of the user nobody aside) leaves room in a uint32.
pub next_uid-Avoids :
    (r : Repository)
    → highest_uid 0 (follow_all r.passwds r.passwd_entries) + 2 < u32_mod
    → All (Avoids (next_uid r)) (follow_all r.passwds r.passwd_entries)
      × (1000 ≤ next_uid r)
      × (next_uid r ≢ 65534)
      × (next_uid r < u32_mod)
unfolding next_uid
next_uid-Avoids r h =
    let vs = follow_all r.passwds r.passwd_entries in
    let (above, low, not_nobody, fits) = next_id_bounds (highest_uid 0 vs) h in
    (
      All-map (Below (highest_uid 0 vs)) (Avoids (next_id (highest_uid 0 vs)))
          (λ v below e is_e same. let b = below e is_e in omega arith) vs (All-Below vs 0),
      low,
      not_nobody,
      fits,
    )

-- A user with the last id of a uint32 makes the next new user root.
pub next_uid-root :
    (r : Repository)
    → highest_uid 0 (follow_all r.passwds r.passwd_entries) + 1 ≡ u32_mod
    → next_uid r ≡ 0
unfolding next_uid next_id
next_uid-root r h = ground arith
