-- ===== src/User/Repository/Ensure/Create.antt =====
-- The indexes after `createUser`, at once and when they are built again.
use bifroest.Prelude.{
  ℕ, ◌≡◌, refl, ◌∙◌, Bool, true, List, [], ◌∷◌, ◌++◌, some, Bytes, bytes_eq, bytes_eq_iff, ◌==◌,
  ==_iff, if◌then◌else◌, Bool-cases, inl, inr,
}
use bifroest.User.Passwd.{EtcPasswdEntry}
use bifroest.User.Shadow.{EtcShadowEntry}
use bifroest.User.Colon.{EtcColonEntry}
use bifroest.User.Repository.State.{Heap, alloc, Repository}
use bifroest.User.Repository.Load.{rebuild_indexes, follow_all}
use bifroest.User.Repository.Load.Indexes.{latest, user_behind, rebuild_indexes-latest}
use bifroest.User.Repository.Accounts.{created_user}

-- The last entry wins.
latest-append :
    {T : Type 0} (h : Heap T) (test : T → Bool) (es : List (EtcColonEntry ℕ)) (p : ℕ)
    (raw_line : Bytes)
    → test (h.at p) ≡ true
    → latest test (follow_all h (es ++ record { entry = some p; raw_line = raw_line } ∷ []))
      ≡ some (h.at p)
unfolding latest follow_all
latest-append h test [] p raw_line passes = rw passes refl
latest-append h test (e ∷ es) p raw_line passes =
    rw (latest-append h test es p raw_line passes) refl

at-alloc : {T : Type 0} (h : Heap T) (x : T) → (alloc h x).at h.next ≡ x
at-alloc h x = rw ((==_iff h.next h.next).1 refl) refl

newest :
    (h : Heap EtcPasswdEntry) (e : EtcPasswdEntry) (test : EtcPasswdEntry → Bool)
    (es : List (EtcColonEntry ℕ))
    → test e ≡ true
    → latest test
        (follow_all (alloc h e) (es ++ record { entry = some h.next; raw_line = [] } ∷ []))
      ≡ some e
newest h e test es passes =
    latest-append (alloc h e) test es h.next [] (rw (at-alloc h e) passes) ∙ rw (at-alloc h e) refl

-- When the indexes are built again after a creation, the new user is found by name and by id. Until
-- then the index by id has him under the id of his group, and what it holds under his own id is as
-- before if that is another.
pub created_user-indexes :
    (r : Repository) (e : EtcPasswdEntry) (s : EtcShadowEntry) (group_refs : List ℕ)
    → (user_behind
          (created_user r e s group_refs).passwds
          ((rebuild_indexes (created_user r e s group_refs)).name_to_user e.name)
        ≡ some e)
      × (user_behind
            (created_user r e s group_refs).passwds
            ((rebuild_indexes (created_user r e s group_refs)).id_to_user e.uid)
          ≡ some e)
      × (user_behind
            (created_user r e s group_refs).passwds
            ((created_user r e s group_refs).id_to_user e.gid)
          ≡ some e)
      × (user_behind
            (created_user r e s group_refs).passwds
            ((created_user r e s group_refs).id_to_user e.uid)
          ≡ (if e.gid == e.uid
              then some e
              else user_behind (created_user r e s group_refs).passwds (r.id_to_user e.uid)))
created_user-indexes r e s group_refs =
    let (by_name, by_id, _, _) =
      rebuild_indexes-latest (created_user r e s group_refs) e.name e.uid in
    (
      by_name
          ∙ newest r.passwds e (λ c. bytes_eq c.name e.name) r.passwd_entries
              ((bytes_eq_iff e.name e.name).1 refl),
      by_id
          ∙ newest r.passwds e (λ c. c.uid == e.uid) r.passwd_entries ((==_iff e.uid e.uid).1 refl),
      rw ((==_iff e.gid e.gid).1 refl, (==_iff r.passwds.next r.passwds.next).1 refl) refl,
      elim (Bool-cases (e.gid == e.uid)) [
        | inl same ↦ rw (same, (==_iff r.passwds.next r.passwds.next).1 refl) refl
        | inr other ↦ rw other refl
      ],
    )
