-- ===== src/Session/Files/Laws.antt =====
-- What is found after the changes of the storage.
use bifroest.Prelude.{
  ◌≡◌, refl, Bool, true, false, ◌&&◌, [], none, some, Bytes, bytes_eq, bytes_eq_iff, if◌then◌else◌,
  arith, Option-cases, inl, inr,
}
use bifroest.Prelude.Maps.{Named, find, put, drop, find-put, find-drop}
use bifroest.Session.Files.{
  File, Entry, file, directory, flow_directory, Storage, flow_dir, session_dir, lookup,
  set_session_dir, write, remove_session, flow_of, flow_free, session_free, file_free, Opened,
  missing, opened, open_read,
}

pub bytes_eq_refl : (x : Bytes) → bytes_eq x x ≡ true
bytes_eq_refl x = (bytes_eq_iff x x).1 refl

-- Whether two sessions are one.
abbrev pub same : Bytes → Bytes → Bytes → Bytes → Bool
same flow id f i = bytes_eq flow f && bytes_eq id i

-- Nothing, or a directory, stands where a session has its directory.
pub record IsPlace (s : Storage) (flow id : Bytes) : Type 0 where
  pub flow_ok : flow_free (find flow s) ≡ true
  pub session_ok : session_free (find id (flow_dir s flow)) ≡ true

pub session_dir-set_session_dir :
    (s : Storage) (flow id f i : Bytes) (d : Named Entry)
    → session_dir (set_session_dir s flow id d) f i
      ≡ (if same flow id f i then d else session_dir s f i)
unfolding session_dir flow_dir set_session_dir
session_dir-set_session_dir s flow id f i d = ground (
  arith,
  find-put flow f (flow_directory (put id (directory d) (flow_of (find flow s)))) s,
  find-put id i (directory d) (flow_of (find flow s)),
  bytes_eq_iff flow f,
)

pub set_session_dir-IsPlace :
    (s : Storage) (flow id : Bytes) (d : Named Entry)
    → IsPlace (set_session_dir s flow id d) flow id
unfolding flow_dir set_session_dir
set_session_dir-IsPlace s flow id d =
    let entry = flow_directory (put id (directory d) (flow_of (find flow s))) in
    record {
      flow_ok = ground (arith, find-put flow flow entry s, bytes_eq_refl flow);
      session_ok = ground (
        arith,
        find-put flow flow entry s,
        bytes_eq_refl flow,
        bytes_eq_refl id,
        find-put id id (directory d) (flow_of (find flow s)),
      );
    }

-- A change of one session is none of another.
pub open_read-set_session_dir_other :
    (s : Storage) (flow id f i kind : Bytes) (d : Named Entry)
    → flow_free (find flow s) ≡ true
    → same flow id f i ≡ false
    → open_read (set_session_dir s flow id d) f i kind ≡ open_read s f i kind
unfolding open_read lookup session_dir flow_dir set_session_dir
open_read-set_session_dir_other s flow id f i kind d free other = ground (
  arith,
  find-put flow f (flow_directory (put id (directory d) (flow_of (find flow s)))) s,
  find-put id i (directory d) (flow_of (find flow s)),
  bytes_eq_iff flow f,
)

pub open_read-IsPlace :
    (s : Storage) (flow id kind : Bytes)
    → IsPlace s flow id
    → open_read s flow id kind ≡ (elim (find kind (session_dir s flow id)) as (λ _. Opened) [
      | none ↦ missing
      | some e ↦ opened e
    ])
unfolding open_read lookup
open_read-IsPlace s flow id kind p = ground (arith, p.flow_ok, p.session_ok)

pub write-IsPlace :
    (s : Storage) (flow id kind : Bytes) (f : File)
    → IsPlace s flow id
    → file_free (lookup s flow id kind) ≡ true
    → write s flow id kind f
      ≡ some (set_session_dir s flow id (put kind (file f) (session_dir s flow id)))
unfolding write
write-IsPlace s flow id kind f p free = ground (arith, p.flow_ok, p.session_ok, free)

-- What was written, and that it could be.
pub write-eq-some :
    (s s' : Storage) (flow id kind : Bytes) (f : File)
    → write s flow id kind f ≡ some s'
    → IsPlace s flow id
      × (s' ≡ set_session_dir s flow id (put kind (file f) (session_dir s flow id)))
unfolding write
write-eq-some s s' flow id kind f h =
    (record { flow_ok = ground arith; session_ok = ground arith }, ground arith)

pub session_dir-remove_session :
    (s : Storage) (flow id f i : Bytes)
    → session_dir (remove_session s flow id) f i
      ≡ (if same flow id f i then [] else session_dir s f i)
unfolding session_dir flow_dir remove_session find
session_dir-remove_session s flow id f i = elim (Option-cases (find flow s)) [
  | inl nothing ↦ ground (arith, nothing, bytes_eq_iff flow f)
  | inr (e, is_e) ↦ ground (
    arith,
    is_e,
    bytes_eq_iff flow f,
    find-drop id i (flow_of (some e)),
    find-put flow f (flow_directory (drop id (flow_of (some e)))) s,
  )
]

pub open_read-remove_session :
    (s : Storage) (flow id kind : Bytes)
    → flow_free (find flow s) ≡ true
    → open_read (remove_session s flow id) flow id kind ≡ missing
unfolding open_read lookup session_dir flow_dir remove_session find
open_read-remove_session s flow id kind free = elim (Option-cases (find flow s)) [
  | inl nothing ↦ ground (arith, nothing)
  | inr (e, is_e) ↦ ground (
    arith,
    is_e,
    free,
    bytes_eq_refl flow,
    bytes_eq_refl id,
    find-drop id id (flow_of (some e)),
    find-put flow flow (flow_directory (drop id (flow_of (some e)))) s,
  )
]

pub open_read-remove_session_other :
    (s : Storage) (flow id f i kind : Bytes)
    → same flow id f i ≡ false
    → open_read (remove_session s flow id) f i kind ≡ open_read s f i kind
unfolding open_read lookup session_dir flow_dir remove_session
open_read-remove_session_other s flow id f i kind other = elim (Option-cases (find flow s)) [
  | inl nothing ↦ ground (arith, nothing)
  | inr (e, is_e) ↦ ground (
    arith,
    is_e,
    bytes_eq_iff flow f,
    find-drop id i (flow_of (some e)),
    find-put flow f (flow_directory (drop id (flow_of (some e)))) s,
  )
]
