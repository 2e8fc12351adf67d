-- ===== src/Session/Fs/Written.antt =====
-- What stands in the files of a session after they were written.
use bifroest.Prelude.{
  ℕ, ◌≡◌, true, false, none, some, Bytes, bytes_eq, arith, Option-cases, inl, inr, ok,
  if◌then◌else◌,
}
use bifroest.Prelude.Maps.{find, put, find-put}
use bifroest.Session.Files.{
  File, file, session_dir, lookup, set_session_dir, write, file_free, open_read, Opened, opened,
  missing,
}
use bifroest.Session.Files.Laws.{
  same, IsPlace, set_session_dir-IsPlace, session_dir-set_session_dir, write-IsPlace, write-eq-some,
  open_read-IsPlace, open_read-set_session_dir_other, bytes_eq_refl,
}
use bifroest.Session.Store.{Codec, Store}
use bifroest.Session.Fs.{write_file}

module _ (c : Codec) (flow : Bytes) (id : ℕ) where
  -- The repository with one file of a session in place.
  abbrev pub written : Bytes → File → Store → Store
  written kind f r = record r {
    storage =
        set_session_dir r.storage flow (c.id_text id)
          (put kind (file f) (session_dir r.storage flow (c.id_text id)));
  }

  pub write_file_lem :
      (kind : Bytes) (f : File) (r : Store)
      → IsPlace r.storage flow (c.id_text id)
      → file_free (lookup r.storage flow (c.id_text id) kind) ≡ true
      → write_file c flow id kind f r ≡ (written kind f r, ok tt)
  unfolding write_file
  write_file_lem kind f r place free =
      ground (arith, write-IsPlace r.storage flow (c.id_text id) kind f place free)

  pub write_file-eq-ok :
      (kind : Bytes) (f : File) (r r' : Store)
      → write_file c flow id kind f r ≡ (r', ok tt)
      → IsPlace r.storage flow (c.id_text id) × (r' ≡ written kind f r)
  unfolding write_file
  write_file-eq-ok kind f r r' h =
      elim (Option-cases (write r.storage flow (c.id_text id) kind f)) [
        | inl refused ↦ absurd (ground (arith, refused))
        | inr (s, wrote) ↦
            let (place, is_s) = write-eq-some r.storage s flow (c.id_text id) kind f wrote in
            (place, ground (arith, wrote, is_s))
      ]

  pub open_read-written :
      (kind : Bytes) (f : File) (r : Store) (k : Bytes)
      → open_read (written kind f r).storage flow (c.id_text id) k ≡ (
          if bytes_eq kind k
          then opened (file f)
          else elim (find k (session_dir r.storage flow (c.id_text id))) as (λ _. Opened) [
            | none ↦ missing
            | some e ↦ opened e
          ])
  open_read-written kind f r k =
      let s = r.storage in
      let d = put kind (file f) (session_dir s flow (c.id_text id)) in
      ground (
        arith,
        open_read-IsPlace (set_session_dir s flow (c.id_text id) d) flow (c.id_text id) k
            (set_session_dir-IsPlace s flow (c.id_text id) d),
        session_dir-set_session_dir s flow (c.id_text id) flow (c.id_text id) d,
        bytes_eq_refl flow,
        bytes_eq_refl (c.id_text id),
        find-put kind k (file f) (session_dir s flow (c.id_text id)),
      )

  pub session_dir-written :
      (kind : Bytes) (f : File) (r : Store) (fl i : Bytes)
      → session_dir (written kind f r).storage fl i ≡ (
          if same flow (c.id_text id) fl i
          then put kind (file f) (session_dir r.storage flow (c.id_text id))
          else session_dir r.storage fl i)
  session_dir-written kind f r fl i =
      session_dir-set_session_dir r.storage flow (c.id_text id) fl i
        (put kind (file f) (session_dir r.storage flow (c.id_text id)))

  pub open_read-written_other :
      (kind : Bytes) (f : File) (r : Store) (fl i k : Bytes)
      → IsPlace r.storage flow (c.id_text id)
      → same flow (c.id_text id) fl i ≡ false
      → open_read (written kind f r).storage fl i k ≡ open_read r.storage fl i k
  open_read-written_other kind f r fl i k place other =
      open_read-set_session_dir_other r.storage flow (c.id_text id) fl i k
        (put kind (file f) (session_dir r.storage flow (c.id_text id))) place.flow_ok other

  pub written-IsPlace :
      (kind : Bytes) (f : File) (r : Store) → IsPlace (written kind f r).storage flow (c.id_text id)
  written-IsPlace kind f r =
      set_session_dir-IsPlace r.storage flow (c.id_text id)
        (put kind (file f) (session_dir r.storage flow (c.id_text id)))

  pub open_read-written_place :
      (kind : Bytes) (f : File) (r : Store) (k : Bytes)
      → IsPlace r.storage flow (c.id_text id)
      → open_read (written kind f r).storage flow (c.id_text id) k
        ≡ (if bytes_eq kind k then opened (file f) else open_read r.storage flow (c.id_text id) k)
  open_read-written_place kind f r k place =
      ground (
        arith,
        open_read-written kind f r k,
        open_read-IsPlace r.storage flow (c.id_text id) k place,
      )
