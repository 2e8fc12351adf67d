-- ===== src/Session/PublicKeys/Added.antt =====
-- A key that was added.
use bifroest.Prelude.{
  ℕ, ◌≡◌, ◌⊎◌, refl, sym, ap, ◌∙◌, true, false, List, [], ◌∷◌, ◌++◌, append_assoc, Bytes, bytes_eq,
  All, All-append, arith, inl, inr, ok, Bool-cases, Result-cases,
}
use bifroest.User.Colon.Lines.{InLine, unlines, split-unlines, drop-empty, drop_return-InLine}
use bifroest.Session.Files
use bifroest.Session.Files.{File, Entry, file, Opened, opened, open_read}
use bifroest.Session.Files.Laws.{bytes_eq_refl, same}
use bifroest.Session.Store.{Store, Codec, fs_file_session}
use bifroest.Session.Fs.{write_file, open_file}
use bifroest.Session.Fs.Written.{
  write_file-eq-ok, open_read-written, open_read-written_place, open_read-written_other,
}
use bifroest.Session.PublicKeys.{
  Key, KeyCodec, IsWritable, raw_lines, are_short, find_public_key_in, public_key_kind,
  has_public_key, add_public_key,
}

raw_lines-unlines : (ls : List Bytes) → All (All InLine) ls → raw_lines (unlines ls) ≡ ls
unfolding raw_lines
raw_lines-unlines ls h = rw (split-unlines ls h) (drop-empty ls)

unlines-append :
    (ls : List Bytes) (l : Bytes) → unlines ls ++ (l ++ b'\n' ∷ []) ≡ unlines (ls ++ l ∷ [])
unfolding unlines
unlines-append [] l = refl
unlines-append (m ∷ ls) l =
    cc (unlines-append ls l, append_assoc m (b'\n' ∷ unlines ls) (l ++ b'\n' ∷ []))

module _ (kc : KeyCodec) (k : Key) (laws : IsWritable kc k) where
  find-appended :
      (ls : List Bytes) (l : Bytes)
      → find_public_key_in kc k ls ≡ ok false
      → are_short ls ≡ true
      → find_public_key_in kc k (ls ++ l ∷ []) ≡ find_public_key_in kc k (l ∷ [])
  unfolding find_public_key_in
  find-appended [] l h short = refl
  find-appended (m ∷ ls) l h short = ground (arith, find-appended ls l)

  missed-nothing : find_public_key_in kc k [] ≡ ok false
  unfolding find_public_key_in
  missed-nothing = refl

  find-encoded : find_public_key_in kc k (kc.encode_key k ∷ []) ≡ ok true
  unfolding find_public_key_in
  find-encoded = ground (
    arith,
    drop_return-InLine (kc.encode_key k) (laws.encode_key-InLine),
    laws.encode_key-some,
    laws.encode_key-short,
    laws.decode-encode_key,
    bytes_eq_refl k.kind,
    bytes_eq_refl k.marshalled,
  )

  find-added :
      (ls : List Bytes)
      → All (All InLine) ls
      → find_public_key_in kc k ls ≡ ok false
      → are_short ls ≡ true
      → find_public_key_in kc k (raw_lines (unlines ls ++ (kc.encode_key k ++ b'\n' ∷ [])))
        ≡ ok true
  find-added ls whole missed short =
      ap (find_public_key_in kc k) (
        ap raw_lines (unlines-append ls (kc.encode_key k))
        ∙ raw_lines-unlines (ls ++ kc.encode_key k ∷ [])
            (All-append (All InLine) ls (kc.encode_key k ∷ []) whole (laws.encode_key-InLine, tt)))
      ∙ find-appended ls (kc.encode_key k) missed short
      ∙ find-encoded

  module _ (c : Codec) (flow : Bytes) (id : ℕ) where
    -- The file of a key is missing, or has whole lines.
    abbrev pub IsText : Store → Type 0
    IsText r =
        (open_read r.storage flow (c.id_text id) (public_key_kind kc k) ≡ Files.missing)
        ⊎ ((f : File) × (ls : List Bytes) × (open_read r.storage flow (c.id_text id)
                (public_key_kind kc k)
              ≡ opened (file f))
            × (f.content ≡ unlines ls)
            × All (All InLine) ls)

    -- What a successful call has done: nothing, where the key was there, or a line was appended.
    abbrev Appended : ℕ → Store → Store → Type 0
    Appended now r r' =
        ((r' ≡ r) × (has_public_key kc c flow id k r ≡ ok true))
        ⊎ ((content : Bytes) × (write_file c flow id (public_key_kind kc k)
                (record { content = content ++ (kc.encode_key k ++ b'\n' ∷ []); changed_at = now })
                r
              ≡ (r', ok tt))
            × (find_public_key_in kc k (raw_lines (content ++ (kc.encode_key k ++ b'\n' ∷ [])))
                ≡ ok true))

    add-Appended :
        (now : ℕ) (r r' : Store)
        → IsText r
        → add_public_key kc c flow id k now r ≡ (r', ok tt)
        → Appended now r r'
    unfolding add_public_key has_public_key unlines
    add-Appended now r r' text h = elim (Result-cases (open_file c r flow id fs_file_session)) [
      | inr (e, fails) ↦ absurd (ground (arith, fails))
      | inl (e, is_e) ↦ elim text [
        | inl nothing ↦
            inr ([], ground (arith, is_e, nothing), find-added [] tt missed-nothing refl)
        | inr (f, ls, is_f, is_ls, whole) ↦
            let lines = ap raw_lines is_ls ∙ raw_lines-unlines ls whole in
            elim (Result-cases (find_public_key_in kc k (raw_lines f.content))) [
              | inr (e', fails) ↦ absurd (ground (arith, is_e, is_f, fails))
              | inl (true, there) ↦
                  inl (ground (arith, is_e, is_f, there), ground (arith, is_f, there))
              | inl (false, missed) ↦ elim (Bool-cases (are_short (raw_lines f.content))) [
                | inr long ↦ absurd (ground (arith, is_e, is_f, missed, long))
                | inl short ↦ inr (
                  f.content,
                  ground (arith, is_e, is_f, missed, short),
                  ap
                        (λ t.
                          find_public_key_in kc k
                            (raw_lines (t ++ (kc.encode_key k ++ b'\n' ∷ []))))
                        is_ls
                      ∙ find-added ls whole (ap (find_public_key_in kc k) (sym lines) ∙ missed)
                          (ap are_short (sym lines) ∙ short),
                )
              ]
            ]
      ]
    ]

    -- What was added is there.
    pub has-added :
        (now : ℕ) (r r' : Store)
        → IsText r
        → add_public_key kc c flow id k now r ≡ (r', ok tt)
        → has_public_key kc c flow id k r' ≡ ok true
    unfolding has_public_key
    has-added now r r' text h = elim (add-Appended now r r' text h) [
      | inl (is_r, there) ↦ rw is_r there
      | inr (content, wrote, there) ↦
          let kind = public_key_kind kc k in
          let line : File = record {
            content = content ++ (kc.encode_key k ++ b'\n' ∷ []);
            changed_at = now;
          } in
          rw (write_file-eq-ok c flow id kind line r r' wrote).1 (
            ground (arith, open_read-written c flow id kind line r kind, bytes_eq_refl kind, there))
    ]

    -- With what is written for a key being one line, not too long, that is read back as the key: where
    -- the file of a key is missing or has whole lines and `AddPublicKey` succeeds, the session has the
    -- key afterwards; whether it has a key of another hash is as before, and so are the files of all
    -- other sessions.
    pub has_public_key-add_public_key :
        (now : ℕ) (r r' : Store)
        → IsText r
        → add_public_key kc c flow id k now r ≡ (r', ok tt)
        → (j : Key) → bytes_eq (public_key_kind kc k) (public_key_kind kc j) ≡ false
        → (f i kind : Bytes) → same flow (c.id_text id) f i ≡ false
        → (has_public_key kc c flow id k r' ≡ ok true)
          × (has_public_key kc c flow id j r' ≡ has_public_key kc c flow id j r)
          × (open_read r'.storage f i kind ≡ open_read r.storage f i kind)
    unfolding has_public_key
    has_public_key-add_public_key now r r' text h j unlike f i kd other =
        elim (add-Appended now r r' text h) [
          | inl (is_r, there) ↦ (has-added now r r' text h, rw is_r refl, rw is_r refl)
          | inr (content, wrote, there) ↦
              let kind = public_key_kind kc k in
              let line : File = record {
                content = content ++ (kc.encode_key k ++ b'\n' ∷ []);
                changed_at = now;
              } in
              let (place, is_r') = write_file-eq-ok c flow id kind line r r' wrote in
              (
                has-added now r r' text h,
                rw is_r' (
                    ground (
                      arith,
                      open_read-written_place c flow id kind line r (public_key_kind kc j) place,
                      unlike,
                    )),
                rw is_r' (open_read-written_other c flow id kind line r f i kd place other),
              )
        ]
