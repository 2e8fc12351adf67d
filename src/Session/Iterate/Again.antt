-- ===== src/Session/Iterate/Again.antt =====
-- A session that was created is found by its access token.
use bifroest.Prelude.{
  ℕ, ◌≡◌, ◌⊎◌, refl, sym, ap, subst, ◌∙◌, true, false, [], ◌∷◌, none, some, Bytes, bytes_eq,
  bytes_eq_iff, is_empty, All, All-map, append-nil, arith, if◌then◌else◌, Bool-cases, Option-cases,
  Result-cases, inl, inr, ok, err,
}
use bifroest.Session.Files.{Entry, file, folder, Opened, opened, open_read}
use bifroest.Session.Files.Laws.{same}
use bifroest.Session.Store
use bifroest.Session.Store.{
  Remote, Fs, Store, Codec, CodecLaws, no_such_session, missing, not_a_directory, not_writable,
  cannot_decode, unknown_offset, fs_file_session, fs_file_access_token, fs_file_last_accessed,
}
use bifroest.Session.PublicKeys.{Key, KeyCodec}
use bifroest.Prelude.Maps.{find}
use bifroest.Session.Compare.Accepted.{is_reader_equal_to_bytes_iff}
use bifroest.Session.Fs.Written.{open_read-written_other, written-IsPlace}
use bifroest.Session.Predicates.{matches}
use bifroest.Session.Repository.{
  FindOpts, is_auto_clean_up_allowed, find_by, read_session, delete_unexpected_files,
}
use bifroest.Session.Repository.Created.{
  IsFree, created_fs, opened_created, with_token, with_access, with_info, access_file, info_file,
}
use bifroest.Session.Iterate.{is_flow_name, find_by_access_token, has_access_token}
use bifroest.Session.Iterate.Candidates.{candidates}
use bifroest.Session.Iterate.Directory.{Has, All-parts}
use bifroest.Session.Iterate.Grown.{candidates-All, candidates-Has}
use bifroest.Session.Iterate.Passed.{has, Passed, first_found-Passed, first_found-behind}
use bifroest.Session.Iterate.Searches.{first_found, find_by_access_token-first}

module _ (c : Codec) (laws : CodecLaws c) (now : ℕ) (flow : Bytes) (id : ℕ) (remote : Remote)
    (token : Bytes) (r : Store) (free : IsFree c now flow id r) where
  abbrev pub after : Store
  after = with_token c now flow id remote token r

  pub open_read-after :
      (f i k : Bytes)
      → same flow (c.id_text id) f i ≡ false
      → open_read after.storage f i k ≡ open_read r.storage f i k
  open_read-after f i k other =
      open_read-written_other c flow id fs_file_access_token
        (record { content = token; changed_at = now }) (with_access c now flow id remote r) f i k
        (written-IsPlace c flow id fs_file_last_accessed (access_file c now flow id remote)
          (with_info c now flow id remote r))
        other
      ∙ open_read-written_other c flow id fs_file_last_accessed (access_file c now flow id remote)
          (with_info c now flow id remote r) f i k
          (written-IsPlace c flow id fs_file_session (info_file c now flow id remote) r) other
      ∙ open_read-written_other c flow id fs_file_session (info_file c now flow id remote) r f i k
          free.place other

  module _ (is_name : is_flow_name flow ≡ true) where
    after-All :
        (P : Bytes × ℕ → Type 0)
        → P (flow, id)
        → All P (candidates c r.storage)
        → All P (candidates c after.storage)
    after-All P new h =
        candidates-All c flow id (c.id_text id) (laws.parse-id_text id) _ _ P new is_name (
          candidates-All c flow id (c.id_text id) (laws.parse-id_text id) _ _ P new is_name (
            candidates-All c flow id (c.id_text id) (laws.parse-id_text id) _ r.storage P new
              is_name h))

    after-Has : Has (flow, id) (candidates c after.storage)
    after-Has =
        candidates-Has c flow id (c.id_text id) (laws.parse-id_text id) _
          (with_access c now flow id remote r).storage is_name

    module _ (opts : FindOpts) (tidy : is_auto_clean_up_allowed opts ≡ false)
        (some_token : is_empty token ≡ false) where
      -- Predicates that ask, of a session, for nothing but its own files.
      module _
          (local : (sess : Fs)
            → same flow (c.id_text id) sess.flow (c.id_text sess.id) ≡ false
            → matches opts.predicates after sess ≡ matches opts.predicates r sess) where
        has-after :
            (f : Bytes) (i : ℕ)
            → same flow (c.id_text id) f (c.id_text i) ≡ false
            → has c now opts token flow id after f i ≡ has c now opts token flow id r f i
        unfolding has_access_token
        has-after f i other =
            ground (arith, open_read-after f (c.id_text i) fs_file_access_token other)

        read_session-place :
            (f : Bytes) (i : ℕ) (e : Entry) (sess : Fs)
            → read_session c now f i e ≡ some sess
            → (sess.flow ≡ f) × (sess.id ≡ i)
        unfolding read_session
        read_session-place f i folder sess h = absurd (cc)
        read_session-place f i (file t) sess h = elim (Option-cases (c.decode_info t.content)) [
          | inl fails ↦ absurd (ground (arith, fails, h))
          | inr (info, read) ↦ (ground (arith, read, h), ground (arith, read, h))
        ]

        -- What a search answers by what it opens.
        abbrev answer : Store → Bytes → ℕ → Opened → Store.Result Fs
        answer st f i Opened.missing = err no_such_session
        answer st f i Opened.not_a_directory = err not_a_directory
        answer st f i (opened e) = elim (read_session c now f i e) [
          | none ↦ err cannot_decode
          | some sess ↦ elim (matches opts.predicates st sess) [
            | err e' ↦ err e'
            | ok b ↦ if b then ok sess else err no_such_session
          ]
        ]

        find_by-answer :
            (st : Store) (f : Bytes) (i : ℕ) (o : Opened)
            → open_read st.storage f (c.id_text i) fs_file_session ≡ o
            → (find_by c now opts true f i st).1 ≡ answer st f i o
        unfolding find_by delete_unexpected_files
        find_by-answer st f i Opened.missing h = ground (arith, h)
        find_by-answer st f i Opened.not_a_directory h = ground (arith, h)
        find_by-answer st f i (opened e) h = elim (Option-cases (read_session c now f i e)) [
          | inl fails ↦ ground (arith, h, fails)
          | inr (sess, read) ↦ elim (Result-cases (matches opts.predicates st sess)) [
            | inr (e', fails) ↦ ground (arith, h, read, tidy, fails)
            | inl (b, matched) ↦ ground (arith, h, read, tidy, matched)
          ]
        ]

        answer-after :
            (f : Bytes) (i : ℕ) (o : Opened)
            → same flow (c.id_text id) f (c.id_text i) ≡ false
            → answer after f i o ≡ answer r f i o
        answer-after f i Opened.missing other = refl
        answer-after f i Opened.not_a_directory other = refl
        answer-after f i (opened e) other = elim (Option-cases (read_session c now f i e)) [
          | inl fails ↦ ground (arith, fails)
          | inr (sess, read) ↦
              let (in_flow, has_id) = read_session-place f i e sess read in
              let unchanged = local sess (ground (arith, in_flow, has_id, other)) in
              elim (Result-cases (matches opts.predicates r sess)) [
                | inr (e', fails) ↦ ground (arith, read, unchanged, fails)
                | inl (b, matched) ↦ ground (arith, read, unchanged, matched)
              ]
        ]

        find_by-after :
            (f : Bytes) (i : ℕ)
            → same flow (c.id_text id) f (c.id_text i) ≡ false
            → (find_by c now opts true f i after).1 ≡ (find_by c now opts true f i r).1
        find_by-after f i other =
            let o = open_read r.storage f (c.id_text i) fs_file_session in
            find_by-answer after f i o (open_read-after f (c.id_text i) fs_file_session other)
            ∙ answer-after f i o other
            ∙ sym (find_by-answer r f i o refl)

        -- What was passed is passed again, but for the new session.
        Passed-after :
            (p : Bytes × ℕ)
            → Passed c now opts token flow id r p
            → Passed c now opts token flow id after p ⊎ (p ≡ (flow, id))
        Passed-after (f, i) passed = elim (Bool-cases (same flow (c.id_text id) f (c.id_text i))) [
          | inl is_new ↦ inr (
              ground (
                arith,
                is_new,
                bytes_eq_iff flow f,
                bytes_eq_iff (c.id_text id) (c.id_text i),
                laws.parse-id_text id,
                laws.parse-id_text i,
              ))
          | inr other ↦ elim passed [
            | inl lacks ↦ inl (inl (has-after f i other ∙ lacks))
            | inr (there, nothing) ↦
                inl (inr (has-after f i other ∙ there, find_by-after f i other ∙ nothing))
          ]
        ]

        new_file :
            open_read after.storage flow (c.id_text id) fs_file_session
            ≡ opened (file (info_file c now flow id remote))
        unfolding find bytes_eq
        new_file =
            ground
              (arith, some_token, opened_created c now flow id remote r free token fs_file_session)

        new_token :
            open_read after.storage flow (c.id_text id) fs_file_access_token
            ≡ opened (file (record { content = token; changed_at = now }))
        unfolding find bytes_eq
        new_token = ground (
          arith,
          some_token,
          opened_created c now flow id remote r free token fs_file_access_token,
        )

        has-new : has c now opts token flow id after flow id ≡ ok true
        unfolding has_access_token
        has-new = ground (
          arith,
          new_token,
          (is_reader_equal_to_bytes_iff token token).1 ([], sym (append-nil token), inl refl),
        )

        find_by-new :
            matches opts.predicates after (created_fs c now flow id remote) ≡ ok true
            → (find_by c now opts true flow id after).1 ≡ ok (created_fs c now flow id remote)
        unfolding read_session
        find_by-new accepts =
            find_by-answer after flow id (opened (file (info_file c now flow id remote))) new_file
            ∙ ground
                (arith, laws.decode-encode_info (created_fs c now flow id remote).info, accepts)

        -- Where a search by an access token, which may not clean up and whose predicates ask of a
        -- session for nothing but its own files, finds nothing, and a session is created with that
        -- token in a free place, under the name of a flow, then the search finds just this session, as
        -- far as the predicates accept it, and changes nothing.
        pub find_by_access_token-created :
            find_by_access_token c now opts token r ≡ (r, err no_such_session)
            → matches opts.predicates after (created_fs c now flow id remote) ≡ ok true
            → find_by_access_token c now opts token after
              ≡ (after, ok (created_fs c now flow id remote))
        find_by_access_token-created missing_ accepts =
            let k : KeyCodec = record {
              encode_key = λ x. [];
              decode_key = λ x. none;
              hash_text = λ x. [];
            } in
            let no_key : Key = record { kind = []; marshalled = [] } in
            let before = (find_by_access_token-first c now opts tidy token k no_key r).0 in
            let now_ = (find_by_access_token-first c now opts tidy token k no_key after).0 in
            let passed =
              first_found-Passed c now opts token flow id r (candidates c r.storage)
                (ap (λ q. q.1) (sym before ∙ missing_)) in
            let all_ =
              after-All (λ p. Passed c now opts token flow id after p ⊎ (p ≡ (flow, id))) (inr refl)
                (All-map (Passed c now opts token flow id r)
                  (λ p. Passed c now opts token flow id after p ⊎ (p ≡ (flow, id))) Passed-after
                  (candidates c r.storage) passed) in
            let parts =
              All-parts (λ p. Passed c now opts token flow id after p ⊎ (p ≡ (flow, id)))
                after-Has.before ((flow, id) ∷ after-Has.behind)
                (subst (All (λ p. Passed c now opts token flow id after p ⊎ (p ≡ (flow, id))))
                  after-Has.split_at all_) in
            now_
            ∙ ap (λ v. (after, v))
                (ap (first_found c now opts (has c now opts token flow id) after) after-Has.split_at
                  ∙ first_found-behind c now opts token flow id after
                      (created_fs c now flow id remote) after-Has.before after-Has.behind has-new
                      (find_by-new accepts) parts.0)
