-- ===== src/Session/Iterate/Passed.antt =====
-- What a search for a token goes past, and what it finds behind that.
use bifroest.Prelude.{
  ℕ, ◌≡◌, ◌≢◌, ◌⊎◌, ap, ◌∙◌, Bool, true, false, List, [], ◌∷◌, ◌++◌, Bytes, All, arith,
  Result-cases, inl, inr, ok, err,
}
use bifroest.Session.Store
use bifroest.Session.Store.{
  Remote, Fs, Store, Codec, CodecLaws, no_such_session, missing, not_a_directory, not_writable,
  cannot_decode, unknown_offset, fs_file_session, fs_file_access_token, fs_file_last_accessed,
}
use bifroest.Session.Repository.{FindOpts, find_by}
use bifroest.Session.Iterate.{has_access_token}
use bifroest.Session.Iterate.Searches.{first_found}

module _ (c : Codec) (now : ℕ) (opts : FindOpts) (token flow : Bytes) (id : ℕ) where
  abbrev pub has : Store → Bytes → ℕ → Store.Result Bool
  has r' f i = has_access_token c now opts r' f i token

  -- A session that a search goes past.
  abbrev pub Passed : Store → Bytes × ℕ → Type 0
  Passed st p =
      (has st p.0 p.1 ≡ ok false)
      ⊎ ((has st p.0 p.1 ≡ ok true)
          × ((find_by c now opts true p.0 p.1 st).1 ≡ err no_such_session))

  has-errors : (st : Store) (f : Bytes) (i : ℕ) → has st f i ≢ err no_such_session
  unfolding has_access_token
  has-errors st f i = ground arith

  pub first_found-Passed :
      (st : Store) (ps : List (Bytes × ℕ))
      → first_found c now opts has st ps ≡ err no_such_session
      → All (Passed st) ps
  unfolding first_found
  first_found-Passed st [] h = tt
  first_found-Passed st ((f, i) ∷ ps) h = elim (Result-cases (has st f i)) [
    | inr (e, fails) ↦ absurd (has-errors st f i (fails ∙ ground (arith, fails, h)))
    | inl (false, lacks) ↦ (inl lacks, first_found-Passed st ps (ground (arith, lacks, h)))
    | inl (true, there) ↦ elim (Result-cases (find_by c now opts true f i st).1) [
      | inl (sess, found) ↦ absurd (ground (arith, there, found, h))
      | inr (no_such_session, nothing) ↦
          (inr (there, nothing), first_found-Passed st ps (ground (arith, there, nothing, h)))
      | inr (missing, fails) ↦ absurd (ground (arith, there, fails, h))
      | inr (not_a_directory, fails) ↦ absurd (ground (arith, there, fails, h))
      | inr (not_writable, fails) ↦ absurd (ground (arith, there, fails, h))
      | inr (cannot_decode, fails) ↦ absurd (ground (arith, there, fails, h))
      | inr (unknown_offset, fails) ↦ absurd (ground (arith, there, fails, h))
    ]
  ]

  -- Behind some that are passed, or are the session itself, it is found.
  pub first_found-behind :
      (st : Store) (found : Fs) (before behind : List (Bytes × ℕ))
      → has st flow id ≡ ok true
      → (find_by c now opts true flow id st).1 ≡ ok found
      → All (λ p. Passed st p ⊎ (p ≡ (flow, id))) before
      → first_found c now opts has st (before ++ (flow, id) ∷ behind) ≡ ok found
  unfolding first_found
  first_found-behind st found [] behind there is_found h = ground (arith, there, is_found)
  first_found-behind st found ((f, i) ∷ before) behind there is_found (inl (inl lacks), h) =
      ground (arith, lacks, first_found-behind st found before behind there is_found h)
  first_found-behind st found ((f, i) ∷ before) behind there is_found
        (inl (inr (has_it, none_)), h) =
      ground (arith, has_it, none_, first_found-behind st found before behind there is_found h)
  first_found-behind st found ((f, i) ∷ before) behind there is_found (inr same_, h) =
      ground (arith, ap (λ p. p.0) same_, ap (λ p. p.1) same_, there, is_found)
