-- ===== src/Session/Iterate/Searches.antt =====
-- What the searches through all sessions find, where they are not allowed to clean up.
use bifroest.Prelude.{
  ℕ, ◌≡◌, refl, ap, ◌∙◌, Bool, true, false, List, [], ◌∷◌, none, Bytes, arith, if◌then◌else◌,
  Result-cases, inl, inr, ok, err,
}
use bifroest.Session.Store
use bifroest.Session.Store.{
  Fs, Store, SessionError, no_such_session, missing, not_a_directory, not_writable, cannot_decode,
  unknown_offset, Codec,
}
use bifroest.Session.Repository.{
  FindOpts, is_auto_clean_up_allowed, find_by, auto_clean, delete_unexpected_files,
}
use bifroest.Session.PublicKeys.{Key, KeyCodec, has_public_key}
use bifroest.Session.Iterate.{
  iterate_all, iterate, consume, find_all, has_access_token, take_by, find_by_public_key,
  find_by_access_token, is_nothing, first_result,
}
use bifroest.Session.Iterate.Candidates.{candidates, IsSteady}
use bifroest.Session.Iterate.Flat.{iterate_all-flat}

module _ (c : Codec) (now : ℕ) (opts : FindOpts) where
  -- Each session that is found goes to the consumer, up to the first error or the last it wants.
  unfoldable pub offer :
      {X : Type 0}
      → (Fs → X → X × Store.Result Bool)
      → Store
      → List (Bytes × ℕ)
      → X
      → X × Store.Result (Unit {0})
  offer consumer r [] x = (x, ok tt)
  offer consumer r ((flow, id) ∷ ps) x = elim (find_by c now opts true flow id r).1 [
    | err no_such_session ↦ offer consumer r ps x
    | err e ↦ (x, err e)
    | ok sess ↦
        let rest = offer consumer r ps (consumer sess x).0 in
        elim (consumer sess x).1 [
          | err e ↦ ((consumer sess x).0, err e)
          | ok b ↦ if b then rest else ((consumer sess x).0, ok tt)
        ]
  ]

  -- The first session that has what is asked for and is found.
  unfoldable pub first_found :
      (Store → Bytes → ℕ → Store.Result Bool) → Store → List (Bytes × ℕ) → Store.Result Fs
  first_found has r [] = err no_such_session
  first_found has r ((flow, id) ∷ ps) =
      let rest = first_found has r ps in
      elim (has r flow id) [
        | err e ↦ err e
        | ok false ↦ rest
        | ok true ↦ elim (find_by c now opts true flow id r).1 [
          | err no_such_session ↦ rest
          | err e ↦ err e
          | ok sess ↦ ok sess
        ]
      ]

  module _ (tidy : is_auto_clean_up_allowed opts ≡ false) where
    find_by-tidy :
        (expected : Bool) (flow : Bytes) (id : ℕ) (r : Store)
        → (find_by c now opts expected flow id r).0 ≡ r
    unfolding find_by auto_clean delete_unexpected_files
    find_by-tidy expected flow id r = ground (arith, tidy)

    consume-IsSteady :
        {X : Type 0} (consumer : Fs → X → X × Store.Result Bool)
        → IsSteady (λ (k : X × Bool). k.1) (λ p. consume c now opts consumer p.0 p.1)
    unfolding consume
    consume-IsSteady consumer = record {
      keeps = λ p s s' b open_ h. (ground (arith, find_by-tidy true p.0 p.1 s.0), ground arith);
    }

    -- What `find_all` gives of a run of its loops.
    abbrev all_result :
        {X : Type 0}
        → (Store × (X × Bool)) × Store.Result (Unit {0})
        → (Store × X) × Store.Result (Unit {0})
    all_result (s, out) = ((s.0, s.1.0), out)

    walk-offer :
        {X : Type 0} (consumer : Fs → X → X × Store.Result Bool) (r : Store) (ps : List (Bytes × ℕ))
        (x : X)
        → all_result (iterate ps (λ p. consume c now opts consumer p.0 p.1) (r, (x, true)))
          ≡ ((r, (offer consumer r ps x).0), (offer consumer r ps x).1)
    unfolding iterate consume offer
    walk-offer consumer r [] x = refl
    walk-offer consumer r ((flow, id) ∷ ps) x =
        elim (Result-cases (find_by c now opts true flow id r).1) [
          | inr (e, fails) ↦
              ground (arith, find_by-tidy true flow id r, fails, walk-offer consumer r ps x)
          | inl (sess, found) ↦ ground (
            arith,
            find_by-tidy true flow id r,
            found,
            walk-offer consumer r ps (consumer sess x).0,
          )
        ]

    take_by-IsSteady :
        (has : Store → Bytes → ℕ → Store.Result Bool)
        → IsSteady is_nothing (λ p. take_by c now opts has p.0 p.1)
    unfolding take_by
    take_by-IsSteady has = record {
      keeps = λ p s s' b open_ h. (ground (arith, find_by-tidy true p.0 p.1 s.0), ground arith);
    }

    walk-first :
        (has : Store → Bytes → ℕ → Store.Result Bool) (r : Store) (ps : List (Bytes × ℕ))
        → first_result (iterate ps (λ p. take_by c now opts has p.0 p.1) (r, none))
          ≡ (r, first_found has r ps)
    unfolding iterate take_by first_found
    walk-first has r [] = refl
    walk-first has r ((flow, id) ∷ ps) = elim (Result-cases (has r flow id)) [
      | inr (e, fails) ↦ ground (arith, fails)
      | inl (false, other) ↦ ground (arith, other, walk-first has r ps)
      | inl (true, there) ↦ ground (arith, there, find_by-tidy true flow id r, walk-first has r ps)
    ]

    search-first :
        (has : Store → Bytes → ℕ → Store.Result Bool) (r : Store)
        → first_result (iterate_all c opts is_nothing (take_by c now opts has) (r, none))
          ≡ (r, first_found has r (candidates c r.storage))
    search-first has r =
        ap first_result (
          iterate_all-flat c opts is_nothing (take_by c now opts has) tidy (take_by-IsSteady has)
            r.storage (r, none) refl refl)
        ∙ walk-first has r (candidates c r.storage)

    -- A search that may not clean up changes nothing, and offers to the consumer, in the order of the
    -- storage and as long as it wants more, exactly the sessions under the names of flows and of ids
    -- that `findBy` finds with the same options; what is no such session is passed over, and the first
    -- other error, of a session or of the consumer, ends it.
    pub find_all-offer :
        {X : Type 0} (consumer : Fs → X → X × Store.Result Bool) (r : Store) (x : X)
        → find_all c now opts consumer (r, x) ≡ (
          (r, (offer consumer r (candidates c r.storage) x).0),
          (offer consumer r (candidates c r.storage) x).1,
        )
    unfolding find_all
    find_all-offer consumer r x =
        ap all_result (
          iterate_all-flat c opts (λ k. k.1) (consume c now opts consumer) tidy
            (consume-IsSteady consumer) r.storage (r, (x, true)) refl refl)
        ∙ walk-offer consumer r (candidates c r.storage) x

    -- Searches by an access token, and by a public key, that may not clean up change nothing, and find
    -- the first session, in the order of the storage, whose token file is taken for equal to the token,
    -- or which has the key, and which `findBy` finds with the same options; an error on the way ends
    -- them, and where there is no such session, they say so.
    pub find_by_access_token-first :
        (t : Bytes) (kc : KeyCodec) (k : Key) (r : Store)
        → (find_by_access_token c now opts t r ≡ (
          r,
          first_found
              (λ r' flow id. has_access_token c now opts r' flow id t)
              r
              (candidates c r.storage),
        ))
          × (find_by_public_key c now opts kc k r ≡ (
            r,
            first_found (λ r' flow id. has_public_key kc c flow id k r') r (candidates c r.storage),
          ))
    unfolding find_by_access_token find_by_public_key
    find_by_access_token-first t kc k r = (
      search-first (λ r' flow id. has_access_token c now opts r' flow id t) r,
      search-first (λ r' flow id. has_public_key kc c flow id k r') r,
    )
