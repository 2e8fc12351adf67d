-- ===== src/Service/Handshake/Remembered.antt =====
-- What a handshake leaves behind, and the key that a new session remembers.
use bifroest.Prelude.{
  ◌≡◌, ◌⊎◌, refl, sym, subst, ◌∙◌, Bool, true, false, List, [], ◌∷◌, Option, none, some, Result, ok,
  err, arith, Option-cases, inl, inr,
}
use bifroest.Prelude.Actions.{run-cases}
use bifroest.Session.State.{new, authorized}
use bifroest.Session.Store.{Remote, Fs, Store}
use bifroest.Session.Fs.{notify_last_access}
use bifroest.Session.PublicKeys.{Key, IsWritable, has_public_key, add_public_key}
use bifroest.Session.PublicKeys.Added.{IsText, has-added}
use bifroest.Authorization.Request.{
  Authorization, forbidden, granted, is_authorized, AuthError, Request, Authorizer, Sessions,
}
use bifroest.Service.Handshake.{
  Context, Handshake, Attempt, offers, says, answers, attempt, handle_public_key, handle_password,
  handle_interactive, with_offered, find_session, remember_key, resolve_authorization_and_session,
  answer, answer_key,
}

module _ (authorizer : Authorizer) (key_allowed : Key → Option Bool) (req : Request) where
  -- What is kept was granted, and a key that is kept is of an allowed type.
  pub record IsSound (ctx : Context) : Type 0 where
    pub grants : (auth : Authorization) → ctx.authorization ≡ some auth → is_authorized auth ≡ true
    pub allows : (key : Key) → ctx.handshake_key ≡ some key → key_allowed key ≡ some true

  pub nothing-IsSound : IsSound (record { authorization = none; handshake_key = none })
  nothing-IsSound = record { grants = λ auth h. absurd (cc); allows = λ key h. absurd (cc) }

  -- An attempt is refused, or somebody is authorized by it.
  abbrev pub Answered : Handshake × Bool → Type 0
  Answered out =
      (out.1 ≡ false)
      ⊎ ((auth : Authorization) × (out.0.0.authorization ≡ some auth) × (is_authorized auth ≡ true))

  offered-IsSound :
      (key : Key) (ctx : Context)
      → key_allowed key ≡ some true
      → IsSound ctx
      → IsSound (with_offered key ctx)
  offered-IsSound key ctx allowed sound = elim (Option-cases ctx.handshake_key) [
    | inl nothing ↦ record {
      grants = λ auth h. sound.grants auth (ground (arith, nothing, h));
      allows = λ k h. ground (arith, nothing, h, allowed);
    }
    | inr (k', there) ↦ record {
      grants = λ auth h. sound.grants auth (ground (arith, there, h));
      allows = λ k h. sound.allows k (ground (arith, there, h));
    }
  ]

  answer-IsSound :
      (ctx : Context) (out : Store × Result AuthError Authorization)
      → IsSound ctx
      → IsSound (answer ctx out).0.0 × Answered (answer ctx out)
  unfolding is_authorized
  answer-IsSound ctx (r, err e) sound = (sound, inl refl)
  answer-IsSound ctx (r, ok (forbidden remote)) sound = (sound, inl refl)
  answer-IsSound ctx (r, ok (granted g)) sound = (
    record { grants = λ auth h. ground (arith, h); allows = sound.allows },
    inr (granted g, refl, refl),
  )

  answer_key-IsSound :
      (ctx : Context) (out : Store × Result AuthError Authorization)
      → IsSound ctx
      → IsSound (answer_key ctx out).0.0 × Answered (answer_key ctx out)
  unfolding is_authorized
  answer_key-IsSound ctx (r, err e) sound = (sound, inl refl)
  answer_key-IsSound ctx (r, ok (forbidden remote)) sound = (sound, inl refl)
  answer_key-IsSound ctx (r, ok (granted g)) sound = (
    record { grants = λ auth h. ground (arith, h); allows = λ key h. absurd (cc) },
    inr (granted g, refl, refl),
  )

  -- A key of a type that is not allowed changes nothing; one that is goes to the authorizer.
  abbrev SoundAnswer : Handshake × Bool → Type 0
  SoundAnswer out = IsSound out.0.0 × Answered out

  offered-Answered :
      (key : Key) (ctx : Context) (r : Store)
      → IsSound ctx
      → SoundAnswer (handle_public_key authorizer key_allowed req key (ctx, r))
  unfolding handle_public_key
  offered-Answered key ctx r sound =
      let refused =
        λ (h : handle_public_key authorizer key_allowed req key (ctx, r) ≡ ((ctx, r), false)).
          subst SoundAnswer (sym h) (sound, inl refl) in
      elim (Option-cases (key_allowed key)) [
        | inl fails ↦ refused (ground (arith, fails))
        | inr (false, refuses) ↦ refused (ground (arith, refuses))
        | inr (true, allowed) ↦
            let out = authorizer.authorize_public_key key req r in
            let same : handle_public_key authorizer key_allowed req key (ctx, r)
                ≡ answer_key (with_offered key ctx) out =
              ground (arith, allowed) in
            subst SoundAnswer (sym same) (
              answer_key-IsSound (with_offered key ctx) out (offered-IsSound key ctx allowed sound))
      ]

  attempt-IsSound :
      (a : Attempt authorizer key_allowed req) (ctx : Context) (r : Store)
      → IsSound ctx
      → IsSound (attempt authorizer key_allowed req a (ctx, r)).0.0
        × Answered (attempt authorizer key_allowed req a (ctx, r))
  unfolding attempt handle_public_key handle_password handle_interactive
  attempt-IsSound (offers key) ctx r sound = offered-Answered key ctx r sound
  attempt-IsSound (says password) ctx r sound =
      answer-IsSound ctx (authorizer.authorize_password password req r) sound
  attempt-IsSound answers ctx r sound =
      answer-IsSound ctx (authorizer.authorize_interactive req r) sound

  -- The attempts of a client, one after the other.
  unfoldable pub attempts : List (Attempt authorizer key_allowed req) → Handshake → Handshake
  unfolding attempt
  attempts [] h = h
  attempts (a ∷ as') h = attempts as' (attempt authorizer key_allowed req a h).0

  -- From a sound context, such as the empty one, any sequence of attempts, by keys, passwords or
  -- prompts, leads to one where the authorization that is kept, if any, is granted, and the key that
  -- is kept, if any, is of an allowed type; and the next attempt is refused, or an authorization that
  -- is granted is kept after it.
  pub attempts-IsSound :
      (as' : List (Attempt authorizer key_allowed req)) (a : Attempt authorizer key_allowed req)
      (ctx : Context) (r : Store)
      → IsSound ctx
      → IsSound (attempts as' (ctx, r)).0
        × Answered (attempt authorizer key_allowed req a (attempts as' (ctx, r)))
  unfolding attempts
  attempts-IsSound [] a ctx r sound = (sound, (attempt-IsSound a ctx r sound).1)
  attempts-IsSound (b ∷ as') a ctx r sound =
      let (ctx', r') = (attempt authorizer key_allowed req b (ctx, r)).0 in
      attempts-IsSound as' a ctx' r' (attempt-IsSound b ctx r sound).0

module _ (s : Sessions) (ctx : Context) (remote : Remote) where
  -- What is done with the key, where all goes well.
  remember_key-new :
      (sess : Fs) (key : Key) (r r' : Store)
      → ctx.handshake_key ≡ some key
      → remember_key s ctx sess new r ≡ (r', ok tt)
      → add_public_key s.key_codec s.codec sess.flow sess.id key s.now r ≡ (r', ok tt)
  unfolding remember_key
  remember_key-new sess key r r' kept h =
      elim (run-cases (add_public_key s.key_codec s.codec sess.flow sess.id key s.now) r) [
        | inl (r1, e, fails) ↦ absurd (ground (arith, kept, fails, h))
        | inr (r1, done, added) ↦ added ∙ ground (arith, kept, added, h)
      ]

  -- A client that offered a key, which was not accepted, and was then authorized in another way, with
  -- a session that was new: where the connection goes on, and the file of the key was missing or had
  -- whole lines once the access was noted, the session has the key.
  pub resolve-remembers :
      (auth : Authorization) (sess : Fs) (key : Key)
      → ctx.authorization ≡ some auth
      → find_session auth ≡ some sess
      → ctx.handshake_key ≡ some key
      → (writable : IsWritable s.key_codec key) → (r r' r'' : Store) (sess' : Fs)
      → notify_last_access s.codec s.now sess remote authorized r ≡ (r', ok (sess', new))
      → IsText s.key_codec key writable s.codec sess'.flow sess'.id r'
      → resolve_authorization_and_session s ctx remote r ≡ (r'', ok (auth, sess', new))
      → has_public_key s.key_codec s.codec sess'.flow sess'.id key r'' ≡ ok true
  unfolding resolve_authorization_and_session
  resolve-remembers auth sess key is_auth is_sess kept writable r r' r'' sess' noted text h =
      elim (run-cases (remember_key s ctx sess' new) r') [
        | inl (r1, e, fails) ↦ absurd (ground (arith, is_auth, is_sess, noted, fails, h))
        | inr (r1, done, remembered) ↦
            has-added s.key_codec key writable s.codec sess'.flow sess'.id s.now r' r'' text (
              remember_key-new sess' key r' r'' kept
                (remembered ∙ ground (arith, is_auth, is_sess, noted, remembered, h)))
      ]
