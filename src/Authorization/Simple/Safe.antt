-- ===== src/Authorization/Simple/Safe.antt =====
-- Nobody is let in by a password but as the configuration has it.
use bifroest.Prelude.{
  ◌≡◌, ◌⊎◌, Bool, true, false, List, [], ◌∷◌, some, Bytes, is_empty, ok, arith, Result-cases,
  Bool-cases, Option-cases, inl, inr,
}
use bifroest.Prelude.Actions.{pure, step-eq-ok}
use bifroest.Session.Store.{Fs, Store}
use bifroest.Crypto.Passwords.{compare_password}
use bifroest.Authorization.Request.{Granted, granted, Request, Sessions, fresh, with_session}
use bifroest.Authorization.Entry.{SimpleEntry, get_password}
use bifroest.Authorization.Simple.{
  Simple, first_entry, lookup_entry, check_password, with_password, authorize_password,
  authorize_interactive, ensure_session_for,
}

first_entry-test :
    (test : SimpleEntry → Bool) (es : List SimpleEntry) (e : SimpleEntry)
    → first_entry test es ≡ some e
    → test e ≡ true
unfolding first_entry
first_entry-test test [] e h = absurd (cc)
first_entry-test test (x ∷ es) e h = elim (Bool-cases (test x)) [
  | inl holds ↦ ground (arith, holds)
  | inr fails_it ↦ first_entry-test test es e (ground (arith, fails_it))
]

module _ (s : Sessions) (this : Simple) (flow : Bytes) (req : Request) where
  -- The first entry for the name has a password that is not empty and that the given one matches, and
  -- the environment accepts it.
  pub record IsAdmitted (password : Bytes) (entry : SimpleEntry) : Type 0 where
    pub first : first_entry (λ e. this.equal_fold e.name req.remote.user) this.entries ≡ some entry
    pub will_be_accepted : req.validate (fresh (some entry.name) req.remote flow) ≡ some true
    pub expected : Bytes
    pub configured : get_password this.password_files entry ≡ ok expected
    pub not_empty : is_empty expected ≡ false
    pub matching : compare_password this.bcrypt expected password ≡ ok true

  -- Why somebody is let in, and what is answered.
  pub record IsLetIn (password : Bytes) (g : Granted) : Type 0 where
    pub entry : SimpleEntry
    pub admitted : IsAdmitted password entry
    pub named : this.equal_fold entry.name req.remote.user ≡ true
    pub sess : Fs
    pub as_answered : g ≡ with_session (fresh (some entry.name) req.remote flow) sess

  check_password-true :
      (entry : SimpleEntry) (password : Bytes)
      → check_password s this flow entry password ≡ ok true
      → (expected : Bytes) × (get_password this.password_files entry ≡ ok expected)
        × (is_empty expected ≡ false)
        × (compare_password this.bcrypt expected password ≡ ok true)
  unfolding check_password
  check_password-true entry password h =
      elim (Result-cases (get_password this.password_files entry)) [
        | inr (e, fails) ↦ absurd (ground (arith, fails))
        | inl (expected, configured) ↦ elim (Bool-cases (is_empty expected)) [
          | inl empty ↦ absurd (ground (arith, configured, empty))
          | inr given ↦ elim (Result-cases (compare_password this.bcrypt expected password)) [
            | inr (e, fails) ↦ absurd (ground (arith, configured, given, fails))
            | inl (b, compared) ↦
                (expected, configured, given, ground (arith, configured, given, compared))
          ]
        ]
      ]

  with_password-IsLetIn :
      (password : Bytes) (entry : SimpleEntry) (r r' : Store) (g : Granted)
      → first_entry (λ e. this.equal_fold e.name req.remote.user) this.entries ≡ some entry
      → req.validate (fresh (some entry.name) req.remote flow) ≡ some true
      → with_password s this flow password req entry (fresh (some entry.name) req.remote flow) r
        ≡ (r', ok (granted g))
      → IsLetIn password g
  unfolding with_password
  with_password-IsLetIn password entry r r' g first will h =
      elim (Result-cases (check_password s this flow entry password)) [
        | inr (e, fails) ↦ absurd (ground (arith, fails))
        | inl (false, fails_it) ↦ absurd (ground (arith, fails_it))
        | inl (true, holds) ↦
            let (expected, configured, given, compared) =
              check_password-true entry password holds in
            let (r1, sess, made, answered) =
              step-eq-ok
                (λ sess.
                  pure (granted (with_session (fresh (some entry.name) req.remote flow) sess)))
                r' (ensure_session_for s this flow req entry) r (granted g)
                (ground (arith, holds)) in
            record {
              entry = entry;
              admitted = record {
                first = first;
                will_be_accepted = will;
                expected = expected;
                configured = configured;
                not_empty = given;
                matching = compared;
              };
              named =
                  first_entry-test (λ e. this.equal_fold e.name req.remote.user) this.entries entry
                    first;
              sess = sess;
              as_answered = ground (arith, answered);
            }
      ]

  authorize_password-IsLetIn :
      (password : Bytes) (r r' : Store) (g : Granted)
      → authorize_password s this flow password req r ≡ (r', ok (granted g))
      → IsLetIn password g
  unfolding authorize_password lookup_entry
  authorize_password-IsLetIn password r r' g h =
      elim (Option-cases (first_entry (λ e. this.equal_fold e.name req.remote.user) this.entries)) [
        | inl nobody ↦ absurd (ground (arith, nobody))
        | inr (entry, first) ↦
            elim (Option-cases (req.validate (fresh (some entry.name) req.remote flow))) [
              | inl fails ↦ absurd (ground (arith, first, fails))
              | inr (false, fails_it) ↦ absurd (ground (arith, first, fails_it))
              | inr (true, holds) ↦
                  with_password-IsLetIn password entry r r' g first holds
                    (ground (arith, first, holds))
            ]
      ]

  interactive-password :
      (pass : Bytes) (r r' : Store) (g : Granted)
      → req.prompt flow ≡ some pass
      → authorize_interactive s this flow req r ≡ (r', ok (granted g))
      → authorize_password s this flow pass req r ≡ (r', ok (granted g))
  unfolding authorize_interactive authorize_password
  interactive-password pass r r' g asked h = ground (arith, asked)

  -- Whoever is let in by a password, given at once or on a prompt, has an entry, the first whose name
  -- is his but for the case; the environment will accept him; the entry has a password, in itself or in
  -- its file, that is not empty and that the given one matches; and the answer has his name, his remote,
  -- the flow, and a session.
  pub authorize-IsLetIn :
      (password : Bytes) (r r' : Store) (g : Granted)
      → (authorize_password s this flow password req r ≡ (r', ok (granted g)))
        ⊎ ((req.prompt flow ≡ some password)
            × (authorize_interactive s this flow req r ≡ (r', ok (granted g))))
      → IsLetIn password g
  authorize-IsLetIn password r r' g (inl h) = authorize_password-IsLetIn password r r' g h
  authorize-IsLetIn password r r' g (inr (asked, h)) =
      authorize_password-IsLetIn password r r' g (interactive-password password r r' g asked h)
