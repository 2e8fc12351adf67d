-- ===== src/Session/Iterate/Flat.antt =====
-- Walking through the sessions, as one loop over their flows and ids.
use bifroest.Prelude.{
  ℕ, ◌≡◌, refl, sym, ap, ◌∙◌, fun_ext, Bool, true, false, List, [], ◌∷◌, ◌++◌, some, Bytes, arith,
  if◌then◌else◌, Bool-cases, Option-cases, inl, inr, ok,
}
use bifroest.Prelude.Actions.{pure, step_ok, run-cases, ◌>>=◌}
use bifroest.Prelude.Maps.{Named}
use bifroest.Session.Files.{
  Entry, FlowEntry, plain_file, directory, RootEntry, root_file, flow_directory, Storage, flow_dir,
}
use bifroest.Session.Store.{Store, Codec}
use bifroest.Session.Repository.{FindOpts, is_auto_clean_up_allowed}
use bifroest.Session.Iterate.{
  Walk, iterate, is_flow_name, clean_root_content, clean_flow_content, clean_orphan,
  visit_root_entry, visit_flow_entry, iterate_flows, iterate_flow_dirs, visit_flow, iterate_all,
}
use bifroest.Session.Iterate.Candidates.{
  dir_candidates, root_candidates, candidates, IsSteady, rest_of, iterate-append, iterate-keeps,
}

module _ (c : Codec) (opts : FindOpts) {X : Type 0} (go_on : X → Bool)
    (visit : Bytes → ℕ → Walk X Bool) (tidy : is_auto_clean_up_allowed opts ≡ false) where
  abbrev at_pair : Bytes × ℕ → Walk X Bool
  at_pair p = visit p.0 p.1

  iterate-skips :
      {A : Type 0} (a : A) (as' : List A) (f : A → Walk X Bool)
      → ((s : Store × X) → f a s ≡ (s, ok true))
      → iterate (a ∷ as') f ≡ iterate as' f
  unfolding iterate
  iterate-skips a as' f skips =
      fun_ext λ s. step_ok (f a) (λ b. if b then iterate as' f else pure tt) s s true (skips s)

  iterate-cong :
      {A B : Type 0} (a : A) (b : B) (as' : List A) (bs : List B) (f : A → Walk X Bool)
      (g : B → Walk X Bool)
      → f a ≡ g b
      → iterate as' f ≡ iterate bs g
      → iterate (a ∷ as') f ≡ iterate (b ∷ bs) g
  unfolding iterate
  iterate-cong a b as' bs f g first others = rw (first, others) refl

  dir_candidates-some :
      (flow name : Bytes) (d : Named Entry) (id : ℕ) (entries : Named FlowEntry)
      → c.parse_id name ≡ some id
      → dir_candidates c flow ((name, directory d) ∷ entries)
        ≡ (flow, id) ∷ dir_candidates c flow entries
  unfolding dir_candidates
  dir_candidates-some flow name d id entries is_id = ground (arith, is_id)

  iterate-dirs :
      (flow : Bytes) (entries : Named FlowEntry)
      → iterate entries (visit_flow_entry c opts flow (visit flow))
        ≡ iterate (dir_candidates c flow entries) at_pair
  unfolding iterate dir_candidates visit_flow_entry clean_flow_content
  iterate-dirs flow [] = refl
  iterate-dirs flow ((name, plain_file) ∷ entries) =
      iterate-skips (name, plain_file) entries (visit_flow_entry c opts flow (visit flow))
        (λ s. ground (arith, tidy))
      ∙ iterate-dirs flow entries
  iterate-dirs flow ((name, directory d) ∷ entries) = elim (Option-cases (c.parse_id name)) [
    | inl other ↦
        iterate-skips (name, directory d) entries (visit_flow_entry c opts flow (visit flow))
          (λ s. ground (arith, tidy, other))
        ∙ rw (other, dir_candidates) (iterate-dirs flow entries)
    | inr (id, is_id) ↦
        iterate-cong (name, directory d) (flow, id) entries (dir_candidates c flow entries)
          (visit_flow_entry c opts flow (visit flow)) at_pair (rw (is_id, visit_flow_entry) refl)
          (iterate-dirs flow entries)
        ∙ ap (λ l. iterate l at_pair) (sym (dir_candidates-some flow name d id entries is_id))
  ]

  no_orphan :
      (flow : Bytes) (entries : Named FlowEntry) (s : Store × X)
      → clean_orphan c opts flow entries s ≡ (s, ok tt)
  unfolding clean_orphan
  no_orphan flow entries s = ground (arith, tidy)

  visit_flow-flat :
      (flow : Bytes) (s : Store × X)
      → visit_flow c opts go_on visit flow s
        ≡ (iterate (dir_candidates c flow (flow_dir s.0.storage flow)) at_pair >>= λ _ s'.
              (s', ok (go_on s'.1)))
            s
  unfolding visit_flow iterate_flow_dirs
  visit_flow-flat flow s =
      let entries = flow_dir s.0.storage flow in
      let flat = iterate (dir_candidates c flow entries) at_pair in
      let orphan = λ (_ : Unit {0}). clean_orphan c opts flow entries in
      ap (λ (m : Walk X (Unit {0})). ((m >>= orphan) >>= λ _ s'. (s', ok (go_on s'.1))) s)
        (iterate-dirs flow entries)
      ∙ elim (run-cases flat s) [
        | inl (s1, e, fails) ↦ ground (arith, fails)
        | inr (s1, _, goes) ↦ ground (arith, goes, no_orphan flow entries s1)
      ]

  skip-root :
      (e : Bytes × RootEntry) (entries : Named RootEntry) (s : Store × X)
      → visit_root_entry c opts (visit_flow c opts go_on visit) e s ≡ (s, ok true)
      → iterate (e ∷ entries) (visit_root_entry c opts (visit_flow c opts go_on visit)) s
        ≡ iterate entries (visit_root_entry c opts (visit_flow c opts go_on visit)) s
  unfolding iterate
  skip-root e entries s h =
      step_ok (visit_root_entry c opts (visit_flow c opts go_on visit) e)
        (λ b.
          if b
          then iterate entries (visit_root_entry c opts (visit_flow c opts go_on visit))
          else pure tt)
        s s true h

  root_candidates-flow :
      (st : Storage) (name : Bytes) (d : Named FlowEntry) (entries : Named RootEntry)
      → root_candidates c st ((name, flow_directory d) ∷ entries) ≡ (
          if is_flow_name name
          then dir_candidates c name (flow_dir st name) ++ root_candidates c st entries
          else root_candidates c st entries)
  unfolding root_candidates
  root_candidates-flow st name d entries = refl

  module _ (steady : IsSteady go_on at_pair) (st : Storage) where
    -- The sessions of one flow, and then those of the others.
    then-others :
        (name : Bytes) (entries : Named RootEntry) (others : List (Bytes × ℕ)) (s : Store × X)
        → s.0.storage ≡ st
        → go_on s.1 ≡ true
        → ((s' : Store × X)
            → s'.0.storage ≡ st
            → go_on s'.1 ≡ true
            → iterate entries (visit_root_entry c opts (visit_flow c opts go_on visit)) s'
              ≡ iterate others at_pair s')
        → (visit_flow c opts go_on visit name >>= λ b.
              if b
              then iterate entries (visit_root_entry c opts (visit_flow c opts go_on visit))
              else pure tt)
            s
          ≡ iterate (dir_candidates c name (flow_dir st name) ++ others) at_pair s
    unfolding rest_of
    then-others name entries others s at_st open_ ih =
        let dirs = dir_candidates c name (flow_dir st name) in
        let flat = iterate dirs at_pair in
        let flow_run =
          visit_flow-flat name s
          ∙ ap
              (λ t.
                (iterate (dir_candidates c name (flow_dir t name)) at_pair >>= λ _ s'.
                (s', ok (go_on s'.1)))
                  s)
              at_st in
        let append = iterate-append go_on at_pair steady dirs others s open_ in
        elim (run-cases flat s) [
          | inl (s1, e, fails) ↦ ground (arith, flow_run, fails, append)
          | inr (s1, _, goes) ↦
              let still = iterate-keeps go_on at_pair steady dirs s s1 open_ goes ∙ at_st in
              elim (Bool-cases (go_on s1.1)) [
                | inl on ↦ ground (arith, flow_run, goes, append, on, ih s1 still on)
                | inr off ↦ ground (arith, flow_run, goes, append, off)
              ]
        ]

    iterate-roots :
        (entries : Named RootEntry) (s : Store × X)
        → s.0.storage ≡ st
        → go_on s.1 ≡ true
        → iterate entries (visit_root_entry c opts (visit_flow c opts go_on visit)) s
          ≡ iterate (root_candidates c st entries) at_pair s
    unfolding iterate root_candidates visit_root_entry clean_root_content
    iterate-roots [] s at_st open_ = refl
    iterate-roots ((name, root_file) ∷ entries) s at_st open_ =
        skip-root (name, root_file) entries s (ground (arith, tidy))
        ∙ iterate-roots entries s at_st open_
    iterate-roots ((name, flow_directory d) ∷ entries) s at_st open_ =
        elim (Bool-cases (is_flow_name name)) [
          | inr other ↦
              skip-root (name, flow_directory d) entries s (ground (arith, tidy, other))
              ∙ iterate-roots entries s at_st open_
              ∙ ap (λ l. iterate l at_pair s)
                  (sym (root_candidates-flow st name d entries ∙ rw other refl))
          | inl is_name ↦
              (rw is_name refl)
              ∙ then-others name entries (root_candidates c st entries) s at_st open_
                  (iterate-roots entries)
              ∙ ap (λ l. iterate l at_pair s)
                  (sym (root_candidates-flow st name d entries ∙ rw is_name refl))
        ]

    pub iterate_all-flat :
        (s : Store × X)
        → s.0.storage ≡ st
        → go_on s.1 ≡ true
        → iterate_all c opts go_on visit s ≡ iterate (candidates c st) at_pair s
    unfolding iterate_all iterate_flows candidates
    iterate_all-flat s at_st open_ =
        ap (λ entries. iterate entries (visit_root_entry c opts (visit_flow c opts go_on visit)) s)
          at_st
        ∙ iterate-roots st s at_st open_
