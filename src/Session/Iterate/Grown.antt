-- ===== src/Session/Iterate/Grown.antt =====
-- The sessions that the storage has, after one has been written.
use bifroest.Prelude.{
  ℕ, ◌≡◌, sym, ap, subst, ◌∙◌, true, false, [], ◌∷◌, some, Bytes, bytes_eq, bytes_eq_iff, All,
  All-append, arith, Bool-cases, Option-cases, inl, inr,
}
use bifroest.Prelude.Maps.{Named, find, put, find-put}
use bifroest.Session.Files.{
  Entry, FlowEntry, directory, RootEntry, root_file, flow_directory, Storage, flow_dir, flow_of,
  set_session_dir,
}
use bifroest.Session.Files.Laws.{bytes_eq_refl}
use bifroest.Session.Store.{Codec}
use bifroest.Session.Iterate.{is_flow_name}
use bifroest.Session.Iterate.Candidates.{dir_candidates, root_candidates, candidates}
use bifroest.Session.Iterate.Directory.{
  All-parts, Has, Has-left, Has-right, put-here, put-there, root-cons, root-flow, root-no_flow,
  dir-All, dir-Has,
}

module _ (c : Codec) (flow : Bytes) (id : ℕ) (idt : Bytes) (named : c.parse_id idt ≡ some id)
    (d : Named Entry) (s : Storage) where
  abbrev grown : Storage
  grown = set_session_dir s flow idt d

  flow_dir-grown : flow_dir grown flow ≡ put idt (directory d) (flow_dir s flow)
  unfolding flow_dir set_session_dir
  flow_dir-grown = ground (
    arith,
    find-put flow flow (flow_directory (put idt (directory d) (flow_dir s flow))) s,
    bytes_eq_refl flow,
  )

  flow_dir-other : (j : Bytes) → bytes_eq flow j ≡ false → flow_dir grown j ≡ flow_dir s j
  unfolding flow_dir set_session_dir
  flow_dir-other j other =
      ground
        (arith, find-put flow j (flow_directory (put idt (directory d) (flow_dir s flow))) s, other)

  module _ (P : Bytes × ℕ → Type 0) (new : P (flow, id)) (is_name : is_flow_name flow ≡ true) where
    dirs-All :
        (j : Bytes)
        → All P (dir_candidates c j (flow_dir s j))
        → All P (dir_candidates c j (flow_dir grown j))
    dirs-All j h = elim (Bool-cases (bytes_eq flow j)) [
      | inl same ↦
          let at_flow = λ (k : All P (dir_candidates c flow (flow_dir s flow))).
            subst (λ v. All P (dir_candidates c flow v)) (sym flow_dir-grown)
              (dir-All c flow id idt named d P (flow_dir s flow) new k) in
          subst
            (λ x.
              All P (dir_candidates c x (flow_dir s x))
              → All P (dir_candidates c x (flow_dir grown x)))
            ((bytes_eq_iff flow j).0 same) at_flow h
      | inr other ↦ subst (λ v. All P (dir_candidates c j v)) (sym (flow_dir-other j other)) h
    ]

    heads-All :
        (j : Bytes) (e : RootEntry)
        → All P (root_candidates c s ((j, e) ∷ []))
        → All P (root_candidates c grown ((j, e) ∷ []))
    unfolding root_candidates
    heads-All j root_file h = tt
    heads-All j (flow_directory d') h = elim (Bool-cases (is_flow_name j)) [
      | inl ok_name ↦
          subst (All P) (sym (root-flow c grown j d' ok_name))
            (dirs-All j (subst (All P) (root-flow c s j d' ok_name) h))
      | inr other ↦ subst (All P) (sym (root-no_flow c grown j d' other)) tt
    ]

    rest-All : (es : Storage) → All P (root_candidates c s es) → All P (root_candidates c grown es)
    unfolding root_candidates
    rest-All [] h = tt
    rest-All ((j, e) ∷ es) h =
        let (head, rest) =
          All-parts P (root_candidates c s ((j, e) ∷ [])) (root_candidates c s es)
            (subst (All P) (root-cons c s j e es) h) in
        subst (All P) (sym (root-cons c grown j e es)) (
          All-append P (root_candidates c grown ((j, e) ∷ [])) (root_candidates c grown es)
            (heads-All j e head) (rest-All es rest))

    -- The sessions of the flow are among all.
    flow-All :
        (es : Storage) (d' : Named FlowEntry)
        → All P (root_candidates c s es)
        → find flow es ≡ some (flow_directory d')
        → All P (dir_candidates c flow (flow_dir s flow))
    unfolding find
    flow-All [] d' h found = absurd (cc)
    flow-All ((j, e) ∷ es) d' h found =
        let (head, rest) =
          All-parts P (root_candidates c s ((j, e) ∷ [])) (root_candidates c s es)
            (subst (All P) (root-cons c s j e es) h) in
        elim (Bool-cases (bytes_eq j flow)) [
          | inr there ↦ flow-All es d' rest (ground (arith, there, found))
          | inl here ↦
              let is_flow = (bytes_eq_iff j flow).0 here in
              let is_dir : e ≡ flow_directory d' = ground (arith, here, found) in
              let head' =
                subst (λ (p : Bytes × RootEntry). All P (root_candidates c s (p ∷ [])))
                  (λ i. (is_flow i, is_dir i)) head in
              subst (All P) (root-flow c s flow d' is_name) head'
        ]

    own-All : All P (candidates c s) → All P (dir_candidates c flow (flow_dir s flow))
    unfolding candidates flow_dir dir_candidates
    own-All h = elim (Option-cases (find flow s)) [
      | inl nothing ↦ subst (λ o. All P (dir_candidates c flow (flow_of o))) (sym nothing) tt
      | inr (root_file, there) ↦
          subst (λ o. All P (dir_candidates c flow (flow_of o))) (sym there) tt
      | inr (flow_directory d', there) ↦ flow-All s d' h there
    ]

    abbrev grown_flow : RootEntry
    grown_flow = flow_directory (put idt (directory d) (flow_dir s flow))

    root-head :
        root_candidates c grown ((flow, grown_flow) ∷ [])
        ≡ dir_candidates c flow (flow_dir grown flow)
    root-head = root-flow c grown flow (put idt (directory d) (flow_dir s flow)) is_name

    root-nil :
        root_candidates c grown (put flow grown_flow [])
        ≡ dir_candidates c flow (flow_dir grown flow)
    unfolding put
    root-nil = root-head

    roots-All :
        (es : Storage)
        → All P (root_candidates c s es)
        → All P (dir_candidates c flow (flow_dir grown flow))
        → All P (root_candidates c grown (put flow grown_flow es))
    roots-All [] h own = subst (All P) (sym root-nil) own
    roots-All ((j, e) ∷ es) h own =
        let (head, rest) =
          All-parts P (root_candidates c s ((j, e) ∷ [])) (root_candidates c s es)
            (subst (All P) (root-cons c s j e es) h) in
        elim (Bool-cases (bytes_eq j flow)) [
          | inl here ↦
              subst (All P)
                (sym (
                  ap (root_candidates c grown) (put-here flow grown_flow j e es here)
                  ∙ root-cons c grown flow grown_flow es))
                (All-append P (root_candidates c grown ((flow, grown_flow) ∷ []))
                  (root_candidates c grown es) (subst (All P) (sym root-head) own)
                  (rest-All es rest))
          | inr there ↦
              subst (All P)
                (sym (
                  ap (root_candidates c grown) (put-there flow grown_flow j e es there)
                  ∙ root-cons c grown j e (put flow grown_flow es)))
                (All-append P (root_candidates c grown ((j, e) ∷ []))
                  (root_candidates c grown (put flow grown_flow es)) (heads-All j e head)
                  (roots-All es rest own))
        ]

    -- What holds of the new session and of all before holds of all.
    pub candidates-All : All P (candidates c s) → All P (candidates c grown)
    unfolding candidates set_session_dir
    candidates-All h = roots-All s h (
        subst (λ v. All P (dir_candidates c flow v)) (sym flow_dir-grown)
          (dir-All c flow id idt named d P (flow_dir s flow) new (own-All h)))

  module _ (is_name : is_flow_name flow ≡ true) where
    head-Has :
        Has
          (flow, id)
          (root_candidates c grown
            ((flow, flow_directory (put idt (directory d) (flow_dir s flow))) ∷ []))
    head-Has =
        subst (Has (flow, id))
          (sym (
            root-flow c grown flow (put idt (directory d) (flow_dir s flow)) is_name
            ∙ ap (dir_candidates c flow) flow_dir-grown))
          (dir-Has c flow id idt named d (flow_dir s flow))

    roots-Has :
        (es : Storage)
        → Has
            (flow, id)
            (root_candidates c grown
              (put flow (flow_directory (put idt (directory d) (flow_dir s flow))) es))
    unfolding put
    roots-Has [] = head-Has
    roots-Has ((j, e) ∷ es) =
        let new_flow = flow_directory (put idt (directory d) (flow_dir s flow)) in
        elim (Bool-cases (bytes_eq j flow)) [
          | inl here ↦
              subst (Has (flow, id))
                (sym (
                  ap (root_candidates c grown) (put-here flow new_flow j e es here)
                  ∙ root-cons c grown flow new_flow es))
                (Has-left (root_candidates c grown ((flow, new_flow) ∷ []))
                  (root_candidates c grown es) head-Has)
          | inr there ↦
              subst (Has (flow, id))
                (sym (
                  ap (root_candidates c grown) (put-there flow new_flow j e es there)
                  ∙ root-cons c grown j e (put flow new_flow es)))
                (Has-right (root_candidates c grown ((j, e) ∷ []))
                  (root_candidates c grown (put flow new_flow es)) (roots-Has es))
        ]

    -- The new session is among all.
    pub candidates-Has : Has (flow, id) (candidates c grown)
    unfolding candidates set_session_dir
    candidates-Has = roots-Has s
