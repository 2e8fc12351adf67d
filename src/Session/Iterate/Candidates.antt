-- ===== src/Session/Iterate/Candidates.antt =====
-- The sessions that the storage has, and walking through a list of them.
use bifroest.Prelude.{
  ℕ, ◌≡◌, sym, ap, ◌∙◌, Bool, true, false, List, [], ◌∷◌, ◌++◌, none, some, Bytes, arith,
  if◌then◌else◌, Bool-cases, inl, inr, ok,
}
use bifroest.Prelude.Actions.{pure, continue, step_ok, step_err, step-eq-ok, run-cases, ◌>>=◌, ◌>>◌}
use bifroest.Prelude.Maps.{Named}
use bifroest.Session.Files.{
  FlowEntry, plain_file, directory, root_file, flow_directory, Storage, flow_dir,
}
use bifroest.Session.Store.{Store, Codec}
use bifroest.Session.Iterate.{Walk, iterate, is_flow_name}

module _ (c : Codec) where
  -- The sessions that a flow's directory has, by their names.
  unfoldable pub dir_candidates : Bytes → Named FlowEntry → List (Bytes × ℕ)
  dir_candidates flow [] = []
  dir_candidates flow ((name, plain_file) ∷ entries) = dir_candidates flow entries
  dir_candidates flow ((name, directory d) ∷ entries) =
      let rest = dir_candidates flow entries in
      elim (c.parse_id name) [ none ↦ rest | some id ↦ (flow, id) ∷ rest ]

  unfoldable pub root_candidates : Storage → Storage → List (Bytes × ℕ)
  root_candidates s [] = []
  root_candidates s ((name, root_file) ∷ entries) = root_candidates s entries
  root_candidates s ((name, flow_directory d) ∷ entries) =
      let rest = root_candidates s entries in
      if is_flow_name name then dir_candidates name (flow_dir s name) ++ rest else rest

  -- All sessions of the storage, in its order.
  unfoldable pub candidates : Storage → List (Bytes × ℕ)
  unfolding root_candidates
  candidates s = root_candidates s s

-- A visit that leaves the storage alone, and what is kept tells whether it said to go on.
pub record IsSteady {X : Type 0} (go_on : X → Bool) (visit : Bytes × ℕ → Walk X Bool) : Type 0 where
  pub keeps :
      (p : Bytes × ℕ) (s s' : Store × X) (b : Bool)
      → go_on s.1 ≡ true
      → visit p s ≡ (s', ok b)
      → (s'.0.storage ≡ s.0.storage) × (go_on s'.1 ≡ b)

module _ {X : Type 0} (go_on : X → Bool) (visit : Bytes × ℕ → Walk X Bool)
    (steady : IsSteady go_on visit) where
  unfoldable pub rest_of : List (Bytes × ℕ) → Walk X (Unit {0})
  rest_of ys s = if go_on s.1 then iterate ys visit s else (s, ok tt)

  pub iterate-append :
      (xs ys : List (Bytes × ℕ)) (s : Store × X)
      → go_on s.1 ≡ true
      → iterate (xs ++ ys) visit s ≡ (iterate xs visit >> rest_of ys) s
  unfolding iterate rest_of
  iterate-append [] ys s open_ = ground (arith, open_)
  iterate-append (p ∷ xs) ys s open_ =
      let more = λ (zs : List (Bytes × ℕ)) (b : Bool). if b then iterate zs visit else pure tt in
      elim (run-cases (visit p) s) [
        | inl (s1, e, fails) ↦
            step_err (visit p) (more (xs ++ ys)) s s1 e fails
            ∙ sym (
                step_err (visit p >>= more xs) (λ _. rest_of ys) s s1 e
                  (step_err (visit p) (more xs) s s1 e fails))
        | inr (s1, true, goes) ↦
            step_ok (visit p) (more (xs ++ ys)) s s1 true goes
            ∙ iterate-append xs ys s1 (steady.keeps p s s1 true open_ goes).1
            ∙ sym (
                ap (λ q. continue q.1 (λ _. rest_of ys) q.0)
                  (step_ok (visit p) (more xs) s s1 true goes))
        | inr (s1, false, goes) ↦
            step_ok (visit p) (more (xs ++ ys)) s s1 false goes
            ∙ ground (
              arith,
              step_ok (visit p) (more xs) s s1 false goes,
              (steady.keeps p s s1 false open_ goes).1,
            )
      ]

  pub iterate-keeps :
      (xs : List (Bytes × ℕ)) (s s' : Store × X)
      → go_on s.1 ≡ true
      → iterate xs visit s ≡ (s', ok tt)
      → s'.0.storage ≡ s.0.storage
  unfolding iterate
  iterate-keeps [] s s' open_ h = ground arith
  iterate-keeps (p ∷ xs) s s' open_ h =
      let more = λ (b : Bool). if b then iterate xs visit else pure tt in
      let (s1, b, goes, after) = step-eq-ok more s' (visit p) s tt h in
      let (same, told) = steady.keeps p s s1 b open_ goes in
      elim (Bool-cases b) [
        | inl on ↦ iterate-keeps xs s1 s' (told ∙ on) (ground (arith, on, after)) ∙ same
        | inr off ↦ ground (arith, off, after, same)
      ]
