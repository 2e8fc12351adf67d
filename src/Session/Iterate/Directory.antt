-- ===== src/Session/Iterate/Directory.antt =====
-- The sessions of one directory, after one has been written, and how those of the storage are put together.
use bifroest.Prelude.{
  ℕ, ◌≡◌, refl, sym, ap, subst, ◌∙◌, true, false, List, [], ◌∷◌, ◌++◌, some, Bytes, bytes_eq, All,
  All-append, append_assoc, append-nil, arith, Bool-cases, Option-cases, inl, inr,
}
use bifroest.Prelude.Maps.{Named, put}
use bifroest.Session.Files.{
  Entry, FlowEntry, plain_file, directory, RootEntry, root_file, flow_directory, Storage, flow_dir,
}
use bifroest.Session.Store.{Codec}
use bifroest.Session.Iterate.{is_flow_name}
use bifroest.Session.Iterate.Candidates.{dir_candidates, root_candidates}

pub All-parts :
    {A : Type 0} (P : A → Type 0) (xs ys : List A) → All P (xs ++ ys) → All P xs × All P ys
All-parts P [] ys h = (tt, h)
All-parts P (x ∷ xs) ys (px, h) = let (hx, hy) = All-parts P xs ys h in ((px, hx), hy)

-- A list has something, with what is before it and what is behind.
pub record Has {A : Type 0} (x : A) (xs : List A) : Type 0 where
  pub before : List A
  pub behind : List A
  pub split_at : xs ≡ before ++ x ∷ behind

pub Has-left : {A : Type 0} {x : A} (xs ys : List A) → Has x xs → Has x (xs ++ ys)
Has-left {A} {x} xs ys h = record {
  before = h.before;
  behind = h.behind ++ ys;
  split_at = ap (λ v. v ++ ys) h.split_at ∙ append_assoc h.before (x ∷ h.behind) ys;
}

pub Has-right : {A : Type 0} {x : A} (xs ys : List A) → Has x ys → Has x (xs ++ ys)
Has-right {A} {x} xs ys h = record {
  before = xs ++ h.before;
  behind = h.behind;
  split_at = ap (λ v. xs ++ v) h.split_at ∙ sym (append_assoc xs h.before (x ∷ h.behind));
}

module _ {V : Type 0} (k : Bytes) (v : V) (j : Bytes) (w : V) (m : Named V) where
  pub put-here : bytes_eq j k ≡ true → put k v ((j, w) ∷ m) ≡ (k, v) ∷ m
  unfolding put
  put-here h = ground (arith, h)

  pub put-there : bytes_eq j k ≡ false → put k v ((j, w) ∷ m) ≡ (j, w) ∷ put k v m
  unfolding put
  put-there h = ground (arith, h)

module _ (c : Codec) where
  -- The sessions of one entry come before those of the others.
  pub dir-cons :
      (flow j : Bytes) (e : FlowEntry) (es : Named FlowEntry)
      → dir_candidates c flow ((j, e) ∷ es)
        ≡ (dir_candidates c flow ((j, e) ∷ []) ++ dir_candidates c flow es)
  unfolding dir_candidates
  dir-cons flow j plain_file es = refl
  dir-cons flow j (directory d) es = elim (Option-cases (c.parse_id j)) [
    | inl fails ↦ ground (arith, fails)
    | inr (id, is_id) ↦ ground (arith, is_id)
  ]

  pub root-cons :
      (s : Storage) (j : Bytes) (e : RootEntry) (es : Storage)
      → root_candidates c s ((j, e) ∷ es)
        ≡ (root_candidates c s ((j, e) ∷ []) ++ root_candidates c s es)
  unfolding root_candidates
  root-cons s j root_file es = refl
  root-cons s j (flow_directory d) es = elim (Bool-cases (is_flow_name j)) [
    | inl is_name ↦ ground (arith, is_name, append-nil (dir_candidates c j (flow_dir s j)))
    | inr other ↦ ground (arith, other)
  ]

  -- The sessions of a directory of a flow.
  pub root-flow :
      (s : Storage) (j : Bytes) (d : Named FlowEntry)
      → is_flow_name j ≡ true
      → root_candidates c s ((j, flow_directory d) ∷ []) ≡ dir_candidates c j (flow_dir s j)
  unfolding root_candidates
  root-flow s j d is_name = ground (arith, is_name, append-nil (dir_candidates c j (flow_dir s j)))

  pub root-no_flow :
      (s : Storage) (j : Bytes) (d : Named FlowEntry)
      → is_flow_name j ≡ false
      → root_candidates c s ((j, flow_directory d) ∷ []) ≡ []
  unfolding root_candidates
  root-no_flow s j d other = ground (arith, other)

module _ (c : Codec) (flow : Bytes) (id : ℕ) (idt : Bytes) (named : c.parse_id idt ≡ some id)
    (d : Named Entry) where
  dir-named :
      (es : Named FlowEntry)
      → dir_candidates c flow ((idt, directory d) ∷ es) ≡ (flow, id) ∷ dir_candidates c flow es
  unfolding dir_candidates
  dir-named es = ground (arith, named)

  dir-here :
      (j : Bytes) (e : FlowEntry) (es : Named FlowEntry)
      → bytes_eq j idt ≡ true
      → dir_candidates c flow (put idt (directory d) ((j, e) ∷ es))
        ≡ (flow, id) ∷ dir_candidates c flow es
  dir-here j e es here =
      ap (dir_candidates c flow) (put-here idt (directory d) j e es here) ∙ dir-named es

  dir-there :
      (j : Bytes) (e : FlowEntry) (es : Named FlowEntry)
      → bytes_eq j idt ≡ false
      → dir_candidates c flow (put idt (directory d) ((j, e) ∷ es))
        ≡ (dir_candidates c flow ((j, e) ∷ []) ++ dir_candidates c flow (put idt (directory d) es))
  dir-there j e es there =
      ap (dir_candidates c flow) (put-there idt (directory d) j e es there)
      ∙ dir-cons c flow j e (put idt (directory d) es)

  dir-empty : dir_candidates c flow (put idt (directory d) []) ≡ (flow, id) ∷ []
  unfolding put dir_candidates
  dir-empty = dir-named []

  -- In the directory of the flow.
  pub dir-All :
      (P : Bytes × ℕ → Type 0) (es : Named FlowEntry)
      → P (flow, id)
      → All P (dir_candidates c flow es)
      → All P (dir_candidates c flow (put idt (directory d) es))
  dir-All P [] new h = subst (All P) (sym dir-empty) (new, tt)
  dir-All P ((j, e) ∷ es) new h =
      let (head, rest) =
        All-parts P (dir_candidates c flow ((j, e) ∷ [])) (dir_candidates c flow es)
          (subst (All P) (dir-cons c flow j e es) h) in
      elim (Bool-cases (bytes_eq j idt)) [
        | inl here ↦ subst (All P) (sym (dir-here j e es here)) (new, rest)
        | inr there ↦ subst (All P) (sym (dir-there j e es there)) (
            All-append P (dir_candidates c flow ((j, e) ∷ []))
              (dir_candidates c flow (put idt (directory d) es)) head (dir-All P es new rest))
      ]

  pub dir-Has :
      (es : Named FlowEntry) → Has (flow, id) (dir_candidates c flow (put idt (directory d) es))
  dir-Has [] = record { before = []; behind = []; split_at = dir-empty }
  dir-Has ((j, e) ∷ es) = elim (Bool-cases (bytes_eq j idt)) [
    | inl here ↦ record {
      before = [];
      behind = dir_candidates c flow es;
      split_at = dir-here j e es here;
    }
    | inr there ↦ subst (Has (flow, id)) (sym (dir-there j e es there)) (
        Has-right (dir_candidates c flow ((j, e) ∷ []))
          (dir_candidates c flow (put idt (directory d) es)) (dir-Has es))
  ]
