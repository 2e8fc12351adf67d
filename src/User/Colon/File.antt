-- ===== src/User/Colon/File.antt =====
-- The lines of a file.
pub mod Edited
use bifroest.Prelude.{
  ℕ, ◌≡◌, ◌+◌, refl, ap, sym, ◌∙◌, subst, ◌⊎◌, inl, inr, Bool, true, false, List, [], ◌∷◌, ◌++◌,
  append_assoc, append-nil, some, Bytes, is_empty, All, none, if◌then◌else◌, Lacks, arith, ok,
  Result-cases, Bool-cases,
}
use bifroest.User.Columns.{join}
use bifroest.User.Value.{EtcColonEntryValue, EntryLaws}
use bifroest.User.Colon.{
  EtcColonEntry, zero_entry, bad_entry, good_entry, is_zero, decode_line, encode_line, scan_lines,
  stays_in_place, decode_lines, decode_file, encode_lines, encode_file,
}
use bifroest.User.Colon.Lines.{
  InLine, unlines, scan_lines-unlines, join-InLine, cut-IsPlain, scan_lines-InLine,
}
use bifroest.User.Colon.Line.{
  empty, bad, good, decode_line-Reading, encode_line-no_entry, decode-encode_line,
}

-- The entries that the encoder writes, of those that were read.
pub drop_zero : {T : Type 0} → List (EtcColonEntry T) → List (EtcColonEntry T)
drop_zero [] = []
drop_zero (e ∷ es) = let rest = drop_zero es in if is_zero e then rest else e ∷ rest

module _ {T : Type 0} (v : EtcColonEntryValue T) (colons : ℕ) (abn abe : Bool) where
  encode_good :
      (x : T) (cols : List Bytes)
      → v.encode x abn ≡ ok cols
      → (to : Bytes)
      → encode_line v (good_entry x) abn to ≡ (to ++ (join b':' cols ++ b'\n' ∷ []), ok tt)
  unfolding encode_line
  encode_good x cols h to = ground arith

  -- The line `l` is what is written of `e`, and what `e` is read from.
  record Writes (e : EtcColonEntry T) (l : Bytes) : Type 0 where
    in_line : All InLine l
    written : (to : Bytes) → encode_line v e abn to ≡ (to ++ (l ++ b'\n' ∷ []), ok tt)
    read : decode_line v l colons abn abe ≡ ok e

  -- The same of a file, but for entries of no line.
  record Written (es : List (EtcColonEntry T)) : Type 0 where
    ls : List Bytes
    in_lines : All (All InLine) ls
    encoded : (k : ℕ) (to : Bytes) → encode_lines v k es abn to ≡ (to ++ unlines ls, ok tt)
    decoded : (k : ℕ) → decode_lines v k ls colons abn abe ≡ ok (drop_zero es)

  pub encode_lines-ok :
      (k : ℕ) (e : EtcColonEntry T) (es : List (EtcColonEntry T)) (to to' : Bytes)
      → encode_line v e abn to ≡ (to', ok tt)
      → encode_lines v k (e ∷ es) abn to ≡ encode_lines v (k + 1) es abn to'
  unfolding encode_lines
  encode_lines-ok k e es to to' h = ground arith

  decode_lines-ok :
      (k : ℕ) (l : Bytes) (ls : List Bytes) (e : EtcColonEntry T) (es : List (EtcColonEntry T))
      → decode_line v l colons abn abe ≡ ok e
      → decode_lines v (k + 1) ls colons abn abe ≡ ok es
      → decode_lines v k (l ∷ ls) colons abn abe ≡ ok (e ∷ es)
  unfolding decode_lines
  decode_lines-ok k l ls e es h t = ground arith

  decode_lines-nil :
      (k : ℕ) (es : List (EtcColonEntry T)) → decode_lines v k [] colons abn abe ≡ ok es → [] ≡ es
  unfolding decode_lines
  decode_lines-nil k es h = ground arith

  -- What a successful reading of a first line and of those behind it has read.
  decode_lines-eq-ok :
      (k : ℕ) (l : Bytes) (ls : List Bytes) (es : List (EtcColonEntry T))
      → decode_lines v k (l ∷ ls) colons abn abe ≡ ok es
      → (e : EtcColonEntry T) × (r : List (EtcColonEntry T)) × (es ≡ e ∷ r)
        × (decode_line v l colons abn abe ≡ ok e)
        × (decode_lines v (k + 1) ls colons abn abe ≡ ok r)
  unfolding decode_lines
  decode_lines-eq-ok k l ls es h = elim (Result-cases (decode_line v l colons abn abe)) [
    | inl (e, he) ↦ elim (Result-cases (decode_lines v (k + 1) ls colons abn abe)) [
      | inl (r, hr) ↦ (e, r, ground arith, he, hr)
      | inr (x, hr) ↦ absurd (ground arith)
    ]
    | inr (x, he) ↦ absurd (ground arith)
  ]

  Written-nil : Written []
  unfolding encode_lines decode_lines drop_zero unlines
  Written-nil = record {
    ls = [];
    in_lines = tt;
    encoded = λ k to. rw append-nil;
    decoded = λ k. refl;
  }

  Written-zero : {es : List (EtcColonEntry T)} → Written es → Written (zero_entry ∷ es)
  unfolding encode_lines drop_zero encode_line
  Written-zero w = record {
    ls = w.ls;
    in_lines = w.in_lines;
    encoded = λ k to. w.encoded (k + 1) to;
    decoded = λ k. w.decoded k;
  }

  Written-cons :
      {es : List (EtcColonEntry T)} (e : EtcColonEntry T) (l : Bytes)
      → is_zero e ≡ false
      → Writes e l
      → Written es
      → Written (e ∷ es)
  unfolding drop_zero unlines
  Written-cons {es} e l some_entry h w = record {
    ls = l ∷ w.ls;
    in_lines = (h.in_line, w.in_lines);
    encoded = λ k to.
        encode_lines-ok k e es to _ (h.written to) ∙ w.encoded (k + 1) _ ∙ simp append_assoc;
    decoded =
        λ k. decode_lines-ok k l w.ls e (drop_zero es) h.read (w.decoded (k + 1)) ∙ rw some_entry;
  }

  bad-zero :
      (l : Bytes) (e : EtcColonEntry T) → is_empty l ≡ true → e ≡ bad_entry l → e ≡ zero_entry
  bad-zero [] e h is_bad = is_bad
  bad-zero (c ∷ l) e h is_bad = cc

  bad-some :
      (l : Bytes) (e : EtcColonEntry T) → is_empty l ≡ false → e ≡ bad_entry l → is_zero e ≡ false
  bad-some l e h is_bad = rw is_bad h

  bad-Writes :
      (l : Bytes) (e : EtcColonEntry T)
      → All InLine l
      → is_empty l ≡ false
      → e ≡ bad_entry l
      → decode_line v l colons abn abe ≡ ok e
      → Writes e l
  bad-Writes l e in_line some_line is_bad h = record {
    in_line = in_line;
    written = λ to. encode_line-no_entry v l colons abn abe e to h (rw is_bad) ∙ rw some_line;
    read = h;
  }

  module _ (laws : EntryLaws v colons) where
    good-Writes :
        (x : T) (cols : List Bytes)
        → laws.IsWellFormed x
        → v.encode x abn ≡ ok cols
        → Writes (good_entry x) (join b':' cols)
    good-Writes x cols wf h = record {
      in_line = join-InLine cols (laws.encode-IsPlain x abn cols wf h).0;
      written = λ to. encode_good x cols h to;
      read = decode-encode_line v colons laws x abn abe cols wf h;
    }

    -- An entry that was read from a line is written as a line that is read as that entry.
    read-Writes :
        (l : Bytes) (e : EtcColonEntry T)
        → All InLine l
        → decode_line v l colons abn abe ≡ ok e
        → (e ≡ zero_entry) ⊎ ((is_zero e ≡ false) × ((l' : Bytes) × Writes e l'))
    read-Writes l e in_line h = elim (decode_line-Reading v l colons abn abe e h) [
      | empty no_line is_zero_entry ↦ inl is_zero_entry
      | bad is_bad ↦ elim (Bool-cases (is_empty l)) [
        | inl no_line ↦ inl (bad-zero l e no_line is_bad)
        | inr some_line ↦
            inr (bad-some l e some_line is_bad, (l, bad-Writes l e in_line some_line is_bad h))
      ]
      | good x whole read is_good ↦
          let (cols, written) = laws.encode_decoded _ abn x read in
          let wf =
            laws.decode-IsWellFormed _ abn x (cut-IsPlain colons l in_line (omega (arith, whole)))
              read in
          inr (
            rw is_good,
            (
              join b':' cols,
              subst (λ z. Writes z (join b':' cols)) (sym is_good) (good-Writes x cols wf written),
            ),
          )
    ]
